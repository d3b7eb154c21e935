-- ===== src/Cache/Coherence.antt =====
-- What holds of the readers of an entry while the source changes under them.
pub mod Steps
use hakawi.Common.{
  ℕ, zero, suc, ◌+◌, ◌-◌, ◌≤◌, ◌<◌, ◌≡◌, refl, ap, ◌∙◌, String, Bool, true, false, Option, none,
  some, List, [], ◌∷◌, ◌++◌, arith, not, if◌then◌else◌, or_else, All, ◌⊎◌, inl, inr,
}
use hakawi.Cache.Valkey.{Key, entry, Valkey, Codec}
use hakawi.Cache.Tagged.{
  tag_generations_changed, read_tag_generations, may_write, write_entry, get_entry, set_entry,
  invalidate_key, decode, decoded, hit_or_load, get_or_set,
}
use hakawi.Cache.Generations.{
  total, level, total-read, total_unchanged, level-write, get-write, level-del, get-del_own,
  get-invalidate, level-invalidate,
}
use hakawi.Cache.Readers.{
  Reader, World, Event, begins, invalidates, lapses, loads, writes, changes, nth, without,
  load_once, load_at, pair_up, ready, on_miss, begin_read, write_ready, happen, happen_all,
}

module _ (v : Valkey) {A : Type 0} where
  -- What a reader holds is the source, or an invalidation is to come, or one came since its snapshot.
  abbrev pub IsLoadOk : A → ℕ → ℕ → ℕ → Option A → Type 0
  IsLoadOk source pending now before none = Unit
  IsLoadOk source pending now before (some a) = (a ≡ source) ⊎ (0 < pending) ⊎ (before < now)

  abbrev pub IsReaderOk : A → ℕ → ℕ → Reader A → Type 0
  IsReaderOk source pending now r =
      (total v r.snapshot ≤ now) × IsLoadOk source pending now (total v r.snapshot) r.loaded

  -- The level may rise.
  raise :
      (source : A) (pending now later : ℕ) (o : Option A) (before : ℕ)
      → now ≤ later
      → IsLoadOk source pending now before o
      → IsLoadOk source pending later before o
  raise source pending now later none before h l = tt
  raise source pending now later (some a) before h (inl e) = inl e
  raise source pending now later (some a) before h (inr (inl p)) = inr (inl p)
  raise source pending now later (some a) before h (inr (inr b)) = inr (inr (omega arith))

  pub raise_each :
      (source : A) (pending now later : ℕ) (rs : List (Reader A))
      → now ≤ later
      → All (IsReaderOk source pending now) rs
      → All (IsReaderOk source pending later) rs
  raise_each source pending now later [] h a = tt
  raise_each source pending now later (r ∷ rs) h ((b, l), a) = (
    (omega arith, raise source pending now later r.loaded (total v r.snapshot) h l),
    raise_each source pending now later rs h a,
  )

  -- Where an invalidation came after the snapshot, or one is to come, any reader is in order.
  outdated :
      (source : A) (p now later : ℕ) (o : Option A) (before : ℕ)
      → before ≤ now
      → (now < later) ⊎ (0 < p)
      → IsLoadOk source p later before o
  outdated source p now later none before b h = tt
  outdated source p now later (some a) before b (inl h) = inr (inr (omega arith))
  outdated source p now later (some a) before b (inr h) = inr (inl h)

  pub outdated_each :
      (source other : A) (pending p now later : ℕ) (rs : List (Reader A))
      → now ≤ later
      → (now < later) ⊎ (0 < p)
      → All (IsReaderOk other pending now) rs
      → All (IsReaderOk source p later) rs
  outdated_each source other pending p now later [] k h a = tt
  outdated_each source other pending p now later (r ∷ rs) k h ((b, l), a) = (
    (omega arith, outdated source p now later r.loaded (total v r.snapshot) b h),
    outdated_each source other pending p now later rs k h a,
  )

  module _ (P : Reader A → Type 0) where
    pub All-snoc : (rs : List (Reader A)) (r : Reader A) → All P rs → P r → All P (rs ++ r ∷ [])
    All-snoc [] r a h = (h, tt)
    All-snoc (x ∷ rs) r (k, a) h = (k, All-snoc rs r a h)

    pub All-without : (i : ℕ) (rs : List (Reader A)) → All P rs → All P (without i rs)
    All-without i [] a = tt
    All-without zero (r ∷ rs) (h, a) = a
    All-without (suc i) (r ∷ rs) (h, a) = (h, All-without i rs a)

  once :
      (source : A) (pending now before : ℕ) (o : Option A)
      → IsLoadOk source pending now before o
      → IsLoadOk source pending now before (some (or_else o source))
  once source pending now before none l = inl refl
  once source pending now before (some a) l = l

  load_once-IsLoadOk :
      (source : A) (pending now : ℕ) (r : Reader A)
      → IsReaderOk source pending now r
      → IsReaderOk source pending now (load_once source r)
  load_once-IsLoadOk source pending now r (b, l) =
      (b, once source pending now (total v r.snapshot) r.loaded l)

  pub load_at-IsReaderOk :
      (source : A) (pending now i : ℕ) (rs : List (Reader A))
      → All (IsReaderOk source pending now) rs
      → All (IsReaderOk source pending now) (load_at i source rs)
  load_at-IsReaderOk source pending now i [] a = tt
  load_at-IsReaderOk source pending now zero (r ∷ rs) (h, a) =
      (load_once-IsLoadOk source pending now r h, a)
  load_at-IsReaderOk source pending now (suc i) (r ∷ rs) (h, a) =
      (h, load_at-IsReaderOk source pending now i rs a)

  -- What `write_ready` is given of a reader.
  abbrev pub IsHeldOk : A → ℕ → ℕ → Option (List String × A) → Type 0
  IsHeldOk source pending now none = Unit
  IsHeldOk source pending now (some (snapshot, a)) =
      IsLoadOk source pending now (total v snapshot) (some a)

  pair_up-IsHeldOk :
      (source : A) (pending now : ℕ) (snapshot : List String) (o : Option A)
      → IsLoadOk source pending now (total v snapshot) o
      → IsHeldOk source pending now (pair_up snapshot o)
  pair_up-IsHeldOk source pending now snapshot none l = tt
  pair_up-IsHeldOk source pending now snapshot (some a) l = l

  pub ready-IsHeldOk :
      (source : A) (pending now i : ℕ) (rs : List (Reader A))
      → All (IsReaderOk source pending now) rs
      → IsHeldOk source pending now (ready (nth i rs))
  ready-IsHeldOk source pending now i [] a = tt
  ready-IsHeldOk source pending now zero (r ∷ rs) ((b, l), a) =
      pair_up-IsHeldOk source pending now r.snapshot r.loaded l
  ready-IsHeldOk source pending now (suc i) (r ∷ rs) (h, a) =
      ready-IsHeldOk source pending now i rs a
