-- ===== src/Cache/Coherence/Steps.antt =====
-- The cache agrees with its source whenever no invalidation is outstanding, as long as the check of
-- `set` and its write are one step.
use hakawi.Common.{
  ℕ, ◌+◌, ◌-◌, ◌<◌, ◌≡◌, refl, ap, ◌∙◌, String, Bool, true, false, Option, none, some, List, [],
  ◌∷◌, arith, not, if◌then◌else◌, All, ◌⊎◌, inl, inr,
}
use hakawi.Cache.Valkey.{Key, entry, Valkey, Codec}
use hakawi.Cache.Tagged.{
  tag_generations_changed, read_tag_generations, may_write, write_entry, get_entry, set_entry,
  invalidate_key, decode, decoded, hit_or_load, get_or_set,
}
use hakawi.Cache.Generations.{
  total, level, total-read, total_unchanged, level-write, get-write, level-del, get-del_own,
  get-invalidate, level-invalidate,
}
use hakawi.Cache.Readers.{
  World, Event, begins, invalidates, lapses, loads, writes, changes, nth, without, ready, on_miss,
  begin_read, write_ready, happen, happen_all,
}
use hakawi.Cache.Coherence.{
  IsLoadOk, All-snoc, All-without, IsReaderOk, raise_each, outdated_each, load_at-IsReaderOk,
  IsHeldOk, ready-IsHeldOk,
}

module _ (v : Valkey) {A : Type 0} (c : Codec A) (namespace key : String) (ttl : ℕ) (tag : String)
    (more : List String) where
  open v use {Store, get, del, get-del}
  open c use {stringify, revive, revive-stringify}

  abbrev tags : List String
  tags = tag ∷ more

  abbrev k : Key
  k = entry namespace key

  abbrev IsEntryOk : A → ℕ → Option String → Type 0
  IsEntryOk source pending none = Unit
  IsEntryOk source pending (some text) = (text ≡ stringify source) ⊎ (0 < pending)

  abbrev IsCoherent : World v A → Type 0
  IsCoherent w =
      IsEntryOk w.source w.pending (get k w.store)
      × All (IsReaderOk v w.source w.pending (level v tags w.store)) w.readers

  pending_entry : (source : A) (p : ℕ) (o : Option String) → 0 < p → IsEntryOk source p o
  pending_entry source p none h = tt
  pending_entry source p (some t) h = inr h

  -- What is written with an unmoved level is in order.
  stored :
      (source a : A) (pending now before : ℕ)
      → before ≡ now
      → IsLoadOk v source pending now before (some a)
      → IsEntryOk source pending (some (stringify a))
  stored source a pending now before same (inl e) = inl (ap stringify e)
  stored source a pending now before same (inr (inl p)) = inr p
  stored source a pending now before same (inr (inr b)) = absurd (omega arith)

  lapse-IsCoherent :
      (w : World v A) → IsCoherent w → IsCoherent (record w { store = del k w.store })
  lapse-IsCoherent w (e, rs) = (
    rw (get-del_own v namespace key w.store) tt,
    raise_each v w.source w.pending (level v tags w.store) (level v tags (del k w.store)) w.readers
        (omega (arith, level-del v tags namespace key w.store)) rs,
  )

  decoded-IsCoherent :
      (o : Option A) (w : World v A)
      → IsCoherent w
      → IsCoherent (record w { store = (decoded v c k o w.store).1 })
  decoded-IsCoherent none w h = lapse-IsCoherent w h
  decoded-IsCoherent (some a) w h = h

  decode-IsCoherent :
      (o : Option String) (w : World v A)
      → IsCoherent w
      → IsCoherent (record w { store = (decode v c k o w.store).1 })
  decode-IsCoherent none w h = h
  decode-IsCoherent (some text) w h = decoded-IsCoherent (revive text) w h

  on_miss-IsCoherent :
      (o : Option A) (w : World v A)
      → IsCoherent w
      → IsCoherent (on_miss v c namespace key ttl tags o w)
  on_miss-IsCoherent (some a) w h = h
  on_miss-IsCoherent none w (e, rs) = (
    e,
    All-snoc v (IsReaderOk v w.source w.pending (level v tags w.store)) w.readers _ rs
        (omega (arith, total-read v tags w.store), tt),
  )

  begin-IsCoherent :
      (w : World v A) → IsCoherent w → IsCoherent (begin_read v c namespace key ttl tags w)
  unfolding begin_read get_entry
  begin-IsCoherent w h =
      let cached = decode v c k (get k w.store) w.store in
      on_miss-IsCoherent cached.0 (record w { store = cached.1 })
        (decode-IsCoherent (get k w.store) w h)

  choose-IsCoherent :
      (b : Bool) (written : Store) (w : World v A)
      → (b ≡ true → IsCoherent (record w { store = written }))
      → IsCoherent w
      → IsCoherent (record w { store = if b then written else w.store })
  choose-IsCoherent true written w yes_ h = yes_ refl
  choose-IsCoherent false written w yes_ h = h

  write-IsCoherent :
      (i : ℕ) (o : Option (List String × A)) (w : World v A)
      → IsHeldOk v w.source w.pending (level v tags w.store) o
      → IsCoherent w
      → IsCoherent (write_ready v c namespace key ttl tags i o w)
  unfolding set_entry may_write
  write-IsCoherent i none w l h = h
  write-IsCoherent i (some (snapshot, a)) w l (e, rs) =
      let now = level v tags w.store in
      let kept = All-without v (IsReaderOk v w.source w.pending now) i w.readers rs in
      let written = write_entry v k (stringify a) ttl tags w.store in
      let moved = tag_generations_changed snapshot (read_tag_generations v tags w.store) in
      choose-IsCoherent (not moved) written (record w { readers = without i w.readers })
        (λ same.
          let even =
            total_unchanged v snapshot (read_tag_generations v tags w.store)
              (ground (arith, same)) in
          (
            rw (get-write v tags namespace key (stringify a) ttl w.store) (
                stored w.source a w.pending now (total v snapshot)
                  (even ∙ total-read v tags w.store) l),
            raise_each v w.source w.pending now (level v tags written) (without i w.readers)
                (omega (arith, level-write v tags tags namespace key (stringify a) ttl w.store))
                kept,
          ))
        (e, kept)

  happen-IsCoherent :
      (e : Event A) (w : World v A)
      → IsCoherent w
      → IsCoherent (happen v c namespace key ttl tags e w)
  unfolding happen
  happen-IsCoherent begins w h = begin-IsCoherent w h
  happen-IsCoherent (loads i) w (e, rs) =
      (e, load_at-IsReaderOk v w.source w.pending (level v tags w.store) i w.readers rs)
  happen-IsCoherent (writes i) w h =
      write-IsCoherent i (ready (nth i w.readers)) w
        (ready-IsHeldOk v w.source w.pending (level v tags w.store) i w.readers h.1) h
  happen-IsCoherent (changes a) w (e, rs) = (
    pending_entry a (w.pending + 1) (get k w.store) (omega arith),
    outdated_each v a w.source w.pending (w.pending + 1) (level v tags w.store)
        (level v tags w.store) w.readers (omega arith) (inr (omega arith)) rs,
  )
  happen-IsCoherent invalidates w (e, rs) =
      let newer = level-invalidate v tag more namespace key w.store in
      (
        rw (get-invalidate v namespace key tags w.store) tt,
        outdated_each v w.source w.source w.pending (w.pending - 1) (level v tags w.store)
            (level v tags (invalidate_key v namespace key tags w.store)) w.readers (omega arith)
            (inl newer) rs,
      )
  happen-IsCoherent lapses w h = lapse-IsCoherent w h

  happen_all-IsCoherent :
      (es : List (Event A)) (w : World v A)
      → IsCoherent w
      → IsCoherent (happen_all v c namespace key ttl tags es w)
  unfolding happen_all
  happen_all-IsCoherent [] w h = h
  happen_all-IsCoherent (e ∷ es) w h =
      happen_all-IsCoherent es (happen v c namespace key ttl tags e w) (happen-IsCoherent e w h)

  -- What a call of `getOrSet` reads of a coherent cache with nothing outstanding.
  coherent_read :
      (o : Option String) (source : A) (s : Store)
      → IsEntryOk source 0 o
      → (hit_or_load v c namespace key ttl tags
          (some source)
          (decode v c k o s).0
          (decode v c k o s).1).0
        ≡ some source
  coherent_read none source s h = refl
  coherent_read (some text) source s (inl e) =
      ap
        (λ o.
          (hit_or_load v c namespace key ttl tags (some source) (decoded v c k o s).0
            (decoded v c k o s).1).0)
        (ap revive e ∙ revive-stringify source)
  coherent_read (some text) source s (inr p) = absurd (omega arith)

  -- The cache begins without the entry and without readers. After any interleaving of the steps of the
  -- calls of `getOrSet`, of changes of the source, of their invalidations with the tags of the entry,
  -- and of the end of the entry's lifetime: if each change so far has been invalidated, `getOrSet`
  -- answers what its loader would read, whether or not it finds the entry.
  pub get_or_set_reads_source :
      (es : List (Event A)) (w : World v A)
      → get (entry namespace key) w.store ≡ none
      → w.readers ≡ []
      → (happen_all v c namespace key ttl (tag ∷ more) es w).pending ≡ 0
      → (get_or_set v c namespace key ttl
          (tag ∷ more)
          (some (happen_all v c namespace key ttl (tag ∷ more) es w).source)
          (happen_all v c namespace key ttl (tag ∷ more) es w).store).0
        ≡ some (happen_all v c namespace key ttl (tag ∷ more) es w).source
  unfolding get_or_set get_entry
  get_or_set_reads_source es w missing idle settled =
      let after = happen_all v c namespace key ttl tags es w in
      let h = happen_all-IsCoherent es w (rw missing tt, rw idle tt) in
      coherent_read (get k after.store) after.source after.store (rw (← settled) h.0)
