-- ===== src/Cache/Generations.antt =====
-- How the generations of the tags move: an invalidation raises them, all other writes leave them.
use hakawi.Common.{
  ℕ, ◌≤◌, ◌<◌, ◌≡◌, refl, ap, ◌∙◌, String, false, none, some, List, [], ◌∷◌, ◌==◌, arith, or_else,
  sum, eq_iff, eq_refl, Bool-cases, inl, inr,
}
use hakawi.Cache.Valkey.{Key, entry, index, generation, same_key, Valkey}
use hakawi.Cache.Tagged.{
  tag_generation, tag_generations_changed, read_tag_generations, bump_tag_generations,
  index_tag_keys, unindex_tag_keys, write_entry, invalidate_key,
}

module _ (v : Valkey) where
  open v use {
    Store, get, set, del, incr, sadd, srem, expire, number, get-set, get-del, number-incr, get-incr,
    get-sadd, get-srem, get-expire,
  }

  abbrev pub total : List String → ℕ
  total gs = sum number gs

  -- The sum of the counters of these tags.
  abbrev pub level : List String → Store → ℕ
  level tags s = sum (λ tag. number (tag_generation v tag s)) tags

  pub total-read :
      (tags : List String) (s : Store) → total (read_tag_generations v tags s) ≡ level tags s
  unfolding read_tag_generations
  total-read [] s = refl
  total-read (t ∷ ts) s = omega (arith, total-read ts s)

  pub total_unchanged :
      (as_ bs : List String) → tag_generations_changed as_ bs ≡ false → total as_ ≡ total bs
  unfolding tag_generations_changed
  total_unchanged [] [] h = refl
  total_unchanged [] (b ∷ bs) h = absurd (ground arith)
  total_unchanged (a ∷ as_) [] h = absurd (ground arith)
  total_unchanged (a ∷ as_) (b ∷ bs) h =
      let same : a ≡ b = (eq_iff a b).0 (ground arith) in
      ground (arith, ap number same, total_unchanged as_ bs)

  number-incr_any :
      (t u : String) (s : Store)
      → number (tag_generation v t s) ≤ number (tag_generation v t (incr (generation u) s))
  number-incr_any t u s = elim (Bool-cases (t == u)) [
    | inl hit ↦
        let same : t ≡ u = (eq_iff t u).0 hit in
        let step = number-incr (generation u) s in
        ground (
          arith,
          step,
          ap (λ k. number (or_else (get (generation k) s) "0")) same,
          ap (λ k. number (or_else (get (generation k) (incr (generation u) s)) "0")) same,
        )
    | inr miss ↦ ground (arith, get-incr (generation t) (generation u) s miss)
  ]

  level-incr :
      (tags : List String) (u : String) (s : Store)
      → level tags s ≤ level tags (incr (generation u) s)
  level-incr [] u s = omega arith
  level-incr (t ∷ ts) u s = omega (arith, number-incr_any t u s, level-incr ts u s)

  pub level-bump :
      (tags us : List String) (s : Store) → level tags s ≤ level tags (bump_tag_generations v us s)
  unfolding bump_tag_generations
  level-bump tags [] s = omega arith
  level-bump tags (u ∷ us) s =
      omega (arith, level-incr tags u s, level-bump tags us (incr (generation u) s))

  -- A bump of a list of tags that is not empty raises their level.
  pub level-bump_own :
      (t : String) (ts : List String) (s : Store)
      → level (t ∷ ts) s < level (t ∷ ts) (bump_tag_generations v (t ∷ ts) s)
  unfolding bump_tag_generations
  level-bump_own t ts s = omega (
    arith,
    number-incr (generation t) s,
    level-incr ts t s,
    level-bump (t ∷ ts) ts (incr (generation t) s),
  )

  level_same :
      (tags : List String) (s after : Store)
      → ((t : String) → get (generation t) after ≡ get (generation t) s)
      → level tags after ≡ level tags s
  level_same [] s after h = refl
  level_same (t ∷ ts) s after h =
      omega (arith, ap (λ o. number (or_else o "0")) (h t), level_same ts s after h)

  get-index :
      (j k : Key) (tags : List String) (s : Store)
      → ((t : String) → same_key j (index t) ≡ false)
      → get j (index_tag_keys v k tags s) ≡ get j s
  unfolding index_tag_keys
  get-index j k [] s apart = refl
  get-index j k (t ∷ ts) s apart =
      get-index j k ts (expire (index t) 86_400 (sadd (index t) k s)) apart
      ∙ get-expire j (index t) 86_400 (sadd (index t) k s)
      ∙ get-sadd j (index t) k s (apart t)

  get-unindex :
      (j k : Key) (tags : List String) (s : Store)
      → ((t : String) → same_key j (index t) ≡ false)
      → get j (unindex_tag_keys v k tags s) ≡ get j s
  unfolding unindex_tag_keys
  get-unindex j k [] s apart = refl
  get-unindex j k (t ∷ ts) s apart =
      get-unindex j k ts (srem (index t) k s) apart ∙ get-srem j (index t) k s (apart t)

  pub get-bump :
      (n k : String) (tags : List String) (s : Store)
      → get (entry n k) (bump_tag_generations v tags s) ≡ get (entry n k) s
  unfolding bump_tag_generations
  get-bump n k [] s = refl
  get-bump n k (t ∷ ts) s =
      get-bump n k ts (incr (generation t) s) ∙ get-incr (entry n k) (generation t) s refl

  pub level-write :
      (tags us : List String) (n k text : String) (ttl : ℕ) (s : Store)
      → level tags (write_entry v (entry n k) text ttl us s) ≡ level tags s
  unfolding write_entry
  level-write tags us n k text ttl s =
      level_same tags s (write_entry v (entry n k) text ttl us s) (λ t.
        get-index (generation t) (entry n k) us (set (entry n k) text ttl s) (λ u. refl)
        ∙ get-set (generation t) (entry n k) text ttl s)

  pub get-write :
      (us : List String) (n k text : String) (ttl : ℕ) (s : Store)
      → get (entry n k) (write_entry v (entry n k) text ttl us s) ≡ some text
  unfolding write_entry
  get-write us n k text ttl s =
      get-index (entry n k) (entry n k) us (set (entry n k) text ttl s) (λ u. refl)
      ∙ ground (arith, get-set (entry n k) (entry n k) text ttl s, eq_refl n, eq_refl k)

  pub level-del :
      (tags : List String) (n k : String) (s : Store)
      → level tags (del (entry n k) s) ≡ level tags s
  level-del tags n k s =
      level_same tags s (del (entry n k) s) (λ t. get-del (generation t) (entry n k) s)

  read_same :
      (tags : List String) (s after : Store)
      → ((t : String) → get (generation t) after ≡ get (generation t) s)
      → read_tag_generations v tags after ≡ read_tag_generations v tags s
  unfolding read_tag_generations
  read_same [] s after h = refl
  read_same (t ∷ ts) s after h = ground (arith, h t, read_same ts s after h)

  -- The first two commands of `invalidateKey` leave the generations.
  pub read-unindex :
      (tags us : List String) (n k : String) (s : Store)
      → read_tag_generations v tags (unindex_tag_keys v (entry n k) us (del (entry n k) s))
        ≡ read_tag_generations v tags s
  read-unindex tags us n k s =
      let dropped = del (entry n k) s in
      read_same tags s (unindex_tag_keys v (entry n k) us dropped) (λ u.
        get-unindex (generation u) (entry n k) us dropped (λ w. refl)
        ∙ get-del (generation u) (entry n k) s)

  pub get-del_own : (n k : String) (s : Store) → get (entry n k) (del (entry n k) s) ≡ none
  get-del_own n k s = ground (arith, get-del (entry n k) (entry n k) s, eq_refl n, eq_refl k)

  pub get-invalidate :
      (n k : String) (tags : List String) (s : Store)
      → get (entry n k) (invalidate_key v n k tags s) ≡ none
  unfolding invalidate_key
  get-invalidate n k tags s =
      get-bump n k tags (unindex_tag_keys v (entry n k) tags (del (entry n k) s))
      ∙ get-unindex (entry n k) (entry n k) tags (del (entry n k) s) (λ t. refl)
      ∙ get-del_own n k s

  pub level-invalidate :
      (t : String) (ts : List String) (n k : String) (s : Store)
      → level (t ∷ ts) s < level (t ∷ ts) (invalidate_key v n k (t ∷ ts) s)
  unfolding invalidate_key
  level-invalidate t ts n k s =
      let dropped = del (entry n k) s in
      let unindexed = unindex_tag_keys v (entry n k) (t ∷ ts) dropped in
      omega (
        arith,
        level-del (t ∷ ts) n k s,
        level_same (t ∷ ts) dropped unindexed
            (λ u. get-unindex (generation u) (entry n k) (t ∷ ts) dropped (λ w. refl)),
        level-bump_own t ts unindexed,
      )
