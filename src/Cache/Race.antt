-- ===== src/Cache/Race.antt =====
-- What happens to a write of the cache when an invalidation comes before its check, and when it comes
-- between its check and its write.
use hakawi.Common.{
  ℕ, ◌≡◌, refl, ap, ◌∙◌, String, true, false, Option, some, List, [], ◌∷◌, arith, eq_refl,
  Bool-cases, inl, inr,
}
use hakawi.Cache.Valkey.{entry, Valkey, Codec}
use hakawi.Cache.Tagged.{
  tag_generations_changed, read_tag_generations, may_write, write_entry, set_entry, get_entry,
  get_or_set, decode, decoded, hit_or_load, invalidate_key, bump_tag_generations, unindex_tag_keys,
}
use hakawi.Cache.Generations.{
  total-read, total_unchanged, get-write, get-bump, read-unindex, level-invalidate,
}

unchanged_refl : (gs : List String) → tag_generations_changed gs gs ≡ false
unfolding tag_generations_changed
unchanged_refl [] = refl
unchanged_refl (g ∷ gs) = ground (arith, eq_refl g, unchanged_refl gs)

module _ (v : Valkey) {A : Type 0} (c : Codec A) (namespace key : String) (ttl : ℕ) (tag : String)
    (more : List String) where
  open c use {stringify, revive, revive-stringify}

  moved :
      (s : v.Store)
      → tag_generations_changed
          (read_tag_generations v (tag ∷ more) s)
          (read_tag_generations v (tag ∷ more) (invalidate_key v namespace key (tag ∷ more) s))
        ≡ true
  moved s =
      let tags = tag ∷ more in
      let after = invalidate_key v namespace key tags s in
      elim (Bool-cases (
        tag_generations_changed (read_tag_generations v tags s)
          (read_tag_generations v tags after))) [
            | inl changed ↦ changed
            | inr same ↦
                let even =
                  total_unchanged v (read_tag_generations v tags s)
                    (read_tag_generations v tags after) same in
                absurd (
                  omega (
                    arith,
                    even,
                    total-read v tags s,
                    total-read v tags after,
                    level-invalidate v tag more namespace key s,
                  ))
          ]

  found :
      (old new : A) (o : Option String) (s : v.Store)
      → o ≡ some (stringify old)
      → (hit_or_load v c namespace key ttl
          (tag ∷ more)
          (some new)
          (decode v c (entry namespace key) o s).0
          (decode v c (entry namespace key) o s).1).0
        ≡ some old
  found old new o s e =
      let k = entry namespace key in
      let tags = tag ∷ more in
      ap
        (λ x.
          (hit_or_load v c namespace key ttl tags (some new) (decode v c k x s).0
            (decode v c k x s).1).0)
        e
      ∙ ap
          (λ x.
            (hit_or_load v c namespace key ttl tags (some new) (decoded v c k x s).0
              (decoded v c k x s).1).0)
          (revive-stringify old)

  -- With the generations of its snapshot `set` writes.
  set_passes :
      (old : A) (snapshot : List String) (s : v.Store)
      → read_tag_generations v (tag ∷ more) s ≡ snapshot
      → set_entry v c namespace key old ttl (tag ∷ more) (some snapshot) s
        ≡ write_entry v (entry namespace key) (stringify old) ttl (tag ∷ more) s
  unfolding set_entry may_write
  set_passes old snapshot s h =
      let same = ap (tag_generations_changed snapshot) h ∙ unchanged_refl snapshot in rw same refl

  landed :
      (old : A) (s : v.Store)
      → v.get (entry namespace key) (
          set_entry v c namespace key old ttl
            (tag ∷ more)
            (some (read_tag_generations v (tag ∷ more) s))
            (unindex_tag_keys v (entry namespace key) (tag ∷ more) (v.del (entry namespace key) s)))
        ≡ some (stringify old)
  landed old s =
      let tags = tag ∷ more in
      let half = unindex_tag_keys v (entry namespace key) tags (v.del (entry namespace key) s) in
      ap (v.get (entry namespace key)) (
        set_passes old (read_tag_generations v tags s) half
          (read-unindex v tags tags namespace key s))
      ∙ get-write v tags namespace key (stringify old) ttl half

  -- A call takes its snapshot of the tags and loads a value, and the entry is invalidated with its
  -- tags. If the invalidation comes before the check of `set`, `set` writes nothing. If it comes
  -- between the check and the write, the check still lets the write through, and `getOrSet` answers
  -- the value loaded before the invalidation whatever its loader would read now. So it does if the
  -- whole of `set` comes between the deletion of the key and the bump of its tags.
  pub write_races_invalidation :
      (old new : A) (s : v.Store)
      → (set_entry v c namespace key old ttl
            (tag ∷ more)
            (some (read_tag_generations v (tag ∷ more) s))
            (invalidate_key v namespace key (tag ∷ more) s)
          ≡ invalidate_key v namespace key (tag ∷ more) s)
        × (may_write v (some (read_tag_generations v (tag ∷ more) s)) (tag ∷ more) s ≡ true)
        × ((get_or_set v c namespace key ttl (tag ∷ more) (some new) (
              write_entry v
                (entry namespace key)
                (stringify old)
                ttl
                (tag ∷ more)
                (invalidate_key v namespace key (tag ∷ more) s))).0
            ≡ some old)
        × ((get_or_set v c namespace key ttl (tag ∷ more) (some new) (
              bump_tag_generations v (tag ∷ more) (
                set_entry v c namespace key old ttl
                  (tag ∷ more)
                  (some (read_tag_generations v (tag ∷ more) s))
                  (unindex_tag_keys v
                    (entry namespace key)
                    (tag ∷ more)
                    (v.del (entry namespace key) s))))).0
            ≡ some old)
  unfolding set_entry may_write get_or_set get_entry
  write_races_invalidation old new s =
      let tags = tag ∷ more in
      let after = invalidate_key v namespace key tags s in
      let half = unindex_tag_keys v (entry namespace key) tags (v.del (entry namespace key) s) in
      (
        rw (moved s) refl,
        ground (arith, unchanged_refl (read_tag_generations v tags s)),
        found old new _ (write_entry v (entry namespace key) (stringify old) ttl tags after)
            (get-write v tags namespace key (stringify old) ttl after),
        found old new _
            (bump_tag_generations v tags (
              set_entry v c namespace key old ttl tags (some (read_tag_generations v tags s)) half))
            (get-bump v namespace key tags _ ∙ landed old s),
      )
