-- ===== src/Cache/Tagged.antt =====
-- backend/src/modules/shared/cache/tagged-cache.service.ts, with tag-generation.ts and tag-index.ts.
-- The commands succeed; the metrics and the log are left out.
use hakawi.Common.{
  ℕ, String, Bool, true, false, Option, none, some, List, [], ◌∷◌, map, not, ◌||◌, ◌==◌,
  if◌then◌else◌, or_else,
}
use hakawi.Cache.Valkey.{Key, entry, index, generation, Valkey, Codec}

abbrev pub initial_tag_generation : String
initial_tag_generation = "0"

abbrev pub tag_index_ttl_seconds : ℕ
tag_index_ttl_seconds = 86_400

-- `tagGenerationsChanged`: lists of two lengths have changed.
unfoldable pub tag_generations_changed : List String → List String → Bool
tag_generations_changed [] [] = false
tag_generations_changed (a ∷ as_) (b ∷ bs) = not (a == b) || tag_generations_changed as_ bs
tag_generations_changed _ _ = true

abbrev pub is_empty : List String → Bool
is_empty [] = true
is_empty (t ∷ ts) = false

module _ (v : Valkey) where
  open v use {Store, get, set, del, incr, sadd, srem, smembers, expire}

  abbrev pub tag_generation : String → Store → String
  tag_generation tag s = or_else (get (generation tag) s) initial_tag_generation

  unfoldable pub read_tag_generations : List String → Store → List String
  read_tag_generations tags s = map (λ tag. tag_generation tag s) tags

  unfoldable pub bump_tag_generations : List String → Store → Store
  bump_tag_generations [] s = s
  bump_tag_generations (tag ∷ tags) s = bump_tag_generations tags (incr (generation tag) s)

  -- `indexTagKey` for each tag.
  unfoldable pub index_tag_keys : Key → List String → Store → Store
  index_tag_keys k [] s = s
  index_tag_keys k (tag ∷ tags) s =
      index_tag_keys k tags (expire (index tag) tag_index_ttl_seconds (sadd (index tag) k s))

  -- `unindexTagKey` for each tag.
  unfoldable pub unindex_tag_keys : Key → List String → Store → Store
  unindex_tag_keys k [] s = s
  unindex_tag_keys k (tag ∷ tags) s = unindex_tag_keys k tags (srem (index tag) k s)

  -- The check of `set`: whether the write goes ahead.
  unfoldable pub may_write : Option (List String) → List String → Store → Bool
  unfolding read_tag_generations tag_generations_changed
  may_write none tags s = true
  may_write (some expected) tags s =
      is_empty tags || not (tag_generations_changed expected (read_tag_generations tags s))

  -- What `set` writes after its check.
  unfoldable pub write_entry : Key → String → ℕ → List String → Store → Store
  unfolding index_tag_keys
  write_entry k text ttl tags s = index_tag_keys k tags (set k text ttl s)

  unfoldable pub del_each : List Key → Store → Store
  del_each [] s = s
  del_each (k ∷ ks) s = del_each ks (del k s)

  unfoldable pub invalidate_tags : List String → Store → Store
  unfolding del_each bump_tag_generations
  invalidate_tags [] s = s
  invalidate_tags (tag ∷ tags) s =
      invalidate_tags tags
        (bump_tag_generations (tag ∷ []) (del (index tag) (del_each (smembers (index tag) s) s)))

  unfoldable pub invalidate_key : String → String → List String → Store → Store
  unfolding unindex_tag_keys bump_tag_generations
  invalidate_key namespace key tags s =
      bump_tag_generations tags
        (unindex_tag_keys (entry namespace key) tags (del (entry namespace key) s))

  module _ {A : Type 0} (c : Codec A) where
    open c use {stringify, revive}

    -- A text that does not decode is dropped.
    abbrev pub decoded : Key → Option A → Store → Option A × Store
    decoded k none s = (none, del k s)
    decoded k (some a) s = (some a, s)

    abbrev pub decode : Key → Option String → Store → Option A × Store
    decode k none s = (none, s)
    decode k (some text) s = decoded k (revive text) s

    unfoldable pub get_entry : String → String → Store → Option A × Store
    get_entry namespace key s = decode (entry namespace key) (get (entry namespace key) s) s

    unfoldable pub set_entry :
        String → String → A → ℕ → List String → Option (List String) → Store → Store
    unfolding may_write write_entry
    set_entry namespace key value ttl tags expected s =
        if may_write expected tags s
        then write_entry (entry namespace key) (stringify value) ttl tags s
        else s

    -- `getOrSet` after the read, `none` where the loader throws.
    abbrev pub load_and_set :
        String → String → ℕ → List String → Option A → List String → Store → Option A × Store
    load_and_set namespace key ttl tags none generations s = (none, s)
    load_and_set namespace key ttl tags (some a) generations s =
        (some a, set_entry namespace key a ttl tags (some generations) s)

    abbrev pub hit_or_load :
        String → String → ℕ → List String → Option A → Option A → Store → Option A × Store
    hit_or_load namespace key ttl tags load (some a) s = (some a, s)
    hit_or_load namespace key ttl tags load none s =
        load_and_set namespace key ttl tags load (read_tag_generations tags s) s

    unfoldable pub get_or_set :
        String → String → ℕ → List String → Option A → Store → Option A × Store
    unfolding get_entry set_entry read_tag_generations
    get_or_set namespace key ttl tags load s =
        let cached = get_entry namespace key s in
        hit_or_load namespace key ttl tags load cached.0 cached.1
