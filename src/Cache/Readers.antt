-- ===== src/Cache/Readers.antt =====
-- One cached entry under any interleaving of the calls of `getOrSet` that read it and of the requests
-- that change what it caches. A call is three steps, the read with its snapshot, the loader and `set`;
-- a change writes the row and then calls `invalidateKey` with the tags of the entry.
use hakawi.Common.{ℕ, zero, suc, ◌+◌, ◌-◌, String, Option, none, some, List, [], ◌∷◌, ◌++◌, or_else}
use hakawi.Cache.Valkey.{entry, Valkey, Codec}
use hakawi.Cache.Tagged.{read_tag_generations, get_entry, set_entry, invalidate_key}

-- A call that missed: its snapshot, and what its loader gave.
pub record Reader (A : Type 0) : Type 0 where
  pub snapshot : List String
  pub loaded : Option A

-- `source` is what the loader reads, `pending` the number of changes whose invalidation is still to
-- come.
pub record World (v : Valkey) (A : Type 0) : Type 0 where
  pub store : v.Store
  pub source : A
  pub pending : ℕ
  pub readers : List (Reader A)

pub data Event (A : Type 0) : Type 0 where
  begins invalidates lapses : Event A
  loads writes : ℕ → Event A
  changes : A → Event A

module _ {A : Type 0} where
  abbrev pub nth : ℕ → List (Reader A) → Option (Reader A)
  nth i [] = none
  nth zero (r ∷ rs) = some r
  nth (suc i) (r ∷ rs) = nth i rs

  abbrev pub without : ℕ → List (Reader A) → List (Reader A)
  without i [] = []
  without zero (r ∷ rs) = rs
  without (suc i) (r ∷ rs) = r ∷ without i rs

  abbrev pub load_once : A → Reader A → Reader A
  load_once a r = record r { loaded = some (or_else r.loaded a) }

  abbrev pub load_at : ℕ → A → List (Reader A) → List (Reader A)
  load_at i a [] = []
  load_at zero a (r ∷ rs) = load_once a r ∷ rs
  load_at (suc i) a (r ∷ rs) = r ∷ load_at i a rs

  abbrev pub pair_up : List String → Option A → Option (List String × A)
  pair_up snapshot none = none
  pair_up snapshot (some a) = some (snapshot, a)

  abbrev pub ready : Option (Reader A) → Option (List String × A)
  ready none = none
  ready (some r) = pair_up r.snapshot r.loaded

module _ (v : Valkey) {A : Type 0} (c : Codec A) (namespace key : String) (ttl : ℕ)
    (tags : List String) where
  abbrev pub on_miss : Option A → World v A → World v A
  on_miss (some a) w = w
  on_miss none w = record w {
    readers =
        w.readers ++ record { snapshot = read_tag_generations v tags w.store; loaded = none } ∷ [];
  }

  unfoldable pub begin_read : World v A → World v A
  unfolding get_entry
  begin_read w =
      let cached = get_entry v c namespace key w.store in
      on_miss cached.0 (record w { store = cached.1 })

  abbrev pub write_ready : ℕ → Option (List String × A) → World v A → World v A
  write_ready i none w = w
  write_ready i (some (snapshot, a)) w = record w {
    store = set_entry v c namespace key a ttl tags (some snapshot) w.store;
    readers = without i w.readers;
  }

  unfoldable pub happen : Event A → World v A → World v A
  unfolding begin_read invalidate_key
  happen begins w = begin_read w
  happen (loads i) w = record w { readers = load_at i w.source w.readers }
  happen (writes i) w = write_ready i (ready (nth i w.readers)) w
  happen (changes a) w = record w { source = a; pending = w.pending + 1 }
  happen invalidates w = record w {
    store = invalidate_key v namespace key tags w.store;
    pending = w.pending - 1;
  }
  happen lapses w = record w { store = v.del (entry namespace key) w.store }

  unfoldable pub happen_all : List (Event A) → World v A → World v A
  unfolding happen
  happen_all [] w = w
  happen_all (e ∷ es) w = happen_all es (happen e w)
