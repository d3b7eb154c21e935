-- ===== src/Cache/Tests.antt =====
-- A store that keeps the laws, and the theorems of this folder on it.
use Prim.Native.String.{String}
use hakawi.Common.{
  ◌+◌, ◌≡◌, refl, true, false, Option, none, some, List, [], ◌∷◌, eq_refl, if◌then◌else◌, or_else,
  length, arith,
}
use hakawi.Common.Text.{codes}
use hakawi.Cache.Valkey.{Key, entry, index, generation, same_key, Valkey, Codec}
use hakawi.Cache.Tagged.{
  read_tag_generations, may_write, write_entry, set_entry, get_or_set, invalidate_key,
  bump_tag_generations, unindex_tag_keys,
}
use hakawi.Cache.Readers.{World, Event, begins, loads, writes, changes, invalidates, happen_all}
use hakawi.Cache.Coherence.Steps.{get_or_set_reads_source}
use hakawi.Cache.Race.{write_races_invalidation}

abbrev Table : Type 0
Table = Key → Option String

-- A counter is a text that grows by one character at each `incr`.
abbrev longer : String → String
longer s = String.◌∷◌ "1" s

same_key_refl : (k : Key) → same_key k k ≡ true
same_key_refl (entry n k) = ground (arith, eq_refl n, eq_refl k)
same_key_refl (index t) = eq_refl t
same_key_refl (generation t) = eq_refl t

longer_counts : (s : String) → length (codes (longer s)) ≡ length (codes s) + 1
longer_counts s = omega arith

incr_counts :
    (k : Key) (s : Table)
    → length (codes (or_else (if same_key k k then some (longer (or_else (s k) "0")) else s k) "0"))
      ≡ length (codes (or_else (s k) "0")) + 1
incr_counts k s = rw (same_key_refl k) (longer_counts (or_else (s k) "0"))

other_kept :
    (j k : Key) (s : Table)
    → same_key j k ≡ false
    → (if same_key j k then some (longer (or_else (s k) "0")) else s j) ≡ s j
other_kept j k s h = rw h refl

abbrev a_valkey : Valkey
a_valkey = record {
  Store = Table;
  get = λ k s. s k;
  set = λ k text ttl s j. if same_key j k then some text else s j;
  del = λ k s j. if same_key j k then none else s j;
  incr = λ k s j. if same_key j k then some (longer (or_else (s k) "0")) else s j;
  sadd = λ k m s. s;
  srem = λ k m s. s;
  smembers = λ k s. [];
  expire = λ k ttl s. s;
  number = λ text. length (codes text);
  get-set = λ j k text ttl s. refl;
  get-del = λ j k s. refl;
  number-incr = incr_counts;
  get-incr = other_kept;
  get-sadd = λ j k m s h. refl;
  get-srem = λ j k m s h. refl;
  get-expire = λ j k ttl s. refl;
}

abbrev texts : Codec String
texts = record { stringify = λ a. a; revive = λ text. some text; revive-stringify = λ a. refl }

abbrev cold : World a_valkey String
cold = record { store = λ k. none; source = "4"; pending = 0; readers = [] }

-- Two readers load 4, one of them writes; the value becomes 5 and is invalidated; the other writes.
abbrev a_race : List (Event String)
a_race = begins ∷ begins ∷ loads 0 ∷ loads 1 ∷ writes 0 ∷ changes "5" ∷ invalidates ∷ writes 0 ∷ []

get_or_set_reads_source_example :
    (get_or_set a_valkey texts "books" "1" 60
      ("books" ∷ [])
      (some (happen_all a_valkey texts "books" "1" 60 ("books" ∷ []) a_race cold).source)
      (happen_all a_valkey texts "books" "1" 60 ("books" ∷ []) a_race cold).store).0
    ≡ some (happen_all a_valkey texts "books" "1" 60 ("books" ∷ []) a_race cold).source
unfolding happen_all
get_or_set_reads_source_example =
    get_or_set_reads_source a_valkey texts "books" "1" 60 "books" [] a_race cold refl refl refl

write_races_invalidation_example :
    (set_entry a_valkey texts "books" "1" "4" 60
        ("books" ∷ [])
        (some (read_tag_generations a_valkey ("books" ∷ []) cold.store))
        (invalidate_key a_valkey "books" "1" ("books" ∷ []) cold.store)
      ≡ invalidate_key a_valkey "books" "1" ("books" ∷ []) cold.store)
    × (may_write a_valkey
          (some (read_tag_generations a_valkey ("books" ∷ []) cold.store))
          ("books" ∷ [])
          cold.store
        ≡ true)
    × ((get_or_set a_valkey texts "books" "1" 60 ("books" ∷ []) (some "5") (
          write_entry a_valkey
            (entry "books" "1")
            "4"
            60
            ("books" ∷ [])
            (invalidate_key a_valkey "books" "1" ("books" ∷ []) cold.store))).0
        ≡ some "4")
    × ((get_or_set a_valkey texts "books" "1" 60 ("books" ∷ []) (some "5") (
          bump_tag_generations a_valkey ("books" ∷ []) (
            set_entry a_valkey texts "books" "1" "4" 60
              ("books" ∷ [])
              (some (read_tag_generations a_valkey ("books" ∷ []) cold.store))
              (unindex_tag_keys a_valkey
                (entry "books" "1")
                ("books" ∷ [])
                (a_valkey.del (entry "books" "1") cold.store))))).0
        ≡ some "4")
write_races_invalidation_example =
    write_races_invalidation a_valkey texts "books" "1" 60 "books" [] "4" "5" cold.store
