-- ===== src/Cache/Valkey.antt =====
-- The commands of Valkey that the cache sends, with what they are documented to do. A lifetime is not
-- followed: `set` and `expire` are read while it lasts.
use hakawi.Common.{
  ℕ, ◌+◌, ◌≡◌, String, Bool, false, Option, none, some, List, ◌&&◌, ◌==◌, if◌then◌else◌, or_else,
}

-- The texts of the keys by what they are made of: `buildKey` of a namespace and a key, `tagIndexKey`
-- and `tagGenerationKey` of a tag. Texts that are made differently are taken to differ.
pub data Key : Type 0 where
  entry : String → String → Key
  index generation : String → Key

abbrev pub same_key : Key → Key → Bool
same_key (entry n k) (entry m j) = (n == m) && (k == j)
same_key (index t) (index u) = t == u
same_key (generation t) (generation u) = t == u
same_key _ _ = false

pub record Valkey : Type 1 where
  pub Store : Type 0
  pub get : Key → Store → Option String
  pub set : Key → String → ℕ → Store → Store
  pub del : Key → Store → Store
  pub incr : Key → Store → Store
  pub sadd : Key → Key → Store → Store
  pub srem : Key → Key → Store → Store
  pub smembers : Key → Store → List Key
  pub expire : Key → ℕ → Store → Store
  -- The integer that a text says.
  pub number : String → ℕ
  pub get-set :
      (j k : Key) (text : String) (ttl : ℕ) (s : Store)
      → get j (set k text ttl s) ≡ (if same_key j k then some text else get j s)
  pub get-del : (j k : Key) (s : Store) → get j (del k s) ≡ (if same_key j k then none else get j s)
  pub number-incr :
      (k : Key) (s : Store)
      → number (or_else (get k (incr k s)) "0") ≡ number (or_else (get k s) "0") + 1
  pub get-incr : (j k : Key) (s : Store) → same_key j k ≡ false → get j (incr k s) ≡ get j s
  pub get-sadd : (j k m : Key) (s : Store) → same_key j k ≡ false → get j (sadd k m s) ≡ get j s
  pub get-srem : (j k m : Key) (s : Store) → same_key j k ≡ false → get j (srem k m s) ≡ get j s
  pub get-expire : (j k : Key) (ttl : ℕ) (s : Store) → get j (expire k ttl s) ≡ get j s

-- `JSON.stringify`, and `JSON.parse` with `revive` after it; `none` is an exception of either.
pub record Codec (A : Type 0) : Type 0 where
  pub stringify : A → String
  pub revive : String → Option A
  pub revive-stringify : (a : A) → revive (stringify a) ≡ some a
