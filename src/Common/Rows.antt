-- ===== src/Common/Rows.antt =====
-- A table is the list of its rows. `find` is `select ... where p limit 1`, `update` is
-- `update ... set f where p`, `sum` is `coalesce(sum(f), 0)`.
use Prim.Native.Nat.{ℕ, suc, ◌+◌}
use mathlib.Core.Bool.{Bool, true, false, ◌&&◌, ◌||◌}
use mathlib.Core.Option.{Option, none, some}
use mathlib.Core.List.{List, [], ◌∷◌}
use hakawi.Common.Tests.{if◌then◌else◌}

module _ {ℓ} {A : Type ℓ} where
  abbrev pub length : List A → ℕ
  length [] = 0
  length (x ∷ xs) = suc (length xs)

  abbrev pub find : (A → Bool) → List A → Option A
  find p [] = none
  find p (x ∷ xs) = if p x then some x else find p xs

  abbrev pub update : (A → Bool) → (A → A) → List A → List A
  update p f [] = []
  update p f (x ∷ xs) = (if p x then f x else x) ∷ update p f xs

  -- What an update makes of one row.
  abbrev pub on_row : (A → Bool) → (A → A) → A → A
  on_row p f x = if p x then f x else x

  abbrev pub on_found : (A → A) → Option A → Option A
  on_found f none = none
  on_found f (some x) = some (f x)

  abbrev pub any : (A → Bool) → List A → Bool
  any p [] = false
  any p (x ∷ xs) = p x || any p xs

  abbrev pub every : (A → Bool) → List A → Bool
  every p [] = true
  every p (x ∷ xs) = p x && every p xs

  abbrev pub sum : (A → ℕ) → List A → ℕ
  sum f [] = 0
  sum f (x ∷ xs) = f x + sum f xs

module _ {ℓ κ} {A : Type ℓ} where
  abbrev pub All : (A → Type κ) → List A → Type κ
  All P [] = Unit
  All P (x ∷ xs) = P x × All P xs
