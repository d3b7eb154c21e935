-- ===== src/Common/Pages.antt =====
-- Lists of rows as a query gives them: filtered, ordered by a time, and cut into pages.
use Prim.Native.Nat.{ℕ, zero, suc, ◌-◌, ◌*◌}
use mathlib.Core.Bool.{Bool}
use mathlib.Core.Option.{Option, none, some}
use mathlib.Core.List.{List, [], ◌∷◌}
use hakawi.Common.Tests.{ltb, if◌then◌else◌}
use hakawi.Common.Rows.{length}

-- `x ?? d`.
abbrev pub or_else {ℓ} : {A : Type ℓ} → Option A → A → A
or_else none d = d
or_else (some a) d = a

module _ {ℓ} {A : Type ℓ} where
  abbrev pub filter : (A → Bool) → List A → List A
  filter p [] = []
  filter p (x ∷ xs) = if p x then x ∷ filter p xs else filter p xs

  abbrev pub drop : ℕ → List A → List A
  drop zero xs = xs
  drop (suc n) [] = []
  drop (suc n) (x ∷ xs) = drop n xs

  abbrev pub take : ℕ → List A → List A
  take zero xs = []
  take (suc n) [] = []
  take (suc n) (x ∷ xs) = x ∷ take n xs

  -- `limit(limit).offset((page - 1) * limit)`.
  abbrev pub page_of : ℕ → ℕ → List A → List A
  page_of page limit xs = take limit (drop ((page - 1) * limit) xs)

  insert_newest_first : (A → ℕ) → A → List A → List A
  insert_newest_first time r [] = r ∷ []
  insert_newest_first time r (s ∷ rs) =
      if ltb (time r) (time s) then s ∷ insert_newest_first time r rs else r ∷ s ∷ rs

  -- `orderBy(desc(time))`; rows of the same time stay as they stand in the table.
  unfoldable pub newest_first : (A → ℕ) → List A → List A
  unfolding insert_newest_first
  newest_first time [] = []
  newest_first time (r ∷ rs) = insert_newest_first time r (newest_first time rs)

  -- `count(*) where p`.
  abbrev pub count : (A → Bool) → List A → ℕ
  count p xs = length (filter p xs)
