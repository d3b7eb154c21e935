-- ===== src/Common/RowLaws.antt =====
-- Laws of `find`, `update` and `sum` on the rows of a table.
use Prim.Native.Nat.{ℕ, ◌+◌, ◌≤◌}
use mathlib.Core.Path.{◌≡◌, refl}
use mathlib.Core.Bool.{Bool, true, false}
use mathlib.Core.Option.{some}
use mathlib.Core.List.{List, [], ◌∷◌, ◌++◌}
use native.Mathlib.Omega.{arith}
use mathlib.Core.Logic.{inl, inr}
use hakawi.Common.Tests.{Bool-cases}
use hakawi.Common.Rows.{find, update, on_row, on_found, sum, any}

module _ {ℓ} {A : Type ℓ} where
  -- A search by a column that the update leaves alone finds the updated row.
  pub find-update :
      (q p : A → Bool) (f : A → A) (xs : List A)
      → ((x : A) → q (f x) ≡ q x)
      → find q (update p f xs) ≡ on_found (on_row p f) (find q xs)
  find-update q p f [] keeps = refl
  find-update q p f (x ∷ xs) keeps = ground (arith, keeps x, find-update q p f xs keeps)

  -- A search finds a row of which its test holds.
  pub find_sound : (p : A → Bool) (xs : List A) {x : A} → find p xs ≡ some x → p x ≡ true
  find_sound p [] h = ground arith
  find_sound p (y ∷ ys) {x} h = ground (arith, find_sound p ys {x = x})

  pub find-append :
      (p : A → Bool) (xs : List A) (y : A) {x : A}
      → find p xs ≡ some x
      → find p (xs ++ y ∷ []) ≡ some x
  find-append p [] y h = ground arith
  find-append p (z ∷ zs) y {x} h = ground (arith, find-append p zs y {x = x})

  pub sum-append : (f : A → ℕ) (xs ys : List A) → sum f (xs ++ ys) ≡ sum f xs + sum f ys
  sum-append f [] ys = omega arith
  sum-append f (x ∷ xs) ys = omega (arith, sum-append f xs ys)

  -- An update that lowers `f` on each row that it changes lowers the sum.
  pub sum-update-le :
      (f : A → ℕ) (p : A → Bool) (c : A → A) (xs : List A)
      → ((x : A) → f (c x) ≤ f x)
      → sum f (update p c xs) ≤ sum f xs
  sum-update-le f p c [] h = omega arith
  sum-update-le f p c (x ∷ xs) h = ground (arith, h x, sum-update-le f p c xs h)

  -- An update of no row changes nothing.
  pub update_none : (p : A → Bool) (c : A → A) (xs : List A) → any p xs ≡ false → update p c xs ≡ xs
  update_none p c [] h = refl
  update_none p c (x ∷ xs) h = ground (arith, update_none p c xs)

  pub update-append :
      (p : A → Bool) (c : A → A) (xs ys : List A)
      → update p c (xs ++ ys) ≡ update p c xs ++ update p c ys
  update-append p c [] ys = refl
  update-append p c (x ∷ xs) ys = ground (arith, update-append p c xs ys)

  pub any_of_find :
      (q p : A → Bool) (xs : List A) {y : A} → find q xs ≡ some y → p y ≡ true → any p xs ≡ true
  any_of_find q p [] h k = ground arith
  any_of_find q p (x ∷ xs) {y} h k = ground (arith, any_of_find q p xs {y = y})

  -- Where an update makes rows pass `q`, and the first row that passes already is one of those that
  -- are updated, a search finds an updated row.
  pub find-update_hit :
      (q p : A → Bool) (f : A → A) (xs : List A)
      → ((x : A) → q (f x) ≡ true)
      → ((y : A) → find q xs ≡ some y → p y ≡ true)
      → any p xs ≡ true
      → (x : A) × (find q (update p f xs) ≡ some (f x))
  find-update_hit q p f [] hit first h = absurd (ground arith)
  find-update_hit q p f (x ∷ xs) hit first h = elim (Bool-cases (p x)) [
    | inl changed ↦ (x, ground (arith, hit x))
    | inr kept ↦
        let missed : q x ≡ false = ground (arith, first x) in
        let (y, found) =
          find-update_hit q p f xs hit (λ z e. first z (ground arith)) (ground arith) in
        (y, ground arith)
  ]
