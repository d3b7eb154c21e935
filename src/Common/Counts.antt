-- ===== src/Common/Counts.antt =====
-- How a count of rows changes with an insert and an update, and `every` on a table that grows.
use Prim.Native.Nat.{◌+◌}
use mathlib.Core.Path.{◌≡◌, refl}
use mathlib.Core.Bool.{Bool, true, false}
use mathlib.Core.Option.{none}
use mathlib.Core.List.{List, [], ◌∷◌, ◌++◌}
use native.Mathlib.Omega.{arith}
use hakawi.Common.Tests.{if◌then◌else◌}
use hakawi.Common.Rows.{find, update, every}
use hakawi.Common.Pages.{count, filter}

module _ {ℓ} {A : Type ℓ} where
  pub count-snoc :
      (p : A → Bool) (xs : List A) (x : A)
      → count p (xs ++ x ∷ []) ≡ count p xs + (if p x then 1 else 0)
  count-snoc p [] x = ground arith
  count-snoc p (y ∷ ys) x = ground (arith, count-snoc p ys x)

  pub count_missing : (p : A → Bool) (xs : List A) → find p xs ≡ none → count p xs ≡ 0
  count_missing p [] h = refl
  count_missing p (x ∷ xs) h = ground (arith, count_missing p xs)

  pub count-update :
      (p q : A → Bool) (f : A → A) (xs : List A)
      → ((x : A) → p (f x) ≡ p x)
      → count p (update q f xs) ≡ count p xs
  count-update p q f [] keeps = refl
  count-update p q f (x ∷ xs) keeps = ground (arith, keeps x, count-update p q f xs keeps)

  pub every-snoc :
      (p : A → Bool) (xs : List A) (x : A)
      → every p xs ≡ true
      → p x ≡ true
      → every p (xs ++ x ∷ []) ≡ true
  every-snoc p [] x h k = ground arith
  every-snoc p (y ∷ ys) x h k = ground (arith, every-snoc p ys x)

  pub every_weaken :
      (p q : A → Bool) (xs : List A)
      → ((x : A) → p x ≡ true → q x ≡ true)
      → every p xs ≡ true
      → every q xs ≡ true
  every_weaken p q [] k h = refl
  every_weaken p q (x ∷ xs) k h = ground (arith, k x, every_weaken p q xs k)

  pub every-update :
      (p q : A → Bool) (f : A → A) (xs : List A)
      → ((x : A) → p (f x) ≡ p x)
      → every p (update q f xs) ≡ every p xs
  every-update p q f [] keeps = refl
  every-update p q f (x ∷ xs) keeps = ground (arith, keeps x, every-update p q f xs keeps)

  pub filter_none :
      (p q : A → Bool) (xs : List A)
      → ((x : A) → q x ≡ true → p x ≡ false)
      → every q xs ≡ true
      → filter p xs ≡ []
  filter_none p q [] k h = refl
  filter_none p q (x ∷ xs) k h = ground (arith, k x, filter_none p q xs k)
