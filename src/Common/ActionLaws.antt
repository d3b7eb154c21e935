-- ===== src/Common/ActionLaws.antt =====
-- How a property of the outcome passes through the steps of an action.
use mathlib.Core.Path.{◌≡◌, refl}
use mathlib.Core.Option.{Option, none, some}
use hakawi.Common.Action.{Failure, Result, ok, err, Exec, lift, require, rethrow, continue, ◌>>=◌}

module _ {ℓ κ} {W A B : Type ℓ} (P : Result B × W → Type κ) (w : W) where
  -- A step that may fail and writes nothing.
  pub lift_rule :
      (r : Result A) (f : A → Exec W B)
      → ((a : A) → r ≡ ok a → P (f a w))
      → ((e : Failure) → r ≡ err e → P (err e, w))
      → P ((lift r >>= f) w)
  lift_rule (ok a) f good bad = good a refl
  lift_rule (err e) f good bad = bad e refl

  pub require_rule :
      (e : Failure) (o : Option A) (f : A → Exec W B)
      → ((a : A) → o ≡ some a → P (f a w))
      → (o ≡ none → P (err e, w))
      → P ((require e o >>= f) w)
  require_rule e none f good bad = bad refl
  require_rule e (some a) f good bad = good a refl

  -- Any step, by the outcome that it has.
  pub bind_rule :
      (m : Exec W A) (f : A → Exec W B)
      → ((a : A) → (m w).0 ≡ ok a → P (f a (m w).1))
      → ((e : Failure) → (m w).0 ≡ err e → P (err e, (m w).1))
      → P ((m >>= f) w)
  bind_rule m f good bad = go (m w).0 refl
    where
      go : (r : Result A) → (m w).0 ≡ r → P (continue (r, (m w).1) f)
      go (ok a) e = good a e
      go (err x) e = bad x e

  pub rethrow_rule :
      (h : Failure → Failure) (m : Exec W A) (f : A → Exec W B)
      → ((a : A) → (m w).0 ≡ ok a → P (f a (m w).1))
      → ((e : Failure) → (m w).0 ≡ err e → P (err (h e), (m w).1))
      → P ((rethrow h m >>= f) w)
  rethrow_rule h m f good bad = go (m w).0 refl
    where
      go : (r : Result A) → (m w).0 ≡ r → P (continue (rethrow h (λ _. (r, (m w).1)) w) f)
      go (ok a) e = good a e
      go (err x) e = bad x e
