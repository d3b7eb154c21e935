-- ===== src/Common/Action.antt =====
-- A service method is an action on the world that may raise an HTTP exception. What was written
-- before the exception stays written, so the world comes back beside the error too.
use Prim.Native.String.{String}
use Prim.Native.Nat.{ℕ}
use mathlib.Core.Bool.{Bool, true, false}
use mathlib.Core.Option.{Option, none, some}

-- The exceptions by HTTP status; a text is the constant part of the message. The two errors of the
-- refund admission are classes of their own (`RefundCapacityExceededError` with the requested, the
-- refunded and the captured amount, `RefundablePaymentNotFoundError`); `uncaught` is any other error.
pub data Failure : Type 0 where
  bad_request not_found forbidden conflict unavailable internal locked : String → Failure
  refund_capacity_exceeded : ℕ → ℕ → ℕ → Failure
  refundable_payment_not_found uncaught : Failure

pub data Result {ℓ} (A : Type ℓ) : Type ℓ where
  ok : A → Result A
  err : Failure → Result A

abbrev pub is_ok {ℓ} : {A : Type ℓ} → Result A → Bool
is_ok (ok a) = true
is_ok (err e) = false

abbrev pub Exec {ℓ} : Type ℓ → Type ℓ → Type ℓ
Exec W A = W → Result A × W

module _ {ℓ} {W A : Type ℓ} where
  abbrev pub pure : A → Exec W A
  pure a w = (ok a, w)

  abbrev pub raise : Failure → Exec W A
  raise e w = (err e, w)

  abbrev pub gets : (W → A) → Exec W A
  gets f w = (ok (f w), w)

  -- A pure step that may fail.
  abbrev pub lift : Result A → Exec W A
  lift r w = (r, w)

  abbrev map_failure : (Failure → Failure) → Result A × W → Result A × W
  map_failure f (ok a, w) = (ok a, w)
  map_failure f (err e, w) = (err (f e), w)

  -- `try { ... } catch (error) { throw f(error); }`.
  abbrev pub rethrow : (Failure → Failure) → Exec W A → Exec W A
  rethrow f m w = map_failure f (m w)

  -- `if (!x) throw e` on a value that may be missing.
  abbrev pub require : Failure → Option A → Exec W A
  require e none w = (err e, w)
  require e (some a) w = (ok a, w)

  abbrev pub commit_or_undo : W → Result A × W → Result A × W
  commit_or_undo before (ok a, w) = (ok a, w)
  commit_or_undo before (err e, w) = (err e, before)

  -- `db.transaction(...)`: an exception rolls the tables back.
  abbrev pub transaction : Exec W A → Exec W A
  transaction m w = commit_or_undo w (m w)

module _ {W : Type 0} where
  abbrev pub modify : (W → W) → Exec W (Unit {0})
  modify f w = (ok tt, f w)

  abbrev forget_failure : Result (Unit {0}) × W → Result (Unit {0}) × W
  forget_failure (r, w) = (ok tt, w)

  -- `try { ... } catch (error) { log }`.
  abbrev pub swallow : Exec W (Unit {0}) → Exec W (Unit {0})
  swallow m w = forget_failure (m w)

  -- `if (!test) throw e`.
  abbrev pub check : Bool → Failure → Exec W (Unit {0})
  check true e w = (ok tt, w)
  check false e w = (err e, w)

module _ {ℓ} {W A B : Type ℓ} where
  abbrev pub continue : Result A × W → (A → Exec W B) → Result B × W
  continue (ok a, w) f = f a w
  continue (err e, w) f = (err e, w)

  infixl 5 ◌>>=◌ ◌>>◌
  abbrev pub ◌>>=◌ : Exec W A → (A → Exec W B) → Exec W B
  ◌>>=◌ m f w = continue (m w) f

  abbrev pub ◌>>◌ : Exec W A → Exec W B → Exec W B
  ◌>>◌ m n w = continue (m w) (λ _. n)
