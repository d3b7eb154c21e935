-- ===== src/Payments/Capacity.antt =====
-- The refund capacity of a payment: `IsSolvent`, and how the writes of payments.repository.ts act on
-- the sum of the live refunds.
pub mod Reservation
pub mod Reconciliation
pub mod Lifecycle
pub mod Uncompleted
use hakawi.Common.{
  ℕ, ◌+◌, ◌≤◌, ◌≡◌, refl, String, Bool, true, false, Option, none, some, List, [], ◌∷◌, ◌++◌, arith,
  find, update, any, every, sum, on_found, on_row, find-update, sum-append, sum-update-le, ◌==◌,
  eq_iff, if◌then◌else◌, ap, ◌||◌, not,
}
use hakawi.Payments.Store.{RefundStatus, Payment, Refund, World}
use hakawi.Payments.Repository.{
  is_id, is_refund_id, change_payment, change_refund, held_by, reserved, holds_capacity,
}

abbrev pub amount_in : Option Payment → Option ℕ
amount_in none = none
amount_in (some p) = some p.amount

-- The amount that was captured for a payment.
abbrev pub amount_of : String → World → Option ℕ
amount_of i w = amount_in (find (is_id i) w.payments)

-- No payment has more in live refunds than was captured for it.
pub record IsSolvent (w : World) : Type 0 where
  pub covered : (i : String) (a : ℕ) → amount_of i w ≡ some a → reserved i w.refunds ≤ a

-- A change of columns other than the id and the amount leaves the captured amounts alone.
pub amount_of-change_payment :
    (i j : String) (change : Payment → Payment) (w : World)
    → ((p : Payment) → (change p).id ≡ p.id)
    → ((p : Payment) → (change p).amount ≡ p.amount)
    → amount_of j (change_payment i change w) ≡ amount_of j w
amount_of-change_payment i j change w same_id same_amount = go (find (is_id j) w.payments) refl
  where
    moved :
        find (is_id j) (change_payment i change w).payments
        ≡ on_found
            (on_row (is_id i) (λ p. record (change p) { updated_at = w.now }))
            (find (is_id j) w.payments)
    moved = find-update (is_id j) (is_id i) _ w.payments (λ p. ap (λ k. k == j) (same_id p))

    go :
        (o : Option Payment)
        → find (is_id j) w.payments ≡ o
        → amount_of j (change_payment i change w) ≡ amount_of j w
    go none e = ground (arith, moved)
    go (some p) e = ground (arith, moved, same_amount p)

pub change_payment-IsSolvent :
    (i : String) (change : Payment → Payment) (w : World)
    → ((p : Payment) → (change p).id ≡ p.id)
    → ((p : Payment) → (change p).amount ≡ p.amount)
    → IsSolvent w
    → IsSolvent (change_payment i change w)
change_payment-IsSolvent i change w same_id same_amount s = record {
  covered =
      λ j a e. s.covered j a (rw (amount_of-change_payment i j change w same_id same_amount) at e);
}

-- A refund whose status is set to one that holds no capacity, or stays, takes no more than before.
pub change_refund-IsSolvent :
    (i : String) (change : Refund → Refund) (w : World)
    → ((j : String) (r : Refund) → held_by j (change r) ≤ held_by j r)
    → IsSolvent w
    → IsSolvent (change_refund i change w)
unfolding reserved
change_refund-IsSolvent i change w lower s = record {
  covered = λ j a e. omega (
    arith,
    sum-update-le (held_by j) (is_refund_id i) change w.refunds (lower j),
    s.covered j a e,
  );
}

-- All rows under this id are live.
abbrev pub AreLive : String → List Refund → Type 0
AreLive i rs = every (λ r. not (r.id == i) || holds_capacity r.status) rs ≡ true

-- A live refund that is moved to a live status holds what it held.
pub reserved-change_live :
    (i j : String) (change : Refund → Refund) (rs : List Refund)
    → ((r : Refund) → (change r).payment_id ≡ r.payment_id)
    → ((r : Refund) → (change r).amount ≡ r.amount)
    → ((r : Refund) → holds_capacity (change r).status ≡ true)
    → AreLive i rs
    → reserved j (update (is_refund_id i) change rs) ≡ reserved j rs
unfolding reserved held_by
reserved-change_live i j change [] same_payment same_amount live h = refl
reserved-change_live i j change (r ∷ rs) same_payment same_amount live h = ground (
  arith,
  same_payment r,
  same_amount r,
  live r,
  reserved-change_live i j change rs same_payment same_amount live,
)

-- A new id is that of no row, so after the insertion of a live row the rows under it are live.
pub AreLive-append :
    (r : Refund) (rs : List Refund)
    → any (is_refund_id r.id) rs ≡ false
    → holds_capacity r.status ≡ true
    → AreLive r.id (rs ++ r ∷ [])
AreLive-append r [] h live = ground arith
AreLive-append r (x ∷ xs) h live = ground (arith, AreLive-append r xs)
