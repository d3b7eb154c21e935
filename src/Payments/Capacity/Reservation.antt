-- ===== src/Payments/Capacity/Reservation.antt =====
-- `reserveRefundCapacity` of payments.repository.ts: what an admitted and what a refused refund do.
use hakawi.Common.{
  ℕ, ◌+◌, ◌≤◌, ◌≡◌, refl, String, Option, none, some, List, [], ◌∷◌, ◌++◌, arith, find, sum-append,
  eq_iff, eqb, if◌then◌else◌, Failure, ok, err, ◌&&◌, not,
}
use hakawi.Common.Text.{Text}
use hakawi.Payments.Store.{Payment, World, same_status, refunded}
use hakawi.Payments.Repository.{
  is_id, change_payment, held_by, reserved, fresh_id, pending_refund, RefundReservation,
  reserve_refund_capacity,
}
use hakawi.Payments.Capacity.{IsSolvent, amount_of, amount_of-change_payment}

-- The payments after an admitted reservation: a payment that reached its cap is `refunded`.
abbrev pub payments_after : String → RefundReservation → World → List Payment
payments_after i r w =
    if r.payment_fully_refunded && not (same_status r.payment.status refunded)
    then (change_payment i (λ p. record p { status = refunded }) w).payments
    else w.payments

pub record IsAdmitted (i : String) (n : ℕ) (c : Text) (reason : Option String) (w w' : World)
    (r : RefundReservation) : Type 0 where
  pub found : find (is_id i) w.payments ≡ some r.payment
  pub undeleted : r.payment.deleted_at ≡ none
  pub within : reserved i w.refunds + n ≤ r.payment.amount
  pub already : r.already_refunded ≡ reserved i w.refunds
  pub total : r.reserved_total ≡ reserved i w.refunds + n
  pub full : r.payment_fully_refunded ≡ eqb (reserved i w.refunds + n) r.payment.amount
  pub row : r.refund ≡ pending_refund i n c reason (fresh_id w) w.now
  pub world : w' ≡ record w {
    payments = payments_after i r w;
    refunds = w.refunds ++ r.refund ∷ [];
    drawn = w.drawn + 1;
  }

module _ (i : String) (n : ℕ) (c : Text) (reason : Option String) (w : World) where
  -- A refused refund leaves no trace: the transaction rolls back.
  pub reserve_refused :
      {e : Failure}
      → (reserve_refund_capacity i n c reason w).0 ≡ err e
      → (reserve_refund_capacity i n c reason w).1 ≡ w
  unfolding reserve_refund_capacity
  reserve_refused h = ground arith

  pub reserve-IsAdmitted :
      {r : RefundReservation}
      → (reserve_refund_capacity i n c reason w).0 ≡ ok r
      → IsAdmitted i n c reason w (reserve_refund_capacity i n c reason w).1 r
  unfolding reserve_refund_capacity
  reserve-IsAdmitted {r} h = record {
    found = ground arith;
    undeleted = ground arith;
    within = ground arith;
    already = ground arith;
    total = ground arith;
    full = ground arith;
    row = ground arith;
    world = ground arith;
  }

  amount_of-payments_after :
      (r : RefundReservation) (w' : World) (j : String)
      → w'.payments ≡ payments_after i r w
      → amount_of j w' ≡ amount_of j w
  amount_of-payments_after r w' j e = ground (
    arith,
    amount_of-change_payment i j (λ p. record p { status = refunded }) w (λ p. refl) (λ p. refl),
  )

  -- After an admitted reservation the captured amounts are what they were, and every payment is
  -- still covered.
  pub IsAdmitted-IsSolvent :
      {r : RefundReservation} {w' : World}
      → IsAdmitted i n c reason w w' r
      → IsSolvent w
      → IsSolvent w'
  unfolding reserved held_by
  IsAdmitted-IsSolvent {r} {w'} a s = record {
    covered = λ j m e.
        let same : amount_of j w ≡ some m =
          ground (arith, amount_of-payments_after r w' j (ground (arith, a.world))) in
        ground (
          arith,
          a.world,
          a.row,
          a.found,
          a.within,
          s.covered j m same,
          eq_iff i j,
          sum-append (held_by j) w.refunds (r.refund ∷ []),
        );
  }
