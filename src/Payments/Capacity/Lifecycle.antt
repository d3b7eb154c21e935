-- ===== src/Payments/Capacity/Lifecycle.antt =====
-- `createRefund` of payments.service.ts from end to end, whatever the gateway answers.
use hakawi.Common.{
  ap, ℕ, ◌≤◌, ◌≡◌, refl, String, true, false, Option, some, arith, find, any, Failure, Result, ok,
  err, ◌&&◌, not, inl, inr, Option-cases, Bool-cases, lift_rule, require_rule, rethrow_rule,
}
use hakawi.Common.Text.{Text}
use hakawi.Payments.Store.{Document, Payment, Refund, World, same_status, completed, RefundStatus}
use hakawi.Payments.Repository.{
  change_refund, is_id, is_refund_id, live, held_by, holds_capacity, fresh_id,
  reserve_refund_capacity, RefundReservation,
}
use hakawi.Payments.Service.{
  Reply, replied, threw, Gateway, Number, RefundResult, validate_amount, validate_currency, emit,
  invalidate_payment_cache,
}
use hakawi.Payments.Refunds.{
  settled, usable_id, on_reply, to_refund_admission_error, error_detail, refused, unsuccessful,
  unsuccessful_detail, missing_transaction_id, no_transaction_id, not_completed, mark_refund_failed,
  release_refund_capacity, give_up, record_refund_result, submit_refund_to_gateway, refund_reserved,
  create_refund,
}
use hakawi.Payments.Capacity.{
  IsSolvent, AreLive, AreLive-append, reserved-change_live, change_refund-IsSolvent,
}
use hakawi.Payments.Capacity.Reservation.{
  IsAdmitted, IsAdmitted-IsSolvent, reserve-IsAdmitted, reserve_refused,
}
use hakawi.Payments.Capacity.Reconciliation.{release-IsSolvent}

pub failed_holds_nothing :
    (d : Document) (j : String) (r : Refund)
    → held_by j (record r { status = RefundStatus.failed; metadata = some d }) ≤ held_by j r
unfolding held_by
failed_holds_nothing d j r = ground arith

mark-IsSolvent :
    (r : Refund) (d : Document) (w : World) → IsSolvent w → IsSolvent (mark_refund_failed r d w).1
unfolding mark_refund_failed
mark-IsSolvent r d w s = record {
  covered = (change_refund-IsSolvent r.id _ w (failed_holds_nothing d) s).covered;
}

mark_returns : (r : Refund) (d : Document) (w : World) → (mark_refund_failed r d w).0 ≡ ok tt
unfolding mark_refund_failed
mark_returns r d w = refl

release_returns : (i : String) (w : World) → (release_refund_capacity i w).0 ≡ ok tt
unfolding release_refund_capacity
release_returns i w = refl

-- Giving up raises its error after the row is marked and the capacity released.
pub give_up_lem :
    (i : String) (r : Refund) (d : Document) (e : Failure) (w : World)
    → give_up i r d e w ≡ (err e, (release_refund_capacity i (mark_refund_failed r d w).1).1)
give_up_lem i r d e w =
    ground (arith, mark_returns r d w, release_returns i (mark_refund_failed r d w).1)

give_up-IsSolvent :
    (i : String) (r : Refund) (d : Document) (e : Failure) (w : World)
    → IsSolvent w
    → IsSolvent (give_up i r d e w).1
give_up-IsSolvent i r d e w s =
    rw (give_up_lem i r d e w) (release-IsSolvent i _ (mark-IsSolvent r d w s))

settled-IsSolvent :
    (i : String) (st : RefundStatus) (a : RefundResult) (w : World)
    → holds_capacity st ≡ true
    → AreLive i w.refunds
    → IsSolvent w
    → IsSolvent (change_refund i (settled st a) w)
settled-IsSolvent i st a w holds live s = record {
  covered = λ j m e.
      rw
        (reserved-change_live i j (settled st a) w.refunds (λ r. refl) (λ r. refl) (λ r. holds)
          live)
        (s.covered j m e);
}

record_refund_result-IsSolvent :
    (p : Payment) (r : Refund) (a : RefundResult) (w : World)
    → AreLive r.id w.refunds
    → IsSolvent w
    → IsSolvent (record_refund_result p r a w).1
unfolding record_refund_result
record_refund_result-IsSolvent p r a w live s =
    elim (Bool-cases (not a.is_pending && not a.success)) [
      | inl bad ↦
          rw (bad, record_refund_result)
            (give_up-IsSolvent p.id r (unsuccessful_detail a) unsuccessful w s)
      | inr good ↦ elim (Bool-cases a.is_pending) [
        | inl waiting ↦
            rw (good, record_refund_result)
              (rw waiting (record {
                covered = (settled-IsSolvent r.id RefundStatus.pending a w refl live s).covered;
              }))
        | inr over ↦
            rw (good, record_refund_result)
              (rw over (record {
                covered = (settled-IsSolvent r.id RefundStatus.processed a w refl live s).covered;
              }))
      ]
    ]

on_reply-IsSolvent :
    (p : Payment) (r : Refund) (a : Reply RefundResult) (w : World)
    → AreLive r.id w.refunds
    → IsSolvent w
    → IsSolvent (on_reply p r a w).1
on_reply-IsSolvent p r (threw d) w live s = give_up-IsSolvent p.id r (error_detail d) refused w s
on_reply-IsSolvent p r (replied a) w live s = record_refund_result-IsSolvent p r a w live s

submit-IsSolvent :
    (g : Gateway) (p : Payment) (r : Refund) (w : World)
    → AreLive r.id w.refunds
    → IsSolvent w
    → IsSolvent (submit_refund_to_gateway g p r w).1
unfolding submit_refund_to_gateway
submit-IsSolvent g p r w live s = elim (Option-cases (usable_id p.paymob_transaction_id)) [
  | inl missing ↦
      rw (missing, submit_refund_to_gateway)
        (give_up-IsSolvent p.id r missing_transaction_id no_transaction_id w s)
  | inr (t, e) ↦
      rw (e, submit_refund_to_gateway)
        (on_reply-IsSolvent p r (g.refund_transaction t r.amount) w live s)
]

refund_reserved-IsSolvent :
    (g : Gateway) (i : String) (v : RefundReservation) (w : World)
    → AreLive v.refund.id w.refunds
    → IsSolvent w
    → IsSolvent (refund_reserved g i v w).1
unfolding refund_reserved emit invalidate_payment_cache
refund_reserved-IsSolvent g i v w live s =
    elim (Bool-cases (same_status v.payment.status completed)) [
      | inl yes' ↦
          rw (yes', refund_reserved)
            (submit-IsSolvent g v.payment v.refund _ live (record { covered = s.covered }))
      | inr no' ↦
          rw (no', refund_reserved)
            (give_up-IsSolvent i v.refund (error_detail "payment is not refundable") not_completed w
              s)
    ]

-- The rows under the id of a new refund are live.
IsAdmitted-AreLive :
    (i : String) (n : ℕ) (c : Text) (reason : Option String) (w : World) {r : RefundReservation}
    {w' : World}
    → any (is_refund_id (fresh_id w)) w.refunds ≡ false
    → IsAdmitted i n c reason w w' r
    → AreLive r.refund.id w'.refunds
IsAdmitted-AreLive i n c reason w {r} {w'} fresh a = rw (ap (λ u. u.refunds) a.world) (
    AreLive-append r.refund w.refunds (rw (ap (λ x. x.id) a.row) fresh)
      (rw (ap (λ x. x.status) a.row) refl))

-- Whatever the request and whatever the gateway answers, `createRefund` leaves every payment covered:
-- its live refunds never sum to more than was captured. The id that the database draws for the new
-- refund must be that of no refund.
pub create_refund-IsSolvent :
    (g : Gateway) (i : String) (n : Number) (reason : Option String) (w : World)
    → any (is_refund_id (fresh_id w)) w.refunds ≡ false
    → IsSolvent w
    → IsSolvent (create_refund g i n reason w).1
unfolding create_refund
create_refund-IsSolvent g i n reason w fresh s =
    lift_rule Solvent w (validate_amount n) _
      (λ a _.
        require_rule Solvent w _ (live (find (is_id i) w.payments)) _
          (λ p _.
            lift_rule Solvent w (validate_currency p.currency) _
              (λ c _.
                rethrow_rule Solvent w to_refund_admission_error
                  (reserve_refund_capacity i a c reason) (refund_reserved g i)
                  (λ v e.
                    let admitted = reserve-IsAdmitted i a c reason w e in
                    refund_reserved-IsSolvent g i v _
                      (IsAdmitted-AreLive i a c reason w fresh admitted)
                      (IsAdmitted-IsSolvent i a c reason w admitted s))
                  (λ x e. rw (reserve_refused i a c reason w e) s))
              (λ x _. s))
          (λ _. s))
      (λ x _. s)
  where
    Solvent : Result (Option Refund) × World → Type 0
    Solvent o = IsSolvent o.1
