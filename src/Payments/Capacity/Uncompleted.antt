-- ===== src/Payments/Capacity/Uncompleted.antt =====
-- `createRefund` of payments.service.ts on a payment that was never completed: the reservation flips
-- it to `refunded` before the status is looked at, and the release then "restores" `completed`.
use hakawi.Common.{◌+◌, ◌≤◌, ◌≡◌, String, true, false, Option, none, some, [], ◌∷◌, ◌++◌, find, ok}
use hakawi.Common.Text.{Text}
use hakawi.Payments.Store.{Document, Payment, Refund, World, same_status, refunded, completed}
use hakawi.Payments.Repository.{
  is_id, reserved, fresh_id, change_payment, pending_refund, RefundReservation,
}
use hakawi.Payments.Service.{validate_currency, max_amount_cents}
use hakawi.Payments.Refunds.{mark_refund_failed, error_detail}
use hakawi.Payments.Capacity.Reconciliation.{with_status}

-- A payment that is neither completed nor refunded, can be refunded in full by the amount and the
-- currency that it has, and has no live refund.
pub record IsUncompleted (i : String) (c : Text) (p : Payment) (w : World) : Type 0 where
  pub found : find (is_id i) w.payments ≡ some p
  pub undeleted : p.deleted_at ≡ none
  pub open_status : same_status p.status completed ≡ false
  pub not_refunded : same_status p.status refunded ≡ false
  pub positive : 1 ≤ p.amount
  pub chargeable : p.amount ≤ max_amount_cents
  pub currency : validate_currency p.currency ≡ ok c
  pub untouched : reserved i w.refunds ≡ 0

module _ (i : String) (c : Text) (reason : Option String) (p : Payment) (w : World)
    (u : IsUncompleted i c p w) where
  new_refund : Refund
  new_refund = pending_refund i p.amount c reason (fresh_id w) w.now

  reservation : RefundReservation
  unfolding new_refund
  reservation = record {
    payment = p;
    refund = new_refund;
    already_refunded = 0;
    reserved_total = p.amount;
    payment_fully_refunded = true;
  }

  reserved_world : World
  unfolding new_refund
  reserved_world = record (change_payment i (with_status refunded) w) {
    refunds = w.refunds ++ new_refund ∷ [];
    drawn = w.drawn + 1;
  }

  abbrev detail : Document
  detail = error_detail "payment is not refundable"

  marked : World
  marked = (mark_refund_failed new_refund detail reserved_world).1
