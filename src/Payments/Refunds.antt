-- ===== src/Payments/Refunds.antt =====
-- backend/src/modules/payments/payments.service.ts: `createRefund` and what it calls. A refund holds
-- capacity from its reservation on, and gives it back when the gateway does not take it.
use hakawi.Common.{
  String, Option, none, some, [], ◌∷◌, not, if◌then◌else◌, ◌&&◌, ◌==◌, Failure, bad_request,
  not_found, unavailable, refund_capacity_exceeded, refundable_payment_not_found, Exec, pure, raise,
  require, lift, rethrow, swallow, ◌>>=◌, ◌>>◌,
}
use hakawi.Payments.Store.{
  completed, same_status, RefundStatus, text, flag, nested, Document, object, Payment, Refund,
  refund_created, refund_completed, refund_failed, World,
}
use hakawi.Payments.Repository.{
  find_by_id, live, update_refund, RefundReservation, reserve_refund_capacity,
  reconcile_refund_capacity,
}
use hakawi.Payments.Service.{
  Reply, emit, invalidate_payment_cache, Number, validate_amount, validate_currency, replied, threw,
  RefundResult, Gateway,
}

abbrev pub error_detail : String → Document
error_detail e = object (("error", text e) ∷ [])

unfoldable pub mark_refund_failed : Refund → Document → Exec World (Unit {0})
unfolding update_refund emit
mark_refund_failed refund detail = do
  update_refund refund.id (λ r. record r { status = RefundStatus.failed; metadata = some detail })
  emit (refund_failed refund.payment_id refund.id)

-- The error of the reconciliation is logged and forgotten.
unfoldable pub release_refund_capacity : String → Exec World (Unit {0})
unfolding reconcile_refund_capacity invalidate_payment_cache
release_refund_capacity i = swallow do reconcile_refund_capacity i; invalidate_payment_cache i

-- `toRefundAdmissionError`.
abbrev pub to_refund_admission_error : Failure → Failure
to_refund_admission_error (refund_capacity_exceeded requested already captured) =
    bad_request "Refund amount exceeds the remaining refundable amount"
to_refund_admission_error refundable_payment_not_found = not_found "Payment not found"
to_refund_admission_error e = e

-- Every refusal of a reserved refund: the row is marked, the capacity released, the error raised.
abbrev pub give_up : String → Refund → Document → Failure → Exec World (Option Refund)
give_up i refund detail e = do mark_refund_failed refund detail; release_refund_capacity i; raise e

abbrev pub refused : Failure
refused = unavailable "The payment gateway refused the refund, so it was not submitted"

abbrev pub unsuccessful : Failure
unsuccessful =
    unavailable "The payment gateway accepted the refund request but reported it as unsuccessful"

abbrev pub unsuccessful_detail : RefundResult → Document
unsuccessful_detail a =
    object (
      ("error", text "gateway reported the refund as unsuccessful") ∷ ("paymob", nested a.raw) ∷ [])

-- `{ paymob: result.raw, success: result.success, isRefund: result.isRefund }`.
abbrev refund_answer : RefundResult → Document
refund_answer a =
    object
      (("paymob", nested a.raw) ∷ ("success", flag a.success) ∷ ("isRefund", flag a.is_refund) ∷ [])

-- The columns that an accepted submission sets.
abbrev pub settled : RefundStatus → RefundResult → Refund → Refund
settled s a r = record r {
  status = s;
  paymob_refund_id = some a.refund_id;
  metadata = some (refund_answer a);
}

-- What `submitRefundToGateway` does with an answer of the gateway.
unfoldable pub record_refund_result : Payment → Refund → RefundResult → Exec World (Option Refund)
unfolding mark_refund_failed release_refund_capacity update_refund emit
record_refund_result payment refund result =
    if not result.is_pending && not result.success
    then give_up payment.id refund (unsuccessful_detail result) unsuccessful
    else do
      submitted ← update_refund refund.id (
          settled (if result.is_pending then RefundStatus.pending else RefundStatus.processed)
            result)
      if result.is_pending
          then pure submitted
          else (do emit (refund_completed payment.id refund.id); pure submitted)

-- An error of the gateway is a refusal.
abbrev pub on_reply : Payment → Refund → Reply RefundResult → Exec World (Option Refund)
on_reply payment refund (threw detail) = give_up payment.id refund (error_detail detail) refused
on_reply payment refund (replied result) = record_refund_result payment refund result

abbrev pub missing_transaction_id : Document
missing_transaction_id = object (
    ("error", text "missing_paymob_transaction_id")
    ∷ (
      "detail",
      text
          "the webhook never delivered a Paymob transaction_id for this payment, so there is nothing to refund upstream",
    )
    ∷ [])

abbrev pub no_transaction_id : Failure
no_transaction_id =
    bad_request "The payment cannot be refunded because it has no Paymob transaction id"

-- `paymobTransactionId === null || paymobTransactionId.length === 0`.
abbrev pub usable_id : Option String → Option String
usable_id none = none
usable_id (some t) = if t == "" then none else some t

unfoldable pub submit_refund_to_gateway : Gateway → Payment → Refund → Exec World (Option Refund)
unfolding mark_refund_failed release_refund_capacity record_refund_result
submit_refund_to_gateway g payment refund = elim (usable_id payment.paymob_transaction_id) [
  | none ↦ give_up payment.id refund missing_transaction_id no_transaction_id
  | some t ↦ on_reply payment refund (g.refund_transaction t refund.amount)
]

abbrev pub not_completed : Failure
not_completed = bad_request "Cannot refund a payment that is not completed"

-- What `createRefund` does with the reservation that it was given.
unfoldable pub refund_reserved : Gateway → String → RefundReservation → Exec World (Option Refund)
unfolding mark_refund_failed release_refund_capacity emit invalidate_payment_cache
    submit_refund_to_gateway
refund_reserved g i reservation =
    if same_status reservation.payment.status completed
    then (do
      emit (refund_created i reservation.refund.id)
      invalidate_payment_cache i
      submit_refund_to_gateway g reservation.payment reservation.refund)
    else give_up i reservation.refund (error_detail "payment is not refundable") not_completed

unfoldable pub create_refund :
    Gateway → String → Number → Option String → Exec World (Option Refund)
unfolding find_by_id
create_refund g i amount reason = do
  requested_amount ← lift (validate_amount amount)
  found ← find_by_id i
  payment ← require (not_found "Payment not found") (live found)
  currency ← lift (validate_currency payment.currency)
  reservation ←
      rethrow to_refund_admission_error (reserve_refund_capacity i requested_amount currency reason)
  refund_reserved g i reservation
