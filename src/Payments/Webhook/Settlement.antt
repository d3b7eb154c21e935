-- ===== src/Payments/Webhook/Settlement.antt =====
-- The part of `handlePaymobWebhook` of payments.service.ts that follows the choice of the payment.
use hakawi.Common.{
  ℕ, bad_request, ◌≡◌, refl, String, true, false, some, arith, Failure, err, uncaught, eqb, ◌<|>◌,
  ◌⊎◌, inl, inr, Bool-cases, Option-cases,
}
use hakawi.Payments.Store.{Status, Payment, World, same_status, completed}
use hakawi.Payments.Repository.{change_payment}
use hakawi.Payments.Service.{allows}
use hakawi.Payments.Webhook.{
  WebhookPayload, resolve_webhook_status, resolve_webhook_amount_cents, settle_delivery,
}

-- The columns that a delivery sets, in a row and in the table.
abbrev pub delivered : WebhookPayload → String → Payment → Payment → Payment
delivered p t payment row = record row {
  status = resolve_webhook_status p;
  paymob_payment_id = p.payment_id <|> payment.paymob_payment_id;
  paymob_transaction_id = some t;
}

abbrev pub after_delivery : WebhookPayload → String → Payment → World → World
after_delivery p t payment w = change_payment payment.id (delivered p t payment) w

same_completed : (s : Status) → same_status s completed ≡ true → s ≡ completed
same_completed s h = ground arith

-- What a delivery must meet to write to its payment.
pub record IsAllowed (p : WebhookPayload) (payment : Payment) : Type 0 where
  pub allowed : allows payment.status (resolve_webhook_status p) ≡ true
  pub captured :
      resolve_webhook_status p ≡ completed → resolve_webhook_amount_cents p ≡ some payment.amount

eqb_same : (n : ℕ) → eqb n n ≡ true
eqb_same n = ground arith

-- A delivery that meets it writes the payment, and throws on the insert of the transaction.
pub settle_loses :
    (raw : String) (p : WebhookPayload) (t : String) (payment : Payment) (w : World)
    → IsAllowed p payment
    → settle_delivery raw p t payment w ≡ (err uncaught, after_delivery p t payment w)
unfolding settle_delivery
settle_loses raw p t payment w a =
    elim (Bool-cases (same_status (resolve_webhook_status p) completed)) [
      | inl done ↦
          let amount = a.captured (same_completed (resolve_webhook_status p) done) in
          rw (done, a.allowed, amount) (rw (eqb_same payment.amount) refl)
      | inr open_status ↦ rw (open_status, a.allowed) refl
    ]

abbrev invalid_transition : Failure
invalid_transition = bad_request "Invalid payment status transition"

abbrev no_amount : Failure
no_amount = bad_request "Webhook payload carries no amount, so the capture cannot be verified"

abbrev other_amount : Failure
other_amount = bad_request "Captured amount does not match the recorded amount"

barred_error :
    (raw : String) (p : WebhookPayload) (t : String) (payment : Payment) (w : World)
    → allows payment.status (resolve_webhook_status p) ≡ false
    → (e : Failure) × (settle_delivery raw p t payment w ≡ (err e, w))
unfolding settle_delivery
barred_error raw p t payment w barred =
    elim (Bool-cases (same_status (resolve_webhook_status p) completed)) [
      | inr failing ↦ (invalid_transition, rw (failing, barred) refl)
      | inl done ↦ elim (Option-cases (resolve_webhook_amount_cents p)) [
        | inl missing ↦ (no_amount, rw (done, missing) refl)
        | inr (n, amount) ↦ elim (Bool-cases (eqb n payment.amount)) [
          | inl equal ↦ (invalid_transition, rw (done, amount) (rw (equal, barred) refl))
          | inr unequal ↦ (other_amount, rw (done, amount) (rw unequal refl))
        ]
      ]
    ]

pub settle_cases :
    (raw : String) (p : WebhookPayload) (t : String) (payment : Payment) (w : World)
    → ((e : Failure) × (settle_delivery raw p t payment w ≡ (err e, w))) ⊎ IsAllowed p payment
unfolding settle_delivery
settle_cases raw p t payment w =
    elim (Bool-cases (allows payment.status (resolve_webhook_status p))) [
      | inr barred ↦ inl (barred_error raw p t payment w barred)
      | inl allowed ↦ elim (Bool-cases (same_status (resolve_webhook_status p) completed)) [
        | inr failing ↦
            inr (record { allowed = allowed; captured = λ e. absurd (ground (arith, e)) })
        | inl done ↦ elim (Option-cases (resolve_webhook_amount_cents p)) [
          | inl missing ↦ inl (no_amount, rw (done, missing) refl)
          | inr (n, amount) ↦ elim (Bool-cases (eqb n payment.amount)) [
            | inl equal ↦ inr (record { allowed = allowed; captured = λ e. ground arith })
            | inr unequal ↦ inl (other_amount, rw (done, amount) (rw unequal refl))
          ]
        ]
      ]
    ]

pub allows-open :
    (s : Status) (p : WebhookPayload)
    → allows s (resolve_webhook_status p) ≡ true
    → same_status s completed ≡ false
unfolding allows resolve_webhook_status
allows-open s p h = ground arith
