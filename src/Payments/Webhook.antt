-- ===== src/Payments/Webhook.antt =====
-- backend/src/modules/payments/clients/paymob.schemas.ts (the fields that a delivery is read
-- through) and `handlePaymobWebhook` of payments.service.ts.
pub mod Settlement
pub mod Laws
pub mod Deliveries
use hakawi.Common.{
  ℕ, String, Bool, false, Option, none, some, not, if◌then◌else◌, ◌&&◌, ◌||◌, ◌==◌, eqb, ◌<|>◌,
  bad_request, not_found, Exec, pure, raise, check, require, ◌>>=◌, ◌>>◌,
}
use hakawi.Common.Text.{Text, same_text}
use hakawi.Payments.Store.{Status, completed, failed, same_status, Payment, World}
use hakawi.Payments.Repository.{
  find_by_order_id, find_by_transaction_id, update_payment, create_transaction,
}
use hakawi.Payments.Service.{invalidate_payment_cache, validate_status_transition, announce}

-- The fields of `paymobWebhookPayloadSchema`, an identifier as the text that `String(...)` makes.
pub record Envelope : Type 0 where
  pub id : Option String
  pub order_id : Option String
  pub order_ref : Option String  -- `data.order.id`
  pub amount_cents : Option ℕ
  pub success : Option Bool
  pub is_pending : Option Bool

pub record WebhookPayload : Type 0 where
  pub envelope : Option Envelope  -- `data`
  pub transaction_id : Option String
  pub order_id : Option String
  pub payment_id : Option String
  pub amount_cents : Option ℕ
  pub status : Option String

-- `o?.f`.
abbrev pub chain {ℓ κ} : {A : Type ℓ} {B : Type κ} → Option A → (A → Option B) → Option B
chain none f = none
chain (some a) f = f a

unfoldable pub resolve_webhook_transaction_id : WebhookPayload → Option String
resolve_webhook_transaction_id p = p.transaction_id <|> chain p.envelope (λ d. d.id)

unfoldable pub resolve_webhook_order_id : WebhookPayload → Option String
resolve_webhook_order_id p =
    p.order_id <|> chain p.envelope (λ d. d.order_id) <|> chain p.envelope (λ d. d.order_ref)

unfoldable pub resolve_webhook_amount_cents : WebhookPayload → Option ℕ
resolve_webhook_amount_cents p = p.amount_cents <|> chain p.envelope (λ d. d.amount_cents)

-- `v === true`.
abbrev pub is_true : Option Bool → Bool
is_true none = false
is_true (some b) = b

abbrev pub is_word : Option String → String → Bool
is_word none w = false
is_word (some s) w = s == w

unfoldable pub resolve_webhook_status : WebhookPayload → Status
resolve_webhook_status p =
    let envelope_pending = is_true (chain p.envelope (λ d. d.is_pending)) in
    let envelope_success = is_true (chain p.envelope (λ d. d.success)) in
    let settled = envelope_success && not envelope_pending in
    if settled || is_word p.status "success" then completed else failed

-- The bytes and digests of node's `crypto`, which the signature check calls.
pub record Crypto : Type 0 where
  pub hmac_sha256 : String → String → Text  -- the secret, the message
  pub sha256 : Text → Text
  pub from_hex : String → Text

-- An absent or empty text is falsy.
abbrev pub truthy : Option String → Option String
truthy none = none
truthy (some s) = if s == "" then none else some s

unfoldable pub validate_webhook_signature :
    Crypto → String → Option String → Option String → Exec World (Unit {0})
validate_webhook_signature c raw_body signature secret = do
  key ← require (bad_request "Webhook secret is not configured") (truthy secret)
  given ← require (bad_request "Missing webhook signature") (truthy signature)
  check (same_text (c.sha256 (c.hmac_sha256 key raw_body)) (c.sha256 (c.from_hex given)))
      (bad_request "Invalid webhook signature")

-- What `JSON.parse` and the schema make of a body.
pub data Decoded : Type 0 where
  not_json bad_shape : Decoded
  payload : WebhookPayload → Decoded

-- The environment of the handler: node's crypto, the decoder and the configured secret.
pub record Receiver : Type 0 where
  pub crypto : Crypto
  pub decode : String → Decoded
  pub webhook_secret : Option String

abbrev pub decoded_payload : Decoded → Option WebhookPayload
decoded_payload (payload p) = some p
decoded_payload _ = none

-- `assertCapturedAmountMatches`.
unfoldable pub assert_captured_amount_matches : Payment → Option ℕ → Exec World (Unit {0})
assert_captured_amount_matches payment none =
    raise (bad_request "Webhook payload carries no amount, so the capture cannot be verified")
assert_captured_amount_matches payment (some captured) =
    check (eqb captured payment.amount)
      (bad_request "Captured amount does not match the recorded amount")

abbrev pub amount_or : Option ℕ → ℕ → ℕ
amount_or none n = n
amount_or (some m) n = m

-- The answer `{ status: ... }` of the endpoint.
pub data WebhookAnswer : Type 0 where
  already_processed processed : WebhookAnswer

-- The part of the handler that follows the choice of the payment.
unfoldable pub settle_delivery :
    String → WebhookPayload → String → Payment → Exec World WebhookAnswer
unfolding resolve_webhook_status resolve_webhook_amount_cents assert_captured_amount_matches
    validate_status_transition update_payment create_transaction invalidate_payment_cache announce
settle_delivery raw_body p transaction_id payment = do
  let status = resolve_webhook_status p
  let captured = resolve_webhook_amount_cents p
  if same_status status completed then assert_captured_amount_matches payment captured else pure tt
  validate_status_transition payment.status status
  update_payment payment.id (λ row. record row {
    status = status;
    paymob_payment_id = p.payment_id <|> payment.paymob_payment_id;
    paymob_transaction_id = some transaction_id;
  })
  create_transaction (record {
    payment_id = payment.id;
    kind = "webhook";
    status = status;
    amount = amount_or captured payment.amount;
    currency = payment.currency;
    gateway_response = some raw_body;
  })
  invalidate_payment_cache payment.id
  announce status payment.id
  pure processed

abbrev pub is_completed : Option Payment → Bool
is_completed none = false
is_completed (some p) = same_status p.status completed

-- `existing <|> (await this.paymentsRepository.findByOrderId(orderId))`.
unfoldable pub find_delivered : Option Payment → String → Exec World (Option Payment)
unfolding find_by_order_id
find_delivered (some p) order_id = pure (some p)
find_delivered none order_id = find_by_order_id order_id

unfoldable pub handle_paymob_webhook : Receiver → String → Option String → Exec World WebhookAnswer
handle_paymob_webhook r raw_body signature = do
  validate_webhook_signature r.crypto raw_body signature r.webhook_secret
  p ← require (bad_request "Invalid webhook payload") (decoded_payload (r.decode raw_body))
  transaction_id ←
      require (bad_request "Missing transaction_id in webhook payload")
        (truthy (resolve_webhook_transaction_id p))
  order_id ←
      require (bad_request "Missing order_id in webhook payload")
        (truthy (resolve_webhook_order_id p))
  existing ← find_by_transaction_id transaction_id
  if is_completed existing then pure already_processed else (do
    found ← find_delivered existing order_id
    payment ← require (not_found "Payment not found for webhook") found
    settle_delivery raw_body p transaction_id payment)
