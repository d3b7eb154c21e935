-- ===== src/Payments/Webhook/Laws.antt =====
-- What a delivery of the gateway does: `handlePaymobWebhook` of payments.service.ts.
use hakawi.Common.{
  pure, require, not_found, ◌>>=◌, ◌≡◌, refl, String, true, false, Option, none, some, arith, find,
  Failure, Result, ok, err, uncaught, if◌then◌else◌, require_rule, bind_rule, ◌⊎◌, inl, inr,
  Bool-cases, Option-cases,
}
use hakawi.Common.Text.{Text, same_text}
use hakawi.Payments.Store.{Payment, World, same_status, completed}
use hakawi.Payments.Repository.{column_is, find_by_transaction_id}
use hakawi.Payments.Webhook.{
  WebhookPayload, Receiver, Crypto, WebhookAnswer, already_processed, decoded_payload, truthy,
  resolve_webhook_transaction_id, resolve_webhook_order_id, validate_webhook_signature,
  settle_delivery, find_delivered, is_completed, handle_paymob_webhook,
}
use hakawi.Payments.Webhook.Settlement.{
  after_delivery, IsAllowed, settle_loses, settle_cases, allows-open,
}

signature_silent :
    (c : Crypto) (raw : String) (given secret : Option String) (w : World)
    → (validate_webhook_signature c raw given secret w).1 ≡ w
unfolding validate_webhook_signature
signature_silent c raw given secret w = ground arith

-- The fingerprint that the code compares: of the digest of the body under the secret.
abbrev pub fingerprint : Crypto → String → String → Text
fingerprint c secret raw = c.sha256 (c.hmac_sha256 secret raw)

pub record IsSigned (r : Receiver) (raw : String) (given : Option String) : Type 0 where
  pub secret : String
  pub signature : String
  pub configured : truthy r.webhook_secret ≡ some secret
  pub sent : truthy given ≡ some signature
  pub matches :
      same_text (fingerprint r.crypto secret raw) (r.crypto.sha256 (r.crypto.from_hex signature))
      ≡ true

signature_passed :
    (r : Receiver) (raw : String) (given : Option String) (w : World) {a : Unit {0}}
    → (validate_webhook_signature r.crypto raw given r.webhook_secret w).0 ≡ ok a
    → IsSigned r raw given
unfolding validate_webhook_signature
signature_passed r raw given w h = elim (Option-cases (truthy r.webhook_secret)) [
  | inl missing ↦ absurd (ground arith)
  | inr (k, configured) ↦ elim (Option-cases (truthy given)) [
    | inl unsent ↦ absurd (ground arith)
    | inr (s, sent) ↦ record {
      secret = k;
      signature = s;
      configured = configured;
      sent = sent;
      matches = ground arith;
    }
  ]
]

pub IsSigned-passes :
    (r : Receiver) (raw : String) (given : Option String) (w : World)
    → IsSigned r raw given
    → validate_webhook_signature r.crypto raw given r.webhook_secret w ≡ (ok tt, w)
unfolding validate_webhook_signature
IsSigned-passes r raw given w s = ground (arith, s.configured, s.sent, s.matches)

-- The payment that a delivery is about: the one with its transaction, or else the one with its order.
abbrev pub IsChosen : String → String → Payment → World → Type 0
IsChosen t o payment w =
    (find (λ p. column_is p.paymob_transaction_id t) w.payments ≡ some payment)
    ⊎ ((find (λ p. column_is p.paymob_transaction_id t) w.payments ≡ none)
        × (find (λ p. column_is p.paymob_order_id o) w.payments ≡ some payment))

-- A signed delivery of a transaction and an order, of which there is a payment that the delivery may
-- write to.
pub record IsDelivery (r : Receiver) (raw : String) (given : Option String) (w : World)
    : Type 0 where
  pub signed : IsSigned r raw given
  pub body : WebhookPayload
  pub transaction : String
  pub order : String
  pub payment : Payment
  pub decoded : decoded_payload (r.decode raw) ≡ some body
  pub named : truthy (resolve_webhook_transaction_id body) ≡ some transaction
  pub ordered : truthy (resolve_webhook_order_id body) ≡ some order
  pub chosen : IsChosen transaction order payment w
  pub open_status : same_status payment.status completed ≡ false
  pub permitted : IsAllowed body payment

-- The three ways in which a delivery can end.
pub data Outcome (r : Receiver) (raw : String) (given : Option String) (w : World)
    (o : Result WebhookAnswer × World) : Type 0 where
  refused : (e : Failure) → o ≡ (err e, w) → Outcome r raw given w o
  repeated :
      IsSigned r raw given
      → (body : WebhookPayload) (t : String) (q : Payment)
      → decoded_payload (r.decode raw) ≡ some body
      → truthy (resolve_webhook_transaction_id body) ≡ some t
      → find (λ p. column_is p.paymob_transaction_id t) w.payments ≡ some q
      → same_status q.status completed ≡ true
      → o ≡ (ok already_processed, w)
      → Outcome r raw given w o
  lost :
      (d : IsDelivery r raw given w)
      → o ≡ (err uncaught, after_delivery d.body d.transaction d.payment w)
      → Outcome r raw given w o

module _ (r : Receiver) (raw : String) (given : Option String) (w : World)
    (signed : IsSigned r raw given) (p : WebhookPayload) (t order : String)
    (decoded : decoded_payload (r.decode raw) ≡ some p)
    (named : truthy (resolve_webhook_transaction_id p) ≡ some t)
    (ordered : truthy (resolve_webhook_order_id p) ≡ some order) where
  settle_outcome :
      (payment : Payment)
      → IsChosen t order payment w
      → Outcome r raw given w (settle_delivery raw p t payment w)
  settle_outcome payment chosen = elim (settle_cases raw p t payment w) [
    | inl (e, h) ↦ refused e h
    | inr a ↦
        lost
          (record {
            signed = signed;
            body = p;
            transaction = t;
            order = order;
            payment = payment;
            decoded = decoded;
            named = named;
            ordered = ordered;
            chosen = chosen;
            open_status = allows-open payment.status p a.allowed;
            permitted = a;
          })
          (settle_loses raw p t payment w a)
  ]

  continue_outcome :
      (existing : Option Payment)
      → find (λ q. column_is q.paymob_transaction_id t) w.payments ≡ existing
      → Outcome r raw given w (
          (if is_completed existing then pure already_processed else (do
            found ← find_delivered existing order
            payment ← require (not_found "Payment not found for webhook") found
            settle_delivery raw p t payment))
            w)
  unfolding find_delivered
  continue_outcome (some payment) e = elim (Bool-cases (same_status payment.status completed)) [
    | inl done ↦ rw done (repeated signed p t payment decoded named e done refl)
    | inr open_status ↦ rw open_status (settle_outcome payment (inl e))
  ]
  continue_outcome none e =
      require_rule (Outcome r raw given w) w (not_found "Payment not found for webhook") _
        (settle_delivery raw p t) (λ payment found. settle_outcome payment (inr (e, found)))
        (λ _. refused (not_found "Payment not found for webhook") refl)

-- Every delivery ends in one of three ways. It throws and changes nothing; it is signed, a completed
-- payment has the transaction that it names, it is answered `already_processed` and changes nothing; or it is signed,
-- names a transaction and an order of which there is a payment that is not completed, the table allows
-- the new status, a completion captured the recorded amount, and then the payment takes the delivered
-- columns and nothing else changes, no transaction, event or dropped key, and the delivery throws.
pub handle_outcome :
    (r : Receiver) (raw : String) (given : Option String) (w : World)
    → Outcome r raw given w (handle_paymob_webhook r raw given w)
unfolding handle_paymob_webhook find_by_transaction_id
handle_outcome r raw given w =
    bind_rule Any w (validate_webhook_signature r.crypto raw given r.webhook_secret) _
      (λ a passed.
        let signed = signature_passed r raw given w passed in
        rw (signature_silent r.crypto raw given r.webhook_secret w) (
          require_rule Any w _ (decoded_payload (r.decode raw)) _
            (λ p decoded.
              require_rule Any w _ (truthy (resolve_webhook_transaction_id p)) _
                (λ t named.
                  require_rule Any w _ (truthy (resolve_webhook_order_id p)) _
                    (λ o ordered.
                      continue_outcome r raw given w signed p t o decoded named ordered _ refl)
                    (λ _. refused _ refl))
                (λ _. refused _ refl))
            (λ _. refused _ refl)))
      (λ e _. refused e (rw (signature_silent r.crypto raw given r.webhook_secret w)))
  where
    Any : Result WebhookAnswer × World → Type 0
    Any = Outcome r raw given w
