-- ===== src/Payments/Service.antt =====
-- backend/src/modules/payments/payments.service.ts: the status machine, validation, the creation of
-- a payment and its checkout. Emitting an event and dropping a cache key append to the world's logs.
use hakawi.Common.{
  ℕ, String, Bool, false, Option, none, some, List, [], ◌∷◌, ◌++◌, ◌&&◌, ◌==◌, leb, if◌then◌else◌,
  any, bad_request, not_found, unavailable, uncaught, Exec, Result, ok, err, pure, raise, modify,
  require, check, lift, ◌>>=◌, ◌>>◌,
}
use hakawi.Common.Text.{Text, codes, trim, to_upper_case, is_upper}
use hakawi.Payments.Store.{
  Status, pending, processing, completed, failed, cancelled, refunded, other, same_status, Document,
  object, Value, field, as_text, Payment, PaymentTransaction, PaymentEvent, payment_created,
  payment_completed, payment_failed, payment_failed_at, World,
}
use hakawi.Payments.Repository.{find_by_id, create, update_payment, create_transaction, live}

unfoldable pub emit : PaymentEvent → Exec World (Unit {0})
emit e = modify (λ w. record w { emitted = w.emitted ++ e ∷ [] })

unfoldable pub invalidate_payment_cache : String → Exec World (Unit {0})
invalidate_payment_cache i = modify (λ w. record w { invalidated = w.invalidated ++ i ∷ [] })

-- `PAYMENT_TRANSITIONS`; an unknown word has no entry, and `?? []` takes its place.
unfoldable pub payment_transitions : Status → List Status
payment_transitions pending = processing ∷ completed ∷ failed ∷ cancelled ∷ []
payment_transitions processing = completed ∷ failed ∷ []
payment_transitions completed = refunded ∷ []
payment_transitions failed = []
payment_transitions cancelled = []
payment_transitions refunded = []
payment_transitions (other _) = []

unfoldable pub allows : Status → Status → Bool
unfolding payment_transitions
allows from to = any (same_status to) (payment_transitions from)

unfoldable pub validate_status_transition : Status → Status → Exec World (Unit {0})
unfolding allows
validate_status_transition from to =
    check (allows from to) (bad_request "Invalid payment status transition")

-- A JavaScript number: a natural number, a negative integer -(n + 1), or no integer at all.
pub data Number : Type 0 where
  whole : ℕ → Number
  negative : ℕ → Number
  not_integer : Number

abbrev pub max_amount_cents : ℕ
max_amount_cents = 9999999999

abbrev pub invalid_amount : Result ℕ
invalid_amount = err (bad_request "Invalid payment amount")

-- `validateAmount` with `paymobAmountCentsSchema`: an integer, positive, at most the maximum.
unfoldable pub validate_amount : Number → Result ℕ
validate_amount (whole n) = if leb 1 n && leb n max_amount_cents then ok n else invalid_amount
validate_amount (negative _) = invalid_amount
validate_amount not_integer = invalid_amount

-- `/^[A-Z]{3}$/`.
abbrev pub is_currency_code : Text → Bool
is_currency_code (a ∷ b ∷ c ∷ []) = is_upper a && is_upper b && is_upper c
is_currency_code _ = false

abbrev pub currency_required : Result Text
currency_required =
    err (bad_request "Invalid payment currency: a three letter ISO 4217 code is required")

abbrev pub check_currency : Text → Result Text
check_currency c = if is_currency_code c then ok c else err (bad_request "Invalid payment currency")

abbrev pub check_trimmed : Text → Result Text
check_trimmed [] = currency_required
check_trimmed (c ∷ s) = check_currency (to_upper_case (c ∷ s))

unfoldable pub validate_currency : Option Text → Result Text
unfolding trim to_upper_case
validate_currency none = currency_required
validate_currency (some s) = check_trimmed (trim s)

-- What a call of the gateway gives: its answer, or an error with its text.
pub data Reply (A : Type 0) : Type 0 where
  replied : A → Reply A
  threw : String → Reply A

pub record CheckoutRequest : Type 0 where
  pub amount_cents : ℕ
  pub currency : Text
  pub merchant_order_id : String
  pub payment_method_id : Option String

pub record Checkout : Type 0 where
  pub order_id : String
  pub payment_key : String
  pub iframe_url : String
  pub accept_url : String

pub record RefundResult : Type 0 where
  pub refund_id : String
  pub success : Bool
  pub is_pending : Bool
  pub is_refund : Bool
  pub raw : String  -- the gateway's answer, as JSON

-- `PaymobGateway`: what the remote gateway answers to each request.
pub record Gateway : Type 0 where
  pub create_checkout : CheckoutRequest → Reply Checkout
  pub refund_transaction : String → ℕ → Reply RefundResult

unfoldable pub fail_payment_after_gateway_error : String → String → Exec World (Unit {0})
unfolding update_payment invalidate_payment_cache emit
fail_payment_after_gateway_error i step = do
  update_payment i (λ p. record p { status = failed })
  invalidate_payment_cache i
  emit (payment_failed_at i step)

pub record CheckoutResponse : Type 0 where
  pub payment_id : String
  pub order_id : String
  pub payment_key : String
  pub iframe_url : String
  pub accept_url : String
  pub status : Status

abbrev pub with_checkout : Checkout → Payment → Payment
with_checkout c p = record p {
  paymob_order_id = some c.order_id;
  paymob_payment_key = some c.payment_key;
  paymob_iframe_url = some c.iframe_url;
  paymob_accept_url = some c.accept_url;
  status = processing;
}

unfoldable pub register_paymob_checkout :
    Gateway → Payment → ℕ → Text → Option String → Exec World (Payment × CheckoutResponse)
unfolding fail_payment_after_gateway_error update_payment invalidate_payment_cache
register_paymob_checkout g payment amount_cents currency payment_method_id =
    elim (g.create_checkout (record {
      amount_cents = amount_cents;
      currency = currency;
      merchant_order_id = payment.id;
      payment_method_id = payment_method_id;
    })) [
      | threw _ ↦ (do
        fail_payment_after_gateway_error payment.id "checkout"
        raise (unavailable "The payment gateway is unavailable, so no checkout URL was created"))
      | replied c ↦ (do
        written ← update_payment payment.id (with_checkout c)
        invalidate_payment_cache payment.id
        updated ← require uncaught written
        pure (
          updated,
          record {
            payment_id = payment.id;
            order_id = c.order_id;
            payment_key = c.payment_key;
            iframe_url = c.iframe_url;
            accept_url = c.accept_url;
            status = updated.status;
          },
        ))
    ]

-- The argument of `createPayment`, before its validation.
pub record PaymentRequest : Type 0 where
  pub user_id : String
  pub amount : Number
  pub currency : Option Text
  pub payment_method : String
  pub description : Option String
  pub metadata : Option Document

-- `input.currency ?? 'EGP'`.
abbrev pub or_egp : Option Text → Option Text
or_egp none = some (codes "EGP")
or_egp (some c) = some c

unfoldable pub create_payment : Gateway → PaymentRequest → Bool → Exec World Payment
unfolding validate_amount validate_currency create emit register_paymob_checkout
create_payment g input initialize_gateway = do
  currency ← lift (validate_currency (or_egp input.currency))
  amount ← lift (validate_amount input.amount)
  payment ← create (record {
    user_id = input.user_id;
    amount = amount;
    currency = some currency;
    payment_method = input.payment_method;
    description = input.description;
    metadata = input.metadata;
    status = pending;
  })
  emit (payment_created payment.id input.user_id)
  if initialize_gateway
      then (do
        check (input.payment_method == "paymob")
            (bad_request "initializeGateway is only supported for the paymob payment method")
        initialized ← register_paymob_checkout g payment amount currency none
        pure initialized.0)
      else pure payment

-- `typeof metadata?.description === 'string' ? metadata.description : null`.
abbrev described : Option (List (String × Value)) → Option String
described none = none
described (some fs) = as_text (field "description" fs)

-- `metadata ? JSON.stringify(metadata) : null`.
abbrev pub stringified : Option (List (String × Value)) → Option Document
stringified none = none
stringified (some fs) = some (object fs)

-- `paymobInitializePayment`: the amount and the currency are those of the row that was created.
unfoldable pub paymob_initialize_payment :
    Gateway
    → String
    → Number
    → Text
    → Option (List (String × Value))
    → Option String
    → Exec World CheckoutResponse
unfolding create_payment validate_currency register_paymob_checkout field
paymob_initialize_payment g user_id amount currency metadata payment_method_id = do
  payment ←
      create_payment g
        (record {
          user_id = user_id;
          amount = amount;
          currency = some currency;
          payment_method = "paymob";
          description = described metadata;
          metadata = stringified metadata;
        })
        false
  validated ← lift (validate_currency payment.currency)
  initialized ← register_paymob_checkout g payment payment.amount validated payment_method_id
  pure initialized.1

-- The events that `updateStatus` and the webhook emit for a new status.
unfoldable pub announce : Status → String → Exec World (Unit {0})
unfolding emit
announce completed i = emit (payment_completed i)
announce failed i = emit (payment_failed i)
announce _ i = pure tt

unfoldable pub update_status : String → Status → Exec World (Option Payment)
unfolding find_by_id validate_status_transition update_payment invalidate_payment_cache announce
update_status i status = do
  found ← find_by_id i
  existing ← require (not_found "Payment not found") (live found)
  validate_status_transition existing.status status
  payment ← update_payment i (λ p. record p { status = status })
  invalidate_payment_cache i
  announce status i
  pure payment

unfoldable pub create_payment_transaction :
    String → String → Status → ℕ → Option String → Exec World PaymentTransaction
unfolding find_by_id create_transaction
create_payment_transaction i kind status amount gateway_response = do
  found ← find_by_id i
  payment ← require (not_found "Payment not found") (live found)
  create_transaction (record {
    payment_id = i;
    kind = kind;
    status = status;
    amount = amount;
    currency = payment.currency;
    gateway_response = gateway_response;
  })
