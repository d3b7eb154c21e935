-- ===== src/Payments/Repository.antt =====
-- backend/src/modules/payments/repositories/payments.repository.ts. A query that the database
-- answers with no row gives `none`; `updated_at` takes the clock of the world.
use hakawi.Common.{
  ℕ, ◌+◌, String, Bool, true, false, Option, none, some, List, [], ◌∷◌, ◌++◌, ◌&&◌, ◌||◌, not, ◌==◌,
  leb, eqb, if◌then◌else◌, find, update, sum, uncaught, refund_capacity_exceeded,
  refundable_payment_not_found, Exec, ok, err, pure, gets, modify, require, check, transaction,
  ◌>>=◌, ◌>>◌,
}
use hakawi.Common.Text.{Text}
use hakawi.Payments.Store.{
  Status, completed, refunded, same_status, RefundStatus, Document, Payment, Refund,
  PaymentTransaction, TransactionData, World,
}

abbrev pub is_id : String → Payment → Bool
is_id i p = p.id == i

abbrev pub is_refund_id : String → Refund → Bool
is_refund_id i r = r.id == i

-- `eq(column, value)` on a nullable column: a NULL equals nothing.
abbrev pub column_is : Option String → String → Bool
column_is none v = false
column_is (some c) v = c == v

unfoldable pub find_by_id : String → Exec World (Option Payment)
find_by_id i = gets (λ w. find (is_id i) w.payments)

unfoldable pub find_by_order_id : String → Exec World (Option Payment)
find_by_order_id o = gets (λ w. find (λ p. column_is p.paymob_order_id o) w.payments)

unfoldable pub find_by_transaction_id : String → Exec World (Option Payment)
find_by_transaction_id t = gets (λ w. find (λ p. column_is p.paymob_transaction_id t) w.payments)

-- The id that `gen_random_uuid()` draws for the next row.
abbrev pub fresh_id : World → String
fresh_id w = w.ids w.drawn

pub record CreatePaymentInput : Type 0 where
  pub user_id : String
  pub amount : ℕ
  pub currency : Option Text
  pub payment_method : String
  pub description : Option String
  pub metadata : Option Document
  pub status : Status

abbrev pub payment_row : CreatePaymentInput → World → Payment
payment_row i w = record {
  id = fresh_id w;
  user_id = i.user_id;
  amount = i.amount;
  currency = i.currency;
  status = i.status;
  payment_method = i.payment_method;
  paymob_order_id = none;
  paymob_payment_id = none;
  paymob_transaction_id = none;
  paymob_payment_key = none;
  paymob_iframe_url = none;
  paymob_accept_url = none;
  metadata = i.metadata;
  description = i.description;
  deleted_at = none;
  created_at = w.now;
  updated_at = w.now;
}

unfoldable pub create : CreatePaymentInput → Exec World Payment
create i w =
    let row = payment_row i w in
    (ok row, record w { payments = w.payments ++ row ∷ []; drawn = w.drawn + 1 })

-- `update(id, data)`: `change` sets the columns of `data`.
abbrev pub change_payment : String → (Payment → Payment) → World → World
change_payment i change w = record w {
  payments = update (is_id i) (λ p. record (change p) { updated_at = w.now }) w.payments;
}

unfoldable pub update_payment : String → (Payment → Payment) → Exec World (Option Payment)
update_payment i change w =
    let w' = change_payment i change w in (ok (find (is_id i) w'.payments), w')

unfoldable pub soft_delete : String → Exec World (Unit {0})
soft_delete i = modify (λ w. record w {
  payments = update (is_id i) (λ p. record p { deleted_at = some w.now }) w.payments;
})

-- The row of `payment_transactions_p` that an insert writes, given its id, its currency and its time.
-- None of the three columns may be NULL, and none has a default: an insert that lacks one is refused.
abbrev transaction_row :
    Option String → Option Text → Option ℕ → TransactionData → Option PaymentTransaction
transaction_row (some i) (some currency) (some time) t = some (record {
  id = i;
  payment_id = t.payment_id;
  kind = t.kind;
  status = t.status;
  amount = t.amount;
  currency = currency;
  gateway_response = t.gateway_response;
  created_at = time;
})
transaction_row _ _ _ t = none

abbrev append_transaction : PaymentTransaction → World → World
append_transaction row w = record w { transactions = w.transactions ++ row ∷ [] }

-- `tx.insert(paymentTransactionsP).values(...).returning()`.
abbrev insert_transaction :
    Option String → Option ℕ → TransactionData → Exec World PaymentTransaction
insert_transaction i time t = do
  row ← require uncaught (transaction_row i t.currency time t)
  modify (append_transaction row)
  pure row

-- `createTransaction`: its values name neither the id nor the time of the row.
unfoldable pub create_transaction : TransactionData → Exec World PaymentTransaction
create_transaction t = transaction (insert_transaction none none t)

-- `insert(refunds).values(values).returning()`.
unfoldable pub create_refund_row : (String → ℕ → Refund) → Exec World Refund
create_refund_row row w =
    let r = row (fresh_id w) w.now in
    (ok r, record w { refunds = w.refunds ++ r ∷ []; drawn = w.drawn + 1 })

abbrev pub change_refund : String → (Refund → Refund) → World → World
change_refund i change w = record w { refunds = update (is_refund_id i) change w.refunds }

unfoldable pub update_refund : String → (Refund → Refund) → Exec World (Option Refund)
update_refund i change w =
    let w' = change_refund i change w in (ok (find (is_refund_id i) w'.refunds), w')

-- `REFUND_CAPACITY_STATUSES`.
abbrev pub holds_capacity : RefundStatus → Bool
holds_capacity RefundStatus.pending = true
holds_capacity RefundStatus.processed = true
holds_capacity _ = false

-- What one refund row takes of the capacity of a payment.
unfoldable pub held_by : String → Refund → ℕ
held_by i r = if r.payment_id == i && holds_capacity r.status then r.amount else 0

-- `coalesce(sum(refunds.amount), 0)` over the live refunds of a payment.
unfoldable pub reserved : String → List Refund → ℕ
reserved i rs = sum (held_by i) rs

abbrev pub max_safe_integer : ℕ
max_safe_integer = 9007199254740991

unfoldable pub sum_reserved_refunds : String → Exec World ℕ
sum_reserved_refunds i w =
    let total = reserved i w.refunds in
    if leb total max_safe_integer then (ok total, w) else (err uncaught, w)

unfoldable pub set_status : String → Status → Exec World (Unit {0})
set_status i s = modify (change_payment i (λ p. record p { status = s }))

-- `payment === null || payment.deletedAt`.
abbrev pub live : Option Payment → Option Payment
live none = none
live (some p) = elim p.deleted_at [ none ↦ some p | some _ ↦ none ]

pub record RefundReservation : Type 0 where
  pub payment : Payment
  pub refund : Refund
  pub already_refunded : ℕ
  pub reserved_total : ℕ
  pub payment_fully_refunded : Bool

abbrev pub pending_refund : String → ℕ → Text → Option String → String → ℕ → Refund
pending_refund payment_id amount currency reason id now = record {
  id = id;
  payment_id = payment_id;
  amount = amount;
  currency = currency;
  reason = reason;
  status = RefundStatus.pending;
  paymob_refund_id = none;
  metadata = none;
  created_at = now;
}

-- `reserveRefundCapacity`: one transaction that holds the row lock of the payment.
unfoldable pub reserve_refund_capacity :
    String → ℕ → Text → Option String → Exec World RefundReservation
unfolding find_by_id sum_reserved_refunds create_refund_row set_status
reserve_refund_capacity i amount_cents currency reason = transaction do
  found ← find_by_id i
  payment ← require refundable_payment_not_found (live found)
  already_refunded ← sum_reserved_refunds i
  let reserved_total = already_refunded + amount_cents
  check (leb reserved_total payment.amount)
      (refund_capacity_exceeded amount_cents already_refunded payment.amount)
  let full = eqb reserved_total payment.amount
  refund ← create_refund_row (pending_refund i amount_cents currency reason)
  if full && not (same_status payment.status refunded) then set_status i refunded else pure tt
  pure (record {
    payment = payment;
    refund = refund;
    already_refunded = already_refunded;
    reserved_total = reserved_total;
    payment_fully_refunded = full;
  })

-- `repairDerivedStatus`.
unfoldable pub repair_derived_status : Payment → Bool → Exec World Payment
unfolding update_payment
repair_derived_status payment full = do
  if (full && same_status payment.status completed)
        || (not full && same_status payment.status refunded)
      then (do
        let next = if full && same_status payment.status completed then refunded else completed
        updated ← update_payment payment.id (λ p. record p { status = next })
        pure (elim updated [ none ↦ record payment { status = next } | some p ↦ p ]))
      else pure payment

pub record RefundCapacityReconciliation : Type 0 where
  pub payment : Payment
  pub reserved_total : ℕ
  pub payment_fully_refunded : Bool

unfoldable pub reconcile_refund_capacity : String → Exec World RefundCapacityReconciliation
unfolding find_by_id sum_reserved_refunds repair_derived_status
reconcile_refund_capacity i = transaction do
  found ← find_by_id i
  payment ← require refundable_payment_not_found (live found)
  reserved_total ← sum_reserved_refunds i
  let full = leb payment.amount reserved_total
  corrected ← repair_derived_status payment full
  pure (record {
    payment = corrected;
    reserved_total = reserved_total;
    payment_fully_refunded = full;
  })
