-- ===== src/Payments/Store.antt =====
-- The rows of interfaces/payments-repository.interface.ts, the tables that the repository writes,
-- and what the service hands to its collaborators: the events it emits and the cache keys it drops.
use hakawi.Common.{
  ℕ, String, Bool, true, false, Option, none, some, List, [], ◌∷◌, ◌==◌, if◌then◌else◌,
}
use hakawi.Common.Text.{Text}

-- The `payment_status` words; `other` is any word that is not one of the six.
pub data Status : Type 0 where
  pending processing completed failed cancelled refunded : Status
  other : String → Status

-- `===` on two status words.
abbrev pub same_status : Status → Status → Bool
same_status pending pending = true
same_status processing processing = true
same_status completed completed = true
same_status failed failed = true
same_status cancelled cancelled = true
same_status refunded refunded = true
same_status (other a) (other b) = a == b
same_status _ _ = false

-- The status words of a refund.
pub data RefundStatus : Type 0 where
  pending processed failed cancelled : RefundStatus
  other : String → RefundStatus

-- One JSON value, seen one level deep: an array or an object within it is its text.
pub data Value : Type 0 where
  text : String → Value
  number : ℕ → Value
  flag : Bool → Value
  nested : String → Value
  otherwise : Value

-- What `JSON.parse` makes of a stored text: an error, a value that is no object, or an object.
pub data Document : Type 0 where
  not_json scalar : Document
  object : List (String × Value) → Document

-- `meta.key`; a key that is not there gives a value that is neither a text nor a number.
unfoldable pub field : String → List (String × Value) → Value
field k [] = otherwise
field k ((j, v) ∷ fs) = if j == k then v else field k fs

-- `typeof v === 'string' ? v : null`.
abbrev pub as_text : Value → Option String
as_text (text s) = some s
as_text _ = none

-- `typeof v === 'number' ? v : null`.
abbrev pub as_number : Value → Option ℕ
as_number (number n) = some n
as_number _ = none

pub record Payment : Type 0 where
  pub id : String
  pub user_id : String
  pub amount : ℕ
  pub currency : Option Text
  pub status : Status
  pub payment_method : String
  pub paymob_order_id : Option String
  pub paymob_payment_id : Option String
  pub paymob_transaction_id : Option String
  pub paymob_payment_key : Option String
  pub paymob_iframe_url : Option String
  pub paymob_accept_url : Option String
  pub metadata : Option Document
  pub description : Option String
  pub deleted_at : Option ℕ
  pub created_at : ℕ
  pub updated_at : ℕ

pub record Refund : Type 0 where
  pub id : String
  pub payment_id : String
  pub amount : ℕ
  pub currency : Text
  pub reason : Option String
  pub status : RefundStatus
  pub paymob_refund_id : Option String
  pub metadata : Option Document
  pub created_at : ℕ

-- A row of `payment_transactions_p`; every column but the last but one is NOT NULL.
pub record PaymentTransaction : Type 0 where
  pub id : String
  pub payment_id : String
  pub kind : String
  pub status : Status
  pub amount : ℕ
  pub currency : Text
  pub gateway_response : Option String
  pub created_at : ℕ

-- The argument of `createTransaction`.
pub record TransactionData : Type 0 where
  pub payment_id : String
  pub kind : String
  pub status : Status
  pub amount : ℕ
  pub currency : Option Text
  pub gateway_response : Option String

pub data PaymentEvent : Type 0 where
  payment_created : String → String → PaymentEvent
  payment_completed payment_failed : String → PaymentEvent
  payment_failed_at : String → String → PaymentEvent
  refund_created refund_completed refund_failed : String → String → PaymentEvent

-- The database tables, the clock, the ids that the database will draw, and the two logs.
pub record World : Type 0 where
  pub payments : List Payment
  pub refunds : List Refund
  pub transactions : List PaymentTransaction
  pub now : ℕ
  pub ids : ℕ → String
  pub drawn : ℕ
  pub emitted : List PaymentEvent
  pub invalidated : List String
