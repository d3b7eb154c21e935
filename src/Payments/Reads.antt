-- ===== src/Payments/Reads.antt =====
-- The reads of backend/src/modules/payments/payments.service.ts and of its repository. A date of a
-- response is the time that it prints.
use hakawi.Common.{
  ℕ, ◌+◌, String, Bool, true, false, Option, none, some, List, [], ◌∷◌, ◌&&◌, ◌||◌, ◌==◌,
  if◌then◌else◌, map, filter, length, page_of, newest_first, or_else, Exec, pure, require, gets,
  ◌>>=◌, not_found,
}
use hakawi.Payments.Store.{
  Status, same_status, Document, not_json, scalar, object, field, as_text, Payment, Refund, World,
}
use hakawi.Payments.Repository.{live, find_by_id}

abbrev pub is_live : Option ℕ → Bool
is_live none = true
is_live (some time) = false

abbrev pub not_deleted : Payment → Bool
not_deleted p = is_live p.deleted_at

-- One row of the grouped query.
pub record Group : Type 0 where
  pub status : Status
  pub count : ℕ
  pub total_amount : ℕ

abbrev pub grow : ℕ → Group → Group
grow amount g = record g { count = g.count + 1; total_amount = g.total_amount + amount }

-- A payment joins the group of its status, the first one of that status.
unfoldable pub join_group : Status → ℕ → List Group → List Group
join_group status amount [] = record { status = status; count = 1; total_amount = amount } ∷ []
join_group status amount (g ∷ gs) =
    if same_status g.status status then grow amount g ∷ gs else g ∷ join_group status amount gs

-- `count(*), coalesce(sum(amount), 0) ... group by status`.
unfoldable pub group_by_status : List Payment → List Group
unfolding join_group
group_by_status [] = []
group_by_status (p ∷ ps) = join_group p.status p.amount (group_by_status ps)

pub record AdminStats : Type 0 where
  pub total : ℕ
  pub by_status : List (Status × ℕ)
  pub total_amount : ℕ

-- The loop over the rows.
unfoldable pub add_groups : List Group → AdminStats → AdminStats
add_groups [] stats = stats
add_groups (g ∷ gs) stats = add_groups gs (record {
  total = stats.total + g.count;
  by_status = (g.status, g.count) ∷ stats.by_status;
  total_amount = stats.total_amount + g.total_amount;
})

unfoldable pub get_admin_stats : Exec World AdminStats
unfolding group_by_status add_groups
get_admin_stats = gets (λ w.
    add_groups (group_by_status (filter not_deleted w.payments))
      (record { total = 0; by_status = []; total_amount = 0 }))

pub record FindAllParams : Type 0 where
  pub user_id : Option String
  pub status : Option Status
  pub page : Option ℕ
  pub limit : Option ℕ

abbrev matches_user : Option String → String → Bool
matches_user none u = true
matches_user (some v) u = (v == "") || (u == v)

abbrev matches_status : Option Status → Status → Bool
matches_status none s = true
matches_status (some t) s = same_status s t

abbrev pub selects : FindAllParams → Payment → Bool
selects q p =
    not_deleted p && (matches_user q.user_id p.user_id && matches_status q.status p.status)

unfoldable pub find_all_payments : FindAllParams → Exec World (List Payment × ℕ)
find_all_payments q = gets (λ w.
    let rows = filter (selects q) w.payments in
    (
      page_of (or_else q.page 1) (or_else q.limit 20) (newest_first (λ p. p.created_at) rows),
      length rows,
    ))

unfoldable pub find_refunds_by_payment : String → Exec World (List Refund)
find_refunds_by_payment i = gets (λ w. filter (λ (r : Refund). r.payment_id == i) w.refunds)

-- A text that is there and not empty.
abbrev pub nonempty : Option String → Option String
nonempty none = none
nonempty (some s) = if s == "" then none else some s

-- `instrumentOf`.
unfoldable pub instrument_of : Option Document → Option String
instrument_of none = none
instrument_of (some not_json) = none
instrument_of (some scalar) = none
instrument_of (some (object fs)) = nonempty (as_text (field "paymentMethod" fs))

-- The columns that a response shows, and the instrument.
pub record PaymentResponse : Type 0 where
  pub payment : Payment
  pub instrument : Option String

-- `toPaymentResponse`: neither the metadata nor the time of deletion is shown.
abbrev pub to_payment_response : Payment → PaymentResponse
to_payment_response p = record {
  payment = record p { metadata = none; deleted_at = none };
  instrument = instrument_of p.metadata;
}

pub record PaymentsList : Type 0 where
  pub payments : List PaymentResponse
  pub total : ℕ
  pub page : ℕ
  pub limit : ℕ

unfoldable pub find_all : FindAllParams → Exec World PaymentsList
unfolding find_all_payments
find_all q = do
  found ← find_all_payments q
  pure (record {
    payments = map to_payment_response found.0;
    total = found.1;
    page = or_else q.page 1;
    limit = or_else q.limit 20;
  })

-- `cache.getOrSet`, by the copy that the cache holds.
abbrev get_or_load : Option Payment → Exec World Payment → Exec World Payment
get_or_load (some p) load = pure p
get_or_load none load = load

unfoldable pub load_payment : String → Exec World Payment
unfolding find_by_id
load_payment i = do found ← find_by_id i; require (not_found "Payment not found") (live found)

-- `findById` of the service.
unfoldable pub read_payment : Option Payment → String → Exec World Payment
unfolding load_payment
read_payment cached i = get_or_load cached (load_payment i)

-- `toRefundResponse`: the metadata is not shown.
abbrev pub to_refund_response : Refund → Refund
to_refund_response r = record r { metadata = none }

unfoldable pub get_refunds : String → Exec World (List Refund)
unfolding find_refunds_by_payment
get_refunds i = do refunds ← find_refunds_by_payment i; pure (map to_refund_response refunds)
