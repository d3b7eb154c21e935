-- ===== src/Payments/Tests.antt =====
-- Concrete payments: the theorems of this folder at inputs that meet their hypotheses, and runs.
use hakawi.Common.{
  bad_request, ℕ, ◌≤◌, ◌≡◌, refl, String, true, false, none, some, List, [], ◌∷◌, arith, find, ok,
  err, eqb, if◌then◌else◌, inr, uncaught, is_ok,
}
use hakawi.Common.Text.{codes}
use hakawi.Payments.Store.{Status, pending, processing, completed, refunded, Payment, World}
use hakawi.Payments.Repository.{is_id, column_is, reserved, find_by_transaction_id}
use hakawi.Payments.Service.{allows, update_status, Gateway, threw, whole}
use hakawi.Payments.Statuses.{
  accepted_updates, accepted_updates_bounded, update_status_returns, update_status_throws,
  may_update, with_status,
}
use hakawi.Payments.Refunds.{create_refund, not_completed}
use hakawi.Payments.Capacity.{IsSolvent}
use hakawi.Payments.Capacity.Lifecycle.{create_refund-IsSolvent}
use hakawi.Payments.Webhook.{
  Receiver, WebhookPayload, payload, already_processed, handle_paymob_webhook,
  resolve_webhook_status, settle_delivery, validate_webhook_signature,
  resolve_webhook_transaction_id, resolve_webhook_order_id, find_delivered,
  resolve_webhook_amount_cents,
}
use hakawi.Payments.Webhook.Laws.{Outcome, IsDelivery, handle_outcome}
use hakawi.Payments.Reads.{AdminStats, get_admin_stats}
use hakawi.Payments.Stats.{IsTally, get_admin_stats-IsTally}
use hakawi.Payments.Webhook.Deliveries.{capture_lost}

abbrev payment_of : String → ℕ → Status → Payment
payment_of i amount status = record {
  id = i;
  user_id = "u1";
  amount = amount;
  currency = some (codes "EGP");
  status = status;
  payment_method = "paymob";
  paymob_order_id = some "o1";
  paymob_payment_id = none;
  paymob_transaction_id = none;
  paymob_payment_key = none;
  paymob_iframe_url = none;
  paymob_accept_url = none;
  metadata = none;
  description = none;
  deleted_at = none;
  created_at = 1;
  updated_at = 1;
}

abbrev world_of : List Payment → World
world_of ps = record {
  payments = ps;
  refunds = [];
  transactions = [];
  now = 7;
  ids = λ n. if eqb n 0 then "r0" else "r1";
  drawn = 0;
  emitted = [];
  invalidated = [];
}

abbrev one_pending : World
one_pending = world_of (payment_of "p1" 500 pending ∷ [])

abbrev one_completed : World
one_completed = world_of (payment_of "p1" 500 completed ∷ [])

abbrev silent_gateway : Gateway
silent_gateway = record {
  create_checkout = λ _. threw "down";
  refund_transaction = λ _ _. threw "down";
}

accepted_updates_bounded_example :
    accepted_updates "p1" (processing ∷ pending ∷ completed ∷ refunded ∷ completed ∷ []) one_pending
    ≤ 3
accepted_updates_bounded_example =
    accepted_updates_bounded "p1" (processing ∷ pending ∷ completed ∷ refunded ∷ completed ∷ [])
      one_pending

accepted_three :
    accepted_updates "p1" (processing ∷ pending ∷ completed ∷ refunded ∷ completed ∷ []) one_pending
    ≡ 3
unfolding accepted_updates update_status
accepted_three = refl

one_completed-IsSolvent : IsSolvent one_completed
unfolding reserved
one_completed-IsSolvent = record { covered = λ i a e. omega arith }

create_refund-IsSolvent_example :
    IsSolvent (create_refund silent_gateway "p1" (whole 200) none one_completed).1
create_refund-IsSolvent_example =
    create_refund-IsSolvent silent_gateway "p1" (whole 200) none one_completed refl
      one_completed-IsSolvent

abbrev FullRefundLeaves : World → Status → Type 0
FullRefundLeaves w s =
    ((create_refund silent_gateway "p1" (whole 500) none w).0 ≡ err not_completed)
    × (find (is_id "p1") (create_refund silent_gateway "p1" (whole 500) none w).1.payments
        ≡ some (record (payment_of "p1" 500 s) { updated_at = 7 }))

abbrev captured : WebhookPayload
captured = record {
  envelope = some (record {
    id = some "t1";
    order_id = some "o1";
    order_ref = none;
    amount_cents = some 500;
    success = some true;
    is_pending = some false;
  });
  transaction_id = none;
  order_id = none;
  payment_id = none;
  amount_cents = none;
  status = none;
}

abbrev receiver : Receiver
receiver = record {
  crypto = record { hmac_sha256 = λ k m. codes m; sha256 = λ b. b; from_hex = codes };
  decode = λ _. payload captured;
  webhook_secret = some "secret";
}

webhook : Unit {0}
unfolding handle_paymob_webhook validate_webhook_signature resolve_webhook_transaction_id
    resolve_webhook_order_id find_by_transaction_id find_delivered settle_delivery
    resolve_webhook_status resolve_webhook_amount_cents
webhook = tt

-- The delivery of the captured amount, which the payment may take.
capture : IsDelivery receiver "body" (some "body") one_pending
unfolding resolve_webhook_transaction_id resolve_webhook_order_id resolve_webhook_status
    resolve_webhook_amount_cents allows
capture = record {
  signed = record {
    secret = "secret";
    signature = "body";
    configured = refl;
    sent = refl;
    matches = refl;
  };
  body = captured;
  transaction = "t1";
  order = "o1";
  payment = payment_of "p1" 500 pending;
  decoded = refl;
  named = refl;
  ordered = refl;
  chosen = inr (refl, refl);
  open_status = refl;
  permitted = record { allowed = refl; captured = λ _. refl };
}

handle_outcome_example :
    Outcome receiver "body"
      (some "body")
      one_pending
      (handle_paymob_webhook receiver "body" (some "body") one_pending)
handle_outcome_example = handle_outcome receiver "body" (some "body") one_pending

-- The payment that the delivery leaves.
abbrev lost_payment : Payment
lost_payment = record (payment_of "p1" 500 completed) {
  paymob_transaction_id = some "t1";
  updated_at = 7;
}

capture_lost_example :
    (handle_paymob_webhook receiver "body" (some "body") one_pending
      ≡ (err uncaught, world_of (lost_payment ∷ [])))
    × ((q : Payment) × (find (λ x. column_is x.paymob_transaction_id "t1") (lost_payment ∷ [])
          ≡ some q)
        × (q.status ≡ completed))
    × (handle_paymob_webhook receiver "body" (some "body") (world_of (lost_payment ∷ []))
        ≡ (ok already_processed, world_of (lost_payment ∷ [])))
unfolding webhook capture
capture_lost_example = capture_lost receiver "body" (some "body") one_pending capture refl

refused_delivery :
    handle_paymob_webhook receiver "body" none one_pending
    ≡ (err (bad_request "Missing webhook signature"), one_pending)
unfolding webhook
refused_delivery = refl

refused_status : (update_status "p1" refunded one_pending).1 ≡ one_pending
refused_status =
    update_status_throws "p1" refunded one_pending
      {e = bad_request "Invalid payment status transition"} (unfold update_status in refl)

update_status_returns_example :
    let found = find (is_id "p1") one_completed.payments in
    let (answer, after) = update_status "p1" refunded one_completed in
    (is_ok answer ≡ may_update refunded found)
    × (find (is_id "p1") after.payments
        ≡ (if may_update refunded found then with_status refunded 7 found else found))
update_status_returns_example = update_status_returns "p1" refunded one_completed

get_admin_stats-IsTally_example :
    (stats : AdminStats) × (get_admin_stats one_pending ≡ (ok stats, one_pending))
    × IsTally one_pending stats
get_admin_stats-IsTally_example = get_admin_stats-IsTally one_pending
