-- ===== src/Rentals/Tests.antt =====
-- Concrete rentals: the theorems of this folder at inputs that meet their hypotheses, and runs.
use hakawi.Common.{
  ℕ, ◌+◌, ◌*◌, ◌≤◌, ◌<◌, ◌≡◌, refl, String, true, none, some, List, [], ◌∷◌, arith, any, ok, is_ok,
}
use hakawi.Common.Text.{codes}
use hakawi.Payments.Store.{
  Status, completed, processing, text, number, Value, field, object, Payment,
}
use hakawi.Payments.Store
use hakawi.Payments.Repository
use hakawi.Rentals.Store.{active, Rental, World, now, rental_price_for_days, on_billing}
use hakawi.Rentals.Repository.{
  find_by_id, find_by_user_and_book, newest, later_of, create, extension_row,
}
use hakawi.Rentals.Service.{
  read_rental, load_rental, announce, find_active_rental_for_book, entitling,
}
use hakawi.Rentals.Events.{
  parse_metadata, purpose, handle_payment_completed, handle_refund_completed, apply_extension,
  settle_purpose, grant_unless_active, grant,
}
use hakawi.Payments.Service.{
  Gateway, threw, replied, CheckoutResponse, update_status, paymob_initialize_payment,
  create_payment, validate_currency, register_paymob_checkout,
}
use hakawi.Rentals.Service.{resolve_paymob_payment_method_id, card, extend_rental, quote_extension}
use hakawi.Rentals.Access.{IsPaidRental, access, refund_revokes}
use hakawi.Rentals.Grants.{granted_row, payment_grants, lapsed_payment_grants_nothing}
use hakawi.Rentals.Extensions.{
  row_of, extended, apply_extension-effect, extend-quote, charge, IsPositive,
}
use hakawi.Rentals.Extensions.Paid.{paid_extension_applies}
use hakawi.Rentals.History.{Request, payment_completed, makes_payment, serve, serve_all, pays_for}
use hakawi.Rentals.History.Backing.{access_is_paid}
use hakawi.Rentals.Reads.{read_rental-owner}

abbrev rental_meta : List (String × Value)
rental_meta = ("type", text "rental") ∷ ("bookId", text "b1") ∷ ("durationDays", number 7) ∷ []

abbrev paid : Payment
paid = record {
  id = "p1";
  user_id = "u1";
  amount = 7000;
  currency = some (codes "EGP");
  status = completed;
  payment_method = "paymob";
  paymob_order_id = none;
  paymob_payment_id = none;
  paymob_transaction_id = none;
  paymob_payment_key = none;
  paymob_iframe_url = none;
  paymob_accept_url = none;
  metadata = some (object rental_meta);
  description = none;
  deleted_at = none;
  created_at = 1;
  updated_at = 1;
}

abbrev billing_of : List Payment → Store.World
billing_of ps = record {
  payments = ps;
  refunds = [];
  transactions = [];
  now = 1000;
  ids = λ n. "r0";
  drawn = 0;
  emitted = [];
  invalidated = [];
}

abbrev world_of : List Payment → List Rental → World
world_of ps rs = record {
  billing = billing_of ps;
  rentals = rs;
  extensions = [];
  announced = [];
  retired = [];
}

abbrev row_until : ℕ → Rental
row_until t = record {
  id = "r0";
  user_id = "u1";
  book_id = "b1";
  status = active;
  start_date = 1;
  end_date = t;
  extended_count = 0;
  max_extensions = 2;
  returned_at = none;
  deleted_at = none;
  created_at = 1;
  updated_at = 1;
}

abbrev unrented : World
unrented = world_of (paid ∷ []) []

abbrev rented : World
rented = world_of (paid ∷ []) (row_until 5000 ∷ [])

abbrev lapsed : World
lapsed = world_of (paid ∷ []) (row_until 900 ∷ [])

unrented-IsPaidRental : IsPaidRental "p1" "b1" paid unrented
unfolding purpose parse_metadata field
unrented-IsPaidRental = record { stored = refl; for_rental = refl; for_book = refl }

rented-IsPaidRental : IsPaidRental "p1" "b1" paid rented
unfolding purpose parse_metadata field
rented-IsPaidRental = record { stored = refl; for_rental = refl; for_book = refl }

lapsed-IsPaidRental : IsPaidRental "p1" "b1" paid lapsed
unfolding purpose parse_metadata field
lapsed-IsPaidRental = record { stored = refl; for_rental = refl; for_book = refl }

refund_revokes_example :
    let after = (handle_refund_completed "p1" rented).1 in
    ((handle_refund_completed "p1" rented).0 ≡ ok tt)
    × (access "u1" "b1" after ≡ ok none)
    × (handle_refund_completed "p1" after ≡ (ok tt, after))
refund_revokes_example = refund_revokes "p1" "b1" paid rented rented-IsPaidRental

payment_grants_example :
    let after = (handle_payment_completed "p1" unrented).1 in
    (access "u1" "b1" after ≡ ok (some (granted_row "u1" "b1" 7 unrented)))
    × ((granted_row "u1" "b1" 7 unrented).end_date ≡ 1000 + 7 * 86400000)
    × (handle_payment_completed "p1" after ≡ (ok tt, after))
unfolding parse_metadata field newest
payment_grants_example =
    payment_grants "p1" "b1" 7 paid unrented unrented-IsPaidRental refl (omega arith) refl tt

lapsed_payment_grants_nothing_example :
    (handle_payment_completed "p1" lapsed ≡ (ok tt, lapsed))
    × (access "u1" "b1" (handle_payment_completed "p1" lapsed).1 ≡ ok none)
unfolding parse_metadata field newest later_of
lapsed_payment_grants_nothing_example =
    lapsed_payment_grants_nothing "p1" "b1" 7 paid (row_until 900) lapsed lapsed-IsPaidRental refl
      refl refl (omega arith)

-- A gateway that registers every checkout.
abbrev registering : Gateway
registering = record {
  create_checkout = λ c.
      replied (record { order_id = "o1"; payment_key = "k"; iframe_url = "i"; accept_url = "a" });
  refund_transaction = λ _ _. threw "down";
}

-- A rental, and no payment.
abbrev uncharged : World
uncharged = world_of [] (row_until 5000 ∷ [])

abbrev checkout : CheckoutResponse
checkout = record {
  payment_id = "r0";
  order_id = "o1";
  payment_key = "k";
  iframe_url = "i";
  accept_url = "a";
  status = processing;
}

charge_registered :
    (extend_rental registering none "r0" 7 "u1" (some card) uncharged).0 ≡ ok checkout
unfolding extend_rental find_by_id rental_price_for_days resolve_paymob_payment_method_id
    paymob_initialize_payment create_payment validate_currency register_paymob_checkout
charge_registered = refl

paid_extension_applies_example :
    let after = (extend_rental registering none "r0" 7 "u1" (some card) uncharged).1 in
    let (answer, paid) = on_billing (update_status "r0" completed) after in
    let (handled, final) = handle_payment_completed "r0" paid in
    (r : Rental) × (row_of "r0" uncharged ≡ some r)
    × (is_ok answer ≡ true)
    × (handled ≡ ok tt)
    × (row_of "r0" final ≡ some (extended 7 (now paid) r r))
paid_extension_applies_example =
    paid_extension_applies registering none "r0" 7 "u1" (some card) uncharged refl refl
      charge_registered

apply_extension-effect_example :
    let (answer, after) = apply_extension "u1" (some "r0") (some 7) rented in
    (answer ≡ ok tt)
    × (row_of "r0" after ≡ some (extended 7 1000 (row_until 5000) (row_until 5000)))
    × (after.extensions ≡ extension_row "r0" 5000 604805000 7 rented ∷ [])
apply_extension-effect_example =
    apply_extension-effect "r0" "u1" 7 (row_until 5000) rented refl refl

abbrev history : List Request
history = makes_payment paid ∷ payment_completed "p1" ∷ []

abbrev nothing_yet : World
nothing_yet = world_of [] []

history_grants :
    access "u1" "b1" (serve_all history nothing_yet) ≡ ok (some (granted_row "u1" "b1" 7 unrented))
unfolding serve_all serve handle_payment_completed Repository.find_by_id settle_purpose
    parse_metadata purpose field grant_unless_active find_by_user_and_book newest later_of grant
    create announce find_active_rental_for_book entitling
history_grants = refl

access_is_paid_example :
    let after = serve_all history nothing_yet in
    let row = granted_row "u1" "b1" 7 unrented in
    (any (pays_for "u1" "b1") after.billing.payments ≡ true)
    × (row.status ≡ active)
    × (now after < row.end_date)
    × (row.extended_count ≤ 2)
access_is_paid_example =
    access_is_paid history nothing_yet "u1" "b1" (granted_row "u1" "b1" 7 unrented) refl
      history_grants

read_rental-owner_example :
    ((row_until 5000).user_id ≡ "u1") × ((read_rental none "r0" (some "u1") rented).1 ≡ rented)
unfolding read_rental load_rental find_by_id
read_rental-owner_example = read_rental-owner none "r0" "u1" (row_until 5000) rented refl refl

abbrev down : Gateway
down = record { create_checkout = λ _. threw "down"; refund_transaction = λ _ _. threw "down" }

extend-quote_example :
    (extend_rental down none "r0" 7 "u1" (some card) rented
      ≡ charge down none "r0" 7 "u1" (some card) rented (quote_extension "r0" 7 "u1" rented))
    × IsPositive down none "r0" 7 "u1" (some card) rented (quote_extension "r0" 7 "u1" rented).0
extend-quote_example = extend-quote down none "r0" 7 "u1" (some card) rented
