-- ===== src/Rentals/Extensions/Paid.antt =====
-- A paid extension from end to end: `extendRental` of rentals.service.ts stores a payment with its
-- metadata, `updateStatus` of payments.service.ts completes it, and `handlePaymentCompleted` of
-- rentals.event-handler.ts reads the metadata back.
use hakawi.Common.{
  ℕ, zero, suc, ◌*◌, ◌<◌, ◌≡◌, refl, ap, sym, ◌∙◌, String, true, false, Option, none, some, arith,
  ltb, find, ok, err, Result, Option-cases, Bool-cases, inl, inr, is_ok, ◌==◌,
}
use hakawi.Payments.Store
use hakawi.Payments.Store.{field, completed, object, Payment, Document}
use hakawi.Payments.Repository
use hakawi.Payments.Service.{
  Gateway, whole, CheckoutResponse, paymob_initialize_payment, update_status, allows,
}
use hakawi.Payments.Statuses.{update_status_returns, may_update}
use hakawi.Payments.Checkout.{IsWaiting, IsRegistered, initialize_waits}
use hakawi.Rentals.Store.{
  active, same_rental_status, Rental, World, now, on_billing, rental_price_for_days,
  rental_currency, is_rental_duration_days,
}
use hakawi.Rentals.Repository.{is_id, is_live, find_by_id}
use hakawi.Rentals.Service.{
  live, extend_rental, PaymobConfig, PaymentMethodChoice, extension_metadata,
  resolve_paymob_payment_method_id,
}
use hakawi.Rentals.Events.{
  purpose, settle_purpose, apply_extension, parse_metadata, handle_payment_completed,
}
use hakawi.Rentals.Extensions.{
  row_of, extended, is_entitled, apply_extension-effect, offered_positive,
}

settle_extension :
    (b i u : String) (days : ℕ) (choice : Option PaymentMethodChoice) (w : World)
    → (i == "") ≡ false
    → 0 < days
    → let meta = extension_metadata b i days choice in
      settle_purpose (purpose meta) u meta w ≡ apply_extension u (some i) (some days) w
unfolding settle_purpose purpose field
settle_extension b i u (suc n) choice w h d = rw h refl
settle_extension b i u zero choice w h d = ground (arith, d)

live_row :
    (o : Option Rental) {r : Rental}
    → live o ≡ some r
    → (o ≡ some r) × (is_live r.deleted_at ≡ true)
live_row o h = (ground arith, ground arith)

-- A payment with the metadata of an extension, when it completes, asks for that extension.
handle_extension :
    (p b i u : String) (days : ℕ) (choice : Option PaymentMethodChoice) (row : Payment) (w : World)
    → (i == "") ≡ false
    → 0 < days
    → find (Repository.is_id p) w.billing.payments ≡ some row
    → row.user_id ≡ u
    → row.metadata ≡ some (object (extension_metadata b i days choice))
    → handle_payment_completed p w ≡ apply_extension u (some i) (some days) w
unfolding handle_payment_completed Repository.find_by_id parse_metadata
handle_extension p b i u days choice row w named positive found owner kept =
    rw found (rw (owner, kept) (settle_extension b i u days choice w named positive))

registered :
    (u : String) (meta : Option Document) (o : Result CheckoutResponse × Store.World)
    {c : CheckoutResponse}
    → IsRegistered u meta o
    → o.0 ≡ ok c
    → IsWaiting c.payment_id u meta o.1
registered u meta (ok d, v) {c} waits e = let same : d ≡ c = cc e in rw same at waits
registered u meta (err f, v) waits e = absurd (cc e)

-- A payment that waits for the gateway takes the status completed, and keeps its user and metadata.
completes :
    (p u : String) (meta : Option Document) (b : Store.World)
    → IsWaiting p u meta b
    → let (answer, after) = update_status p completed b in
      (is_ok answer ≡ true)
      × ((row : Payment) × (find (Repository.is_id p) after.payments ≡ some row)
          × (row.user_id ≡ u)
          × (row.metadata ≡ meta))
unfolding allows
completes p u meta b waits =
    let (answer, after) = update_status_returns p completed b in
    let may : may_update completed (find (Repository.is_id p) b.payments) ≡ true =
      rw waits.found (rw (waits.undeleted, waits.waiting) refl) in
    (
      answer ∙ may,
      (
        record waits.row { status = completed; updated_at = b.now },
        after ∙ rw (may, waits.found) refl,
        waits.owner,
        waits.kept,
      ),
    )

module _ (g : Gateway) (config : Option PaymobConfig) (i : String) (days : ℕ) (u : String)
    (choice : Option PaymentMethodChoice) (w : World) where
  -- The charge of an extension of this rental.
  abbrev charged : Rental → Result CheckoutResponse × World
  charged r =
      on_billing
        (paymob_initialize_payment g u (whole (rental_price_for_days days)) rental_currency
          (some (extension_metadata r.book_id i days choice))
          (resolve_paymob_payment_method_id config choice))
        w

  -- An extension that is not refused charges the owner of a rental that is below its cap.
  record IsStarted : Type 0 where
    row : Rental
    found : row_of i w ≡ some row
    undeleted : is_live row.deleted_at ≡ true
    entitled : is_entitled u row ≡ true
    offered : is_rental_duration_days days ≡ true
    started : extend_rental g config i days u choice w ≡ charged row

  extend_started :
      {c : CheckoutResponse} → (extend_rental g config i days u choice w).0 ≡ ok c → IsStarted
  unfolding extend_rental rental_price_for_days find_by_id
  extend_started h = elim (Option-cases (live (find (is_id i) w.rentals))) [
    | inl missing ↦ absurd (ground arith)
    | inr (r, f) ↦ elim (Bool-cases (r.user_id == u)) [
      | inr strange ↦ absurd (ground arith)
      | inl own ↦ elim (Bool-cases (same_rental_status r.status active)) [
        | inr over ↦ absurd (ground arith)
        | inl running ↦ elim (Bool-cases (ltb r.extended_count r.max_extensions)) [
          | inr capped ↦ absurd (ground arith)
          | inl free ↦ elim (Bool-cases (is_rental_duration_days days)) [
            | inr odd ↦ absurd (ground arith)
            | inl offered ↦
                let positive : ltb 0 (1000 * days) ≡ true =
                  ground (arith, offered_positive days offered) in
                record {
                  row = r;
                  found = (live_row _ f).0;
                  undeleted = (live_row _ f).1;
                  entitled = ground arith;
                  offered = offered;
                  started = rw f (rw (own, running, free, offered) (rw positive refl));
                }
          ]
        ]
      ]
    ]
  ]

  -- A reader is charged for an extension of a rental, under an id that no payment has; the payment is
  -- marked completed, and its event is handled: the rental of that id, as it was before the charge,
  -- ends the paid days later and counts one more extension. Nothing on this way fails. The id of the
  -- rental is not empty.
  pub paid_extension_applies :
      {c : CheckoutResponse}
      → (i == "") ≡ false
      → find (Repository.is_id (Repository.fresh_id w.billing)) w.billing.payments ≡ none
      → (extend_rental g config i days u choice w).0 ≡ ok c
      → let after = (extend_rental g config i days u choice w).1 in
        let (answer, paid) = on_billing (update_status c.payment_id completed) after in
        let (handled, final) = handle_payment_completed c.payment_id paid in
        (r : Rental) × (row_of i w ≡ some r)
        × (is_ok answer ≡ true)
        × (handled ≡ ok tt)
        × (row_of i final ≡ some (extended days (now paid) r r))
  paid_extension_applies {c} named fresh h =
      let s = extend_started h in
      let meta = extension_metadata s.row.book_id i days choice in
      let billed = ap (λ o. o.1.billing) s.started in
      let waits =
        registered u (some (object meta)) _
          (initialize_waits g u (whole (rental_price_for_days days)) rental_currency (some meta)
            (resolve_paymob_payment_method_id config choice) w.billing fresh)
          (sym (ap (λ o. o.0) s.started) ∙ h) in
      let (answer, (row, found, owner, kept)) =
        completes c.payment_id u (some (object meta)) _ (rw (sym billed) at waits) in
      let paid =
        (on_billing (update_status c.payment_id completed)
          (extend_rental g config i days u choice w).1).1 in
      let same = ap (λ o. row_of i o.1) s.started ∙ s.found in
      let (done, moved, _) = apply_extension-effect i u days s.row paid same s.undeleted in
      let handled =
        handle_extension c.payment_id s.row.book_id i u days choice row paid named
          (offered_positive days s.offered) found owner kept in
      (
        s.row,
        s.found,
        answer,
        ap (λ o. o.0) handled ∙ done,
        ap (λ o. row_of i o.1) handled ∙ moved ∙ rw s.entitled refl,
      )
