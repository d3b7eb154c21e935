-- ===== src/Rentals/Extensions.antt =====
-- The paid extension of a rental: `quoteExtension` and `extendRental` of rentals.service.ts, and
-- `applyExtension` of rentals.event-handler.ts.
pub mod Paid
use hakawi.Common.{
  ℕ, zero, suc, ◌+◌, ◌*◌, ◌<◌, ◌≡◌, refl, ◌∙◌, String, Bool, true, false, Option, some, List, [],
  ◌∷◌, ◌++◌, ◌&&◌, ◌==◌, arith, if◌then◌else◌, ltb, find, update, ok, err, Result, Failure,
  not_found, forbidden, bad_request, Option-cases, Bool-cases, inl, inr,
}
use hakawi.Payments.Store.{field}
use hakawi.Payments.Service.{Gateway, whole, CheckoutResponse, paymob_initialize_payment}
use hakawi.Rentals.Store.{
  active, same_rental_status, Rental, World, now, on_billing, add_days, rental_price_for_days,
  rental_currency, is_rental_duration_days,
}
use hakawi.Rentals.Repository.{
  is_id, is_live, find_by_id, create_extension, extension_row, update_rental,
}
use hakawi.Rentals.Service.{
  live, announce, extend_rental, quote_extension, Quote, PaymobConfig, PaymentMethodChoice,
  extension_metadata, resolve_paymob_payment_method_id,
}
use hakawi.Rentals.Events.{purpose, settle_purpose, apply_extension, extend_found}

-- The days that are offered are positive.
pub offered_positive : (days : ℕ) → is_rental_duration_days days ≡ true → 0 < days
offered_positive days h = ground (arith, h)

module _ (g : Gateway) (config : Option PaymobConfig) (i : String) (days : ℕ) (u : String)
    (choice : Option PaymentMethodChoice) (w : World) where
  -- The charge of what was quoted.
  abbrev pub charge : Result Quote × World → Result CheckoutResponse × World
  charge (err e, v) = (err e, v)
  charge (ok q, v) =
      on_billing
        (paymob_initialize_payment g u (whole q.amount) q.currency
          (some (extension_metadata q.book_id q.rental_id q.extension_days choice))
          (resolve_paymob_payment_method_id config choice))
        v

  -- The amount of the quote, if there is one, is above 0.
  abbrev pub IsPositive : Result Quote → Type 0
  IsPositive (err e) = Unit
  IsPositive (ok q) = 0 < q.amount

  -- An extension does what its quote says: refused with the quote's error before anything is written,
  -- or a payment started of the quoted amount and currency, which is above 0, for the quoted rental,
  -- book and number of days.
  pub extend-quote :
      (extend_rental g config i days u choice w ≡ charge (quote_extension i days u w))
      × IsPositive (quote_extension i days u w).0
  unfolding extend_rental quote_extension rental_price_for_days find_by_id
  extend-quote = elim (Option-cases (live (find (is_id i) w.rentals))) [
    | inl missing ↦ rw missing (refl, tt)
    | inr (r, f) ↦ elim (Bool-cases (r.user_id == u)) [
      | inr strange ↦ rw f (rw strange (refl, tt))
      | inl own ↦ elim (Bool-cases (same_rental_status r.status active)) [
        | inr over ↦ rw f (rw (own, over) (refl, tt))
        | inl running ↦ elim (Bool-cases (ltb r.extended_count r.max_extensions)) [
          | inr capped ↦ rw f (rw (own, running, capped) (refl, tt))
          | inl free ↦ elim (Bool-cases (is_rental_duration_days days)) [
            | inr odd ↦ rw f (rw (own, running, free, odd) (refl, tt))
            | inl offered ↦
                let positive : ltb 0 (1000 * days) ≡ true =
                  ground (arith, offered_positive days offered) in
                rw f (
                  rw (own, running, free, offered)
                    (rw positive refl, ground (arith, offered_positive days offered)))
          ]
        ]
      ]
    ]
  ]

-- The row under an id, in a table.
abbrev pub row_of : String → World → Option Rental
row_of i w = find (is_id i) w.rentals

-- What an extension by these days makes of a row at this time.
abbrev pub extended : ℕ → ℕ → Rental → Rental → Rental
extended days time r s = record s {
  end_date = add_days r.end_date days;
  extended_count = r.extended_count + 1;
  updated_at = time;
}

find-update_same :
    (i : String) (f : Rental → Rental) (rs : List Rental) (r : Rental)
    → ((x : Rental) → (f x).id ≡ x.id)
    → find (is_id i) rs ≡ some r
    → find (is_id i) (update (is_id i) f rs) ≡ some (f r)
find-update_same i f [] r k h = ground arith
find-update_same i f (x ∷ rs) r k h = ground (arith, k x, find-update_same i f rs r k)

-- The payer owns the rental, and the rental is below its cap.
abbrev pub is_entitled : String → Rental → Bool
is_entitled u r = (r.user_id == u) && ltb r.extended_count r.max_extensions

-- A paid extension of a rental that is there moves its end by the paid days, from its present end, counts
-- the extension and files one row about it when the payer owns the rental and the cap is not reached;
-- else the rental and the table of extensions stay as they are. It never fails.
pub apply_extension-effect :
    (i u : String) (days : ℕ) (r : Rental) (w : World)
    → row_of i w ≡ some r
    → is_live r.deleted_at ≡ true
    → let (answer, after) = apply_extension u (some i) (some days) w in
      (answer ≡ ok tt)
      × (row_of i after ≡ some (if is_entitled u r then extended days (now w) r r else r))
      × (after.extensions ≡ (
          if is_entitled u r
          then w.extensions ++ extension_row i r.end_date (add_days r.end_date days) days w ∷ []
          else w.extensions))
unfolding apply_extension find_by_id extend_found create_extension update_rental announce
apply_extension-effect i u days r w f l = elim (Bool-cases (is_entitled u r)) [
  | inl t ↦ rw f (
      rw l
        (rw t (refl, find-update_same i (extended days (now w) r) w.rentals r (λ x. refl) f, refl)))
  | inr t ↦ rw f (rw l (rw t (refl, f, refl)))
]
