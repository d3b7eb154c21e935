-- ===== src/Payments/Checkout.antt =====
-- What `paymobInitializePayment` of payments.service.ts leaves in the table of the payments.
use hakawi.Common.{
  ℕ, ◌≡◌, refl, ◌⊎◌, inl, inr, String, Option, none, some, List, [], ◌∷◌, ◌++◌, arith, find, Result,
  ok, err, Failure, eq_refl, ◌>>=◌, pure,
}
use hakawi.Common.Text.{Text}
use hakawi.Payments.Store.{processing, Payment, Value, Document, World}
use hakawi.Payments.Repository.{is_id, fresh_id, create}
use hakawi.Payments.Service.{
  emit, Checkout, Gateway, Number, CheckoutResponse, Reply, replied, threw, validate_currency,
  validate_amount, register_paymob_checkout, create_payment, paymob_initialize_payment, stringified,
  with_checkout,
}
use hakawi.Payments.Statuses.{find-change_payment}

-- A payment of this user, with this metadata, that waits for the gateway.
pub record IsWaiting (i u : String) (meta : Option Document) (w : World) : Type 0 where
  pub row : Payment
  pub found : find (is_id i) w.payments ≡ some row
  pub owner : row.user_id ≡ u
  pub kept : row.metadata ≡ meta
  pub waiting : row.status ≡ processing
  pub undeleted : row.deleted_at ≡ none

-- If the checkout was registered, its payment waits.
abbrev pub IsRegistered : String → Option Document → Result CheckoutResponse × World → Type 0
IsRegistered u meta (ok c, after) = IsWaiting c.payment_id u meta after
IsRegistered u meta (err e, after) = Unit

find_appended :
    (i : String) (p : Payment) (ps : List Payment)
    → p.id ≡ i
    → find (is_id i) ps ≡ none
    → find (is_id i) (ps ++ p ∷ []) ≡ some p
find_appended i p [] same fresh = ground (arith, same, eq_refl i)
find_appended i p (q ∷ ps) same fresh = ground (arith, find_appended i p ps same)

Result-cases : {A : Type 0} (r : Result A) → ((a : A) × (r ≡ ok a)) ⊎ ((e : Failure) × (r ≡ err e))
Result-cases (ok a) = inl (a, refl)
Result-cases (err e) = inr (e, refl)

register_waits :
    (g : Gateway) (p : Payment) (n : ℕ) (currency : Text) (method : Option String) (w : World)
    → find (is_id p.id) w.payments ≡ some p
    → p.deleted_at ≡ none
    → IsRegistered p.user_id p.metadata
        ((register_paymob_checkout g p n currency method >>= λ initialized. pure initialized.1) w)
unfolding register_paymob_checkout
register_waits g p n currency method w found kept = go _ refl
  where
    go :
        (a : Reply Checkout)
        → g.create_checkout (record {
          amount_cents = n;
          currency = currency;
          merchant_order_id = p.id;
          payment_method_id = method;
        })
          ≡ a
        → IsRegistered p.user_id p.metadata (
            (register_paymob_checkout g p n currency method >>= λ initialized. pure initialized.1)
              w)
    go (threw t) e = rw (e, register_paymob_checkout) tt
    go (replied c) e =
        let moved = find-change_payment p.id (with_checkout c) w (λ q. refl) {p = p} found in
        rw (e, register_paymob_checkout)
          (rw moved (record {
            row = record (with_checkout c p) { updated_at = w.now };
            found = moved;
            owner = refl;
            kept = refl;
            waiting = refl;
            undeleted = kept;
          }))

-- A checkout that is registered leaves a payment of the user, with the metadata, that waits.
pub initialize_waits :
    (g : Gateway) (u : String) (amount : Number) (currency : Text)
    (meta : Option (List (String × Value))) (method : Option String) (w : World)
    → find (is_id (fresh_id w)) w.payments ≡ none
    → IsRegistered u
        (stringified meta)
        (paymob_initialize_payment g u amount currency meta method w)
unfolding paymob_initialize_payment create_payment create emit
initialize_waits g u amount currency meta method w fresh =
    elim (Result-cases (validate_currency (some currency))) [
      | inr (e, bad) ↦ rw bad tt
      | inl (code, good) ↦ elim (Result-cases (validate_amount amount)) [
        | inr (e, bad) ↦ rw (good, bad) tt
        | inl (n, whole_amount) ↦ elim (Result-cases (validate_currency (some code))) [
          | inr (e, bad) ↦ rw (good, whole_amount, bad) tt
          | inl (again, twice) ↦
              rw (good, whole_amount, twice)
                (register_waits g _ n again method _ (find_appended _ _ w.payments refl fresh) refl)
        ]
      ]
    ]
