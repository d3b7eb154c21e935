-- ===== src/Rentals/Service.antt =====
-- backend/src/modules/rentals/rentals.service.ts, and `resolvePaymobPaymentMethodId` of
-- backend/src/config/paymob.config.ts.
use hakawi.Common.{
  or_else, ℕ, String, Option, none, some, List, [], ◌∷◌, ◌++◌, ◌&&◌, ◌||◌, not, ◌==◌, ltb,
  if◌then◌else◌, Exec, pure, require, check, modify, gets, ◌>>=◌, ◌>>◌, not_found, forbidden,
  bad_request, internal,
}
use hakawi.Common.Text.{Text}
use hakawi.Payments.Store.{Value, text, number}
use hakawi.Payments.Service.{Gateway, CheckoutResponse, whole, paymob_initialize_payment}
use hakawi.Rentals.Store.{
  RentalStatus, active, returned, expired, same_rental_status, Rental, RentalEvent, rental_returned,
  rental_expired, World, now, on_billing, rental_price_for_days, is_rental_duration_days,
  rental_currency,
}
use hakawi.Rentals.Repository.{
  is_live, find_by_id, find_by_user_and_book, find_all, find_overdue, update_rental,
}

unfoldable pub announce : RentalEvent → Exec World (Unit {0})
announce e = modify (λ w. record w { announced = w.announced ++ e ∷ [] })

unfoldable pub invalidate_rental_cache : String → Exec World (Unit {0})
invalidate_rental_cache i = modify (λ w. record w { retired = w.retired ++ i ∷ [] })

-- `!rental || rental.deletedAt` taken as no row.
abbrev pub live : Option Rental → Option Rental
live none = none
live (some r) = if is_live r.deleted_at then some r else none

-- `userId && rental.userId !== userId`, by the caller that is named, if one is.
abbrev pub check_reader : Option String → Rental → Exec World (Unit {0})
check_reader none r = pure tt
check_reader (some u) r =
    check ((u == "") || (r.user_id == u)) (forbidden "You do not have access to this rental")

-- The loader that `findById` gives to the cache.
unfoldable pub load_rental : String → Option String → Exec World Rental
unfolding find_by_id
load_rental i user_id = do
  found ← find_by_id i
  loaded ← require (not_found "Rental not found") (live found)
  check_reader user_id loaded
  pure loaded

-- `cache.getOrSet`, by the copy that the cache holds.
abbrev pub get_or_load : Option Rental → Exec World Rental → Exec World Rental
get_or_load (some r) load = pure r
get_or_load none load = load

-- `findById` of the service.
unfoldable pub read_rental : Option Rental → String → Option String → Exec World Rental
unfolding load_rental
read_rental cached i user_id = do
  rental ← get_or_load cached (load_rental i user_id)
  check_reader user_id rental
  pure rental

pub record RentalsList : Type 0 where
  pub rentals : List Rental
  pub total : ℕ
  pub page : ℕ
  pub limit : ℕ

-- `findMyRentals`: the page and the limit are not handed to the repository.
unfoldable pub find_my_rentals :
    String → Option RentalStatus → Option ℕ → Option ℕ → Exec World RentalsList
unfolding find_all
find_my_rentals user_id status page limit = do
  found ← find_all (record { user_id = some user_id; status = status; page = none; limit = none })
  pure (record {
    rentals = found.0;
    total = found.1;
    page = or_else page 1;
    limit = or_else limit 20;
  })

-- The row that lets a reader in at this time, of the row that was found.
unfoldable pub entitling : ℕ → Option Rental → Option Rental
entitling time none = none
entitling time (some r) =
    if is_live r.deleted_at && (same_rental_status r.status active && ltb time r.end_date)
    then some r
    else none

unfoldable pub find_active_rental_for_book : String → String → Exec World (Option Rental)
unfolding find_by_user_and_book entitling
find_active_rental_for_book user_id book_id = do
  rental ← find_by_user_and_book user_id book_id
  time ← gets now
  pure (entitling time rental)

pub data PaymentMethodChoice : Type 0 where
  card wallet : PaymentMethodChoice
  other_choice : String → PaymentMethodChoice

abbrev pub choice_word : PaymentMethodChoice → String
choice_word card = "card"
choice_word wallet = "wallet"
choice_word (other_choice s) = s

-- The two ids of `PaymobConfig` that the resolver reads.
pub record PaymobConfig : Type 0 where
  pub card_payment_method_id : Option String
  pub wallet_payment_method_id : Option String

unfoldable pub resolve_paymob_payment_method_id :
    Option PaymobConfig → Option PaymentMethodChoice → Option String
resolve_paymob_payment_method_id none choice = none
resolve_paymob_payment_method_id (some c) none = none
resolve_paymob_payment_method_id (some c) (some card) = c.card_payment_method_id
resolve_paymob_payment_method_id (some c) (some wallet) = c.wallet_payment_method_id
resolve_paymob_payment_method_id (some c) (some (other_choice s)) = none

abbrev choice_field : Option PaymentMethodChoice → List (String × Value)
choice_field none = []
choice_field (some c) = ("paymentMethod", text (choice_word c)) ∷ []

abbrev pub extension_metadata :
    String → String → ℕ → Option PaymentMethodChoice → List (String × Value)
extension_metadata book_id i days choice =
    ("rentalId", text i)
    ∷ ("bookId", text book_id)
    ∷ ("type", text "rental_extension")
    ∷ ("extensionDays", number days)
    ∷ choice_field choice

unfoldable pub extend_rental :
    Gateway
    → Option PaymobConfig
    → String
    → ℕ
    → String
    → Option PaymentMethodChoice
    → Exec World CheckoutResponse
unfolding find_by_id rental_price_for_days resolve_paymob_payment_method_id
    paymob_initialize_payment
extend_rental g config i extension_days user_id choice = do
  found ← find_by_id i
  rental ← require (not_found "Rental not found") (live found)
  check (rental.user_id == user_id) (forbidden "You do not have access to this rental")
  check (same_rental_status rental.status active) (forbidden "Cannot extend a non-active rental")
  check (ltb rental.extended_count rental.max_extensions)
      (forbidden "Maximum extensions reached for this rental")
  check (is_rental_duration_days extension_days) (bad_request "Invalid extension duration")
  check (ltb 0 (rental_price_for_days extension_days)) (internal "Rental pricing is misconfigured")
  on_billing (
      paymob_initialize_payment g user_id (whole (rental_price_for_days extension_days))
        rental_currency (some (extension_metadata rental.book_id i extension_days choice))
        (resolve_paymob_payment_method_id config choice))

pub record Quote : Type 0 where
  pub rental_id : String
  pub book_id : String
  pub extension_days : ℕ
  pub amount : ℕ
  pub currency : Text

unfoldable pub quote_extension : String → ℕ → String → Exec World Quote
unfolding find_by_id rental_price_for_days
quote_extension i extension_days user_id = do
  found ← find_by_id i
  rental ← require (not_found "Rental not found") (live found)
  check (rental.user_id == user_id) (forbidden "You do not have access to this rental")
  check (same_rental_status rental.status active) (forbidden "Cannot extend a non-active rental")
  check (ltb rental.extended_count rental.max_extensions)
      (forbidden "Maximum extensions reached for this rental")
  check (is_rental_duration_days extension_days) (bad_request "Invalid extension duration")
  pure (record {
    rental_id = i;
    book_id = rental.book_id;
    extension_days = extension_days;
    amount = rental_price_for_days extension_days;
    currency = rental_currency;
  })

unfoldable pub return_rental : String → String → Exec World (Option Rental)
unfolding find_by_id update_rental invalidate_rental_cache announce
return_rental i user_id = do
  found ← find_by_id i
  rental ← require (not_found "Rental not found") (live found)
  check (rental.user_id == user_id) (forbidden "You do not have access to this rental")
  check (not (same_rental_status rental.status returned))
      (forbidden "Rental has already been returned")
  time ← gets now
  updated ← update_rental i (λ r. record r { status = returned; returned_at = some time })
  invalidate_rental_cache i
  announce (rental_returned i)
  pure updated

-- What `checkAndExpireOverdue` does to one rental.
unfoldable pub expire : String → Exec World (Unit {0})
unfolding update_rental invalidate_rental_cache announce
expire i = do
  update_rental i (λ r. record r { status = expired })
  invalidate_rental_cache i
  announce (rental_expired i)

unfoldable pub expire_each : List Rental → Exec World (Unit {0})
unfolding expire
expire_each [] = pure tt
expire_each (r ∷ rs) = do expire r.id; expire_each rs

unfoldable pub check_and_expire_overdue : Exec World (Unit {0})
unfolding find_overdue expire_each
check_and_expire_overdue = do overdue ← find_overdue; expire_each overdue
