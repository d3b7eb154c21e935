-- ===== src/Rentals/Store.antt =====
-- The rows of interfaces/rentals-repository.interface.ts, the events of the module, and the prices of
-- packages/shared-types/src/book.ts.
use hakawi.Common.{
  ℕ, ◌+◌, ◌*◌, String, Bool, true, false, Option, List, [], ◌∷◌, ◌==◌, eqb, any, Exec,
}
use hakawi.Common.Text.{Text, codes}
use hakawi.Payments.Store

-- The status words of a rental; `other` is any other word.
pub data RentalStatus : Type 0 where
  active returned expired : RentalStatus
  other : String → RentalStatus

-- `===` on two status words.
abbrev pub same_rental_status : RentalStatus → RentalStatus → Bool
same_rental_status active active = true
same_rental_status returned returned = true
same_rental_status expired expired = true
same_rental_status (other a) (other b) = a == b
same_rental_status _ _ = false

-- A date is its time in milliseconds since the epoch.
pub record Rental : Type 0 where
  pub id : String
  pub user_id : String
  pub book_id : String
  pub status : RentalStatus
  pub start_date : ℕ
  pub end_date : ℕ
  pub extended_count : ℕ
  pub max_extensions : ℕ
  pub returned_at : Option ℕ
  pub deleted_at : Option ℕ
  pub created_at : ℕ
  pub updated_at : ℕ

pub record CreateRentalInput : Type 0 where
  pub user_id : String
  pub book_id : String
  pub duration_days : Option ℕ

pub record RentalExtension : Type 0 where
  pub id : String
  pub rental_id : String
  pub previous_end_date : ℕ
  pub new_end_date : ℕ
  pub extension_days : ℕ
  pub created_at : ℕ

pub data RentalEvent : Type 0 where
  rental_created : String → String → String → RentalEvent
  rental_returned rental_expired rental_extended : String → RentalEvent

-- The module's tables and logs, beside the world of the payments, whose clock and id draws it shares.
pub record World : Type 0 where
  pub billing : Store.World
  pub rentals : List Rental
  pub extensions : List RentalExtension
  pub announced : List RentalEvent
  pub retired : List String

-- `Date.now()`.
abbrev pub now : World → ℕ
now w = w.billing.now

-- A method of the payments module, run on its part of the world.
abbrev pub on_billing : {A : Type 0} → Exec Store.World A → Exec World A
on_billing m w = let (r, b) = m w.billing in (r, record w { billing = b })

-- `RENTAL_DURATION_DAYS`.
abbrev pub rental_duration_days : List ℕ
rental_duration_days = 1 ∷ 3 ∷ 7 ∷ 14 ∷ 30 ∷ 90 ∷ []

abbrev pub is_rental_duration_days : ℕ → Bool
is_rental_duration_days n = any (eqb n) rental_duration_days

abbrev pub rental_currency : Text
rental_currency = codes "EGP"

abbrev pub rental_price_per_day_piasters : ℕ
rental_price_per_day_piasters = 1000

abbrev pub max_rental_extensions : ℕ
max_rental_extensions = 3

unfoldable pub rental_price_for_days : ℕ → ℕ
rental_price_for_days days = rental_price_per_day_piasters * days

-- `date.setDate(date.getDate() + n)` in a zone without changes of the clock.
abbrev pub add_days : ℕ → ℕ → ℕ
add_days date n = date + n * 86400000
