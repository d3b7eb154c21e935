-- ===== src/Rentals/Events.antt =====
-- backend/src/modules/rentals/events/rentals.event-handler.ts.
use hakawi.Common.{
  ℕ, zero, suc, ◌+◌, String, Bool, false, Option, none, some, List, [], ◌&&◌, ◌||◌, ◌==◌, ltb,
  if◌then◌else◌, Exec, pure, require, ◌>>=◌, ◌>>◌, not_found,
}
use hakawi.Payments.Store.{Value, Document, not_json, scalar, object, field, as_text, as_number}
use hakawi.Payments.Repository
use hakawi.Rentals.Store.{
  active, returned, expired, same_rental_status, Rental, rental_created, rental_extended, World,
  on_billing, add_days,
}
use hakawi.Rentals.Repository.{
  find_by_id, find_by_user_and_book, create, update_rental, create_extension,
}
use hakawi.Rentals.Service.{live, announce, expire}

-- `parseMetadata`.
unfoldable pub parse_metadata : Option Document → List (String × Value)
parse_metadata none = []
parse_metadata (some not_json) = []
parse_metadata (some scalar) = []
parse_metadata (some (object fs)) = fs

-- A text that is there and not empty.
abbrev pub usable_text : Option String → Option String
usable_text none = none
usable_text (some s) = if s == "" then none else some s

-- A number of days above 0.
abbrev pub usable_days : Option ℕ → Option ℕ
usable_days none = none
usable_days (some zero) = none
usable_days (some (suc n)) = some (suc n)

abbrev pub text_of : String → List (String × Value) → Option String
text_of k meta = usable_text (as_text (field k meta))

abbrev pub days_of : String → List (String × Value) → Option ℕ
days_of k meta = usable_days (as_number (field k meta))

-- `meta.type`, read as one of the two words that the handlers look for.
pub data Purpose : Type 0 where
  rental rental_extension something_else : Purpose

abbrev pub purpose_of : Option String → Purpose
purpose_of none = something_else
purpose_of (some t) =
    if t == "rental_extension"
    then rental_extension
    else if t == "rental"
    then rental
    else something_else

unfoldable pub purpose : List (String × Value) → Purpose
unfolding field
purpose meta = purpose_of (as_text (field "type" meta))

-- `existing && existing.status === 'active'`.
abbrev pub is_active : Option Rental → Bool
is_active none = false
is_active (some r) = same_rental_status r.status active

unfoldable pub grant : String → String → ℕ → Exec World (Unit {0})
unfolding create announce
grant user_id book_id days = do
  row ← create (record { user_id = user_id; book_id = book_id; duration_days = some days })
  announce (rental_created row.id user_id book_id)

unfoldable pub grant_unless_active : String → Option String → Option ℕ → Exec World (Unit {0})
unfolding find_by_user_and_book grant
grant_unless_active user_id none days = pure tt
grant_unless_active user_id (some book_id) none = pure tt
grant_unless_active user_id (some book_id) (some days) = do
  existing ← find_by_user_and_book user_id book_id
  if is_active existing then pure tt else grant user_id book_id days

unfoldable pub extend_found : String → ℕ → Option Rental → String → Exec World (Unit {0})
unfolding create_extension update_rental announce
extend_found i days none user_id = pure tt
extend_found i days (some r) user_id =
    if (r.user_id == user_id) && ltb r.extended_count r.max_extensions
    then (do
      create_extension i r.end_date (add_days r.end_date days) days
      update_rental i (λ s. record s {
        end_date = add_days r.end_date days;
        extended_count = r.extended_count + 1;
      })
      announce (rental_extended i))
    else pure tt

unfoldable pub apply_extension : String → Option String → Option ℕ → Exec World (Unit {0})
unfolding find_by_id extend_found
apply_extension user_id none days = pure tt
apply_extension user_id (some i) none = pure tt
apply_extension user_id (some i) (some days) = do
  found ← find_by_id i
  extend_found i days (live found) user_id

-- What a completed payment does, by what its metadata says it was for.
unfoldable pub settle_purpose : Purpose → String → List (String × Value) → Exec World (Unit {0})
unfolding grant_unless_active apply_extension field
settle_purpose rental_extension user_id meta =
    apply_extension user_id (text_of "rentalId" meta) (days_of "extensionDays" meta)
settle_purpose rental user_id meta =
    grant_unless_active user_id (text_of "bookId" meta) (days_of "durationDays" meta)
settle_purpose something_else user_id meta = pure tt

unfoldable pub handle_payment_completed : String → Exec World (Unit {0})
unfolding settle_purpose parse_metadata Repository.find_by_id purpose
handle_payment_completed payment_id = do
  found ← on_billing (Repository.find_by_id payment_id)
  payment ← require (not_found "Payment not found while granting a rental") found
  settle_purpose (purpose (parse_metadata payment.metadata)) payment.user_id
      (parse_metadata payment.metadata)

-- The rental that a refund ends: neither expired nor returned.
unfoldable pub end_unless_ended : Option Rental → Exec World (Unit {0})
unfolding expire
end_unless_ended none = pure tt
end_unless_ended (some r) =
    if same_rental_status r.status expired || same_rental_status r.status returned
    then pure tt
    else expire r.id

unfoldable pub revoke : String → Option String → Exec World (Unit {0})
unfolding find_by_user_and_book end_unless_ended
revoke user_id none = pure tt
revoke user_id (some book_id) = do
  found ← find_by_user_and_book user_id book_id
  end_unless_ended (live found)

unfoldable pub revoke_purpose : Purpose → String → List (String × Value) → Exec World (Unit {0})
unfolding revoke field
revoke_purpose rental user_id meta = revoke user_id (text_of "bookId" meta)
revoke_purpose _ user_id meta = pure tt

unfoldable pub handle_refund_completed : String → Exec World (Unit {0})
unfolding revoke_purpose parse_metadata Repository.find_by_id purpose
handle_refund_completed payment_id = do
  found ← on_billing (Repository.find_by_id payment_id)
  payment ← require (not_found "Payment not found while revoking a rental") found
  revoke_purpose (purpose (parse_metadata payment.metadata)) payment.user_id
      (parse_metadata payment.metadata)
