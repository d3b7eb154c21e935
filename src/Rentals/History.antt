-- ===== src/Rentals/History.antt =====
-- What holds of the rentals after any sequence of the operations that change them: the two event
-- handlers, `returnRental` and `checkAndExpireOverdue`, with payments made and time passing in between.
pub mod Steps
pub mod Backing
use hakawi.Common.{
  filter, ℕ, zero, suc, ◌+◌, ◌*◌, ◌≤◌, ◌<◌, ◌≡◌, refl, sym, ap, ◌∙◌, String, Bool, true, false,
  Option, none, some, List, [], ◌∷◌, ◌++◌, ◌&&◌, ◌||◌, ◌==◌, arith, ltb, find, update, any, All,
  Exec, ok, err, Result, eq_refl, eq_iff, Failure, pure, modify, ◌>>=◌, ◌>>◌, any_of_find,
  Option-cases, Bool-cases, inl, inr, not,
}
use hakawi.Payments.Store.{Value, Payment, Document}
use hakawi.Payments.Repository
use hakawi.Rentals.Store.{
  active, returned, expired, same_rental_status, Rental, World, now, add_days,
}
use hakawi.Rentals.Repository.{
  is_id, is_live, later_of, newest, is_rental_of, find_by_id, find_by_user_and_book, find_overdue,
  is_overdue, create, create_extension, update_rental, rental_row,
}
use hakawi.Rentals.Service.{
  live, entitling, find_active_rental_for_book, announce, invalidate_rental_cache, expire,
  expire_each, return_rental, check_and_expire_overdue,
}
use hakawi.Rentals.Events.{
  parse_metadata, text_of, days_of, Purpose, purpose, purpose_of, rental, rental_extension,
  something_else, handle_payment_completed, settle_purpose, grant_unless_active, grant, is_active,
  apply_extension, extend_found, handle_refund_completed, revoke_purpose, revoke, end_unless_ended,
}
use hakawi.Rentals.Access.{in_force, access, IsPaidRental}

pub data Request : Type 0 where
  payment_completed refund_completed : String → Request
  returns : String → String → Request
  expires_overdue : Request
  makes_payment : Payment → Request
  waits : ℕ → Request

unfoldable pub serve : Request → World → World
unfolding handle_payment_completed handle_refund_completed return_rental check_and_expire_overdue
serve (payment_completed i) w = (handle_payment_completed i w).1
serve (refund_completed i) w = (handle_refund_completed i w).1
serve (returns i u) w = (return_rental i u w).1
serve expires_overdue w = (check_and_expire_overdue w).1
serve (makes_payment p) w = record w {
  billing = record w.billing { payments = w.billing.payments ++ p ∷ [] };
}
serve (waits n) w = record w { billing = record w.billing { now = w.billing.now + n } }

unfoldable pub serve_all : List Request → World → World
unfolding serve
serve_all [] w = w
serve_all (q ∷ qs) w = serve_all qs (serve q w)

abbrev pub is_rental_purpose : Purpose → Bool
is_rental_purpose rental = true
is_rental_purpose _ = false

abbrev pub names : Option String → String → Bool
names none b = false
names (some c) b = c == b

-- The payment was made by this reader for a rental of this book.
abbrev pub pays_for : String → String → Payment → Bool
pays_for u b p =
    (p.user_id == u)
    && (is_rental_purpose (purpose (parse_metadata p.metadata))
        && names (text_of "bookId" (parse_metadata p.metadata)) b)

-- A rental that one of these payments is for, and that is extended at most twice.
pub record IsBacked (ps : List Payment) (r : Rental) : Type 0 where
  pub paid : any (pays_for r.user_id r.book_id) ps ≡ true
  pub cap : r.max_extensions ≡ 2
  pub capped : r.extended_count ≤ 2

abbrev pub IsSound : World → Type 0
IsSound w = All (IsBacked w.billing.payments) w.rentals
