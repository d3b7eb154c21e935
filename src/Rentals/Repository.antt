-- ===== src/Rentals/Repository.antt =====
-- backend/src/modules/rentals/repositories/rentals.repository.ts. A query that the database answers
-- with no row gives `none`.
use hakawi.Common.{
  ℕ, ◌+◌, String, Bool, true, false, Option, none, some, List, [], ◌∷◌, ◌++◌, ◌&&◌, ◌||◌, ◌==◌, ltb,
  if◌then◌else◌, find, update, length, filter, page_of, newest_first, or_else, Exec, ok, gets,
  modify,
}
use hakawi.Payments.Repository.{fresh_id}
use hakawi.Rentals.Store.{
  RentalStatus, other, active, same_rental_status, Rental, CreateRentalInput, RentalExtension,
  World, now, add_days,
}

abbrev pub is_id : String → Rental → Bool
is_id i r = r.id == i

-- `isNull(rentals.deletedAt)`.
abbrev pub is_live : Option ℕ → Bool
is_live none = true
is_live (some t) = false

-- The row that was created last, the later row of the table among equals.
unfoldable pub later_of : Rental → Option Rental → Rental
later_of r none = r
later_of r (some s) = if ltb s.created_at r.created_at then r else s

unfoldable pub newest : List Rental → Option Rental
unfolding later_of
newest [] = none
newest (r ∷ rs) = some (later_of r (newest rs))

-- `findById`: an id that is no UUID is the error 22P02, which the code turns into no row.
unfoldable pub find_by_id : String → Exec World (Option Rental)
find_by_id i = gets (λ w. find (is_id i) w.rentals)

abbrev pub is_rental_of : String → String → Rental → Bool
is_rental_of user_id book_id r =
    (r.user_id == user_id) && ((r.book_id == book_id) && is_live r.deleted_at)

unfoldable pub find_by_user_and_book : String → String → Exec World (Option Rental)
unfolding newest
find_by_user_and_book user_id book_id =
    gets (λ w. newest (filter (is_rental_of user_id book_id) w.rentals))

unfoldable pub find_active_by_user : String → Exec World (List Rental)
find_active_by_user user_id = gets (λ w.
    filter
      (λ r. (r.user_id == user_id) && (same_rental_status r.status active && is_live r.deleted_at))
      w.rentals)

-- The condition that an absent or empty text leaves out.
abbrev pub matches : Option String → String → Bool
matches none v = true
matches (some s) v = (s == "") || (v == s)

abbrev pub status_matches : Option RentalStatus → RentalStatus → Bool
status_matches none v = true
status_matches (some (other s)) v = (s == "") || same_rental_status v (other s)
status_matches (some s) v = same_rental_status v s

pub record FindAllParams : Type 0 where
  pub user_id : Option String
  pub status : Option RentalStatus
  pub page : Option ℕ
  pub limit : Option ℕ

abbrev pub selects : FindAllParams → Rental → Bool
selects p r =
    is_live r.deleted_at && (matches p.user_id r.user_id && status_matches p.status r.status)

-- `findAll`: the page of the rows, and their number.
unfoldable pub find_all : FindAllParams → Exec World (List Rental × ℕ)
unfolding newest_first
find_all p = gets (λ w.
    let rows = filter (selects p) w.rentals in
    (
      page_of (or_else p.page 1) (or_else p.limit 20) (newest_first (λ r. r.created_at) rows),
      length rows,
    ))

abbrev pub rental_row : CreateRentalInput → World → Rental
rental_row i w = record {
  id = fresh_id w.billing;
  user_id = i.user_id;
  book_id = i.book_id;
  status = active;
  start_date = now w;
  end_date = add_days (now w) (or_else i.duration_days 14);
  extended_count = 0;
  max_extensions = 2;
  returned_at = none;
  deleted_at = none;
  created_at = now w;
  updated_at = now w;
}

-- The world after the database has drawn an id.
abbrev pub drawn_once : World → World
drawn_once w = record w { billing = record w.billing { drawn = w.billing.drawn + 1 } }

unfoldable pub create : CreateRentalInput → Exec World Rental
create i w =
    let row = rental_row i w in (ok row, record (drawn_once w) { rentals = w.rentals ++ row ∷ [] })

-- `update(id, data)`: `change` sets the columns of `data`.
abbrev pub change_rental : String → (Rental → Rental) → World → World
change_rental i change w = record w {
  rentals = update (is_id i) (λ r. record (change r) { updated_at = now w }) w.rentals;
}

unfoldable pub update_rental : String → (Rental → Rental) → Exec World (Option Rental)
update_rental i change w = let w' = change_rental i change w in (ok (find (is_id i) w'.rentals), w')

unfoldable pub soft_delete : String → Exec World (Unit {0})
soft_delete i = modify (λ w. record w {
  rentals = update (is_id i) (λ r. record r { deleted_at = some (now w) }) w.rentals;
})

abbrev pub extension_row : String → ℕ → ℕ → ℕ → World → RentalExtension
extension_row i previous new days w = record {
  id = fresh_id w.billing;
  rental_id = i;
  previous_end_date = previous;
  new_end_date = new;
  extension_days = days;
  created_at = now w;
}

unfoldable pub create_extension : String → ℕ → ℕ → ℕ → Exec World RentalExtension
create_extension i previous new days w =
    let row = extension_row i previous new days w in
    (ok row, record (drawn_once w) { extensions = w.extensions ++ row ∷ [] })

unfoldable pub find_extensions_by_rental : String → Exec World (List RentalExtension)
find_extensions_by_rental i = gets (λ w. filter (λ e. e.rental_id == i) w.extensions)

abbrev pub is_overdue : ℕ → Rental → Bool
is_overdue time r =
    same_rental_status r.status active && (ltb r.end_date time && is_live r.deleted_at)

unfoldable pub find_overdue : Exec World (List Rental)
find_overdue = gets (λ w. filter (is_overdue (now w)) w.rentals)
