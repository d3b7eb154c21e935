-- ===== src/Rentals/Grants.antt =====
-- What a completed payment for a rental gives: `handlePaymentCompleted` of rentals.event-handler.ts
-- and then `findActiveRentalForBook` of rentals.service.ts.
use hakawi.Common.{
  filter, ℕ, ◌+◌, ◌*◌, ◌≤◌, ◌<◌, ◌≡◌, refl, ◌∙◌, String, true, false, none, some, List, [], ◌∷◌,
  ◌++◌, arith, All, ok, eq_refl,
}
use hakawi.Payments.Store.{Payment}
use hakawi.Payments.Repository
use hakawi.Rentals.Store.{active, Rental, World, now}
use hakawi.Rentals.Repository.{
  later_of, newest, is_rental_of, find_by_user_and_book, create, rental_row,
}
use hakawi.Rentals.Service.{entitling, find_active_rental_for_book, announce}
use hakawi.Rentals.Events.{
  parse_metadata, days_of, handle_payment_completed, settle_purpose, grant_unless_active, grant,
  is_active,
}
use hakawi.Rentals.Access.{in_force, access, IsPaidRental}

newest-append :
    (u b : String) (rs : List Rental) (x : Rental)
    → is_rental_of u b x ≡ true
    → All (λ r. r.created_at < x.created_at) rs
    → newest (filter (is_rental_of u b) (rs ++ x ∷ [])) ≡ some x
unfolding newest later_of
newest-append u b [] x q a = ground (arith, q)
newest-append u b (r ∷ rs) x q (l, a) = ground (arith, l, newest-append u b rs x q a)

handle_completed_grants :
    (i b : String) (days : ℕ) (p : Payment) (w : World)
    → IsPaidRental i b p w
    → days_of "durationDays" (parse_metadata p.metadata) ≡ some days
    → handle_payment_completed i w ≡ grant_unless_active p.user_id (some b) (some days) w
unfolding handle_payment_completed Repository.find_by_id settle_purpose
handle_completed_grants i b days p w h d = rw h.stored (rw h.for_rental (rw h.for_book (rw d refl)))

grant_blocked :
    (u b : String) (days : ℕ) (w : World)
    → is_active (in_force u b w) ≡ true
    → grant_unless_active u (some b) (some days) w ≡ (ok tt, w)
unfolding grant_unless_active find_by_user_and_book
grant_blocked u b days w h = rw h refl

grant_given :
    (u b : String) (days : ℕ) (w : World)
    → is_active (in_force u b w) ≡ false
    → grant_unless_active u (some b) (some days) w ≡ grant u b days w
unfolding grant_unless_active find_by_user_and_book
grant_given u b days w h = rw h refl

access_lapsed :
    (u b : String) (r : Rental) (w : World)
    → in_force u b w ≡ some r
    → r.end_date ≤ now w
    → access u b w ≡ ok none
unfolding find_active_rental_for_book find_by_user_and_book entitling
access_lapsed u b r w h l = rw h (ground (arith, l))

abbrev pub granted_row : String → String → ℕ → World → Rental
granted_row u b days w =
    rental_row (record { user_id = u; book_id = b; duration_days = some days }) w

in_force-grant :
    (u b : String) (days : ℕ) (w : World)
    → All (λ r. r.created_at < now w) w.rentals
    → in_force u b (grant u b days w).1 ≡ some (granted_row u b days w)
unfolding grant create announce
in_force-grant u b days w a =
    newest-append u b w.rentals (granted_row u b days w) (ground (arith, eq_refl u, eq_refl b)) a

grant-billing_kept :
    (i b : String) (days : ℕ) (p : Payment) (w : World)
    → IsPaidRental i b p w
    → IsPaidRental i b p (grant p.user_id b days w).1
unfolding grant create announce
grant-billing_kept i b days p w h = record {
  stored = h.stored;
  for_rental = h.for_rental;
  for_book = h.for_book;
}

grant_now : (u b : String) (days : ℕ) (w : World) → now (grant u b days w).1 ≡ now w
unfolding grant create announce
grant_now u b days w = refl

grant_opens :
    (u b : String) (days : ℕ) (w : World)
    → All (λ r. r.created_at < now w) w.rentals
    → 0 < days
    → access u b (grant u b days w).1 ≡ ok (some (granted_row u b days w))
unfolding find_active_rental_for_book find_by_user_and_book entitling
grant_opens u b days w a d =
    rw (in_force-grant u b days w a) (ground (arith, d, grant_now u b days w))

-- A payment for a rental of a book, for a positive number of days, gives the payer access to that book
-- when no row in force is marked active and every row is older than the clock: the row that lets the
-- payer in ends that many days from now, and the same event delivered again changes nothing.
pub payment_grants :
    (i b : String) (days : ℕ) (p : Payment) (w : World)
    → IsPaidRental i b p w
    → days_of "durationDays" (parse_metadata p.metadata) ≡ some days
    → 0 < days
    → is_active (in_force p.user_id b w) ≡ false
    → All (λ r. r.created_at < now w) w.rentals
    → let after = (handle_payment_completed i w).1 in
      (access p.user_id b after ≡ ok (some (granted_row p.user_id b days w)))
      × ((granted_row p.user_id b days w).end_date ≡ now w + days * 86400000)
      × (handle_payment_completed i after ≡ (ok tt, after))
payment_grants i b days p w h d l n a = rw (handle_completed_grants i b days p w h d) (
    rw (grant_given p.user_id b days w n) (
      grant_opens p.user_id b days w a l,
      refl,
      handle_completed_grants i b days p _ (grant-billing_kept i b days p w h) d
          ∙ grant_blocked p.user_id b days _ (rw (in_force-grant p.user_id b days w a) refl),
    ))

-- A payment for a rental of a book gives nothing when the row in force is still marked active, even
-- when that rental has ended and the payer has no access: nothing is written, and access stays denied.
pub lapsed_payment_grants_nothing :
    (i b : String) (days : ℕ) (p : Payment) (r : Rental) (w : World)
    → IsPaidRental i b p w
    → days_of "durationDays" (parse_metadata p.metadata) ≡ some days
    → in_force p.user_id b w ≡ some r
    → r.status ≡ active
    → r.end_date ≤ now w
    → (handle_payment_completed i w ≡ (ok tt, w))
      × (access p.user_id b (handle_payment_completed i w).1 ≡ ok none)
lapsed_payment_grants_nothing i b days p r w h d f s l =
    rw
      (handle_completed_grants i b days p w h d
        ∙ grant_blocked p.user_id b days w (rw f (rw s refl)))
      (refl, access_lapsed p.user_id b r w f l)
