-- ===== src/Rentals/History/Backing.antt =====
-- Access is paid for: `findActiveRentalForBook` of rentals.service.ts after any history of the module.
use hakawi.Common.{
  filter, ◌≤◌, ◌<◌, ◌≡◌, sym, ap, ◌∙◌, String, true, some, List, [], ◌∷◌, arith, any, All, ok,
  eq_iff,
}
use hakawi.Payments.Store.{Payment}
use hakawi.Rentals.Store.{active, Rental, World, now}
use hakawi.Rentals.Repository.{later_of, newest, is_rental_of, find_by_user_and_book}
use hakawi.Rentals.Service.{entitling, find_active_rental_for_book}
use hakawi.Rentals.Access.{in_force, access}
use hakawi.Rentals.History.{Request, serve_all, pays_for, IsBacked}
use hakawi.Rentals.History.Steps.{serve_all-IsSound}

own_paid :
    (u b : String) (ps : List Payment) (r : Rental)
    → is_rental_of u b r ≡ true
    → IsBacked ps r
    → any (pays_for u b) ps ≡ true
own_paid u b ps r o h =
    let user : r.user_id ≡ u = (eq_iff r.user_id u).0 (ground arith) in
    let book : r.book_id ≡ b = (eq_iff r.book_id b).0 (ground arith) in
    ap (λ v. any (pays_for v b) ps) (sym user)
    ∙ ap (λ c. any (pays_for r.user_id c) ps) (sym book)
    ∙ h.paid

newest_backed :
    (u b : String) (ps : List Payment) (rs : List Rental) (r : Rental)
    → All (IsBacked ps) rs
    → newest (filter (is_rental_of u b) rs) ≡ some r
    → (any (pays_for u b) ps ≡ true) × (r.extended_count ≤ 2)
unfolding newest later_of
newest_backed u b ps [] r a e = ground arith
newest_backed u b ps (x ∷ rs) r (h, a) e =
    ground (arith, h.capped, own_paid u b ps x, newest_backed u b ps rs r a, h)

access-in_force :
    (u b : String) (r : Rental) (w : World)
    → access u b w ≡ ok (some r)
    → (in_force u b w ≡ some r) × (r.status ≡ active) × (now w < r.end_date)
unfolding find_active_rental_for_book find_by_user_and_book entitling
access-in_force u b r w h = ground (arith, h)

-- When there were no rentals at first, then after any sequence of payments made, handled payment and
-- refund events, returns, expiries and waiting, a reader has access to a book only by a row that is
-- active, has not ended and is extended at most twice, and only if the table of payments has a payment
-- by that reader for a rental of that book.
pub access_is_paid :
    (qs : List Request) (w : World) (u b : String) (r : Rental)
    → w.rentals ≡ []
    → access u b (serve_all qs w) ≡ ok (some r)
    → (any (pays_for u b) (serve_all qs w).billing.payments ≡ true)
      × (r.status ≡ active)
      × (now (serve_all qs w) < r.end_date)
      × (r.extended_count ≤ 2)
access_is_paid qs w u b r e h =
    let after = serve_all qs w in
    let found = access-in_force u b r after h in
    let backed =
      newest_backed u b after.billing.payments after.rentals r (serve_all-IsSound qs w (rw e tt))
        found.0 in
    (backed.0, found.1, found.2, backed.1)
