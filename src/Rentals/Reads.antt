-- ===== src/Rentals/Reads.antt =====
-- Who may see a rental: `findById` of rentals.service.ts.
use hakawi.Common.{
  ◌≡◌, String, true, false, Option, none, some, ◌||◌, ◌==◌, arith, find, ok, eq_iff, Option-cases,
  Bool-cases, inl, inr,
}
use hakawi.Rentals.Store.{Rental, World}
use hakawi.Rentals.Repository.{is_id, find_by_id}
use hakawi.Rentals.Service.{live, load_rental, read_rental}

owned :
    (u : String) (r : Rental)
    → (u == "") ≡ false
    → ((u == "") || (r.user_id == u)) ≡ true
    → r.user_id ≡ u
owned u r e h = (eq_iff r.user_id u).0 (ground (arith, e, h))

-- A reader, whose id is not empty, who asks for a rental by its id gets a rental of their own or an
-- error, also when the cache holds a copy of somebody else's rental under that id, and nothing is
-- written.
pub read_rental-owner :
    (cached : Option Rental) (i u : String) (r : Rental) (w : World)
    → (u == "") ≡ false
    → (read_rental cached i (some u) w).0 ≡ ok r
    → (r.user_id ≡ u) × ((read_rental cached i (some u) w).1 ≡ w)
unfolding read_rental load_rental find_by_id
read_rental-owner (some c) i u r w e h = elim (Bool-cases ((u == "") || (c.user_id == u))) [
  | inl t ↦ ground (arith, owned u c e t)
  | inr f ↦ ground (arith, f, h)
]
read_rental-owner none i u r w e h = elim (Option-cases (live (find (is_id i) w.rentals))) [
  | inl n ↦ ground (arith, n, h)
  | inr (x, f) ↦ elim (Bool-cases ((u == "") || (x.user_id == u))) [
    | inl t ↦ ground (arith, f, t, owned u x e t)
    | inr g ↦ ground (arith, f, g, h)
  ]
]
