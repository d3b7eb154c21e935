-- ===== src/Rentals/Access.antt =====
-- Who may read: `findActiveRentalForBook` of rentals.service.ts against what the handlers of
-- rentals.event-handler.ts write.
use hakawi.Common.{
  filter, ℕ, ◌≡◌, refl, sym, ap, ◌∙◌, String, Bool, true, false, Option, none, some, List, [], ◌∷◌,
  ◌||◌, not, arith, find, update, on_row, on_found, Bool-cases, Option-cases, inl, inr, ok, Result,
  eq_refl,
}
use hakawi.Payments.Store.{Payment}
use hakawi.Payments.Repository
use hakawi.Rentals.Store.{returned, expired, same_rental_status, Rental, World, now}
use hakawi.Rentals.Repository.{
  is_id, is_live, later_of, newest, is_rental_of, find_by_user_and_book, update_rental,
}
use hakawi.Rentals.Service.{
  entitling, find_active_rental_for_book, expire, announce, invalidate_rental_cache,
}
use hakawi.Rentals.Events.{
  parse_metadata, text_of, purpose, rental, handle_refund_completed, revoke_purpose, revoke,
  end_unless_ended,
}

-- A change of a row that keeps its reader, book, creation time and whether it is deleted.
pub record Keeps (f : Rental → Rental) : Type 0 where
  pub user : (r : Rental) → (f r).user_id ≡ r.user_id
  pub book : (r : Rental) → (f r).book_id ≡ r.book_id
  pub created : (r : Rental) → (f r).created_at ≡ r.created_at
  pub liveness : (r : Rental) → is_live (f r).deleted_at ≡ is_live r.deleted_at

later_of-on_row :
    (p : Rental → Bool) (f : Rental → Rental) (r : Rental) (o : Option Rental)
    → Keeps f
    → later_of (on_row p f r) (on_found (on_row p f) o) ≡ on_row p f (later_of r o)
unfolding later_of
later_of-on_row p f r none k = refl
later_of-on_row p f r (some s) k = ground (arith, k.created r, k.created s)

-- The row in force after a change is the row in force before it, changed.
pub newest-update :
    (u b : String) (p : Rental → Bool) (f : Rental → Rental) (rs : List Rental)
    → Keeps f
    → newest (filter (is_rental_of u b) (update p f rs))
      ≡ on_found (on_row p f) (newest (filter (is_rental_of u b) rs))
unfolding newest
newest-update u b p f [] k = refl
newest-update u b p f (r ∷ rs) k = ground (
  arith,
  k.user r,
  k.book r,
  k.liveness r,
  newest-update u b p f rs k,
  later_of-on_row p f r (newest (filter (is_rental_of u b) rs)) k,
)

-- The row of a reader and a book that is in force.
abbrev pub in_force : String → String → World → Option Rental
in_force u b w = newest (filter (is_rental_of u b) w.rentals)

-- What the access question answers in a world.
abbrev pub access : String → String → World → Result (Option Rental)
access u b w = (find_active_rental_for_book u b w).0

abbrev expired_at : ℕ → Rental → Rental
expired_at t r = record r { status = expired; updated_at = t }

expired_at-Keeps : (t : ℕ) → Keeps (expired_at t)
expired_at-Keeps t = record {
  user = λ r. refl;
  book = λ r. refl;
  created = λ r. refl;
  liveness = λ r. refl;
}

-- The row in force, expired by its id.
in_force-expire :
    (u b : String) (w : World) (r : Rental)
    → in_force u b w ≡ some r
    → in_force u b (expire r.id w).1 ≡ some (expired_at (now w) r)
unfolding expire update_rental announce invalidate_rental_cache
in_force-expire u b w r h =
    newest-update u b (is_id r.id) (expired_at (now w)) w.rentals (expired_at-Keeps (now w))
    ∙ ground (arith, h, eq_refl r.id)

-- The row is one that a refund leaves alone.
abbrev pub is_ended : Option Rental → Bool
is_ended none = true
is_ended (some r) =
    not (is_live r.deleted_at)
    || (same_rental_status r.status expired || same_rental_status r.status returned)

revoke_ended :
    (u b : String) (w : World) → is_ended (in_force u b w) ≡ true → revoke u (some b) w ≡ (ok tt, w)
unfolding revoke find_by_user_and_book end_unless_ended
revoke_ended u b w h = ground (arith, h)

revoke_open :
    (u b : String) (w : World) (r : Rental)
    → in_force u b w ≡ some r
    → is_ended (some r) ≡ false
    → revoke u (some b) w ≡ expire r.id w
unfolding revoke find_by_user_and_book end_unless_ended
revoke_open u b w r h e = ground (arith, h, e)

-- The payment under this id was made for a rental of this book.
pub record IsPaidRental (i b : String) (p : Payment) (w : World) : Type 0 where
  pub stored : find (Repository.is_id i) w.billing.payments ≡ some p
  pub for_rental : purpose (parse_metadata p.metadata) ≡ rental
  pub for_book : text_of "bookId" (parse_metadata p.metadata) ≡ some b

handle_refund_revokes :
    (i b : String) (p : Payment) (w : World)
    → IsPaidRental i b p w
    → handle_refund_completed i w ≡ revoke p.user_id (some b) w
unfolding handle_refund_completed Repository.find_by_id revoke_purpose
handle_refund_revokes i b p w h = rw h.stored (rw h.for_rental (rw h.for_book refl))

access_ended :
    (u b : String) (w : World) → is_ended (in_force u b w) ≡ true → access u b w ≡ ok none
unfolding find_active_rental_for_book find_by_user_and_book entitling
access_ended u b w h = ground (arith, h)

expire_ok :
    (i : String) (w : World) → ((expire i w).0 ≡ ok tt) × ((expire i w).1.billing ≡ w.billing)
unfolding expire update_rental announce invalidate_rental_cache
expire_ok i w = (refl, refl)

revoke-billing : (u : String) (o : Option String) (w : World) → (revoke u o w).1.billing ≡ w.billing
unfolding revoke find_by_user_and_book end_unless_ended
revoke-billing u none w = refl
revoke-billing u (some b) w = elim (Option-cases (in_force u b w)) [
  | inl n ↦ rw n refl
  | inr (r, h) ↦ ground (arith, h, (expire_ok r.id w).1)
]

-- After a revocation nothing is in force that a refund would end.
revoke-is_ended :
    (u b : String) (w : World)
    → ((revoke u (some b) w).0 ≡ ok tt) × (is_ended (in_force u b (revoke u (some b) w).1) ≡ true)
revoke-is_ended u b w = elim (Bool-cases (is_ended (in_force u b w))) [
  | inl e ↦ rw (revoke_ended u b w e) (refl, e)
  | inr e ↦ elim (Option-cases (in_force u b w)) [
    | inl n ↦ ground (arith, n, e)
    | inr (r, h) ↦
        rw (revoke_open u b w r h (ap is_ended (sym h) ∙ e))
          (rw (in_force-expire u b w r h) ((expire_ok r.id w).0, ground arith))
  ]
]

IsPaidRental-billing :
    (i b : String) (p : Payment) (v w : World)
    → w.billing ≡ v.billing
    → IsPaidRental i b p v
    → IsPaidRental i b p w
IsPaidRental-billing i b p v w e h = record {
  stored = ap (λ x. find (Repository.is_id i) x.payments) e ∙ h.stored;
  for_rental = h.for_rental;
  for_book = h.for_book;
}

-- The refund of a payment for a rental of a book ends the access of the payer to that book, whatever
-- rows there are, and the same event delivered again answers alike and changes nothing.
pub refund_revokes :
    (i b : String) (p : Payment) (w : World)
    → IsPaidRental i b p w
    → let after = (handle_refund_completed i w).1 in
      ((handle_refund_completed i w).0 ≡ ok tt)
      × (access p.user_id b after ≡ ok none)
      × (handle_refund_completed i after ≡ (ok tt, after))
refund_revokes i b p w h =
    let ended = revoke-is_ended p.user_id b w in
    let after = (revoke p.user_id (some b) w).1 in
    let kept = IsPaidRental-billing i b p w after (revoke-billing p.user_id (some b) w) h in
    rw (handle_refund_revokes i b p w h) (
      ended.0,
      access_ended p.user_id b after ended.1,
      handle_refund_revokes i b p after kept ∙ revoke_ended p.user_id b after ended.1,
    )
