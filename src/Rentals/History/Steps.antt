-- ===== src/Rentals/History/Steps.antt =====
-- Each operation that changes rentals keeps them sound.
use hakawi.Common.{
  filter, ℕ, ◌≡◌, refl, String, Bool, true, Option, none, some, List, [], ◌∷◌, ◌++◌, ◌&&◌, ◌||◌,
  ◌==◌, arith, ltb, find, update, any, All, eq_refl, any_of_find, Option-cases, Bool-cases, inl,
  inr,
}
use hakawi.Payments.Store.{Payment}
use hakawi.Payments.Repository
use hakawi.Rentals.Store.{returned, expired, same_rental_status, Rental, World, now}
use hakawi.Rentals.Repository.{
  is_id, is_live, find_by_id, find_by_user_and_book, find_overdue, is_overdue, create,
  create_extension, update_rental,
}
use hakawi.Rentals.Service.{
  live, announce, invalidate_rental_cache, expire, expire_each, return_rental,
  check_and_expire_overdue,
}
use hakawi.Rentals.Events.{
  parse_metadata, Purpose, purpose, rental, rental_extension, something_else,
  handle_payment_completed, settle_purpose, grant_unless_active, grant, is_active, apply_extension,
  extend_found, handle_refund_completed, revoke_purpose, revoke, end_unless_ended,
}
use hakawi.Rentals.Access.{in_force}
use hakawi.Rentals.History.{
  Request, payment_completed, refund_completed, returns, expires_overdue, makes_payment, waits,
  serve, serve_all, pays_for, IsBacked, IsSound,
}

module _ (P : Rental → Type 0) where
  All-update :
      (p : Rental → Bool) (f : Rental → Rental) (rs : List Rental)
      → ((r : Rental) → P r → P (f r))
      → All P rs
      → All P (update p f rs)
  All-update p f [] k a = tt
  All-update p f (r ∷ rs) k (h, a) = ground (arith, k r h, h, All-update p f rs k a)

  All-snoc : (rs : List Rental) (x : Rental) → All P rs → P x → All P (rs ++ x ∷ [])
  All-snoc [] x a h = (h, tt)
  All-snoc (r ∷ rs) x (h, a) k = (h, All-snoc rs x a k)

  All-weaken :
      (Q : Rental → Type 0) (rs : List Rental) → ((r : Rental) → P r → Q r) → All P rs → All Q rs
  All-weaken Q [] k a = tt
  All-weaken Q (r ∷ rs) k (h, a) = (k r h, All-weaken Q rs k a)

any-snoc :
    (q : Payment → Bool) (ps : List Payment) (p : Payment)
    → any q ps ≡ true
    → any q (ps ++ p ∷ []) ≡ true
any-snoc q [] p h = ground arith
any-snoc q (x ∷ ps) p h = ground (arith, any-snoc q ps p)

find-cap :
    (ps : List Payment) (p : Rental → Bool) (rs : List Rental) (r : Rental)
    → All (IsBacked ps) rs
    → find p rs ≡ some r
    → r.max_extensions ≡ 2
find-cap ps p [] r a e = ground arith
find-cap ps p (x ∷ rs) r (h, a) e = ground (arith, h.cap, find-cap ps p rs r a)

expire-IsSound : (i : String) (w : World) → IsSound w → IsSound (expire i w).1
unfolding expire update_rental announce invalidate_rental_cache
expire-IsSound i w s =
    All-update (IsBacked w.billing.payments) (is_id i) _ w.rentals
      (λ r h. record { paid = h.paid; cap = h.cap; capped = h.capped }) s

expire_each-IsSound : (rs : List Rental) (w : World) → IsSound w → IsSound (expire_each rs w).1
unfolding expire_each expire update_rental announce invalidate_rental_cache
expire_each-IsSound [] w s = s
expire_each-IsSound (r ∷ rs) w s =
    expire_each-IsSound rs (expire r.id w).1 (expire-IsSound r.id w s)

return-IsSound : (i u : String) (w : World) → IsSound w → IsSound (return_rental i u w).1
unfolding return_rental find_by_id update_rental invalidate_rental_cache announce
return-IsSound i u w s = elim (Option-cases (live (find (is_id i) w.rentals))) [
  | inl n ↦ rw n s
  | inr (r, f) ↦ elim (Bool-cases (r.user_id == u)) [
    | inr strange ↦ rw f (rw strange s)
    | inl own ↦ elim (Bool-cases (same_rental_status r.status returned)) [
      | inl back ↦ rw f (rw own (rw back s))
      | inr out ↦ rw f (
          rw own (
            rw out (
              All-update (IsBacked w.billing.payments) (is_id i) _ w.rentals
                (λ x h. record { paid = h.paid; cap = h.cap; capped = h.capped }) s)))
    ]
  ]
]

grant-IsSound :
    (u b : String) (days : ℕ) (w : World)
    → any (pays_for u b) w.billing.payments ≡ true
    → IsSound w
    → IsSound (grant u b days w).1
unfolding grant create announce
grant-IsSound u b days w h s =
    All-snoc (IsBacked w.billing.payments) w.rentals _ s
      (record { paid = h; cap = refl; capped = omega arith })

extend_found-IsSound :
    (i u : String) (days : ℕ) (r : Rental) (w : World)
    → r.max_extensions ≡ 2
    → IsSound w
    → IsSound (extend_found i days (some r) u w).1
unfolding extend_found create_extension update_rental announce
extend_found-IsSound i u days r w m s =
    elim (Bool-cases ((r.user_id == u) && ltb r.extended_count r.max_extensions)) [
      | inl t ↦ rw t (
          All-update (IsBacked w.billing.payments) (is_id i) _ w.rentals
            (λ x h. record { paid = h.paid; cap = h.cap; capped = ground (arith, m, t) }) s)
      | inr f ↦ rw f s
    ]

apply_extension-IsSound :
    (u : String) (i : Option String) (days : Option ℕ) (w : World)
    → IsSound w
    → IsSound (apply_extension u i days w).1
unfolding apply_extension find_by_id extend_found
apply_extension-IsSound u none days w s = s
apply_extension-IsSound u (some i) none w s = s
apply_extension-IsSound u (some i) (some days) w s =
    elim (Option-cases (find (is_id i) w.rentals)) [
      | inl n ↦ rw n s
      | inr (r, f) ↦ elim (Bool-cases (is_live r.deleted_at)) [
        | inl alive ↦ rw f (
            rw alive (
              extend_found-IsSound i u days r w
                (find-cap w.billing.payments (is_id i) w.rentals r s f) s))
        | inr gone ↦ rw f (rw gone s)
      ]
    ]

grant_unless_active-IsSound :
    (u : String) (b : Option String) (days : Option ℕ) (w : World)
    → ((c : String) → b ≡ some c → any (pays_for u c) w.billing.payments ≡ true)
    → IsSound w
    → IsSound (grant_unless_active u b days w).1
unfolding grant_unless_active find_by_user_and_book
grant_unless_active-IsSound u none days w h s = s
grant_unless_active-IsSound u (some b) none w h s = s
grant_unless_active-IsSound u (some b) (some days) w h s =
    elim (Bool-cases (is_active (in_force u b w))) [
      | inl t ↦ rw t s
      | inr f ↦ rw f (grant-IsSound u b days w (h b refl) s)
    ]

settle_purpose-IsSound :
    (p : Payment) (a : Purpose) (w : World)
    → purpose (parse_metadata p.metadata) ≡ a
    → ((c : String)
        → pays_for p.user_id c p ≡ true
        → any (pays_for p.user_id c) w.billing.payments ≡ true)
    → IsSound w
    → IsSound (settle_purpose a p.user_id (parse_metadata p.metadata) w).1
unfolding settle_purpose
settle_purpose-IsSound p rental w e h s =
    grant_unless_active-IsSound p.user_id _ _ w
      (λ c k. h c (ground (arith, e, k, eq_refl p.user_id, eq_refl c))) s
settle_purpose-IsSound p rental_extension w e h s = apply_extension-IsSound p.user_id _ _ w s
settle_purpose-IsSound p something_else w e h s = s

completed-IsSound : (i : String) (w : World) → IsSound w → IsSound (handle_payment_completed i w).1
unfolding handle_payment_completed Repository.find_by_id
completed-IsSound i w s = elim (Option-cases (find (Repository.is_id i) w.billing.payments)) [
  | inl n ↦ rw n s
  | inr (p, f) ↦ rw f (
      settle_purpose-IsSound p _ w refl
        (λ c k. any_of_find (Repository.is_id i) (pays_for p.user_id c) w.billing.payments f k) s)
]

revoke-IsSound : (u : String) (b : Option String) (w : World) → IsSound w → IsSound (revoke u b w).1
unfolding revoke find_by_user_and_book end_unless_ended
revoke-IsSound u none w s = s
revoke-IsSound u (some b) w s = elim (Option-cases (live (in_force u b w))) [
  | inl n ↦ rw n s
  | inr (r, f) ↦
      elim (Bool-cases
        (same_rental_status r.status expired || same_rental_status r.status returned)) [
          | inl t ↦ rw f (rw t s)
          | inr o ↦ rw f (rw o (expire-IsSound r.id w s))
        ]
]

revoke_purpose-IsSound :
    (a : Purpose) (p : Payment) (w : World)
    → IsSound w
    → IsSound (revoke_purpose a p.user_id (parse_metadata p.metadata) w).1
unfolding revoke_purpose
revoke_purpose-IsSound rental p w s = revoke-IsSound p.user_id _ w s
revoke_purpose-IsSound rental_extension p w s = s
revoke_purpose-IsSound something_else p w s = s

refunded-IsSound : (i : String) (w : World) → IsSound w → IsSound (handle_refund_completed i w).1
unfolding handle_refund_completed Repository.find_by_id
refunded-IsSound i w s = elim (Option-cases (find (Repository.is_id i) w.billing.payments)) [
  | inl n ↦ rw n s
  | inr (p, f) ↦ rw f (revoke_purpose-IsSound _ p w s)
]

serve-IsSound : (q : Request) (w : World) → IsSound w → IsSound (serve q w)
unfolding serve check_and_expire_overdue find_overdue
serve-IsSound (payment_completed i) w s = completed-IsSound i w s
serve-IsSound (refund_completed i) w s = refunded-IsSound i w s
serve-IsSound (returns i u) w s = return-IsSound i u w s
serve-IsSound expires_overdue w s = expire_each-IsSound (filter (is_overdue (now w)) w.rentals) w s
serve-IsSound (makes_payment p) w s =
    All-weaken (IsBacked w.billing.payments) (IsBacked (w.billing.payments ++ p ∷ [])) w.rentals
      (λ r h. record {
        paid = any-snoc (pays_for r.user_id r.book_id) w.billing.payments p h.paid;
        cap = h.cap;
        capped = h.capped;
      })
      s
serve-IsSound (waits n) w s = s

pub serve_all-IsSound : (qs : List Request) (w : World) → IsSound w → IsSound (serve_all qs w)
unfolding serve_all
serve_all-IsSound [] w s = s
serve_all-IsSound (q ∷ qs) w s = serve_all-IsSound qs (serve q w) (serve-IsSound q w s)
