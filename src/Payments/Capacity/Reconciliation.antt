-- ===== src/Payments/Capacity/Reconciliation.antt =====
-- `reconcileRefundCapacity` of payments.repository.ts and `releaseRefundCapacity` of
-- payments.service.ts: the status that the live refunds call for is put back.
use hakawi.Common.{
  ◌≤◌, ◌≡◌, refl, String, false, none, some, [], ◌∷◌, ◌++◌, arith, find, eq_iff, if◌then◌else◌,
  ◌&&◌, leb, find_sound, not, inl, inr, Option-cases, Bool-cases,
}
use hakawi.Payments.Store.{Status, Payment, World, same_status, refunded, completed}
use hakawi.Payments.Repository.{
  is_id, change_payment, reserved, reconcile_refund_capacity, max_safe_integer,
}
use hakawi.Payments.Refunds.{release_refund_capacity}
use hakawi.Payments.Capacity.{IsSolvent, change_payment-IsSolvent}

abbrev pub with_status : Status → Payment → Payment
with_status s p = record p { status = s }

-- The tables after the correction of the payment `p`, which has the id `i`.
abbrev pub repaired : String → Payment → World → World
repaired i p w =
    let full = leb p.amount (reserved i w.refunds) in
    if full && same_status p.status completed
    then change_payment i (with_status refunded) w
    else if not full && same_status p.status refunded
    then change_payment i (with_status completed) w
    else w

reconcile_found :
    (i : String) (w : World) (p : Payment)
    → find (is_id i) w.payments ≡ some p
    → p.deleted_at ≡ none
    → reserved i w.refunds ≤ max_safe_integer
    → p.id ≡ i
    → (reconcile_refund_capacity i w).1 ≡ repaired i p w
unfolding reconcile_refund_capacity
reconcile_found i w p found undeleted safe same = ground arith

-- The release always returns, and corrects the status of the payment.
pub release_found :
    (i : String) (w : World) (p : Payment)
    → find (is_id i) w.payments ≡ some p
    → p.deleted_at ≡ none
    → reserved i w.refunds ≤ max_safe_integer
    → (release_refund_capacity i w).1
      ≡ record (repaired i p w) { invalidated = w.invalidated ++ i ∷ [] }
unfolding release_refund_capacity
release_found i w p found undeleted safe =
    ground (arith, (eq_iff p.id i).0 (find_sound (is_id i) w.payments found))

-- A payment that is missing, deleted or has an unreadable sum is left alone.
release_skipped :
    (i : String) (w : World)
    → ((p : Payment)
        → find (is_id i) w.payments ≡ some p
        → p.deleted_at ≡ none
        → leb (reserved i w.refunds) max_safe_integer ≡ false)
    → (release_refund_capacity i w).1 ≡ w
unfolding release_refund_capacity
release_skipped i w skip = elim (Option-cases (find (is_id i) w.payments)) [
  | inl missing ↦ ground arith
  | inr (p, found) ↦ elim (Option-cases p.deleted_at) [
    | inl alive ↦ ground (arith, skip p found alive)
    | inr (t, gone) ↦ ground arith
  ]
]

repaired-IsSolvent :
    (i : String) (p : Payment) (w : World) → IsSolvent w → IsSolvent (repaired i p w)
repaired-IsSolvent i p w s = ground (
  arith,
  change_payment-IsSolvent i (with_status refunded) w (λ q. refl) (λ q. refl) s,
  change_payment-IsSolvent i (with_status completed) w (λ q. refl) (λ q. refl) s,
)

-- Releasing capacity keeps every payment covered.
pub release-IsSolvent :
    (i : String) (w : World) → IsSolvent w → IsSolvent (release_refund_capacity i w).1
release-IsSolvent i w s = elim (Option-cases (find (is_id i) w.payments)) [
  | inl missing ↦ rw (release_skipped i w (λ q f a. absurd (ground arith))) s
  | inr (p, found) ↦ elim (Option-cases p.deleted_at) [
    | inr (t, gone) ↦ rw (release_skipped i w (λ q f a. absurd (ground arith))) s
    | inl alive ↦ elim (Bool-cases (leb (reserved i w.refunds) max_safe_integer)) [
      | inl safe ↦
          rw (release_found i w p found alive (ground arith))
            (record { covered = (repaired-IsSolvent i p w s).covered })
      | inr unsafe ↦ rw (release_skipped i w (λ q f a. unsafe)) s
    ]
  ]
]
