-- ===== src/Payments/Statuses.antt =====
-- The status machine of a payment, as `updateStatus` of payments.service.ts runs it.
use hakawi.Common.{
  ℕ, ◌+◌, ◌≤◌, ◌<◌, ◌≡◌, refl, String, true, Option, none, some, List, [], ◌∷◌, arith, find,
  find-update, find_sound, inl, inr, ◌==◌, Failure, Result, ok, err, ap, Option-cases, Bool-cases,
  is_ok, ◌&&◌, if◌then◌else◌, Bool, false,
}
use hakawi.Payments.Store.{
  Status, pending, processing, completed, failed, cancelled, refunded, other, Payment, World,
}
use hakawi.Payments.Repository.{is_id, change_payment}
use hakawi.Payments.Reads.{is_live}
use hakawi.Payments.Service.{allows, update_status}

-- Setting columns other than the id keeps the row under its id.
pub find-change_payment :
    (i : String) (change : Payment → Payment) (w : World)
    → ((p : Payment) → (change p).id ≡ p.id)
    → {p : Payment} → find (is_id i) w.payments ≡ some p
    → find (is_id i) (change_payment i change w).payments
      ≡ some (record (change p) { updated_at = w.now })
find-change_payment i change w keeps {p} found =
    let moved =
      find-update (is_id i) (is_id i) (λ q. record (change q) { updated_at = w.now }) w.payments
        (λ q. ap (λ j. j == i) (keeps q)) in
    ground (arith, moved, find_sound (is_id i) w.payments found)

-- `updateStatus` that throws has changed nothing.
pub update_status_throws :
    (i : String) (s : Status) (w : World) {e : Failure}
    → (update_status i s w).0 ≡ err e
    → (update_status i s w).1 ≡ w
unfolding update_status
update_status_throws i s w h = ground arith

-- The payment is there, is not deleted, and its status has the new one in its row of the table.
abbrev pub may_update : Status → Option Payment → Bool
may_update s none = false
may_update s (some p) = is_live p.deleted_at && allows p.status s

-- The payment with a new status, and nothing else new but the time of the update.
abbrev pub with_status : Status → ℕ → Option Payment → Option Payment
with_status s time none = none
with_status s time (some p) = some (record p { status = s; updated_at = time })

-- `updateStatus` returns exactly when the payment exists, is not deleted, and its status has the new
-- one in its row of the table; the stored payment then has the new status and nothing else new but
-- the time of the update, and else it stays as it is.
pub update_status_returns :
    (i : String) (s : Status) (w : World)
    → let found = find (is_id i) w.payments in
      let (answer, after) = update_status i s w in
      (is_ok answer ≡ may_update s found)
      × (find (is_id i) after.payments
          ≡ (if may_update s found then with_status s w.now found else found))
unfolding update_status
update_status_returns i s w = elim (Option-cases (find (is_id i) w.payments)) [
  | inl missing ↦ rw missing (refl, missing)
  | inr (p, found) ↦ elim (Option-cases p.deleted_at) [
    | inr (time, deleted) ↦ (ground arith, ground arith)
    | inl kept ↦ elim (Bool-cases (allows p.status s)) [
      | inr barred ↦ (ground arith, ground arith)
      | inl allowed ↦
          let moved =
            find-change_payment i (λ q. record q { status = s }) w (λ q. refl) {p = p} found in
          (ground arith, ground arith)
    ]
  ]
]

-- How far along a status is: each entry of the table leads further, and 3 is the end.
abbrev stage : Status → ℕ
stage pending = 0
stage processing = 1
stage completed = 2
stage failed = 3
stage cancelled = 3
stage refunded = 3
stage (other _) = 3

allows-stage : (from to : Status) → allows from to ≡ true → stage from < stage to
unfolding allows
allows-stage from to h = ground arith

abbrev pub stage_of : Option Payment → ℕ
stage_of none = 3
stage_of (some p) = stage p.status

abbrev pub succeeded {ℓ} : {A : Type ℓ} → Result A → ℕ
succeeded (ok _) = 1
succeeded (err _) = 0

-- The number of requests of `PATCH /payments/:id/status`, in this order, that are accepted.
unfoldable pub accepted_updates : String → List Status → World → ℕ
accepted_updates i [] w = 0
accepted_updates i (s ∷ ss) w =
    let (r, w') = update_status i s w in succeeded r + accepted_updates i ss w'

succeeded_lem : {A : Type 0} (r : Result A) → succeeded r ≡ (if is_ok r then 1 else 0)
succeeded_lem (ok a) = refl
succeeded_lem (err e) = refl

-- A payment that may take a status is further along with it.
advances :
    (s : Status) (time : ℕ) (o : Option Payment)
    → (if may_update s o then 1 else 0) + stage_of o
      ≤ stage_of (if may_update s o then with_status s time o else o)
advances s time none = omega arith
advances s time (some p) = elim (Bool-cases (may_update s (some p))) [
  | inl allowed ↦ rw allowed (omega (arith, allows-stage p.status s (ground (arith, allowed))))
  | inr barred ↦ rw barred (omega arith)
]

step_stage :
    (i : String) (s : Status) (w : World)
    → succeeded (update_status i s w).0 + stage_of (find (is_id i) w.payments)
      ≤ stage_of (find (is_id i) (update_status i s w).1.payments)
step_stage i s w =
    let (answer, after) = update_status_returns i s w in
    rw (after, succeeded_lem (update_status i s w).0, answer)
      (advances s w.now (find (is_id i) w.payments))

stage_le : (o : Option Payment) → stage_of o ≤ 3
stage_le o = ground arith

accepted_updates-stage :
    (i : String) (ss : List Status) (w : World)
    → accepted_updates i ss w + stage_of (find (is_id i) w.payments) ≤ 3
unfolding accepted_updates
accepted_updates-stage i [] w = omega (arith, stage_le (find (is_id i) w.payments))
accepted_updates-stage i (s ∷ ss) w =
    omega (arith, step_stage i s w, accepted_updates-stage i ss (update_status i s w).1)

-- Whatever statuses are requested of a payment and in whatever order, at most three are accepted.
pub accepted_updates_bounded :
    (i : String) (ss : List Status) (w : World) → accepted_updates i ss w ≤ 3
accepted_updates_bounded i ss w = omega (arith, accepted_updates-stage i ss w)
