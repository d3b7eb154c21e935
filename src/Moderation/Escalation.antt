-- ===== src/Moderation/Escalation.antt =====
-- Which reports the two escalations leave open.
use hakawi.Common.{
  ℕ, ◌≡◌, refl, sym, ap, ◌∙◌, String, Bool, true, false, List, [], ◌∷◌, ◌++◌, ◌||◌, not, ◌==◌,
  arith, ltb, if◌then◌else◌, update, any, every, filter, count, eq_refl, count-update, Bool-cases,
  inl, inr,
}
use hakawi.Moderation.Store.{Report, CreateReportInput, World, report_created}
use hakawi.Moderation.Service.{
  is_open_on, is_recent_on, take_into_review, escalate_open, check_auto_escalation, announce,
  insert_report, report_row, create_report, is_overdue, is_still_open, escalated, escalate_one,
  escalate_each, auto_escalate_reports,
}

any-update_open :
    (target : String) (time : ℕ) (rs : List Report)
    → any (is_open_on target) (update (is_open_on target) (take_into_review time) rs) ≡ false
any-update_open target time [] = refl
any-update_open target time (r ∷ rs) = elim (Bool-cases (is_open_on target r)) [
  | inl open_ ↦ rw open_ (ground (arith, any-update_open target time rs))
  | inr other ↦ rw other (rw other (any-update_open target time rs))
]

any-snoc_hit :
    (p : Report → Bool) (rs : List Report) (r : Report) → p r ≡ true → any p (rs ++ r ∷ []) ≡ true
any-snoc_hit p [] r h = ground arith
any-snoc_hit p (x ∷ rs) r h = ground (arith, any-snoc_hit p rs r h)

row_is_open :
    (reporter : String) (input : CreateReportInput) (w : World)
    → is_open_on input.target_id (report_row reporter input w) ≡ true
row_is_open reporter input w = ground (arith, eq_refl input.target_id)

abbrev settled : Bool → String → World → World
settled b target w = if b then w else escalate_open target w

open-settled :
    (b : Bool) (target : String) (w : World)
    → any (is_open_on target) w.reports ≡ true
    → any (is_open_on target) (settled b target w).reports ≡ b
unfolding escalate_open
open-settled true target w h = h
open-settled false target w h = any-update_open target w.now w.reports

recent-settled :
    (b : Bool) (target : String) (w : World)
    → count (is_recent_on target w.now) (settled b target w).reports
      ≡ count (is_recent_on target w.now) w.reports
unfolding escalate_open
recent-settled true target w = refl
recent-settled false target w =
    count-update (is_recent_on target w.now) (is_open_on target) (take_into_review w.now) w.reports
      (λ x. refl)

-- After a report is created its target has an open report exactly if fewer than three reports on the
-- target are less than an hour old, this one counted.
pub create_report_settles :
    (reporter : String) (input : CreateReportInput) (w : World)
    → any (is_open_on input.target_id) (create_report reporter input w).1.reports
      ≡ ltb
          (count (is_recent_on input.target_id w.now) (create_report reporter input w).1.reports)
          3
unfolding create_report insert_report announce check_auto_escalation
create_report_settles reporter input w =
    let target = input.target_id in
    let row = report_row reporter input w in
    let noted =
      (announce (report_created row.id reporter target input.target_type input.reason)
        (insert_report reporter input w).1).1 in
    let few = ltb (count (is_recent_on target w.now) noted.reports) 3 in
    open-settled few target noted
      (any-snoc_hit (is_open_on target) w.reports row (row_is_open reporter input w))
    ∙ ap (λ n. ltb n 3) (sym (recent-settled few target noted))

-- The report, if it is overdue, is one of the list by its id.
abbrev is_covered : ℕ → List Report → Report → Bool
is_covered time rs x = not (is_overdue time x) || any (λ (r : Report). x.id == r.id) rs

every-update_covered :
    (time : ℕ) (r : Report) (rs xs : List Report)
    → every (is_covered time (r ∷ rs)) xs ≡ true
    → every (is_covered time rs) (update (is_still_open r.id) (escalated time) xs) ≡ true
every-update_covered time r rs [] h = refl
every-update_covered time r rs (x ∷ xs) h = elim (Bool-cases (is_still_open r.id x)) [
  | inl hit ↦ rw hit (ground (arith, every-update_covered time r rs xs))
  | inr miss ↦ rw miss (ground (arith, miss, every-update_covered time r rs xs))
]

every-miss_covered :
    (time : ℕ) (r : Report) (rs xs : List Report)
    → any (is_still_open r.id) xs ≡ false
    → every (is_covered time (r ∷ rs)) xs ≡ true
    → every (is_covered time rs) xs ≡ true
every-miss_covered time r rs [] n h = refl
every-miss_covered time r rs (x ∷ xs) n h = ground (arith, every-miss_covered time r rs xs)

escalate_one-covers :
    (r : Report) (rs : List Report) (w : World)
    → every (is_covered w.now (r ∷ rs)) w.reports ≡ true
    → (every (is_covered w.now rs) (escalate_one r w).1.reports ≡ true)
      × ((escalate_one r w).1.now ≡ w.now)
unfolding escalate_one
escalate_one-covers r rs w h = elim (Bool-cases (any (is_still_open r.id) w.reports)) [
  | inl some_ ↦ rw some_ (every-update_covered w.now r rs w.reports h, refl)
  | inr none_ ↦ rw none_ (every-miss_covered w.now r rs w.reports none_ h, refl)
]

none_overdue :
    (time : ℕ) (xs : List Report)
    → every (is_covered time []) xs ≡ true
    → any (is_overdue time) xs ≡ false
none_overdue time [] h = refl
none_overdue time (x ∷ xs) h = ground (arith, none_overdue time xs)

escalate_each-settles :
    (time : ℕ) (rs : List Report) (w : World)
    → w.now ≡ time
    → every (is_covered time rs) w.reports ≡ true
    → any (is_overdue time) (escalate_each rs w).1.reports ≡ false
unfolding escalate_each
escalate_each-settles time [] w e h = none_overdue time w.reports h
escalate_each-settles time (r ∷ rs) w e h =
    let (covers, same) = escalate_one-covers r rs w (rw e h) in
    escalate_each-settles time rs (escalate_one r w).1 (same ∙ e) (rw (← e) covers)

covers-cons :
    (time : ℕ) (r : Report) (rs xs : List Report)
    → every (is_covered time rs) xs ≡ true
    → every (is_covered time (r ∷ rs)) xs ≡ true
covers-cons time r rs [] h = refl
covers-cons time r rs (x ∷ xs) h = ground (arith, covers-cons time r rs xs)

covers-overdue :
    (time : ℕ) (xs : List Report) → every (is_covered time (filter (is_overdue time) xs)) xs ≡ true
covers-overdue time [] = refl
covers-overdue time (x ∷ xs) =
    let late = filter (is_overdue time) xs in
    elim (Bool-cases (is_overdue time x)) [
      | inl h ↦
          let taken : filter (is_overdue time) (x ∷ xs) ≡ x ∷ late = rw h refl in
          ap (λ f. every (is_covered time f) (x ∷ xs)) taken
          ∙ ground (arith, eq_refl x.id, covers-cons time x late xs (covers-overdue time xs))
      | inr h ↦
          let left : filter (is_overdue time) (x ∷ xs) ≡ late = rw h refl in
          ap (λ f. every (is_covered time f) (x ∷ xs)) left
          ∙ ground (arith, h, covers-overdue time xs)
    ]

-- After `autoEscalateReports` no report is still open a day after it was created.
pub auto_escalate_settles :
    (w : World) → any (is_overdue w.now) (auto_escalate_reports w).1.reports ≡ false
unfolding auto_escalate_reports
auto_escalate_settles w =
    escalate_each-settles w.now (filter (is_overdue w.now) w.reports) w refl
      (covers-overdue w.now w.reports)
