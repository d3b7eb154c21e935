-- ===== src/Contests/Entrants.antt =====
-- While nobody edits a contest, only one that has left its draft has entries.
pub mod Started
use hakawi.Common.{
  ℕ, ◌≡◌, refl, sym, ap, ◌∙◌, String, Bool, true, false, Option, none, some, List, [], ◌∷◌, ◌++◌,
  ◌&&◌, ◌||◌, not, ◌==◌, arith, ltb, find, update, every, filter, eq_iff, find-update, find-append,
  find_sound, every-snoc, every_weaken, every-update, filter_none, newest_first, Option-cases,
  Bool-cases, inl, inr, ok,
}
use hakawi.Common.Text.{Text}
use hakawi.Contests.Store.{
  ContestStatus, draft, active, cancelled, completed, same_contest_status, SubmissionStatus,
  approved, rejected, Contest, ContestSubmission, CreateContestInput, UpdateContestInput,
  contest_started, World,
}
use hakawi.Contests.Repository.{
  is_contest, in_contest, is_submission, contest_row, submission_row, reviewed, most_voted,
  with_input, entries_page, find_contest_by_id, find_all_contests, create_contest, update_contest,
  find_submission_by_id, find_submission_by_contest_and_author, create_submission,
  review_submission, find_vote_by_user_contest_submission, insert_vote, create_prize,
  find_winning_submission,
}
use hakawi.Contests.Service.{
  announce, invalidate_contest_cache, load_contest, is_terminal, no_input, to_status, completion,
  create, start, cancel, complete,
}
use hakawi.Contests.Entries.{
  submit_story, reviewable, approve_submission, reject_submission, entered, cast_vote,
  select_winner, distribute_prize,
}
use hakawi.Contests.Voting.Kept.{
  Keeps, create-Keeps, start-Keeps, cancel-Keeps, complete-Keeps, select-Keeps,
}
use hakawi.Contests.History.{
  Request, creates, edits, starts, cancels, completes, submits, approves, rejects, votes,
  selects_winner, gives_prize, waits, serve, serve_all,
}

abbrev pub has_begun : Option Contest → Bool
has_begun none = false
has_begun (some c) = not (same_contest_status c.status draft)

abbrev pub is_begun : List Contest → ContestSubmission → Bool
is_begun cs s = has_begun (find (is_contest s.contest_id) cs)

abbrev moves_on : Option ContestStatus → Bool
moves_on none = true
moves_on (some s) = not (same_contest_status s draft)

begun-snoc :
    (cs : List Contest) (c : Contest) (s : ContestSubmission)
    → is_begun cs s ≡ true
    → is_begun (cs ++ c ∷ []) s ≡ true
begun-snoc cs c s h = elim (Option-cases (find (is_contest s.contest_id) cs)) [
  | inl n ↦ absurd (ground (arith, h, n))
  | inr (d, f) ↦ ground (arith, h, f, find-append (is_contest s.contest_id) cs c f)
]

begun-update :
    (cs : List Contest) (j : String) (d : UpdateContestInput) (t : ℕ)
    → moves_on d.status ≡ true
    → (s : ContestSubmission) → is_begun cs s ≡ true
    → is_begun (update (is_contest j) (with_input d t) cs) s ≡ true
begun-update cs j d t m s h = elim (Option-cases (find (is_contest s.contest_id) cs)) [
  | inl n ↦ absurd (ground (arith, h, n))
  | inr (c, f) ↦ ground (
    arith,
    h,
    f,
    m,
    find-update (is_contest s.contest_id) (is_contest j) (with_input d t) cs (λ x. refl),
  )
]

completion-moves_on : (s : Option ContestSubmission) → moves_on (completion s).status ≡ true
completion-moves_on none = refl
completion-moves_on (some s) = refl

abbrev pub IsBegun : World → Type 0
IsBegun w = every (is_begun w.contests) w.submissions ≡ true

module _ (w : World) (k : IsBegun w) where
  snoc-every : (c : Contest) → every (is_begun (w.contests ++ c ∷ [])) w.submissions ≡ true
  snoc-every c =
      every_weaken (is_begun w.contests) (is_begun (w.contests ++ c ∷ [])) w.submissions
        (begun-snoc w.contests c) k

  update-every :
      (j : String) (d : UpdateContestInput)
      → moves_on d.status ≡ true
      → every (is_begun (update (is_contest j) (with_input d w.now) w.contests)) w.submissions
        ≡ true
  update-every j d m =
      every_weaken (is_begun w.contests)
        (is_begun (update (is_contest j) (with_input d w.now) w.contests)) w.submissions
        (begun-update w.contests j d w.now m) k

  pub create-IsBegun :
      (like : Text → Text → Bool) (u : String) (d : CreateContestInput)
      → IsBegun (create like u d w).1
  unfolding create find_all_contests create_contest announce
  create-IsBegun like u d = ground (arith, k, snoc-every (contest_row d u draft w))

  pub submit-IsBegun : (c a s u : String) → IsBegun (submit_story c a s u w).1
  unfolding submit_story load_contest find_contest_by_id find_submission_by_contest_and_author
      create_submission announce
  submit-IsBegun c a s u =
      ground (arith, k, every-snoc (is_begun w.contests) w.submissions (submission_row c s a w) k)

  pub approve-IsBegun : (s c u : String) → IsBegun (approve_submission s c u w).1
  unfolding approve_submission reviewable find_submission_by_id load_contest find_contest_by_id
      review_submission announce
  approve-IsBegun s c u = ground (
    arith,
    k,
    every-update (is_begun w.contests) (is_submission s) (reviewed approved u w.now) w.submissions
        (λ x. refl),
  )

  pub reject-IsBegun : (s c u : String) → IsBegun (reject_submission s c u w).1
  unfolding reject_submission reviewable find_submission_by_id load_contest find_contest_by_id
      review_submission announce
  reject-IsBegun s c u = ground (
    arith,
    k,
    every-update (is_begun w.contests) (is_submission s) (reviewed rejected u w.now) w.submissions
        (λ x. refl),
  )

  pub start-IsBegun : (j u : String) → IsBegun (start j u w).1
  unfolding start load_contest find_contest_by_id update_contest invalidate_contest_cache announce
  start-IsBegun j u = ground (arith, k, update-every j (to_status active) refl)

  pub cancel-IsBegun : (j u : String) → IsBegun (cancel j u w).1
  unfolding cancel load_contest find_contest_by_id update_contest invalidate_contest_cache announce
  cancel-IsBegun j u = ground (arith, k, update-every j (to_status cancelled) refl)

  pub complete-IsBegun : (j u : String) → IsBegun (complete j u w).1
  unfolding complete load_contest find_contest_by_id update_contest invalidate_contest_cache
      announce find_winning_submission
  complete-IsBegun j u = ground (
    arith,
    k,
    update-every j (completion (most_voted w.votes (filter (in_contest j) w.submissions)))
        (completion-moves_on (most_voted w.votes (filter (in_contest j) w.submissions))),
  )

  pub select-IsBegun : (j s a u : String) → IsBegun (select_winner j s a u w).1
  unfolding select_winner load_contest find_contest_by_id update_contest invalidate_contest_cache
      announce find_submission_by_id
  select-IsBegun j s a u = ground (
    arith,
    k,
    update-every j (record no_input { winner_id = some (some a); status = some completed }) refl,
  )

  pub cast-IsBegun : (c s u : String) → IsBegun (cast_vote c s u w).1
  unfolding cast_vote load_contest find_contest_by_id find_submission_by_id
      find_vote_by_user_contest_submission insert_vote announce
  cast-IsBegun c s u = ground (arith, k)

  pub prize-IsBegun :
      (c s a t : String) (text : Option String) (u : String) (n : Option ℕ) (m : Option String)
      → IsBegun (distribute_prize c s a t text u n m w).1
  unfolding distribute_prize load_contest find_contest_by_id create_prize announce
  prize-IsBegun c s a t text u n m = ground (arith, k)
