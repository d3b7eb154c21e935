-- ===== src/Contests/Voting.antt =====
-- What each request does to the entries and the votes.
pub mod Kept
pub mod Sound
use hakawi.Common.{
  ℕ, ◌+◌, ◌≤◌, ◌≡◌, refl, sym, ap, ◌∙◌, String, Bool, true, false, Option, none, some, List, [],
  ◌∷◌, ◌++◌, ◌&&◌, ◌||◌, not, ◌==◌, arith, ltb, find, update, any, every, filter, length, count,
  eq_iff, find-update, find-append, count-snoc, count_missing, count-update, every-snoc,
  every_weaken, Option-cases, Bool-cases, inl, inr,
}
use hakawi.Common.Text.{Text}
use hakawi.Contests.Store.{
  SubmissionStatus, approved, rejected, ContestSubmission, ContestVote, CreateContestInput,
  UpdateContestInput, World,
}
use hakawi.Contests.Repository.{
  is_submission, is_entry, is_ballot, reviewed, vote_row, submission_row, find_contest_by_id,
  find_all_contests, create_contest, update_contest, find_submission_by_id,
  find_submission_by_contest_and_author, create_submission, review_submission,
  find_vote_by_user_contest_submission, insert_vote, create_prize, find_winning_submission,
}
use hakawi.Contests.Service.{
  announce, invalidate_contest_cache, load_contest, create, edit, start, cancel, complete,
}
use hakawi.Contests.Entries.{
  submit_story, reviewable, approve_submission, reject_submission, entered, cast_vote,
  select_winner, distribute_prize,
}
use hakawi.Contests.History.{
  Request, creates, edits, starts, cancels, completes, submits, approves, rejects, votes,
  selects_winner, gives_prize, waits, serve, serve_all,
}

-- The vote is for a submission of its contest, and not by the author.
abbrev pub is_fair_for : ContestVote → Option ContestSubmission → Bool
is_fair_for v none = false
is_fair_for v (some s) = (s.contest_id == v.contest_id) && not (s.author_id == v.user_id)

abbrev pub is_fair : List ContestSubmission → ContestVote → Bool
is_fair ss v = is_fair_for v (find (is_submission v.submission_id) ss)

fair-snoc :
    (ss : List ContestSubmission) (x : ContestSubmission) (v : ContestVote)
    → is_fair ss v ≡ true
    → is_fair (ss ++ x ∷ []) v ≡ true
fair-snoc ss x v h = elim (Option-cases (find (is_submission v.submission_id) ss)) [
  | inl n ↦ absurd (ground (arith, h, n))
  | inr (s, f) ↦ ground (arith, h, f, find-append (is_submission v.submission_id) ss x f)
]

fair-review :
    (ss : List ContestSubmission) (j : String) (st : SubmissionStatus) (r : String) (t : ℕ)
    (v : ContestVote)
    → is_fair ss v ≡ true
    → is_fair (update (is_submission j) (reviewed st r t) ss) v ≡ true
fair-review ss j st r t v h = elim (Option-cases (find (is_submission v.submission_id) ss)) [
  | inl n ↦ absurd (ground (arith, h, n))
  | inr (s, f) ↦ ground (
    arith,
    h,
    f,
    find-update (is_submission v.submission_id) (is_submission j) (reviewed st r t) ss (λ x. refl),
  )
]

module _ (w : World) (k : every (is_fair w.submissions) w.votes ≡ true) where
  pub submit-fair :
      (c a s u : String)
      → every (is_fair (submit_story c a s u w).1.submissions) (submit_story c a s u w).1.votes
        ≡ true
  unfolding submit_story load_contest find_contest_by_id find_submission_by_contest_and_author
      create_submission announce
  submit-fair c a s u = ground (
    arith,
    k,
    every_weaken (is_fair w.submissions) (is_fair (w.submissions ++ submission_row c s a w ∷ []))
        w.votes (fair-snoc w.submissions (submission_row c s a w)) k,
  )

  pub approve-fair :
      (s c u : String)
      → every
          (is_fair (approve_submission s c u w).1.submissions)
          (approve_submission s c u w).1.votes
        ≡ true
  unfolding approve_submission reviewable find_submission_by_id load_contest find_contest_by_id
      review_submission announce
  approve-fair s c u = ground (
    arith,
    k,
    every_weaken (is_fair w.submissions)
        (is_fair (update (is_submission s) (reviewed approved u w.now) w.submissions)) w.votes
        (fair-review w.submissions s approved u w.now) k,
  )

  pub reject-fair :
      (s c u : String)
      → every
          (is_fair (reject_submission s c u w).1.submissions)
          (reject_submission s c u w).1.votes
        ≡ true
  unfolding reject_submission reviewable find_submission_by_id load_contest find_contest_by_id
      review_submission announce
  reject-fair s c u = ground (
    arith,
    k,
    every_weaken (is_fair w.submissions)
        (is_fair (update (is_submission s) (reviewed rejected u w.now) w.submissions)) w.votes
        (fair-review w.submissions s rejected u w.now) k,
  )

  pub cast-fair :
      (c s u : String)
      → every (is_fair (cast_vote c s u w).1.submissions) (cast_vote c s u w).1.votes ≡ true
  unfolding cast_vote load_contest find_contest_by_id find_submission_by_id
      find_vote_by_user_contest_submission insert_vote announce
  cast-fair c s u =
      ground (arith, k, every-snoc (is_fair w.submissions) w.votes (vote_row c s u w) k)

-- A row that passes the test of another ballot is that ballot.
same_ballot :
    (c s u d t v : String) (w : World) (vs : List ContestVote)
    → is_ballot d t v (vote_row c s u w) ≡ true
    → find (is_ballot c s u) vs ≡ find (is_ballot d t v) vs
same_ballot c s u d t v w vs h =
    let contest : c ≡ d = (eq_iff c d).0 (ground arith) in
    let submission : s ≡ t = (eq_iff s t).0 (ground arith) in
    let user : u ≡ v = (eq_iff u v).0 (ground arith) in cc

same_entry :
    (c a s d b : String) (w : World) (ss : List ContestSubmission)
    → is_entry d b (submission_row c s a w) ≡ true
    → find (is_entry c a) ss ≡ find (is_entry d b) ss
same_entry c a s d b w ss h =
    let contest : c ≡ d = (eq_iff c d).0 (ground arith) in
    let author : a ≡ b = (eq_iff a b).0 (ground arith) in cc

pub cast-one :
    (c s u d t v : String) (w : World)
    → count (is_ballot d t v) w.votes ≤ 1
    → count (is_ballot d t v) (cast_vote c s u w).1.votes ≤ 1
unfolding cast_vote load_contest find_contest_by_id find_submission_by_id
    find_vote_by_user_contest_submission insert_vote announce
cast-one c s u d t v w h = ground (
  arith,
  h,
  same_ballot c s u d t v w w.votes,
  count_missing (is_ballot d t v) w.votes,
  count-snoc (is_ballot d t v) w.votes (vote_row c s u w),
)

pub submit-one :
    (c a s u d b : String) (w : World)
    → count (is_entry d b) w.submissions ≤ 1
    → count (is_entry d b) (submit_story c a s u w).1.submissions ≤ 1
unfolding submit_story load_contest find_contest_by_id find_submission_by_contest_and_author
    create_submission announce
submit-one c a s u d b w h = ground (
  arith,
  h,
  same_entry c a s d b w w.submissions,
  count_missing (is_entry d b) w.submissions,
  count-snoc (is_entry d b) w.submissions (submission_row c s a w),
)

review-one :
    (s r d b : String) (st : SubmissionStatus) (t : ℕ) (ss : List ContestSubmission)
    → count (is_entry d b) ss ≤ 1
    → count (is_entry d b) (update (is_submission s) (reviewed st r t) ss) ≤ 1
review-one s r d b st t ss h =
    ground
      (arith, h, count-update (is_entry d b) (is_submission s) (reviewed st r t) ss (λ x. refl))

pub approve-one :
    (s c u d b : String) (w : World)
    → count (is_entry d b) w.submissions ≤ 1
    → count (is_entry d b) (approve_submission s c u w).1.submissions ≤ 1
unfolding approve_submission reviewable find_submission_by_id load_contest find_contest_by_id
    review_submission announce
approve-one s c u d b w h = ground (arith, h, review-one s u d b approved w.now w.submissions h)

pub reject-one :
    (s c u d b : String) (w : World)
    → count (is_entry d b) w.submissions ≤ 1
    → count (is_entry d b) (reject_submission s c u w).1.submissions ≤ 1
unfolding reject_submission reviewable find_submission_by_id load_contest find_contest_by_id
    review_submission announce
reject-one s c u d b w h = ground (arith, h, review-one s u d b rejected w.now w.submissions h)
