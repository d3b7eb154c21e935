-- ===== src/Contests/Entries.antt =====
-- Entries, ballots, winners and prizes: the other operations of
-- backend/src/modules/contests/contests.service.ts that change the tables.
use hakawi.Common.{
  ℕ, String, Bool, true, false, Option, none, some, ◌||◌, not, ◌==◌, ltb, if◌then◌else◌, Exec, pure,
  require, check, raise, gets, ◌>>=◌, ◌>>◌, not_found, forbidden, bad_request, conflict,
}
use hakawi.Contests.Store.{
  active, voting, completed, same_contest_status, approved, rejected, is_approved, Contest,
  ContestSubmission, ContestVote, ContestPrize, contest_completed, submission_submitted,
  submission_approved, submission_rejected, vote_cast, winner_selected, prize_distributed, World,
}
use hakawi.Contests.Repository.{
  update_contest, find_submission_by_id, find_submission_by_contest_and_author, create_submission,
  review_submission, find_vote_by_user_contest_submission, insert_vote, create_prize,
}
use hakawi.Contests.Service.{
  announce, invalidate_contest_cache, to_select, to_distribute, to_review, assert_contest_ownership,
  load_contest, no_input,
}

abbrev refuse_second_entry : Option ContestSubmission → Exec World (Unit {0})
refuse_second_entry none = pure tt
refuse_second_entry (some s) = raise (conflict "You have already submitted a story to this contest")

unfoldable pub submit_story : String → String → String → String → Exec World ContestSubmission
unfolding load_contest find_submission_by_contest_and_author create_submission announce
submit_story contest_id author_id story_id user_id = do
  check (author_id == user_id) (forbidden "You can only submit stories as yourself")
  contest ← load_contest contest_id
  check (same_contest_status contest.status active)
      (forbidden "Contest is not accepting submissions")
  time ← gets (λ (w : World). w.now)
  check (not (ltb contest.submission_deadline time)) (forbidden "Submission deadline has passed")
  existing ← find_submission_by_contest_and_author contest_id author_id
  refuse_second_entry existing
  submission ← create_submission contest_id story_id author_id
  announce (submission_submitted submission.id contest_id author_id)
  pure submission

-- The checks that `approveSubmission` and `rejectSubmission` share, in their order.
unfoldable pub reviewable : String → String → String → String → Exec World ContestSubmission
unfolding find_submission_by_id load_contest
reviewable submission_id contest_id user_id message = do
  found ← find_submission_by_id submission_id
  submission ← require (not_found "Submission not found") found
  contest ← load_contest contest_id
  assert_contest_ownership contest user_id to_review
  check (same_contest_status contest.status active || same_contest_status contest.status voting)
      (forbidden message)
  check (submission.contest_id == contest_id) (not_found "Submission not found in this contest")
  pure submission

unfoldable pub approve_submission : String → String → String → Exec World (Option ContestSubmission)
unfolding reviewable review_submission announce
approve_submission submission_id contest_id user_id = do
  submission ←
      reviewable submission_id contest_id user_id "Contest is not in a state to approve submissions"
  updated ← review_submission submission_id approved user_id
  announce (submission_approved submission_id contest_id submission.author_id)
  pure updated

unfoldable pub reject_submission : String → String → String → Exec World (Option ContestSubmission)
unfolding reviewable review_submission announce
reject_submission submission_id contest_id user_id = do
  submission ←
      reviewable submission_id contest_id user_id "Contest is not in a state to reject submissions"
  updated ← review_submission submission_id rejected user_id
  announce (submission_rejected submission_id contest_id submission.author_id)
  pure updated

-- `!submission || submission.contestId !== contestId` taken as no row.
abbrev pub entered : String → Option ContestSubmission → Option ContestSubmission
entered contest_id none = none
entered contest_id (some s) = if s.contest_id == contest_id then some s else none

abbrev refuse_second_vote : Option ContestVote → Exec World (Unit {0})
refuse_second_vote none = pure tt
refuse_second_vote (some v) = raise (conflict "You have already voted for this submission")

unfoldable pub cast_vote : String → String → String → Exec World ContestVote
unfolding load_contest find_submission_by_id find_vote_by_user_contest_submission insert_vote
    announce
cast_vote contest_id submission_id user_id = do
  contest ← load_contest contest_id
  check (same_contest_status contest.status voting)
      (forbidden "Voting is not currently open for this contest")
  time ← gets (λ (w : World). w.now)
  check (not (ltb contest.end_date time)) (forbidden "Voting has closed for this contest")
  found ← find_submission_by_id submission_id
  submission ← require (not_found "Submission not found in this contest") (entered contest_id found)
  check (not (submission.author_id == user_id))
      (forbidden "You cannot vote for your own submission")
  check (is_approved submission.status) (forbidden "Only approved submissions can be voted on")
  existing ← find_vote_by_user_contest_submission contest_id submission_id user_id
  refuse_second_vote existing
  vote ← insert_vote contest_id submission_id user_id
  announce (vote_cast vote.id contest_id submission_id user_id)
  pure vote

unfoldable pub select_winner : String → String → String → String → Exec World (Option Contest)
unfolding load_contest find_submission_by_id update_contest invalidate_contest_cache announce
select_winner contest_id submission_id winner_id user_id = do
  contest ← load_contest contest_id
  assert_contest_ownership contest user_id to_select
  check (same_contest_status contest.status voting) (forbidden "Contest is not in voting phase")
  found ← find_submission_by_id submission_id
  submission ← require (not_found "Submission not found in this contest") (entered contest_id found)
  check (submission.author_id == winner_id)
      (forbidden "Winner must be the author of the selected submission")
  updated ←
      update_contest contest_id
        (record no_input { winner_id = some (some winner_id); status = some completed })
  invalidate_contest_cache contest_id
  announce (winner_selected contest_id submission_id winner_id)
  announce (contest_completed contest_id (some winner_id))
  pure updated

abbrev pub together : Option ℕ → Option String → Bool
together none none = true
together (some a) (some c) = true
together _ _ = false

abbrev prize_row :
    String
    → String
    → String
    → String
    → Option String
    → Option ℕ
    → Option String
    → String
    → ℕ
    → ContestPrize
prize_row contest_id submission_id winner_id prize_type description amount currency i time =
    record {
      id = i;
      contest_id = contest_id;
      submission_id = submission_id;
      winner_id = winner_id;
      prize_type = prize_type;
      prize_description = description;
      amount = amount;
      currency = currency;
      created_at = time;
    }

unfoldable pub distribute_prize :
    String
    → String
    → String
    → String
    → Option String
    → String
    → Option ℕ
    → Option String
    → Exec World ContestPrize
unfolding load_contest create_prize announce
distribute_prize contest_id submission_id winner_id prize_type description user_id amount currency =
    do
      contest ← load_contest contest_id
      assert_contest_ownership contest user_id to_distribute
      check (same_contest_status contest.status completed)
          (forbidden "Contest must be completed before distributing prizes")
      check (together amount currency)
          (bad_request "Prize amount and currency must be provided together")
      prize ←
          create_prize
            (prize_row contest_id submission_id winner_id prize_type description amount currency)
      announce (prize_distributed prize.id contest_id winner_id)
      pure prize
