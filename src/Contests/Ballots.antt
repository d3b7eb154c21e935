-- ===== src/Contests/Ballots.antt =====
-- Which votes `castVote` accepts.
use hakawi.Common.{
  is_ok, ℕ, ◌≡◌, refl, String, Bool, true, false, Option, none, some, List, [], ◌∷◌, ◌++◌, ◌&&◌,
  not, ◌==◌, arith, ltb, if◌then◌else◌, find, any,
}
use hakawi.Contests.Store.{
  voting, same_contest_status, is_approved, Contest, ContestSubmission, ContestVote, World,
}
use hakawi.Contests.Repository.{
  is_contest, is_submission, is_ballot, vote_row, find_contest_by_id, find_submission_by_id,
  find_vote_by_user_contest_submission, insert_vote,
}
use hakawi.Contests.Service.{announce, load_contest}
use hakawi.Contests.Entries.{cast_vote}

-- The contest takes votes at this time.
abbrev pub takes_votes : ℕ → Option Contest → Bool
takes_votes time none = false
takes_votes time (some c) = same_contest_status c.status voting && not (ltb c.end_date time)

-- The entry is one of this contest, approved, and not of this account.
abbrev pub is_eligible : String → String → Option ContestSubmission → Bool
is_eligible contest user none = false
is_eligible contest user (some s) =
    (s.contest_id == contest) && (not (s.author_id == user) && is_approved s.status)

abbrev pub may_vote : String → String → String → World → Bool
may_vote contest entry user w =
    takes_votes w.now (find (is_contest contest) w.contests)
    && (is_eligible contest user (find (is_submission entry) w.submissions)
        && not (any (is_ballot contest entry user) w.votes))

abbrev is_found : Option ContestVote → Bool
is_found none = false
is_found (some v) = true

any-find : (p : ContestVote → Bool) (vs : List ContestVote) → any p vs ≡ is_found (find p vs)
any-find p [] = refl
any-find p (v ∷ vs) = ground (arith, any-find p vs)

-- A vote is accepted exactly when the contest is in its voting status and has not ended, the entry is
-- an approved one of that contest by somebody else, and the account has no vote for it yet. An
-- accepted vote is added to the table, a refused one leaves the table as it was.
pub cast_vote_accepts :
    (contest entry user : String) (w : World)
    → (is_ok (cast_vote contest entry user w).0 ≡ may_vote contest entry user w)
      × ((cast_vote contest entry user w).1.votes ≡ (
          if may_vote contest entry user w
          then w.votes ++ vote_row contest entry user w ∷ []
          else w.votes))
unfolding cast_vote load_contest find_contest_by_id find_submission_by_id
    find_vote_by_user_contest_submission insert_vote announce
cast_vote_accepts contest entry user w =
    ground (arith, any-find (is_ballot contest entry user) w.votes)
