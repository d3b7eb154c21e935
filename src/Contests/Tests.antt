-- ===== src/Contests/Tests.antt =====
-- Concrete contests: the theorems of this folder at inputs that meet their hypotheses, and runs.
use hakawi.Common.{
  is_ok, ◌≤◌, ◌≡◌, refl, String, Bool, true, false, Option, none, some, List, [], ◌∷◌, ◌++◌, find,
  every, filter, count, ok, if◌then◌else◌,
}
use hakawi.Common.Text.{Text, codes}
use hakawi.Contests.Store.{
  ContestStatus, draft, active, voting, completed, SubmissionStatus, approved, rejected, Contest,
  ContestSubmission, ContestVote, contest_started, World,
}
use hakawi.Contests.Repository.{is_contest, in_contest, is_entry, is_ballot, with_input, vote_row}
use hakawi.Contests.Service.{no_input, completion, complete, start}
use hakawi.Contests.Entries.{cast_vote}
use hakawi.Contests.Events.{handle_event}
use hakawi.Contests.History.{
  Request, edits, starts, cancels, completes, submits, approves, votes, waits, serve_all,
}
use hakawi.Contests.Lifecycle.Frozen.{closed_contest_kept, only_creator_updates}
use hakawi.Contests.Voting.{is_fair}
use hakawi.Contests.Voting.Sound.{votes_sound}
use hakawi.Contests.Winners.{IsIn, IsBestOf, complete-IsBestOf, complete_crowns_rejected}
use hakawi.Contests.Ballots.{may_vote, cast_vote_accepts}
use hakawi.Contests.Entrants.Started.{started_tells_nobody}

abbrev contains_nothing : Text → Text → Bool
contains_nothing title search = false

abbrev contest_of : ContestStatus → Contest
contest_of status = record {
  id = "c1";
  title = codes "Spring";
  description = none;
  category_id = none;
  start_date = 0;
  end_date = 100;
  submission_deadline = 50;
  status = status;
  created_by = "owner";
  winner_id = none;
  created_at = 0;
  updated_at = 0;
}

abbrev entry_of : String → String → SubmissionStatus → ContestSubmission
entry_of i author status = record {
  id = i;
  contest_id = "c1";
  story_id = "story";
  author_id = author;
  status = status;
  submitted_at = 1;
  reviewed_at = none;
  reviewed_by = none;
}

abbrev vote_of : String → String → ContestVote
vote_of entry user = record {
  id = "v";
  contest_id = "c1";
  submission_id = entry;
  user_id = user;
  created_at = 2;
}

abbrev world_of : List Contest → List ContestSubmission → List ContestVote → World
world_of cs ss vs = record {
  contests = cs;
  submissions = ss;
  votes = vs;
  prizes = [];
  categories = [];
  now = 10;
  ids = λ n. "s1";
  drawn = 0;
  announced = [];
  retired = [];
}

abbrev two_entries : World
two_entries =
    world_of (contest_of voting ∷ [])
      (entry_of "s1" "ann" approved ∷ entry_of "s2" "bob" approved ∷ []) (vote_of "s2" "cat" ∷ [])

abbrev only_rejected : World
only_rejected = world_of (contest_of active ∷ []) (entry_of "s1" "ann" rejected ∷ []) []

abbrev done : World
done = world_of (contest_of completed ∷ []) [] []

abbrev begun : World
begun = world_of (contest_of draft ∷ []) [] []

abbrev a_season : List Request
a_season =
    starts "c1" "owner"
    ∷ submits "c1" "ann" "story" "ann"
    ∷ approves "s1" "c1" "owner"
    ∷ edits "c1" (record no_input { status = some voting }) "owner"
    ∷ votes "c1" "s1" "bob"
    ∷ votes "c1" "s1" "bob"
    ∷ votes "c1" "s1" "ann"
    ∷ []

abbrev strangers : List Request
strangers = cancels "c1" "eve" ∷ waits 3 ∷ completes "c1" "eve" ∷ []

one_vote_counts :
    count (is_ballot "c1" "s1" "bob") (serve_all contains_nothing a_season begun).votes ≡ 1
unfolding serve_all
one_vote_counts = refl

closed_contest_kept_example :
    find (is_contest "c1") (serve_all contains_nothing (cancels "c1" "owner" ∷ []) done).contests
    ≡ some (contest_of completed)
closed_contest_kept_example =
    closed_contest_kept contains_nothing "c1" (contest_of completed) (cancels "c1" "owner" ∷ [])
      done refl refl

only_creator_updates_example :
    find (is_contest "c1") (serve_all contains_nothing strangers begun).contests
    ≡ some (contest_of draft)
only_creator_updates_example =
    only_creator_updates contains_nothing "c1" (contest_of draft) strangers begun refl refl

votes_sound_example :
    (every
        (is_fair (serve_all contains_nothing a_season begun).submissions)
        (serve_all contains_nothing a_season begun).votes
      ≡ true)
    × (count (is_ballot "c1" "s1" "bob") (serve_all contains_nothing a_season begun).votes ≤ 1)
    × (count (is_entry "c1" "ann") (serve_all contains_nothing a_season begun).submissions ≤ 1)
votes_sound_example = votes_sound contains_nothing "c1" "s1" "bob" "ann" a_season begun refl refl

complete-IsBestOf_example :
    (s : Option ContestSubmission) × IsBestOf two_entries.votes
      (filter (in_contest "c1") two_entries.submissions)
      s
    × ((complete "c1" "owner" two_entries).0
        ≡ ok (some (with_input (completion s) two_entries.now (contest_of voting))))
complete-IsBestOf_example =
    complete-IsBestOf "c1" "owner" (contest_of voting) two_entries refl refl refl

complete_crowns_rejected_example :
    (s : ContestSubmission) × IsIn s (filter (in_contest "c1") only_rejected.submissions)
    × (s.status ≡ rejected)
    × ((complete "c1" "owner" only_rejected).0
        ≡ ok (
            some (record (contest_of active) {
              status = completed;
              winner_id = some s.author_id;
              updated_at = only_rejected.now;
            })))
complete_crowns_rejected_example =
    complete_crowns_rejected "c1" "owner" (contest_of active) only_rejected refl refl refl refl refl

cast_vote_accepts_example :
    (is_ok (cast_vote "c1" "s1" "cat" two_entries).0 ≡ may_vote "c1" "s1" "cat" two_entries)
    × ((cast_vote "c1" "s1" "cat" two_entries).1.votes ≡ (
        if may_vote "c1" "s1" "cat" two_entries
        then two_entries.votes ++ vote_row "c1" "s1" "cat" two_entries ∷ []
        else two_entries.votes))
cast_vote_accepts_example = cast_vote_accepts "c1" "s1" "cat" two_entries

started_tells_nobody_example :
    ((start "c1" "owner" (serve_all contains_nothing (waits 1 ∷ []) begun)).0
      ≡ ok (
          some (record (contest_of draft) {
            status = active;
            updated_at = (serve_all contains_nothing (waits 1 ∷ []) begun).now;
          })))
    × (handle_event
          (contest_started "c1")
          (start "c1" "owner" (serve_all contains_nothing (waits 1 ∷ []) begun)).1
        ≡ [])
unfolding serve_all
started_tells_nobody_example =
    started_tells_nobody contains_nothing (waits 1 ∷ []) "c1" (contest_of draft) begun refl refl
      refl refl

votes_are_accepted : may_vote "c1" "s1" "cat" two_entries ≡ true
votes_are_accepted = refl
