-- ===== src/Contests/Service.antt =====
-- The operations of backend/src/modules/contests/contests.service.ts on a contest itself.
use hakawi.Common.{
  String, Bool, Option, none, some, [], ◌∷◌, ◌++◌, ◌||◌, not, ◌==◌, find, Exec, pure, require,
  check, raise, modify, ◌>>=◌, ◌>>◌, not_found, forbidden, conflict,
}
use hakawi.Common.Text.{Text, trim, to_lower_case, same_text}
use hakawi.Contests.Store.{
  ContestStatus, draft, active, completed, cancelled, same_contest_status, Contest,
  ContestSubmission, CreateContestInput, UpdateContestInput, ContestEvent, contest_created,
  contest_updated, contest_started, contest_cancelled, contest_completed, winner_selected, World,
}
use hakawi.Contests.Repository.{
  find_contest_by_id, find_all_contests, create_contest, update_contest, find_winning_submission,
}

unfoldable pub announce : ContestEvent → Exec World (Unit {0})
announce e = modify (λ w. record w { announced = w.announced ++ e ∷ [] })

unfoldable pub invalidate_contest_cache : String → Exec World (Unit {0})
invalidate_contest_cache i = modify (λ w. record w { retired = w.retired ++ i ∷ [] })

pub data Action : Type 0 where
  to_update to_start to_cancel to_complete to_select to_distribute to_review : Action

abbrev pub ownership_message : Action → String
ownership_message to_update = "You can only update your own contests"
ownership_message to_start = "You can only start your own contests"
ownership_message to_cancel = "You can only cancel your own contests"
ownership_message to_complete = "You can only complete your own contests"
ownership_message to_select = "You can only select a winner for your own contests"
ownership_message to_distribute = "You can only distribute a prize for your own contests"
ownership_message to_review = "You can only review submissions for your own contests"

abbrev pub assert_contest_ownership : Contest → String → Action → Exec World (Unit {0})
assert_contest_ownership c user_id action =
    check (c.created_by == user_id) (forbidden (ownership_message action))

-- `findContestById` and the exception on its absence, as the methods begin.
unfoldable pub load_contest : String → Exec World Contest
unfolding find_contest_by_id
load_contest i = do found ← find_contest_by_id i; require (not_found "Contest not found") found

abbrev pub is_terminal : ContestStatus → Bool
is_terminal s = same_contest_status s completed || same_contest_status s cancelled

abbrev pub no_input : UpdateContestInput
no_input = record {
  title = none;
  description = none;
  category_id = none;
  start_date = none;
  end_date = none;
  submission_deadline = none;
  status = none;
  winner_id = none;
}

abbrev pub to_status : ContestStatus → UpdateContestInput
to_status s = record no_input { status = some s }

-- `existing.contests.find(...)` on the page of one row.
abbrev pub has_title : Text → Contest → Bool
has_title title c = same_text (to_lower_case c.title) (to_lower_case title)

abbrev refuse_duplicate : Option Contest → Exec World (Unit {0})
refuse_duplicate none = pure tt
refuse_duplicate (some c) = raise (conflict "Contest title already exists")

unfoldable pub create : (Text → Text → Bool) → String → CreateContestInput → Exec World Contest
unfolding find_all_contests create_contest announce
create like created_by input = do
  existing ← find_all_contests like (record {
    page = none;
    limit = some 1;
    category_id = none;
    status = none;
    search = some (trim input.title);
  })
  refuse_duplicate (find (has_title (trim input.title)) existing.0)
  contest ← create_contest input created_by draft
  announce (contest_created contest.id created_by)
  pure contest

-- `update` of the service.
unfoldable pub edit : String → UpdateContestInput → String → Exec World (Option Contest)
unfolding load_contest update_contest invalidate_contest_cache announce
edit i input user_id = do
  existing ← load_contest i
  assert_contest_ownership existing user_id to_update
  check (not (is_terminal existing.status))
      (forbidden "Cannot update a completed or cancelled contest")
  contest ← update_contest i input
  invalidate_contest_cache i
  announce (contest_updated i)
  pure contest

unfoldable pub start : String → String → Exec World (Option Contest)
unfolding load_contest update_contest invalidate_contest_cache announce
start i user_id = do
  contest ← load_contest i
  assert_contest_ownership contest user_id to_start
  check (same_contest_status contest.status draft) (forbidden "Contest is not in draft status")
  updated ← update_contest i (to_status active)
  invalidate_contest_cache i
  announce (contest_started i)
  pure updated

unfoldable pub cancel : String → String → Exec World (Option Contest)
unfolding load_contest update_contest invalidate_contest_cache announce
cancel i user_id = do
  contest ← load_contest i
  assert_contest_ownership contest user_id to_cancel
  check (not (is_terminal contest.status))
      (forbidden "Cannot cancel a completed or already cancelled contest")
  updated ← update_contest i (to_status cancelled)
  invalidate_contest_cache i
  announce (contest_cancelled i)
  pure updated

abbrev pub completion : Option ContestSubmission → UpdateContestInput
completion none = to_status completed
completion (some s) = record no_input {
  status = some completed;
  winner_id = some (some s.author_id);
}

abbrev pub author_of : Option ContestSubmission → Option String
author_of none = none
author_of (some s) = some s.author_id

abbrev announce_winner : String → Option ContestSubmission → Exec World (Unit {0})
announce_winner i none = pure tt
announce_winner i (some s) =
    modify (λ w. record w { announced = w.announced ++ winner_selected i s.id s.author_id ∷ [] })

unfoldable pub complete : String → String → Exec World (Option Contest)
unfolding load_contest find_winning_submission update_contest invalidate_contest_cache announce
complete i user_id = do
  contest ← load_contest i
  assert_contest_ownership contest user_id to_complete
  check (not (is_terminal contest.status))
      (forbidden "Cannot complete an already completed or cancelled contest")
  winning ← find_winning_submission i
  updated ← update_contest i (completion winning)
  invalidate_contest_cache i
  announce_winner i winning
  announce (contest_completed i (author_of winning))
  pure updated
