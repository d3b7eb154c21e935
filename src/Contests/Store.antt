-- ===== src/Contests/Store.antt =====
-- The rows of backend/src/modules/contests/types.ts, the inputs, and the events of the module.
use hakawi.Common.{ℕ, String, Bool, true, false, Option, List, ◌==◌}
use hakawi.Common.Text.{Text}

-- `ContestStatus`; `other` is any other word.
pub data ContestStatus : Type 0 where
  draft active voting completed cancelled : ContestStatus
  other : String → ContestStatus

-- `===` on two status words.
abbrev pub same_contest_status : ContestStatus → ContestStatus → Bool
same_contest_status draft draft = true
same_contest_status active active = true
same_contest_status voting voting = true
same_contest_status completed completed = true
same_contest_status cancelled cancelled = true
same_contest_status (other a) (other b) = a == b
same_contest_status _ _ = false

-- `SubmissionStatus`.
pub data SubmissionStatus : Type 0 where
  pending approved rejected : SubmissionStatus

-- `===` on two submission status words.
abbrev pub same_submission_status : SubmissionStatus → SubmissionStatus → Bool
same_submission_status pending pending = true
same_submission_status approved approved = true
same_submission_status rejected rejected = true
same_submission_status _ _ = false

abbrev pub is_approved : SubmissionStatus → Bool
is_approved approved = true
is_approved _ = false

pub record Contest : Type 0 where
  pub id : String
  pub title : Text
  pub description : Option String
  pub category_id : Option String
  pub start_date : ℕ
  pub end_date : ℕ
  pub submission_deadline : ℕ
  pub status : ContestStatus
  pub created_by : String
  pub winner_id : Option String
  pub created_at : ℕ
  pub updated_at : ℕ

pub record ContestSubmission : Type 0 where
  pub id : String
  pub contest_id : String
  pub story_id : String
  pub author_id : String
  pub status : SubmissionStatus
  pub submitted_at : ℕ
  pub reviewed_at : Option ℕ
  pub reviewed_by : Option String

pub record ContestVote : Type 0 where
  pub id : String
  pub contest_id : String
  pub submission_id : String
  pub user_id : String
  pub created_at : ℕ

pub record ContestPrize : Type 0 where
  pub id : String
  pub contest_id : String
  pub submission_id : String
  pub winner_id : String
  pub prize_type : String
  pub prize_description : Option String
  pub amount : Option ℕ
  pub currency : Option String
  pub created_at : ℕ

pub record ContestCategorySummary : Type 0 where
  pub id : String
  pub name : String

pub record CreateContestInput : Type 0 where
  pub title : Text
  pub description : Option String
  pub category_id : Option String
  pub start_date : ℕ
  pub end_date : ℕ
  pub submission_deadline : ℕ

-- `UpdateContestInput`: `none` is a column that the input leaves out.
pub record UpdateContestInput : Type 0 where
  pub title : Option Text
  pub description : Option (Option String)
  pub category_id : Option (Option String)
  pub start_date : Option ℕ
  pub end_date : Option ℕ
  pub submission_deadline : Option ℕ
  pub status : Option ContestStatus
  pub winner_id : Option (Option String)

pub data ContestEvent : Type 0 where
  contest_created : String → String → ContestEvent
  contest_updated contest_started contest_cancelled : String → ContestEvent
  contest_completed : String → Option String → ContestEvent
  submission_submitted submission_approved submission_rejected :
      String → String → String → ContestEvent
  vote_cast : String → String → String → String → ContestEvent
  winner_selected prize_distributed : String → String → String → ContestEvent

-- The tables, the clock, the ids that the database will draw, and the two logs.
pub record World : Type 0 where
  pub contests : List Contest
  pub submissions : List ContestSubmission
  pub votes : List ContestVote
  pub prizes : List ContestPrize
  pub categories : List ContestCategorySummary
  pub now : ℕ
  pub ids : ℕ → String
  pub drawn : ℕ
  pub announced : List ContestEvent
  pub retired : List String
