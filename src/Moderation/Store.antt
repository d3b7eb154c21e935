-- ===== src/Moderation/Store.antt =====
-- The rows of backend/src/modules/moderation/moderation.service.ts, its inputs and its events.
use hakawi.Common.{ℕ, String, Option, List}

pub record Report : Type 0 where
  pub id : String
  pub reporter_id : Option String
  pub target_id : String
  pub target_type : String
  pub reason : String
  pub description : Option String
  pub status : String
  pub source : String
  pub escalated_at : Option ℕ
  pub resolved_at : Option ℕ
  pub created_at : ℕ
  pub updated_at : ℕ

pub record ModerationAction : Type 0 where
  pub id : String
  pub report_id : String
  pub admin_id : String
  pub action : String
  pub reason : String
  pub duration_minutes : Option ℕ
  pub target_user_id : Option String
  pub created_at : ℕ

pub record UserRestriction : Type 0 where
  pub id : String
  pub user_id : String
  pub type_ : String
  pub reason : String
  pub expires_at : ℕ
  pub created_by : String
  pub created_at : ℕ

pub record CreateReportInput : Type 0 where
  pub target_id : String
  pub target_type : String
  pub reason : String
  pub description : Option String

pub record ActionInput : Type 0 where
  pub action : String
  pub reason : String
  pub duration_minutes : Option ℕ
  pub target_user_id : Option String

pub record ActionTaken : Type 0 where
  pub action_id : String
  pub report_id : String
  pub admin_id : String
  pub target_user_id : String
  pub action : String
  pub reason : String
  pub duration_minutes : Option ℕ

-- An escalation names the report, its target, and the status and time of update before it.
pub data ModerationEvent : Type 0 where
  report_created : String → String → String → String → String → ModerationEvent
  action_taken : ActionTaken → ModerationEvent
  content_removed : String → String → String → String → String → ModerationEvent
  report_escalated : String → String → String → ℕ → ModerationEvent

-- The tables, the clock in milliseconds, the ids that the database will draw, and the events.
pub record World : Type 0 where
  pub reports : List Report
  pub actions : List ModerationAction
  pub restrictions : List UserRestriction
  pub now : ℕ
  pub ids : ℕ → String
  pub drawn : ℕ
  pub announced : List ModerationEvent
