-- ===== src/Moderation/Service.antt =====
-- backend/src/modules/moderation/moderation.service.ts, on inputs that its schemas have parsed.
use hakawi.Common.{
  ℕ, suc, zero, ◌+◌, ◌*◌, String, Bool, true, false, Option, none, some, List, [], ◌∷◌, ◌++◌, ◌&&◌,
  ◌||◌, ◌==◌, ltb, leb, eqb, if◌then◌else◌, find, update, any, filter, count, length, map, page_of,
  newest_first, ok, Exec, pure, require, modify, gets, ◌>>=◌, ◌>>◌, not_found,
}
use hakawi.Common.Text.{Text, codes}
use hakawi.Access.Restrictions.{restriction_type_for_action, restriction_ttl_seconds}
use hakawi.Moderation.Store.{
  Report, ModerationAction, UserRestriction, CreateReportInput, ActionInput, ActionTaken,
  ModerationEvent, report_created, action_taken, content_removed, report_escalated, World,
}

abbrev pub is_report : String → Report → Bool
is_report i r = r.id == i

abbrev is_hex : ℕ → Bool
is_hex c = (leb b'0' c && leb c b'9') || ((leb b'a' c && leb c b'f') || (leb b'A' c && leb c b'F'))

abbrev hex_then : ℕ → (Text → Bool) → Text → Bool
hex_then zero rest s = rest s
hex_then (suc n) rest [] = false
hex_then (suc n) rest (c ∷ s) = is_hex c && hex_then n rest s

abbrev dash_then : (Text → Bool) → Text → Bool
dash_then rest [] = false
dash_then rest (c ∷ s) = eqb c b'-' && rest s

abbrev ends : Text → Bool
ends [] = true
ends (c ∷ s) = false

-- `isUuid`: groups of 8, 4, 4, 4 and 12 hexadecimal digits.
unfoldable pub is_uuid : String → Bool
is_uuid s =
    hex_then 8
      (dash_then (
        hex_then 4
          (dash_then (hex_then 4 (dash_then (hex_then 4 (dash_then (hex_then 12 ends))))))))
      (codes s)

unfoldable pub announce : ModerationEvent → Exec World (Unit {0})
announce e = modify (λ w. record w { announced = w.announced ++ e ∷ [] })

abbrev pub auto_escalation_report_threshold : ℕ
auto_escalation_report_threshold = 3

abbrev pub is_open_on : String → Report → Bool
is_open_on target r = (r.target_id == target) && (r.status == "open")

-- `createdAt > now - 1 hour`.
abbrev pub is_recent_on : String → ℕ → Report → Bool
is_recent_on target time r = (r.target_id == target) && ltb time (r.created_at + 3_600_000)

abbrev pub take_into_review : ℕ → Report → Report
take_into_review time r = record r {
  escalated_at = some time;
  status = "in_review";
  updated_at = time;
}

abbrev pub escalation_of : Report → ModerationEvent
escalation_of r = report_escalated r.id r.target_id r.status r.updated_at

-- The escalation of the open reports on a target, in the order of the table, which is that of creation.
unfoldable pub escalate_open : String → World → World
escalate_open target w = record w {
  reports = update (is_open_on target) (take_into_review w.now) w.reports;
  announced = w.announced ++ map escalation_of (filter (is_open_on target) w.reports);
}

unfoldable pub check_auto_escalation : String → Exec World (Unit {0})
unfolding escalate_open
check_auto_escalation target = modify (λ w.
    if ltb (count (is_recent_on target w.now) w.reports) auto_escalation_report_threshold
    then w
    else escalate_open target w)

-- `x || null` on a text.
abbrev pub or_null : Option String → Option String
or_null none = none
or_null (some s) = if s == "" then none else some s

abbrev pub report_row : String → CreateReportInput → World → Report
report_row reporter input w = record {
  id = w.ids w.drawn;
  reporter_id = some reporter;
  target_id = input.target_id;
  target_type = input.target_type;
  reason = input.reason;
  description = or_null input.description;
  status = "open";
  source = "user";
  escalated_at = none;
  resolved_at = none;
  created_at = w.now;
  updated_at = w.now;
}

unfoldable pub insert_report : String → CreateReportInput → Exec World Report
insert_report reporter input w =
    let row = report_row reporter input w in
    (ok row, record w { reports = w.reports ++ row ∷ []; drawn = w.drawn + 1 })

unfoldable pub create_report : String → CreateReportInput → Exec World Report
unfolding insert_report announce check_auto_escalation
create_report reporter input = do
  report ← insert_report reporter input
  announce (report_created report.id reporter input.target_id input.target_type input.reason)
  check_auto_escalation input.target_id
  pure report

abbrev matches_word : Option String → String → Bool
matches_word none s = true
matches_word (some t) s = (t == "") || (s == t)

unfoldable pub find_all_reports :
    Option String → Option String → ℕ → ℕ → Exec World (List Report × ℕ)
find_all_reports status target_type page limit = gets (λ w.
    let rows =
      filter
        (λ (r : Report). matches_word status r.status && matches_word target_type r.target_type)
        w.reports in
    (page_of page limit (newest_first (λ r. r.created_at) rows), length rows))

abbrev pub with_status : String → ℕ → Report → Report
with_status status time r = record r {
  status = status;
  resolved_at = if status == "resolved" then some time else none;
  updated_at = time;
}

unfoldable pub update_report_status : String → String → Exec World Report
update_report_status i status = do
  found ← gets (λ (w : World). find (is_report i) w.reports)
  existing ← require (not_found "Report not found") found
  modify (λ (w : World). record w {
    reports = update (is_report i) (with_status status w.now) w.reports;
  })
  updated ← gets (λ (w : World). find (is_report i) w.reports)
  require (not_found "Report not found") updated

abbrev pub nonzero : Option ℕ → Option ℕ
nonzero none = none
nonzero (some n) = if eqb n 0 then none else some n

abbrev pub action_row : String → String → ActionInput → World → ModerationAction
action_row report_id admin input w = record {
  id = w.ids w.drawn;
  report_id = report_id;
  admin_id = admin;
  action = input.action;
  reason = input.reason;
  duration_minutes = nonzero input.duration_minutes;
  target_user_id = or_null input.target_user_id;
  created_at = w.now;
}

unfoldable pub insert_action : String → String → ActionInput → Exec World ModerationAction
insert_action report_id admin input w =
    let row = action_row report_id admin input w in
    (ok row, record w { actions = w.actions ++ row ∷ []; drawn = w.drawn + 1 })

abbrev pub restricts_the_account : String → Bool
restricts_the_account action = (action == "ban") || (action == "mute")

abbrev pub has_duration : Option ℕ → Bool
has_duration none = false
has_duration (some n) = true

abbrev pub restriction_row : String → String → String → ActionInput → ℕ → UserRestriction
restriction_row i user admin input time = record {
  id = i;
  user_id = user;
  type_ = restriction_type_for_action input.action;
  reason = input.reason;
  expires_at = time + restriction_ttl_seconds input.action input.duration_minutes * 1000;
  created_by = admin;
  created_at = time;
}

-- The row of the restriction, if the action has a target and restricts it or has a duration.
unfoldable pub restrict : Option String → String → ActionInput → Exec World (Unit {0})
restrict none admin input = pure tt
restrict (some user) admin input = modify (λ w.
    if has_duration input.duration_minutes || restricts_the_account input.action
    then record w {
      restrictions = w.restrictions ++ restriction_row (w.ids w.drawn) user admin input w.now ∷ [];
      drawn = w.drawn + 1;
    }
    else w)

abbrev pub or_empty : Option String → String
or_empty none = ""
or_empty (some s) = s

abbrev content_bearing_target_types : List String
content_bearing_target_types = "story" ∷ "comment" ∷ []

unfoldable pub request_content_removal : Report → String → String → String → Exec World (Unit {0})
unfolding announce
request_content_removal report admin reason action =
    if (action == "content_removal")
      && any (λ t. t == report.target_type) content_bearing_target_types
    then announce (content_removed report.id report.target_type report.target_id admin reason)
    else pure tt

unfoldable pub taken : String → String → String → ActionInput → ActionTaken
taken i report_id admin input = record {
  action_id = i;
  report_id = report_id;
  admin_id = admin;
  target_user_id = or_empty input.target_user_id;
  action = input.action;
  reason = input.reason;
  duration_minutes = input.duration_minutes;
}

abbrev pub find_if : Bool → String → World → Option Report
find_if valid i w = if valid then find (is_report i) w.reports else none

unfoldable pub take_action : String → String → ActionInput → Exec World ModerationAction
unfolding is_uuid insert_action restrict announce taken request_content_removal
take_action report_id admin input = do
  found ← gets (find_if (is_uuid report_id) report_id)
  report ← require (not_found "Report not found") found
  action ← insert_action report_id admin input
  restrict (or_null input.target_user_id) admin input
  announce (action_taken (taken action.id report_id admin input))
  request_content_removal report admin input.reason input.action
  pure action

-- `status = 'open' and created_at < now - 24 hours`.
abbrev pub is_overdue : ℕ → Report → Bool
is_overdue time r = (r.status == "open") && ltb (r.created_at + 86_400_000) time

abbrev pub is_still_open : String → Report → Bool
is_still_open i r = (r.id == i) && (r.status == "open")

abbrev pub escalated : ℕ → Report → Report
escalated time r = record r { status = "escalated"; escalated_at = some time; updated_at = time }

-- One round of the loop of `autoEscalateReports`, with the number of escalated reports.
unfoldable pub escalate_one : Report → World → ℕ × World
escalate_one report w =
    if any (is_still_open report.id) w.reports
    then (
      1,
      record w {
        reports = update (is_still_open report.id) (escalated w.now) w.reports;
        announced = w.announced ++ escalation_of report ∷ [];
      },
    )
    else (0, w)

unfoldable pub escalate_each : List Report → World → ℕ × World
unfolding escalate_one
escalate_each [] w = (0, w)
escalate_each (r ∷ rs) w =
    let one = escalate_one r w in let rest = escalate_each rs one.1 in (one.0 + rest.0, rest.1)

unfoldable pub auto_escalate_reports : World → ℕ × World
unfolding escalate_each
auto_escalate_reports w = escalate_each (filter (is_overdue w.now) w.reports) w
