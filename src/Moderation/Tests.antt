-- ===== src/Moderation/Tests.antt =====
-- Concrete reports and actions: the theorems of this folder at inputs that meet their hypotheses.
use hakawi.Common.{
  ℕ, ◌+◌, ◌*◌, ◌≡◌, refl, String, true, false, Option, none, some, List, [], ◌∷◌, ◌++◌, arith, ltb,
  if◌then◌else◌, any, count, ok,
}
use hakawi.Access.Restrictions.{meaning}
use hakawi.Moderation.Store.{Report, UserRestriction, CreateReportInput, ActionInput, World}
use hakawi.Moderation.Service.{
  is_uuid, is_open_on, is_recent_on, restriction_row, create_report, is_overdue,
  auto_escalate_reports,
}
use hakawi.Moderation.Enforcement.{
  Key, same_key, Valkey, moderate, guarded, IsRestriction, action_enforced, is_live_ban,
  mute_lifts_ban,
}
use hakawi.Moderation.Escalation.{create_report_settles, auto_escalate_settles}

abbrev report_id : String
report_id = "0a1b2c3d-0000-4000-8000-00000000000f"

abbrev report_of : String → ℕ → Report
report_of status time = record {
  id = report_id;
  reporter_id = some "ann";
  target_id = "story1";
  target_type = "story";
  reason = "spam";
  description = none;
  status = status;
  source = "user";
  escalated_at = none;
  resolved_at = none;
  created_at = time;
  updated_at = time;
}

abbrev world_of : List Report → List UserRestriction → ℕ → World
world_of reports restrictions time = record {
  reports = reports;
  actions = [];
  restrictions = restrictions;
  now = time;
  ids = λ n. "new";
  drawn = 0;
  announced = [];
}

abbrev input_of : String → Option ℕ → ActionInput
input_of action minutes = record {
  action = action;
  reason = "spam";
  duration_minutes = minutes;
  target_user_id = some "eve";
}

abbrev a_ban : UserRestriction
a_ban = record {
  id = "r1";
  user_id = "eve";
  type_ = "ban";
  reason = "spam";
  expires_at = 600_000;
  created_by = "admin";
  created_at = 0;
}

abbrev reported : World
reported = world_of (report_of "open" 0 ∷ []) [] 1000

abbrev banned : World
banned = world_of (report_of "open" 0 ∷ []) (a_ban ∷ []) 1000

-- A text with the time at which it ends.
abbrev Table : Type 0
Table = Key → ℕ → Option String

abbrev a_valkey : Valkey
a_valkey = record {
  Store = Table;
  get = λ k time s. s k time;
  set = λ k text ttl now s j time.
      if same_key j k then (if ltb time (now + ttl * 1000) then some text else none) else s j time;
  hmset = λ k fields s. s;
  expire = λ k ttl now s. s;
  escalation_text = λ i now. i;
  get-set = λ j k text ttl now time s later. refl;
  get-hmset = λ j k fields time s apart. refl;
  get-expire = λ j k ttl now time s apart. refl;
}

abbrev nothing_cached : Table
nothing_cached k time = none

abbrev new_report : CreateReportInput
new_report = record {
  target_id = "story1";
  target_type = "story";
  reason = "spam";
  description = none;
}

abbrev busy : World
busy = world_of (report_of "open" 500 ∷ report_of "open" 600 ∷ []) [] 1000

abbrev old : World
old = world_of (report_of "open" 0 ∷ report_of "resolved" 0 ∷ []) [] 90_000_000

ban_applies : IsRestriction report_id "eve" (input_of "ban" (some 7)) reported
unfolding is_uuid
ban_applies = record {
  report = report_of "open" 0;
  found = refl;
  target = refl;
  named = refl;
  restricts = refl;
}

mute_applies : IsRestriction report_id "eve" (input_of "mute" none) banned
unfolding is_uuid
mute_applies = record {
  report = report_of "open" 0;
  found = refl;
  target = refl;
  named = refl;
  restricts = refl;
}

action_enforced_example :
    ((moderate a_valkey report_id "admin"
        (input_of "ban" (some 7))
        reported
        nothing_cached).0.restrictions
      ≡ [] ++ restriction_row "new" "eve" "admin" (input_of "ban" (some 7)) 1000 ∷ [])
    × (guarded a_valkey "eve"
          (some "GET")
          5000
          (moderate a_valkey report_id "admin" (input_of "ban" (some 7)) reported nothing_cached).1
        ≡ (if ltb 5000
              (restriction_row "new" "eve" "admin" (input_of "ban" (some 7)) 1000).expires_at
            then meaning "ban" (some "GET")
            else ok true))
action_enforced_example =
    action_enforced report_id "admin" "eve" (input_of "ban" (some 7)) reported ban_applies a_valkey
      nothing_cached 5000 (omega arith) (some "GET")

mute_lifts_ban_example :
    (any
        (is_live_ban "eve" 5000)
        (moderate a_valkey report_id "admin"
          (input_of "mute" none)
          banned
          nothing_cached).0.restrictions
      ≡ true)
    × (guarded a_valkey "eve"
          (some "GET")
          5000
          (moderate a_valkey report_id "admin" (input_of "mute" none) banned nothing_cached).1
        ≡ ok true)
mute_lifts_ban_example =
    mute_lifts_ban report_id "admin" "eve" (input_of "mute" none) banned a_valkey nothing_cached
      5000 (some "GET") mute_applies refl (omega arith) refl refl

create_report_settles_example :
    any (is_open_on "story1") (create_report "ann" new_report busy).1.reports
    ≡ ltb (count (is_recent_on "story1" 1000) (create_report "ann" new_report busy).1.reports) 3
create_report_settles_example = create_report_settles "ann" new_report busy

auto_escalate_settles_example :
    any (is_overdue 90_000_000) (auto_escalate_reports old).1.reports ≡ false
auto_escalate_settles_example = auto_escalate_settles old

one_escalated : (auto_escalate_reports old).0 ≡ 1
unfolding auto_escalate_reports
one_escalated = refl
