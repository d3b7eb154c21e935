-- ===== src/Moderation/Enforcement.antt =====
-- backend/src/modules/moderation/events/moderation.event-handler.ts: the restriction that it caches, and
-- what the guard makes of it.
use hakawi.Common.{
  ℕ, ◌+◌, ◌*◌, ◌≤◌, ◌≡◌, refl, sym, ap, ◌∙◌, String, Bool, true, false, Option, none, some, List,
  [], ◌∷◌, ◌++◌, ◌&&◌, ◌||◌, ◌==◌, arith, ltb, if◌then◌else◌, any, Result, ok, eq_iff, Bool-cases,
  inl, inr,
}
use hakawi.Access.Restrictions.{
  restriction_type_by_action, restriction_ttl_seconds, answered, is_safe, restriction_guard,
  check_lookup, meaning, policy_enforced,
}
use hakawi.Moderation.Store.{
  Report, UserRestriction, ActionInput, ActionTaken, ModerationEvent, action_taken,
  report_escalated, World,
}
use hakawi.Moderation.Service.{
  is_uuid, announce, or_empty, has_duration, restricts_the_account, restriction_row, insert_action,
  restrict, request_content_removal, taken, find_if, take_action,
}

-- `restriction:<user>`, `restriction:<user>:details` and `escalation:<target>`.
pub data Key : Type 0 where
  restriction details escalation : String → Key

abbrev pub same_key : Key → Key → Bool
same_key (restriction a) (restriction b) = a == b
same_key (details a) (details b) = a == b
same_key (escalation a) (escalation b) = a == b
same_key _ _ = false

-- The commands of Valkey that the handler sends, at a time in milliseconds, with what they are
-- documented to do to a read at a time.
pub record Valkey : Type 1 where
  pub Store : Type 0
  pub get : Key → ℕ → Store → Option String
  pub set : Key → String → ℕ → ℕ → Store → Store
  pub hmset : Key → List (String × String) → Store → Store
  pub expire : Key → ℕ → ℕ → Store → Store
  -- The JSON text of the escalation of a report at a time.
  pub escalation_text : String → ℕ → String
  pub get-set :
      (j k : Key) (text : String) (ttl now time : ℕ) (s : Store)
      → now ≤ time
      → get j time (set k text ttl now s) ≡ (
          if same_key j k
          then (if ltb time (now + ttl * 1000) then some text else none)
          else get j time s)
  pub get-hmset :
      (j k : Key) (fields : List (String × String)) (time : ℕ) (s : Store)
      → same_key j k ≡ false
      → get j time (hmset k fields s) ≡ get j time s
  pub get-expire :
      (j k : Key) (ttl now time : ℕ) (s : Store)
      → same_key j k ≡ false
      → get j time (expire k ttl now s) ≡ get j time s

module _ (v : Valkey) where
  open v use {Store, get, set, hmset, expire, get-set, get-hmset, get-expire}

  -- The details, without the time of writing, which nothing reads.
  abbrev pub details_of : String → ActionTaken → List (String × String)
  details_of stored e =
      ("type", stored)
      ∷ ("reason", e.reason)
      ∷ ("actionId", e.action_id)
      ∷ ("adminId", e.admin_id)
      ∷ []

  abbrev pub cache_restriction : Option String → ActionTaken → ℕ → Store → Store
  cache_restriction none e now s = s
  cache_restriction (some stored) e now s =
      let ttl = restriction_ttl_seconds e.action e.duration_minutes in
      expire (details e.target_user_id) ttl now (
        hmset (details e.target_user_id) (details_of stored e)
          (set (restriction e.target_user_id) stored ttl now s))

  unfoldable pub handle_action_taken : ActionTaken → ℕ → Store → Store
  handle_action_taken e now s = cache_restriction (restriction_type_by_action e.action) e now s

  unfoldable pub handle_report_escalated : String → String → ℕ → Store → Store
  handle_report_escalated report_id target now s =
      set (escalation target) (v.escalation_text report_id now) (48 * 60 * 60) now s

  abbrev pub handle_event : ModerationEvent → ℕ → Store → Store
  handle_event (action_taken e) now s = handle_action_taken e now s
  handle_event (report_escalated i target status time) now s =
      handle_report_escalated i target now s
  handle_event _ now s = s

  abbrev pub handle_events : List ModerationEvent → ℕ → Store → Store
  handle_events [] now s = s
  handle_events (e ∷ es) now s = handle_events es now (handle_event e now s)

  -- `takeAction` with the handling of the events that it emits; the world keeps the events of this
  -- call alone.
  unfoldable pub moderate : String → String → ActionInput → World → Store → World × Store
  unfolding take_action handle_action_taken
  moderate report_id admin input w s =
      let after = (take_action report_id admin input (record w { announced = [] })).1 in
      (after, handle_events after.announced w.now s)

  -- What the guard answers to a request of an account at a time.
  abbrev pub guarded : String → Option String → ℕ → Store → Result Bool
  guarded user method time s =
      restriction_guard (some user) (answered (get (restriction user) time s)) method

  get-cached :
      (user stored : String) (e : ActionTaken) (now time : ℕ) (s : Store)
      → e.target_user_id ≡ user
      → now ≤ time
      → get (restriction user) time (cache_restriction (some stored) e now s) ≡ (
          if ltb time (now + restriction_ttl_seconds e.action e.duration_minutes * 1000)
          then some stored
          else none)
  get-cached user stored e now time s own later =
      let ttl = restriction_ttl_seconds e.action e.duration_minutes in
      let written = set (restriction e.target_user_id) stored ttl now s in
      let noted = hmset (details e.target_user_id) (details_of stored e) written in
      let same : (user == e.target_user_id) ≡ true = (eq_iff user e.target_user_id).1 (sym own) in
      get-expire (restriction user) (details e.target_user_id) ttl now time noted refl
      ∙ get-hmset (restriction user) (details e.target_user_id) (details_of stored e) time written
          refl
      ∙ get-set (restriction user) (restriction e.target_user_id) stored ttl now time s later
      ∙ rw same refl

-- A ban or a mute of an account by a report that exists.
pub record IsRestriction (report_id user : String) (input : ActionInput) (w : World) : Type 0 where
  pub report : Report
  pub found : find_if (is_uuid report_id) report_id w ≡ some report
  pub target : input.target_user_id ≡ some user
  pub named : (user == "") ≡ false
  pub restricts : restricts_the_account input.action ≡ true

or_restricts :
    (d : Option ℕ) (a : String)
    → restricts_the_account a ≡ true
    → has_duration d || restricts_the_account a ≡ true
or_restricts none a h = h
or_restricts (some n) a h = refl

-- A restriction asks for no removal of content.
restricts_no_content :
    (a : String) → restricts_the_account a ≡ true → (a == "content_removal") ≡ false
restricts_no_content a h = elim (Bool-cases (a == "ban")) [
  | inl ban ↦ ap (λ x. x == "content_removal") ((eq_iff a "ban").0 ban)
  | inr other ↦ ap (λ x. x == "content_removal") ((eq_iff a "mute").0 (ground arith))
]

module _ (report_id admin user : String) (input : ActionInput) (w : World)
    (h : IsRestriction report_id user input w) where
  abbrev fresh : World
  fresh = record w { announced = [] }

  abbrev the_event : ActionTaken
  the_event = taken (w.ids w.drawn) report_id admin input

  event : (take_action report_id admin input fresh).1.announced ≡ action_taken the_event ∷ []
  unfolding take_action insert_action restrict announce request_content_removal taken
  event = rw h.found (
      rw h.target (
        rw h.named (
          rw (or_restricts input.duration_minutes input.action h.restricts)
            (rw (restricts_no_content input.action h.restricts) refl))))

  rows :
      (take_action report_id admin input fresh).1.restrictions
      ≡ w.restrictions ++ restriction_row (w.ids (w.drawn + 1)) user admin input w.now ∷ []
  unfolding take_action insert_action restrict announce request_content_removal taken
  rows = rw h.found (
      rw h.target (
        rw h.named (
          rw (or_restricts input.duration_minutes input.action h.restricts)
            (rw (restricts_no_content input.action h.restricts) refl))))

  typed : restriction_type_by_action input.action ≡ some input.action
  unfolding restriction_type_by_action
  typed = elim (Bool-cases (input.action == "ban")) [
    | inl ban ↦ rw ban (ap some (sym ((eq_iff input.action "ban").0 ban)))
    | inr other ↦
        let mute : (input.action == "mute") ≡ true = ground (arith, h.restricts, other) in
        rw other (rw mute (ap some (sym ((eq_iff input.action "mute").0 mute))))
  ]

  -- The guard on a value that is there until the restriction ends.
  until :
      (b : Bool) (m : Option String)
      → restriction_guard (some user) (answered (if b then some input.action else none)) m
        ≡ (if b then meaning input.action m else ok true)
  unfolding restriction_guard check_lookup
  until true m =
      ap (λ o. restriction_guard (some user) (answered o) m) (sym typed)
      ∙ (policy_enforced input.action user m h.named).0
  until false m = rw h.named refl

  module _ (v : Valkey) (s : v.Store) (time : ℕ) (later : w.now ≤ time) where
    abbrev after : World × v.Store
    after = moderate v report_id admin input w s

    cached : v.get (restriction user) time after.1 ≡ (
        if ltb time (restriction_row (w.ids (w.drawn + 1)) user admin input w.now).expires_at
        then some input.action
        else none)
    unfolding moderate handle_action_taken taken
    cached =
        ap (λ es. v.get (restriction user) time (handle_events v es w.now s)) event
        ∙ ap (λ o. v.get (restriction user) time (cache_restriction v o the_event w.now s)) typed
        ∙ get-cached v user input.action the_event w.now time s (ap or_empty h.target) later

    -- A moderator bans or mutes an account, by a report that exists, and the event is handled: the
    -- table has a new row of the restriction, and at any time from then on the guard answers a request
    -- of the account by the meaning of the action as long as that row has not expired, and lets it
    -- pass from then on.
    pub action_enforced :
        (m : Option String)
        → (after.0.restrictions
            ≡ w.restrictions ++ restriction_row (w.ids (w.drawn + 1)) user admin input w.now ∷ [])
          × (guarded v user m time after.1 ≡ (
              if ltb time (restriction_row (w.ids (w.drawn + 1)) user admin input w.now).expires_at
              then meaning input.action m
              else ok true))
    unfolding moderate
    action_enforced m = (
      rows,
      ap (λ o. restriction_guard (some user) (answered o) m) cached
          ∙ until
              (ltb time (restriction_row (w.ids (w.drawn + 1)) user admin input w.now).expires_at)
              m,
    )

abbrev pub is_live_ban : String → ℕ → UserRestriction → Bool
is_live_ban user time r = (r.user_id == user) && ((r.type_ == "ban") && ltb time r.expires_at)

any-append :
    (p : UserRestriction → Bool) (xs ys : List UserRestriction)
    → any p xs ≡ true
    → any p (xs ++ ys) ≡ true
any-append p [] ys h = absurd (ground arith)
any-append p (x ∷ xs) ys h = ground (arith, any-append p xs ys)

reads_while_muted :
    (b : Bool) (a : String) (m : Option String)
    → a ≡ "mute"
    → is_safe m ≡ true
    → (if b then meaning a m else ok true) ≡ ok true
reads_while_muted true a m e safe = ap (λ x. meaning x m) e ∙ ground (arith, safe)
reads_while_muted false a m e safe = refl

-- An account has a ban in the table that has not expired, a moderator mutes it by a report that exists,
-- and the event is handled: the ban still stands in the table, and the guard lets the requests of the
-- account with a safe method pass.
pub mute_lifts_ban :
    (report_id admin user : String) (input : ActionInput) (w : World) (v : Valkey) (s : v.Store)
    (time : ℕ) (m : Option String)
    → IsRestriction report_id user input w
    → input.action ≡ "mute"
    → w.now ≤ time
    → any (is_live_ban user time) w.restrictions ≡ true
    → is_safe m ≡ true
    → (any (is_live_ban user time) (moderate v report_id admin input w s).0.restrictions ≡ true)
      × (guarded v user m time (moderate v report_id admin input w s).1 ≡ ok true)
mute_lifts_ban report_id admin user input w v s time m h mute later live safe =
    let (row, answer) = action_enforced report_id admin user input w h v s time later m in
    (
      ap (any (is_live_ban user time)) row
          ∙ any-append (is_live_ban user time) w.restrictions
              (restriction_row (w.ids (w.drawn + 1)) user admin input w.now ∷ []) live,
      answer
          ∙ reads_while_muted
              (ltb time (restriction_row (w.ids (w.drawn + 1)) user admin input w.now).expires_at)
              input.action m mute safe,
    )
