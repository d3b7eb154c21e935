-- ===== src/Access/Restrictions.antt =====
-- backend/src/modules/moderation/restriction-policy.ts, which decides what is stored about an account,
-- and backend/src/common/guards/restriction.guard.ts, which reads it on every request.
use hakawi.Common.{
  ℕ, zero, suc, ◌*◌, ◌≡◌, refl, String, Bool, true, false, Option, none, some, List, [], ◌∷◌, ◌&&◌,
  not, ◌==◌, any, if◌then◌else◌, Result, ok, err, forbidden, locked, Bool-cases, inl, inr, ◌⊎◌,
}

abbrev pub restriction_type_ban : String
restriction_type_ban = "ban"

abbrev pub restriction_type_mute : String
restriction_type_mute = "mute"

-- `RESTRICTION_TYPE_BY_ACTION[action]`.
unfoldable pub restriction_type_by_action : String → Option String
restriction_type_by_action action =
    if action == "ban" then some "ban" else if action == "mute" then some "mute" else none

abbrev or_warning : Option String → String
or_warning none = "warning"
or_warning (some t) = t

unfoldable pub restriction_type_for_action : String → String
unfolding restriction_type_by_action
restriction_type_for_action action = or_warning (restriction_type_by_action action)

abbrev pub ban_ttl_seconds : ℕ
ban_ttl_seconds = 24 * 60 * 60

abbrev pub other_restriction_ttl_seconds : ℕ
other_restriction_ttl_seconds = 30 * 24 * 60 * 60

abbrev pub default_ttl : String → ℕ
default_ttl action = if action == "ban" then ban_ttl_seconds else other_restriction_ttl_seconds

-- The duration in minutes; `none` is one that is absent, or no integer, or negative.
unfoldable pub restriction_ttl_seconds : String → Option ℕ → ℕ
restriction_ttl_seconds action none = default_ttl action
restriction_ttl_seconds action (some zero) = default_ttl action
restriction_ttl_seconds action (some (suc n)) = suc n * 60

-- What reading the restriction of an account does.
pub data Lookup : Type 0 where
  failed : Lookup
  answered : Option String → Lookup

abbrev pub safe_methods : List String
safe_methods = "GET" ∷ "HEAD" ∷ "OPTIONS" ∷ []

abbrev pub method_or_get : Option String → String
method_or_get none = "GET"
method_or_get (some m) = m

abbrev pub is_safe : Option String → Bool
is_safe m = any (λ s. s == method_or_get m) safe_methods

-- The guard on the value that was read.
unfoldable pub check_restriction : String → Option String → Result Bool
check_restriction t m =
    if t == restriction_type_ban
    then err (
        forbidden
          "Your account has been suspended. Contact support if you believe this is a mistake.")
    else if (t == restriction_type_mute) && not (is_safe m)
    then err (locked "Your account is muted. You can read but not post until this is lifted.")
    else ok true

unfoldable pub check_lookup : Lookup → Option String → Result Bool
unfolding check_restriction
check_lookup failed m = ok true
check_lookup (answered none) m = ok true
check_lookup (answered (some t)) m = check_restriction t m

-- `RestrictionGuard.canActivate`, by the subject of the token, what the lookup of it does, and the
-- method; an absent or empty subject passes.
unfoldable pub restriction_guard : Option String → Lookup → Option String → Result Bool
unfolding check_lookup
restriction_guard none lookup m = ok true
restriction_guard (some subject) lookup m = if subject == "" then ok true else check_lookup lookup m

-- What the action of a moderator means for a request.
abbrev pub meaning : String → Option String → Result Bool
meaning action m =
    if action == "ban"
    then err (
        forbidden
          "Your account has been suspended. Contact support if you believe this is a mistake.")
    else if (action == "mute") && not (is_safe m)
    then err (locked "Your account is muted. You can read but not post until this is lifted.")
    else ok true

-- The policy and the guard agree: a request of an account whose only restriction is the one that the
-- policy stores for an action is refused with 403 after a ban, is refused with 423 after a mute unless
-- its method is safe, and passes after any other action; it makes no difference whether the stored
-- value is the cached one, which only a ban and a mute have, or the one of the table, which every
-- action has.
pub policy_enforced :
    (action subject : String) (m : Option String)
    → (subject == "") ≡ false
    → (restriction_guard (some subject) (answered (restriction_type_by_action action)) m
        ≡ meaning action m)
      × (restriction_guard (some subject) (answered (some (restriction_type_for_action action))) m
          ≡ meaning action m)
unfolding restriction_guard check_lookup check_restriction restriction_type_for_action
    restriction_type_by_action
policy_enforced action subject m h =
    rw h (go (Bool-cases (action == "ban")) (Bool-cases (action == "mute")))
  where
    go :
        ((action == "ban") ≡ true) ⊎ ((action == "ban") ≡ false)
        → ((action == "mute") ≡ true) ⊎ ((action == "mute") ≡ false)
        → (check_lookup (answered (restriction_type_by_action action)) m ≡ meaning action m)
          × (check_lookup (answered (some (restriction_type_for_action action))) m
              ≡ meaning action m)
    go (inl b) _ = rw b (refl, refl)
    go (inr b) (inl c) = rw b (rw c (refl, refl))
    go (inr b) (inr c) = rw b (rw c (refl, refl))
