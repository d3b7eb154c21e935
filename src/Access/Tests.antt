-- ===== src/Access/Tests.antt =====
-- Concrete users and routes: the theorems of this folder at inputs that meet their hypotheses, and runs.
use hakawi.Common.{◌≡◌, ◌↔◌, refl, true, false, none, some, [], ◌∷◌, ◌&&◌, ok, err, locked}
use hakawi.Common.Text.{codes, trim, to_lower_case}
use hakawi.Access.Roles.{
  rising_star, professional, publisher, content_moderator, normalize_account_type,
  normalize_admin_role, account_type_word, admin_role_word, account_type_satisfies,
  account_type_at_least, account_type_implies, is_super_admin, is_admin_account,
}
use hakawi.Access.Roles.Order.{account_type_satisfies-monotone, normalize_roundtrip}
use hakawi.Access.Permissions.{
  Subject, Metadata, described, word, any_of, all_of, has_permission, resolve_permissions,
  normalize_permission_requirement,
}
use hakawi.Access.Permissions.Resolution.{super_admin_redundant}
use hakawi.Access.Guards.{permissions_guard, roles_guard}
use hakawi.Access.Guards.Decisions.{
  permits, permissions_guard-permits, passes_roles, passes_types, roles_guard-passes,
}
use hakawi.Access.Restrictions.{
  restriction_guard, answered, restriction_type_by_action, restriction_type_for_action,
  policy_enforced,
}

abbrev chief : Subject
chief = record { account_type = some (codes " Admin "); admin_role = some (codes "SUPER_ADMIN") }

abbrev author : Subject
author = record { account_type = some (codes "author"); admin_role = none }

abbrev route : Metadata
route = described (some (some "books:read" ∷ none ∷ some "stories:read" ∷ [])) (word "any")

author_is_a_rising_star : normalize_account_type (codes "author") ≡ rising_star
unfolding normalize_account_type trim to_lower_case
author_is_a_rising_star = refl

professional_passes : account_type_satisfies professional (publisher ∷ rising_star ∷ []) ≡ true
unfolding account_type_satisfies account_type_at_least account_type_implies
professional_passes =
    account_type_satisfies-monotone professional rising_star (publisher ∷ rising_star ∷ []) refl
      refl

author_normalized :
    (normalize_account_type (account_type_word (normalize_account_type (codes "Author")))
      ≡ normalize_account_type (codes "Author"))
    × (normalize_admin_role (admin_role_word content_moderator) ≡ some content_moderator)
author_normalized = normalize_roundtrip (codes "Author") content_moderator

chief_meets_all :
    has_permission
      (resolve_permissions chief)
      (record { permissions = "financial:read:all" ∷ "content:moderate" ∷ []; mode = all_of })
    ≡ true
unfolding is_super_admin is_admin_account normalize_account_type normalize_admin_role trim
    to_lower_case
chief_meets_all =
    super_admin_redundant chief "financial:read:all" ("content:moderate" ∷ []) all_of refl refl

permissions_guard-permits_example :
    (permissions_guard false route (some author) ≡ ok true)
    ↔ (permits ("books:read" ∷ "stories:read" ∷ []) any_of (some author) ≡ true)
unfolding normalize_permission_requirement
permissions_guard-permits_example =
    permissions_guard-permits route "books:read" ("stories:read" ∷ []) any_of (some author) refl

roles_guard-passes_example :
    (roles_guard false (publisher ∷ rising_star ∷ []) (content_moderator ∷ []) (some chief)
      ≡ ok true)
    ↔ ((passes_roles (content_moderator ∷ []) chief.admin_role
          && passes_types (publisher ∷ rising_star ∷ []) chief.account_type)
        ≡ true)
roles_guard-passes_example =
    roles_guard-passes (publisher ∷ rising_star ∷ []) (content_moderator ∷ []) chief

policy_enforced_example :
    (restriction_guard (some "u1") (answered (restriction_type_by_action "mute")) (some "POST")
      ≡ err (locked "Your account is muted. You can read but not post until this is lifted."))
    × (restriction_guard
          (some "u1")
          (answered (some (restriction_type_for_action "mute")))
          (some "POST")
        ≡ err (locked "Your account is muted. You can read but not post until this is lifted."))
policy_enforced_example = policy_enforced "mute" "u1" (some "POST") refl
