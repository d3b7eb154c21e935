-- ===== src/Access/Permissions.antt =====
-- backend/src/common/permissions/permissions.ts and types/permission-requirement.types.ts.
pub mod Resolution
use hakawi.Common.{
  ℕ, String, Bool, true, false, Option, none, some, List, [], ◌∷◌, ◌++◌, ◌==◌, any, every,
  if◌then◌else◌, Result, ok, err, uncaught,
}
use hakawi.Common.Text.{Text}
use hakawi.Access.Roles.{
  AccountType, reader, rising_star, professional, publisher, admin, AdminRole, super_admin,
  content_moderator, financial_officer, verification_officer, normalize_account_type,
  normalize_admin_role,
}

-- `ALL_PERMISSIONS`: the values of `Permission`.
abbrev pub all_permissions : List String
all_permissions =
    "content:read" ∷ "content:create" ∷ "content:edit:own" ∷ "content:edit:all"
    ∷ "content:delete:own" ∷ "content:delete:all" ∷ "content:moderate" ∷ "stories:read"
    ∷ "stories:create" ∷ "stories:edit:own" ∷ "stories:edit:all" ∷ "stories:delete:own"
    ∷ "stories:delete:all" ∷ "comments:read" ∷ "comments:create" ∷ "comments:edit:own"
    ∷ "comments:edit:all" ∷ "comments:delete:own" ∷ "comments:delete:all" ∷ "reactions:use"
    ∷ "messages:read" ∷ "messages:send" ∷ "follow:use" ∷ "profile:view" ∷ "profile:edit:own"
    ∷ "users:read" ∷ "users:manage:all" ∷ "users:restrict:all" ∷ "users:verify:all"
    ∷ "reports:create" ∷ "reports:view" ∷ "reports:update:all" ∷ "reports:delete:all"
    ∷ "actions:view" ∷ "actions:create" ∷ "stats:view" ∷ "analytics:read:own" ∷ "settings:manage"
    ∷ "contests:create" ∷ "contests:manage:own" ∷ "contests:update:own" ∷ "contests:delete:own"
    ∷ "books:read" ∷ "books:sell:own" ∷ "books:rent:own" ∷ "financial:read:all"
    ∷ "financial:manage:all" ∷ "verification:read:all" ∷ "verification:manage:all" ∷ "search:use"
    ∷ "notifications:read" ∷ "publishing:communicate" ∷ "books:sell:represented" ∷ []

abbrev pub reader_permissions : List String
reader_permissions =
    "content:read" ∷ "content:create" ∷ "content:edit:own" ∷ "content:delete:own" ∷ "stories:read"
    ∷ "stories:create" ∷ "stories:edit:own" ∷ "stories:delete:own" ∷ "comments:read"
    ∷ "comments:create" ∷ "comments:edit:own" ∷ "comments:delete:own" ∷ "reactions:use"
    ∷ "messages:read" ∷ "messages:send" ∷ "follow:use" ∷ "profile:view" ∷ "profile:edit:own"
    ∷ "search:use" ∷ "notifications:read" ∷ "reports:create" ∷ []

abbrev pub rising_star_permissions : List String
rising_star_permissions =
    reader_permissions ++ ("analytics:read:own" ∷ "publishing:communicate" ∷ [])

abbrev pub professional_permissions : List String
professional_permissions =
    reader_permissions
    ++ ("analytics:read:own" ∷ "books:read" ∷ "books:sell:own" ∷ "books:rent:own" ∷ [])

abbrev pub publisher_permissions : List String
publisher_permissions =
    reader_permissions
    ++ ("analytics:read:own" ∷ "contests:create" ∷ "contests:manage:own" ∷ "contests:update:own"
        ∷ "contests:delete:own" ∷ "publishing:communicate" ∷ "books:sell:represented" ∷ [])

abbrev pub content_moderator_permissions : List String
content_moderator_permissions =
    "content:moderate" ∷ "content:edit:all" ∷ "content:delete:all" ∷ "stories:edit:all"
    ∷ "stories:delete:all" ∷ "comments:edit:all" ∷ "comments:delete:all" ∷ "reports:view"
    ∷ "reports:update:all" ∷ "reports:delete:all" ∷ "actions:view" ∷ "actions:create" ∷ "users:read"
    ∷ "users:restrict:all" ∷ []

abbrev pub financial_officer_permissions : List String
financial_officer_permissions =
    "reports:view" ∷ "reports:update:all" ∷ "users:read" ∷ "financial:read:all"
    ∷ "financial:manage:all" ∷ []

abbrev pub verification_officer_permissions : List String
verification_officer_permissions =
    "reports:view" ∷ "users:read" ∷ "users:verify:all" ∷ "verification:read:all"
    ∷ "verification:manage:all" ∷ []

-- `PERMISSIONS_BY_ACCOUNT_TYPE`.
unfoldable pub permissions_by_account_type : AccountType → List String
permissions_by_account_type reader = reader_permissions
permissions_by_account_type rising_star = rising_star_permissions
permissions_by_account_type professional = professional_permissions
permissions_by_account_type publisher = publisher_permissions
permissions_by_account_type admin = all_permissions

-- `PERMISSIONS_BY_ROLE`.
unfoldable pub permissions_by_role : AdminRole → List String
permissions_by_role super_admin = all_permissions
permissions_by_role content_moderator = content_moderator_permissions
permissions_by_role financial_officer = financial_officer_permissions
permissions_by_role verification_officer = verification_officer_permissions

-- `PermissionSubject`: `some` where the value is a string.
pub record Subject : Type 0 where
  pub account_type : Option Text
  pub admin_role : Option Text

abbrev pub of_account_type : Option Text → List String
of_account_type none = []
of_account_type (some v) = permissions_by_account_type (normalize_account_type v)

abbrev pub of_named_role : Option AdminRole → List String
of_named_role none = []
of_named_role (some r) = permissions_by_role r

abbrev pub of_admin_role : Option Text → List String
of_admin_role none = []
of_admin_role (some v) = of_named_role (normalize_admin_role v)

-- `resolvePermissions`, the set as the list of what was added to it.
unfoldable pub resolve_permissions : Subject → List String
resolve_permissions s = of_account_type s.account_type ++ of_admin_role s.admin_role

pub data Mode : Type 0 where
  all_of any_of : Mode

pub record Requirement : Type 0 where
  pub permissions : List String
  pub mode : Mode

-- `resolved.has(permission)`.
abbrev pub has : List String → String → Bool
has resolved p = any (λ q. q == p) resolved

abbrev pub satisfies : List String → List String → Mode → Bool
satisfies resolved ps any_of = any (has resolved) ps
satisfies resolved ps all_of = every (has resolved) ps

unfoldable pub has_permission : List String → Requirement → Bool
has_permission resolved r = satisfies resolved r.permissions r.mode

-- What a decorator left under the key: an entry of a list is `none` when it is no string.
pub data ModeField : Type 0 where
  unset no_word : ModeField
  word : String → ModeField

pub data Metadata : Type 0 where
  missing not_an_object : Metadata
  array : List (Option String) → Metadata
  described : Option (List (Option String)) → ModeField → Metadata

abbrev pub strings : List (Option String) → List String
strings [] = []
strings (none ∷ es) = strings es
strings (some s ∷ es) = s ∷ strings es

abbrev pub mode_of : ModeField → Option Mode
mode_of unset = some all_of
mode_of no_word = none
mode_of (word w) = if w == "all" then some all_of else if w == "any" then some any_of else none

abbrev pub with_mode : List (Option String) → Option Mode → Result (Option Requirement)
with_mode es none = err uncaught
with_mode es (some m) = ok (some (record { permissions = strings es; mode = m }))

-- `normalizePermissionRequirement`: a malformed requirement is an `Error`.
unfoldable pub normalize_permission_requirement : Metadata → Result (Option Requirement)
normalize_permission_requirement missing = ok none
normalize_permission_requirement not_an_object = err uncaught
normalize_permission_requirement (array es) =
    ok (some (record { permissions = strings es; mode = all_of }))
normalize_permission_requirement (described none mode) = err uncaught
normalize_permission_requirement (described (some es) mode) = with_mode es (mode_of mode)
