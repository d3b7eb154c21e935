-- ===== src/Access/Guards.antt =====
-- backend/src/common/guards: permissions.guard.ts and roles.guard.ts, with what the route's metadata
-- and the request hold as arguments.
pub mod Decisions
use hakawi.Common.{
  ℕ, String, Bool, true, false, Option, none, some, List, [], ◌∷◌, ◌&&◌, ◌||◌, not, any, every,
  if◌then◌else◌, Result, ok, err, forbidden, uncaught,
}
use hakawi.Common.Text.{Text}
use hakawi.Access.Roles.{
  AccountType, AdminRole, is_super_admin, normalize_admin_role, normalize_account_type,
  admin_role_at_least, account_type_satisfies,
}
use hakawi.Access.Permissions.{
  Subject, Requirement, Metadata, resolve_permissions, has_permission,
  normalize_permission_requirement,
}

-- `PermissionsGuard`, once there is a requirement, for the user of the request.
unfoldable pub check_requirement : Requirement → Option Subject → Result Bool
unfolding is_super_admin resolve_permissions has_permission
check_requirement r none = err (forbidden "Access denied")
check_requirement r (some user) =
    if is_super_admin user.account_type user.admin_role
    then ok true
    else if has_permission (resolve_permissions user) r
    then ok true
    else err (forbidden "Missing required permission")

abbrev is_empty : {A : Type 0} → List A → Bool
is_empty [] = true
is_empty (x ∷ xs) = false

abbrev pub check_normalized : Result (Option Requirement) → Option Subject → Result Bool
check_normalized (err e) user = err e
check_normalized (ok none) user = ok true
check_normalized (ok (some r)) user =
    if is_empty r.permissions then ok true else check_requirement r user

-- `PermissionsGuard.canActivate`.
unfoldable pub permissions_guard : Bool → Metadata → Option Subject → Result Bool
unfolding normalize_permission_requirement
permissions_guard true metadata user = ok true
permissions_guard false metadata user =
    check_normalized (normalize_permission_requirement metadata) user

abbrev pub satisfies_admin : List AdminRole → Option AdminRole → Bool
satisfies_admin required none = false
satisfies_admin required (some r) = any (admin_role_at_least r) required

abbrev pub normalized_role : Option Text → Option AdminRole
normalized_role none = none
normalized_role (some v) = normalize_admin_role v

-- The check of the account type that follows the one of the admin role.
unfoldable pub check_account_type : List AccountType → Option Text → Result Bool
unfolding account_type_satisfies normalize_account_type
check_account_type [] v = ok true
check_account_type (t ∷ ts) none = err (forbidden "Access denied")
check_account_type (t ∷ ts) (some v) =
    if account_type_satisfies (normalize_account_type v) (t ∷ ts)
    then ok true
    else err (forbidden "Insufficient permissions")

unfoldable pub check_roles : List AccountType → List AdminRole → Option Subject → Result Bool
unfolding check_account_type admin_role_at_least
check_roles types roles none = err (forbidden "Access denied")
check_roles types roles (some user) =
    if is_empty roles || satisfies_admin roles (normalized_role user.admin_role)
    then check_account_type types user.account_type
    else err (forbidden "Insufficient admin privileges")

-- `RolesGuard.canActivate`; metadata that is absent is the empty list, a single admin role the list of it.
unfoldable pub roles_guard : Bool → List AccountType → List AdminRole → Option Subject → Result Bool
unfolding check_roles
roles_guard true types roles user = ok true
roles_guard false types roles user =
    if is_empty types && is_empty roles then ok true else check_roles types roles user
