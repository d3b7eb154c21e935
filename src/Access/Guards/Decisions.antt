-- ===== src/Access/Guards/Decisions.antt =====
-- When permissions.guard.ts and roles.guard.ts let a request pass.
use hakawi.Common.{
  ◌≡◌, ◌↔◌, refl, String, Bool, true, false, Option, none, some, List, [], ◌∷◌, ◌||◌, ◌&&◌, arith,
  Result, ok, err, Failure, if◌then◌else◌,
}
use hakawi.Common.Text.{Text}
use hakawi.Access.Roles.{
  AccountType, AdminRole, is_super_admin, normalize_account_type, account_type_satisfies,
}
use hakawi.Access.Permissions.{Subject, Metadata, Mode, normalize_permission_requirement}
use hakawi.Access.Permissions.Resolution.{is_granted, meets, has_permission-granted}
use hakawi.Access.Guards.{
  check_requirement, permissions_guard, satisfies_admin, normalized_role, check_account_type,
  check_roles, roles_guard,
}

-- There is a user, and the user is a super admin or has the permissions in the mode asked for.
abbrev pub permits : List String → Mode → Option Subject → Bool
permits ps m none = false
permits ps m (some s) = is_super_admin s.account_type s.admin_role || meets (is_granted s) ps m

check_permits :
    (p : String) (ps : List String) (m : Mode) (user : Option Subject)
    → (check_requirement (record { permissions = p ∷ ps; mode = m }) user ≡ ok true)
      ↔ (permits (p ∷ ps) m user ≡ true)
unfolding check_requirement
check_permits p ps m none = (λ h. ground (arith, h), λ h. ground (arith, h))
check_permits p ps m (some s) =
    let granted = has_permission-granted s (record { permissions = p ∷ ps; mode = m }) in
    rw granted (λ h. ground (arith, h), λ h. ground (arith, h))

-- On a route that is not public and whose metadata is a requirement that is not empty, the guard lets a
-- request pass just when it has a user who is a super admin, or who has the listed permissions, all of
-- them or one of them as the requirement says, by the account type or by the admin role.
pub permissions_guard-permits :
    (metadata : Metadata) (p : String) (ps : List String) (m : Mode) (user : Option Subject)
    → normalize_permission_requirement metadata
      ≡ ok (some (record { permissions = p ∷ ps; mode = m }))
    → (permissions_guard false metadata user ≡ ok true) ↔ (permits (p ∷ ps) m user ≡ true)
unfolding permissions_guard
permissions_guard-permits metadata p ps m user h = rw h (check_permits p ps m user)

-- No requirement of this list, or one that the user's account type satisfies.
abbrev pub passes_types : List AccountType → Option Text → Bool
passes_types [] v = true
passes_types (t ∷ ts) none = false
passes_types (t ∷ ts) (some v) = account_type_satisfies (normalize_account_type v) (t ∷ ts)

abbrev pub passes_roles : List AdminRole → Option Text → Bool
passes_roles [] v = true
passes_roles (r ∷ rs) v = satisfies_admin (r ∷ rs) (normalized_role v)

check_types :
    (types : List AccountType) (v : Option Text)
    → (check_account_type types v ≡ ok true) ↔ (passes_types types v ≡ true)
unfolding check_account_type
check_types [] v = (λ h. refl, λ h. refl)
check_types (t ∷ ts) none = (λ h. ground (arith, h), λ h. ground (arith, h))
check_types (t ∷ ts) (some v) = (λ h. ground (arith, h), λ h. ground (arith, h))

gated :
    (b : Bool) (answer : Result Bool) (c : Bool) (e : Failure)
    → (answer ≡ ok true) ↔ (c ≡ true)
    → ((if b then answer else err e) ≡ ok true) ↔ ((b && c) ≡ true)
gated true answer c e h = h
gated false answer c e h = (λ k. ground (arith, k), λ k. ground (arith, k))

-- On a route that is not public the guard lets a user pass just when each list that is not empty is
-- satisfied, the required admin roles by the user's admin role and the required account types by the
-- account type.
pub roles_guard-passes :
    (types : List AccountType) (roles : List AdminRole) (user : Subject)
    → (roles_guard false types roles (some user) ≡ ok true)
      ↔ ((passes_roles roles user.admin_role && passes_types types user.account_type) ≡ true)
unfolding roles_guard check_roles check_account_type
roles_guard-passes [] [] user = (λ h. refl, λ h. refl)
roles_guard-passes (t ∷ ts) [] user = check_types (t ∷ ts) user.account_type
roles_guard-passes [] (r ∷ rs) user =
    gated (satisfies_admin (r ∷ rs) (normalized_role user.admin_role)) _ _ _
      (check_types [] user.account_type)
roles_guard-passes (t ∷ ts) (r ∷ rs) user =
    gated (satisfies_admin (r ∷ rs) (normalized_role user.admin_role)) _ _ _
      (check_types (t ∷ ts) user.account_type)
