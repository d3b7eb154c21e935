-- ===== src/Access/Permissions/Resolution.antt =====
-- What `resolvePermissions` and `hasPermission` of permissions.ts grant.
use hakawi.Common.{
  ◌≡◌, refl, String, Bool, true, Option, none, some, List, [], ◌∷◌, ◌++◌, ◌||◌, ◌&&◌, any, every,
  arith, ◌∙◌, ap,
}
use hakawi.Common.Text.{Text}
use hakawi.Access.Roles.{
  AccountType, admin, normalize_account_type, is_super_admin, is_admin_account, same_account_type,
}
use hakawi.Access.Permissions.{
  all_permissions, permissions_by_account_type, Subject, of_account_type, of_admin_role,
  resolve_permissions, Requirement, Mode, all_of, any_of, has, satisfies, has_permission,
}

has-append : (xs ys : List String) (p : String) → has (xs ++ ys) p ≡ (has xs p || has ys p)
has-append [] ys p = refl
has-append (x ∷ xs) ys p = ground (arith, has-append xs ys p)

-- The subject has the permission by its account type or by its admin role.
abbrev pub is_granted : Subject → String → Bool
is_granted s p = has (of_account_type s.account_type) p || has (of_admin_role s.admin_role) p

-- The requirement, read with any test of one permission.
abbrev pub meets : (String → Bool) → List String → Mode → Bool
meets test ps all_of = every test ps
meets test ps any_of = any test ps

meets-cong :
    (f g : String → Bool) (ps : List String) (m : Mode)
    → ((p : String) → f p ≡ g p)
    → meets f ps m ≡ meets g ps m
meets-cong f g [] all_of h = refl
meets-cong f g [] any_of h = refl
meets-cong f g (p ∷ ps) all_of h = ground (arith, h p, meets-cong f g ps all_of h)
meets-cong f g (p ∷ ps) any_of h = ground (arith, h p, meets-cong f g ps any_of h)

pub has_permission-granted :
    (s : Subject) (r : Requirement)
    → has_permission (resolve_permissions s) r ≡ meets (is_granted s) r.permissions r.mode
unfolding has_permission resolve_permissions
has_permission-granted s r = go r.mode
  where
    go :
        (m : Mode)
        → satisfies (of_account_type s.account_type ++ of_admin_role s.admin_role) r.permissions m
          ≡ meets (is_granted s) r.permissions m
    go all_of =
        meets-cong _ (is_granted s) r.permissions all_of
          (λ p. has-append (of_account_type s.account_type) (of_admin_role s.admin_role) p)
    go any_of =
        meets-cong _ (is_granted s) r.permissions any_of
          (λ p. has-append (of_account_type s.account_type) (of_admin_role s.admin_role) p)

is_admin : (t : AccountType) → same_account_type t admin ≡ true → t ≡ admin
is_admin t h = ground (arith, h)

first_true : (a b : Bool) → (a && b) ≡ true → a ≡ true
first_true a b h = ground (arith, h)

admin_of_super :
    (v r : Text) → is_super_admin (some v) (some r) ≡ true → normalize_account_type v ≡ admin
unfolding is_super_admin is_admin_account
admin_of_super v r h = is_admin (normalize_account_type v) (first_true _ _ h)

of_super :
    (a r : Option Text)
    → is_super_admin a r ≡ true
    → of_account_type a ≡ permissions_by_account_type admin
unfolding is_super_admin is_admin_account
of_super a none h = ground (arith, h)
of_super none (some r) h = ground (arith, h)
of_super (some v) (some r) h = ap permissions_by_account_type (admin_of_super v r h)

super_all : (a r : Option Text) → is_super_admin a r ≡ true → of_account_type a ≡ all_permissions
unfolding permissions_by_account_type
super_all a r h = of_super a r h

all_met :
    (known test : String → Bool) (ps : List String)
    → ((p : String) → known p ≡ true → test p ≡ true)
    → every known ps ≡ true
    → every test ps ≡ true
all_met known test [] h k = refl
all_met known test (p ∷ ps) h k = ground (arith, h p, k, all_met known test ps h)

every-any :
    (test : String → Bool) (p : String) (ps : List String)
    → every test (p ∷ ps) ≡ true
    → any test (p ∷ ps) ≡ true
every-any test p ps h = ground (arith, h)

super_meets :
    (s : Subject) (p : String) (ps : List String) (m : Mode)
    → is_super_admin s.account_type s.admin_role ≡ true
    → every (has all_permissions) (p ∷ ps) ≡ true
    → meets (is_granted s) (p ∷ ps) m ≡ true
super_meets s p ps m h k =
    let every_met =
      all_met (has all_permissions) (is_granted s) (p ∷ ps)
        (λ q known. rw (super_all s.account_type s.admin_role h) (rw known refl)) k in
    go m every_met
  where
    go : (m : Mode) → every (is_granted s) (p ∷ ps) ≡ true → meets (is_granted s) (p ∷ ps) m ≡ true
    go all_of e = e
    go any_of e = every-any (is_granted s) p ps e

-- The exception that the guard makes for a super admin opens nothing that the super admin's own
-- permissions do not: of known permissions, any requirement that is not empty is met by them.
pub super_admin_redundant :
    (s : Subject) (p : String) (ps : List String) (m : Mode)
    → is_super_admin s.account_type s.admin_role ≡ true
    → every (has all_permissions) (p ∷ ps) ≡ true
    → has_permission (resolve_permissions s) (record { permissions = p ∷ ps; mode = m }) ≡ true
super_admin_redundant s p ps m h k =
    has_permission-granted s (record { permissions = p ∷ ps; mode = m }) ∙ super_meets s p ps m h k
