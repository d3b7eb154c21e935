-- ===== src/Access/Roles/Order.antt =====
-- The implications of packages/shared-types/src/user.ts are an order, and the words of the types and
-- roles survive normalisation.
use hakawi.Common.{◌≡◌, refl, true, some, List, [], ◌∷◌, arith}
use hakawi.Common.Text.{Text, trim, to_lower_case}
use hakawi.Access.Roles.{
  AccountType, reader, rising_star, professional, publisher, admin, AdminRole, account_type_word,
  admin_role_word, normalize_account_type, normalize_admin_role, super_admin, content_moderator,
  financial_officer, verification_officer, account_type_implies, account_type_at_least,
  account_type_satisfies,
}

at_least_trans :
    (s t u : AccountType)
    → account_type_at_least s t ≡ true
    → account_type_at_least t u ≡ true
    → account_type_at_least s u ≡ true
unfolding account_type_at_least account_type_implies
at_least_trans s t u h k = ground (arith, h, k)

-- Whoever holds an account type that implies another passes every list of required types that the
-- other passes.
pub account_type_satisfies-monotone :
    (s t : AccountType) (required : List AccountType)
    → account_type_at_least s t ≡ true
    → account_type_satisfies t required ≡ true
    → account_type_satisfies s required ≡ true
unfolding account_type_satisfies
account_type_satisfies-monotone s t [] h k = ground (arith, k)
account_type_satisfies-monotone s t (u ∷ us) h k =
    ground (arith, k, at_least_trans s t u h, account_type_satisfies-monotone s t us h)

type_words : (t : AccountType) → normalize_account_type (account_type_word t) ≡ t
unfolding normalize_account_type trim to_lower_case
type_words reader = refl
type_words rising_star = refl
type_words professional = refl
type_words publisher = refl
type_words admin = refl

role_words : (r : AdminRole) → normalize_admin_role (admin_role_word r) ≡ some r
unfolding normalize_admin_role trim to_lower_case
role_words super_admin = refl
role_words content_moderator = refl
role_words financial_officer = refl
role_words verification_officer = refl

-- Normalising any text as an account type, and the word of the result again, gives the same type; the
-- word of an admin role is normalised to that role.
pub normalize_roundtrip :
    (v : Text) (r : AdminRole)
    → (normalize_account_type (account_type_word (normalize_account_type v))
        ≡ normalize_account_type v)
      × (normalize_admin_role (admin_role_word r) ≡ some r)
normalize_roundtrip v r = (type_words (normalize_account_type v), role_words r)
