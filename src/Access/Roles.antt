-- ===== src/Access/Roles.antt =====
-- packages/shared-types/src/user.ts: account types, admin roles, and what each implies. The records that
-- map the old words are taken as having their own keys alone.
pub mod Order
use hakawi.Common.{
  ℕ, String, Bool, true, false, Option, none, some, List, [], ◌∷◌, ◌&&◌, any, find, if◌then◌else◌,
}
use hakawi.Common.Text.{Text, codes, same_text, trim, to_lower_case}

pub data AccountType : Type 0 where
  reader rising_star professional publisher admin : AccountType

pub data AdminRole : Type 0 where
  super_admin content_moderator financial_officer verification_officer : AdminRole

abbrev pub account_types : List AccountType
account_types = reader ∷ rising_star ∷ professional ∷ publisher ∷ admin ∷ []

abbrev pub admin_roles : List AdminRole
admin_roles = super_admin ∷ content_moderator ∷ financial_officer ∷ verification_officer ∷ []

-- The words of `ACCOUNT_TYPES`.
abbrev pub account_type_word : AccountType → Text
account_type_word reader = codes "reader"
account_type_word rising_star = codes "rising_star"
account_type_word professional = codes "professional"
account_type_word publisher = codes "publisher"
account_type_word admin = codes "admin"

-- The words of `ADMIN_ROLES`.
abbrev pub admin_role_word : AdminRole → Text
admin_role_word super_admin = codes "super_admin"
admin_role_word content_moderator = codes "content_moderator"
admin_role_word financial_officer = codes "financial_officer"
admin_role_word verification_officer = codes "verification_officer"

-- `===` on two of the words.
abbrev pub same_account_type : AccountType → AccountType → Bool
same_account_type reader reader = true
same_account_type rising_star rising_star = true
same_account_type professional professional = true
same_account_type publisher publisher = true
same_account_type admin admin = true
same_account_type _ _ = false

abbrev pub same_admin_role : AdminRole → AdminRole → Bool
same_admin_role super_admin super_admin = true
same_admin_role content_moderator content_moderator = true
same_admin_role financial_officer financial_officer = true
same_admin_role verification_officer verification_officer = true
same_admin_role _ _ = false

abbrev pub or_reader : Option AccountType → AccountType
or_reader none = reader
or_reader (some t) = t

abbrev pub candidate : Text → Text
candidate v = to_lower_case (trim v)

-- The account type of a candidate that is one of the words.
abbrev pub named_account_type : Text → Option AccountType
named_account_type c = find (λ t. same_text (account_type_word t) c) account_types

abbrev pub named_admin_role : Text → Option AdminRole
named_admin_role c = find (λ t. same_text (admin_role_word t) c) admin_roles

unfoldable pub normalize_account_type : Text → AccountType
unfolding trim to_lower_case
normalize_account_type v =
    if same_text (candidate v) (codes "author")
    then rising_star
    else or_reader (named_account_type (candidate v))

unfoldable pub normalize_admin_role : Text → Option AdminRole
unfolding trim to_lower_case
normalize_admin_role v =
    if same_text (candidate v) (codes "moderator")
    then some content_moderator
    else if same_text (candidate v) (codes "finance")
    then some financial_officer
    else named_admin_role (candidate v)

-- `ACCOUNT_TYPE_IMPLIES`.
unfoldable pub account_type_implies : AccountType → List AccountType
account_type_implies reader = reader ∷ []
account_type_implies rising_star = reader ∷ rising_star ∷ []
account_type_implies professional = reader ∷ rising_star ∷ professional ∷ []
account_type_implies publisher = reader ∷ rising_star ∷ publisher ∷ []
account_type_implies admin = account_types

-- `ADMIN_ROLE_IMPLIES`.
unfoldable pub admin_role_implies : AdminRole → List AdminRole
admin_role_implies super_admin = admin_roles
admin_role_implies content_moderator = content_moderator ∷ []
admin_role_implies financial_officer = financial_officer ∷ []
admin_role_implies verification_officer = verification_officer ∷ []

unfoldable pub account_type_at_least : AccountType → AccountType → Bool
unfolding account_type_implies
account_type_at_least t required = any (same_account_type required) (account_type_implies t)

unfoldable pub admin_role_at_least : AdminRole → AdminRole → Bool
unfolding admin_role_implies
admin_role_at_least r required = any (same_admin_role required) (admin_role_implies r)

unfoldable pub account_type_satisfies : AccountType → List AccountType → Bool
unfolding account_type_at_least
account_type_satisfies t required = any (account_type_at_least t) required

-- `typeof value === 'string'` is `some`.
unfoldable pub is_admin_account : Option Text → Bool
unfolding normalize_account_type
is_admin_account none = false
is_admin_account (some v) = same_account_type (normalize_account_type v) admin

abbrev pub is_super : Option AdminRole → Bool
is_super none = false
is_super (some r) = same_admin_role r super_admin

unfoldable pub is_super_admin : Option Text → Option Text → Bool
unfolding is_admin_account normalize_admin_role
is_super_admin account_type none = false
is_super_admin account_type (some r) =
    is_admin_account account_type && is_super (normalize_admin_role r)
