-- ===== src/Permissions.antt =====
-- The permissions of administrators: requirePermission of src/shared/middleware/permissions.ts. Texts
-- are lists of codes, of which the case is taken in ASCII. The database's errors are left out.
pub mod Triples
use sohcahtoa_api.Prelude.{
  ℕ, ◌+◌, ◌==◌, leb, Bool, true, false, not, ◌&&◌, ◌||◌, Option, none, some, List, [], ◌∷◌, ◌++◌,
  map, filter, any, Text, text_eq, is_blank, if◌then◌else◌,
}
use sohcahtoa_api.Errors.{Error, Result, ok, err, forbidden_error, app, unauthorized}
use sohcahtoa_api.Validators.{is_space}
use sohcahtoa_api.Rates.{to_upper_case}
use sohcahtoa_api.Auth.Rows.{UserRole}

pub data Action : Type 0 where
  view edit create delete export : Action

abbrev lower : ℕ → ℕ
lower c = if leb 65 c && leb c 90 then c + 32 else c

unfoldable pub trim_start : Text → Text
trim_start [] = []
trim_start (c ∷ cs) = let rest = trim_start cs in if is_space c then rest else c ∷ cs

unfoldable pub trim_end : Text → Text
trim_end [] = []
trim_end (c ∷ cs) = let rest = trim_end cs in if is_blank rest && is_space c then [] else c ∷ rest

-- [ ._:-]
abbrev is_separator : ℕ → Bool
is_separator c = c == 32 || (c == 46 || (c == 95 || (c == 58 || c == 45)))

abbrev without_separator : Text → Text
without_separator [] = []
without_separator (c ∷ cs) = if is_separator c then cs else c ∷ cs

-- replace(/^can[ ._:-]?/g, "")
unfoldable pub without_can : Text → Text
without_can (a ∷ b ∷ c ∷ cs) =
    if a == 99 && (b == 97 && c == 110) then without_separator cs else a ∷ b ∷ c ∷ cs
without_can text = text

abbrev view_text : Text
view_text = 118 ∷ 105 ∷ 101 ∷ 119 ∷ []

abbrev edit_text : Text
edit_text = 101 ∷ 100 ∷ 105 ∷ 116 ∷ []

abbrev update_text : Text
update_text = 117 ∷ 112 ∷ 100 ∷ 97 ∷ 116 ∷ 101 ∷ []

abbrev create_text : Text
create_text = 99 ∷ 114 ∷ 101 ∷ 97 ∷ 116 ∷ 101 ∷ []

abbrev delete_text : Text
delete_text = 100 ∷ 101 ∷ 108 ∷ 101 ∷ 116 ∷ 101 ∷ []

abbrev export_text : Text
export_text = 101 ∷ 120 ∷ 112 ∷ 111 ∷ 114 ∷ 116 ∷ []

unfoldable pub action_of : Text → Option Action
action_of v =
    if text_eq v view_text
    then some Action.view
    else (if text_eq v edit_text || text_eq v update_text
        then some Action.edit
        else (if text_eq v create_text
            then some Action.create
            else (if text_eq v delete_text
                then some Action.delete
                else (if text_eq v export_text then some Action.export else none))))

unfoldable pub sanitize_action : Text → Option Action
sanitize_action a = action_of (without_can (map lower (trim_end (trim_start a))))

pub record Permission : Type 0 where
  pub module_name : Text
  pub feature_key : Text
  pub action : Text
  pub is_active : Bool

-- `${m}|${f}|${a}`, in which an action that is null prints as null
abbrev pub action_text : Option Action → Text
action_text none = 110 ∷ 117 ∷ 108 ∷ 108 ∷ []
action_text (some Action.view) = view_text
action_text (some Action.edit) = edit_text
action_text (some Action.create) = create_text
action_text (some Action.delete) = delete_text
action_text (some Action.export) = export_text

abbrev pub permission_key : Text → Text → Option Action → Text
permission_key m f a = m ++ 124 ∷ (f ++ 124 ∷ action_text a)

abbrev pub key_of : Permission → Text
key_of p =
    permission_key (to_upper_case p.module_name) (to_upper_case p.feature_key)
      (sanitize_action p.action)

unfoldable pub allowed_keys : List Permission → List Text
allowed_keys ps = map key_of (filter (λ p. p.is_active) ps)

-- map and filter of the actions that are known
unfoldable pub sanitized : List Text → List Action
sanitized [] = []
sanitized (a ∷ more) =
    let rest = sanitized more in elim (sanitize_action a) [ none ↦ rest | some x ↦ x ∷ rest ]

abbrev pub has_all : UserRole → Bool
has_all UserRole.super_admin = true
has_all UserRole.admin = true
has_all _ = false

abbrev pub insufficient : Error
insufficient = forbidden_error "Insufficient permissions"

unfoldable pub is_allowed : Text → Text → List Action → List Permission → Bool
is_allowed m f actions ps =
    any (λ a. any (λ k. text_eq k (permission_key m f (some a))) (allowed_keys ps)) actions

abbrev pub answer : Bool → Result (Unit {0})
answer true = ok tt
answer false = err insufficient

-- the permissions of the administrator's role, if the administrator is there
abbrev pub judge : Option (List Permission) → Text → Text → List Action → Result (Unit {0})
judge none m f actions = err insufficient
judge (some ps) m f [] = err insufficient
judge (some ps) m f (a ∷ more) = answer (is_allowed m f (a ∷ more) ps)

abbrev pub trimmed : Text → Text
trimmed t = to_upper_case (trim_end (trim_start t))

unfoldable pub require_permission :
    Text → Text → List Text → Option UserRole → Option (List Permission) → Result (Unit {0})
require_permission m f actions none admin = err (app unauthorized "Authentication required" 401)
require_permission m f actions (some role) admin =
    if has_all role then ok tt else judge admin (trimmed m) (trimmed f) (sanitized actions)
