-- ===== src/Tests/Rights.antt =====
-- Permissions of administrators on concrete texts.
use sohcahtoa_api.Prelude.{
  true, false, ◌||◌, none, some, [], ◌∷◌, any, ◌==◌, List, Text, text_eq, ◌≡◌, refl,
}
use sohcahtoa_api.Errors.{succeeds}
use sohcahtoa_api.Rates.{to_upper_case}
use sohcahtoa_api.Auth.Rows.{UserRole}
use sohcahtoa_api.Permissions.{
  Action, Permission, sanitize_action, action_of, trim_start, trim_end, without_can, sanitized,
  has_all, require_permission, trimmed,
}
use sohcahtoa_api.Permissions.Triples.{grants, require_permission_iff}

-- "rates", "list", "can_update"
abbrev rates : Text
rates = 114 ∷ 97 ∷ 116 ∷ 101 ∷ 115 ∷ []

abbrev listing : Text
listing = 108 ∷ 105 ∷ 115 ∷ 116 ∷ []

abbrev can_update : Text
can_update = 99 ∷ 97 ∷ 110 ∷ 95 ∷ 117 ∷ 112 ∷ 100 ∷ 97 ∷ 116 ∷ 101 ∷ []

update_is_edit : sanitize_action can_update ≡ some Action.edit
unfolding sanitize_action action_of trim_start trim_end without_can text_eq
update_is_edit = refl

abbrev rate_editor : List Permission
rate_editor =
    record { module_name = rates; feature_key = listing; action = can_update; is_active = true }
    ∷ []

no_bar_in_module : any (λ c. c == 124) (trimmed rates) ≡ false
unfolding to_upper_case trim_start trim_end
no_bar_in_module = refl

no_bar_in_feature : any (λ c. c == 124) (trimmed listing) ≡ false
unfolding to_upper_case trim_start trim_end
no_bar_in_feature = refl

no_bar_in_row : any (λ c. c == 124) (to_upper_case rates) ≡ false
unfolding to_upper_case
no_bar_in_row = refl

no_bar_in_key : any (λ c. c == 124) (to_upper_case listing) ≡ false
unfolding to_upper_case
no_bar_in_key = refl

require_permission_iff_example :
    (succeeds (
        require_permission rates listing
          (can_update ∷ [])
          (some UserRole.operations)
          (some rate_editor))
      ≡ (has_all UserRole.operations
          || any
              (λ a. any (grants (trimmed rates) (trimmed listing) a) rate_editor)
              (sanitized (can_update ∷ []))))
    × (succeeds (require_permission rates listing (can_update ∷ []) (some UserRole.operations) none)
        ≡ has_all UserRole.operations)
require_permission_iff_example =
    require_permission_iff rates listing (can_update ∷ []) UserRole.operations rate_editor
      no_bar_in_module no_bar_in_feature ((no_bar_in_row, no_bar_in_key), tt)

edits_rates :
    any
      (λ a. any (grants (trimmed rates) (trimmed listing) a) rate_editor)
      (sanitized (can_update ∷ []))
    ≡ true
unfolding sanitized sanitize_action action_of trim_start trim_end without_can text_eq to_upper_case
edits_rates = refl
