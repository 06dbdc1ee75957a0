-- ===== src/Permissions/Triples.antt =====
-- requirePermission compares module, feature and action one by one.
use sohcahtoa_api.Prelude.{
  ◌==◌, Bool, true, false, ◌&&◌, ◌||◌, Option, none, some, List, [], ◌∷◌, ◌++◌, map, filter, any,
  All, Text, text_eq, ◌≡◌, refl, arith, if◌then◌else◌, Bool-cases, inl, inr, ◌∙◌,
}
use sohcahtoa_api.Errors.{Result, ok, err, succeeds}
use sohcahtoa_api.Rates.{to_upper_case}
use sohcahtoa_api.Auth.Rows.{UserRole}
use sohcahtoa_api.Permissions.{
  Action, Permission, action_text, permission_key, key_of, allowed_keys, sanitize_action, sanitized,
  has_all, is_allowed, require_permission, trimmed, judge, answer, insufficient,
}

-- the text has the separator of the keys
abbrev pub has_bar : Text → Bool
has_bar t = any (λ c. c == 124) t

abbrev pub same_action : Option Action → Action → Bool
same_action none b = false
same_action (some Action.view) Action.view = true
same_action (some Action.edit) Action.edit = true
same_action (some Action.create) Action.create = true
same_action (some Action.delete) Action.delete = true
same_action (some Action.export) Action.export = true
same_action _ _ = false

text_eq-action_text :
    (o : Option Action) (a : Action)
    → text_eq (action_text o) (action_text (some a)) ≡ same_action o a
unfolding text_eq
text_eq-action_text none a = ground arith
text_eq-action_text (some b) a = ground arith

text_eq-append_bar :
    (m n x y : Text)
    → has_bar m ≡ false
    → has_bar n ≡ false
    → text_eq (m ++ 124 ∷ x) (n ++ 124 ∷ y) ≡ (text_eq m n && text_eq x y)
unfolding text_eq
text_eq-append_bar [] [] x y hm hn = refl
text_eq-append_bar [] (d ∷ n) x y hm hn = ground arith
text_eq-append_bar (c ∷ m) [] x y hm hn = ground arith
text_eq-append_bar (c ∷ m) (d ∷ n) x y hm hn = ground (arith, text_eq-append_bar m n x y)

-- the permission is active and has the module, the feature and the action
abbrev pub grants : Text → Text → Action → Permission → Bool
grants m f a p =
    p.is_active
    && (text_eq (to_upper_case p.module_name) m
        && (text_eq (to_upper_case p.feature_key) f && same_action (sanitize_action p.action) a))

abbrev pub HasNoBar : Permission → Type 0
HasNoBar p =
    (has_bar (to_upper_case p.module_name) ≡ false)
    × (has_bar (to_upper_case p.feature_key) ≡ false)

text_eq-key_of :
    (m f : Text) (a : Action) (p : Permission)
    → has_bar m ≡ false
    → has_bar f ≡ false
    → HasNoBar p
    → (p.is_active && text_eq (key_of p) (permission_key m f (some a))) ≡ grants m f a p
text_eq-key_of m f a p hm hf h =
    let o = sanitize_action p.action in
    rw (
      text_eq-append_bar (to_upper_case p.module_name) m _ _ h.0 hm,
      text_eq-append_bar (to_upper_case p.feature_key) f _ _ h.1 hf,
      text_eq-action_text o a,
    )

any-map-filter :
    {A B : Type 0} (q : B → Bool) (k : A → B) (p : A → Bool) (xs : List A)
    → any q (map k (filter p xs)) ≡ any (λ x. p x && q (k x)) xs
any-map-filter q k p [] = refl
any-map-filter q k p (x ∷ xs) =
    let rest = any-map-filter q k p xs in
    elim (Bool-cases (p x)) [ inl kept ↦ rw (kept, rest) | inr left ↦ rw (left, rest) ]

any-key_of :
    (m f : Text) (a : Action) (ps : List Permission)
    → has_bar m ≡ false
    → has_bar f ≡ false
    → All HasNoBar ps
    → any (λ p. p.is_active && text_eq (key_of p) (permission_key m f (some a))) ps
      ≡ any (grants m f a) ps
any-key_of m f a [] hm hf h = refl
any-key_of m f a (p ∷ ps) hm hf h =
    rw (text_eq-key_of m f a p hm hf h.0, any-key_of m f a ps hm hf h.1)

any-allowed_keys :
    (m f : Text) (a : Action) (ps : List Permission)
    → has_bar m ≡ false
    → has_bar f ≡ false
    → All HasNoBar ps
    → any (λ k. text_eq k (permission_key m f (some a))) (allowed_keys ps) ≡ any (grants m f a) ps
unfolding allowed_keys
any-allowed_keys m f a ps hm hf h =
    any-map-filter (λ k. text_eq k (permission_key m f (some a))) key_of (λ p. p.is_active) ps
    ∙ any-key_of m f a ps hm hf h

is_allowed_lem :
    (m f : Text) (actions : List Action) (ps : List Permission)
    → has_bar m ≡ false
    → has_bar f ≡ false
    → All HasNoBar ps
    → is_allowed m f actions ps ≡ any (λ a. any (grants m f a) ps) actions
unfolding is_allowed
is_allowed_lem m f [] ps hm hf h = refl
is_allowed_lem m f (a ∷ actions) ps hm hf h =
    rw (any-allowed_keys m f a ps hm hf h, is_allowed_lem m f actions ps hm hf h)

succeeds-answer : (b : Bool) → succeeds (answer b) ≡ b
succeeds-answer true = refl
succeeds-answer false = refl

or_else :
    (b s : Bool) (r : Result (Unit {0}))
    → succeeds r ≡ s
    → succeeds (if b then ok tt else r) ≡ (b || s)
or_else true s r h = refl
or_else false s r h = h

nothing_else :
    (b : Bool) (r : Result (Unit {0})) → succeeds r ≡ false → succeeds (if b then ok tt else r) ≡ b
nothing_else true r h = refl
nothing_else false r h = h

succeeds-judge :
    (m f : Text) (actions : List Action) (ps : List Permission)
    → succeeds (judge (some ps) m f actions) ≡ is_allowed m f actions ps
unfolding is_allowed
succeeds-judge m f [] ps = refl
succeeds-judge m f (a ∷ actions) ps = succeeds-answer (is_allowed m f (a ∷ actions) ps)

-- Where no module and no feature holds the character that separates the keys, a request passes exactly
-- if its user is an ADMIN or a SUPER_ADMIN, or an administrator whose role has an active permission
-- for the module, the feature and one of the actions, in any case of the letters.
pub require_permission_iff :
    (m f : Text) (actions : List Text) (role : UserRole) (ps : List Permission)
    → has_bar (trimmed m) ≡ false
    → has_bar (trimmed f) ≡ false
    → All HasNoBar ps
    → (succeeds (require_permission m f actions (some role) (some ps)) ≡ (
        has_all role || any (λ a. any (grants (trimmed m) (trimmed f) a) ps) (sanitized actions)))
      × (succeeds (require_permission m f actions (some role) none) ≡ has_all role)
unfolding require_permission
require_permission_iff m f actions role ps hm hf h =
    let judged =
      succeeds-judge (trimmed m) (trimmed f) (sanitized actions) ps
      ∙ is_allowed_lem (trimmed m) (trimmed f) (sanitized actions) ps hm hf h in
    (or_else (has_all role) _ _ judged, nothing_else (has_all role) (err insufficient) refl)
