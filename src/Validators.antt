-- ===== src/Validators.antt =====
-- src/shared/utils/validators.ts and the strength of passwords in src/shared/utils/password.ts, on
-- texts as lists of UTF-16 code units.
use sohcahtoa_api.Prelude.{
  ℕ, Bool, true, false, ◌&&◌, ◌||◌, not, Option, none, some, List, [], ◌∷◌, ◌++◌, Text, String,
  is_blank, length, all, any, leb, ltb, ◌==◌, if◌then◌else◌,
}

-- [0-9], [A-Z], [a-z]
abbrev pub is_digit : ℕ → Bool
is_digit c = leb 48 c && leb c 57

abbrev is_upper : ℕ → Bool
is_upper c = leb 65 c && leb c 90

abbrev is_lower : ℕ → Bool
is_lower c = leb 97 c && leb c 122

-- \s
abbrev pub is_space : ℕ → Bool
is_space c =
    (leb 9 c && leb c 13)
    || (c == 32
        || (c == 160
            || (c == 0x1680
                || ((leb 0x2000 c && leb c 0x200a)
                    || (c == 0x2028
                        || (c == 0x2029
                            || (c == 0x202f || (c == 0x205f || (c == 0x3000 || c == 0xfeff)))))))))

-- [^\s@]
abbrev is_plain : ℕ → Bool
is_plain c = not (is_space c || c == 64)

-- a dot with something after it
unfoldable pub dot_inside : Text → Bool
dot_inside [] = false
dot_inside (c ∷ []) = false
dot_inside (c ∷ d ∷ rest) = c == 46 || dot_inside (d ∷ rest)

-- [^\s@]+\.[^\s@]+
unfoldable pub is_domain : Text → Bool
unfolding dot_inside
is_domain [] = false
is_domain (c ∷ rest) = all is_plain (c ∷ rest) && dot_inside rest

-- what follows the first @
unfoldable pub after_sign : Text → Option Text
after_sign [] = none
after_sign (c ∷ rest) = let later = after_sign rest in if c == 64 then some rest else later

unfoldable pub before_sign : Text → Text
before_sign [] = []
before_sign (c ∷ rest) = let later = before_sign rest in if c == 64 then [] else c ∷ later

-- /^[^\s@]+@[^\s@]+\.[^\s@]+$/
unfoldable pub validate_email : Text → Bool
unfolding is_domain after_sign before_sign
validate_email email = elim (after_sign email) [
  | none ↦ false
  | some domain ↦
      not (is_blank (before_sign email)) && (all is_plain (before_sign email) && is_domain domain)
]

-- [789][01]\d{8}
abbrev is_mobile : Text → Bool
is_mobile (a ∷ b ∷ rest) =
    (leb 55 a && leb a 57) && ((b == 48 || b == 49) && (length rest == 8 && all is_digit rest))
is_mobile _ = false

abbrev after_country_code : Text → Bool
after_country_code (a ∷ b ∷ c ∷ rest) = a == 50 && (b == 51 && (c == 52 && is_mobile rest))
after_country_code _ = false

-- /^(\+234|0)[789][01]\d{8}$/
unfoldable pub validate_phone_number : Text → Bool
validate_phone_number [] = false
validate_phone_number (c ∷ rest) =
    if c == 43 then after_country_code rest else c == 48 && is_mobile rest

-- /^\d{11}$/
unfoldable pub validate_bvn : Text → Bool
validate_bvn bvn = length bvn == 11 && all is_digit bvn

-- [!@#$%^&*(),.?":{}|<>]
abbrev specials : Text
specials =
    33 ∷ 64 ∷ 35 ∷ 36 ∷ 37 ∷ 94 ∷ 38 ∷ 42 ∷ 40 ∷ 41 ∷ 44 ∷ 46 ∷ 63 ∷ 34 ∷ 58 ∷ 123 ∷ 125 ∷ 124 ∷ 60
    ∷ 62 ∷ []

abbrev is_special : ℕ → Bool
is_special c = any (λ d. c == d) specials

abbrev error_if : Bool → String → List String
error_if true message = message ∷ []
error_if false message = []

-- the list of what the password lacks; it is valid if there is nothing
unfoldable pub validate_password_strength : Text → List String
validate_password_strength password =
    error_if (ltb (length password) 8) "Password must be at least 8 characters long"
    ++ error_if (not (any is_upper password)) "Password must contain at least one uppercase letter"
    ++ error_if (not (any is_lower password)) "Password must contain at least one lowercase letter"
    ++ error_if (not (any is_digit password)) "Password must contain at least one number"
    ++ error_if (not (any is_special password))
        "Password must contain at least one special character"

abbrev nothing : List String → Bool
nothing [] = true
nothing (e ∷ es) = false

unfoldable pub is_strong : Text → Bool
unfolding validate_password_strength
is_strong password = nothing (validate_password_strength password)
