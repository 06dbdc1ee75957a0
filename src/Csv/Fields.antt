-- ===== src/Csv/Fields.antt =====
-- A written value is read back.
use sohcahtoa_api.Prelude.{
  Text, ℕ, ◌≡◌, refl, sym, ap, ◌∙◌, true, false, List, [], ◌∷◌, ◌++◌, any, ◌==◌, ==_eq, Bool-cases,
  inl, inr, arith,
}
use sohcahtoa_api.Csv.{newline, quote, comma, is_special, escape, to_csv_value}
use sohcahtoa_api.Csv.Reader.{classify, a_quote, a_plain, start, bare, quoted, closing, read}

classify_special : (c : ℕ) → is_special c ≡ false → classify c ≡ a_plain
classify_special c h = ground arith

classify-quote : (c : ℕ) → (c == quote) ≡ true → classify c ≡ a_quote
classify-quote c h = ground arith

pub ++_assoc : {A : Type 0} (xs ys zs : List A) → (xs ++ ys) ++ zs ≡ xs ++ (ys ++ zs)
++_assoc [] ys zs = refl
++_assoc (x ∷ xs) ys zs = ap (λ l. x ∷ l) (++_assoc xs ys zs)

pub ++_nil : {A : Type 0} (xs : List A) → xs ++ [] ≡ xs
++_nil [] = refl
++_nil (x ∷ xs) = ap (λ l. x ∷ l) (++_nil xs)

bare_plain :
    (c : ℕ) (cs field : Text) (row : List Text)
    → classify c ≡ a_plain
    → read bare field row (c ∷ cs) ≡ read bare (field ++ c ∷ []) row cs
unfolding read
bare_plain c cs field row h = rw (h, read)

start_plain :
    (c : ℕ) (cs field : Text) (row : List Text)
    → classify c ≡ a_plain
    → read start field row (c ∷ cs) ≡ read bare (field ++ c ∷ []) row cs
unfolding read
start_plain c cs field row h = rw (h, read)

quoted_other :
    (c : ℕ) (cs field : Text) (row : List Text)
    → (c == quote) ≡ false
    → read quoted field row (c ∷ cs) ≡ read quoted (field ++ c ∷ []) row cs
unfolding read
quoted_other c cs field row h = rw (h, read)

escape-quote :
    (c : ℕ) (cs : Text) → (c == quote) ≡ true → escape (c ∷ cs) ≡ quote ∷ quote ∷ escape cs
unfolding escape
escape-quote c cs h = rw (h, escape)

escape-other : (c : ℕ) (cs : Text) → (c == quote) ≡ false → escape (c ∷ cs) ≡ c ∷ escape cs
unfolding escape
escape-other c cs h = rw (h, escape)

-- A bare value is read to its end.
read_bare :
    (value field : Text) (row : List Text) (rest : Text)
    → any is_special value ≡ false
    → read bare field row (value ++ rest) ≡ read bare (field ++ value) row rest
read_bare [] field row rest h = ap (λ f. read bare f row rest) (sym (++_nil field))
read_bare (c ∷ cs) field row rest h =
    bare_plain c (cs ++ rest) field row (classify_special c (ground arith))
    ∙ read_bare cs (field ++ c ∷ []) row rest (ground arith)
    ∙ ap (λ f. read bare f row rest) (++_assoc field (c ∷ []) cs)

-- An escaped value is read to the quote that closes it.
read_quoted :
    (value field : Text) (row : List Text) (rest : Text)
    → read quoted field row (escape value ++ quote ∷ rest) ≡ read closing (field ++ value) row rest
unfolding read escape
read_quoted [] field row rest = ap (λ f. read closing f row rest) (sym (++_nil field))
read_quoted (c ∷ cs) field row rest = elim (Bool-cases (c == quote)) [
  | inl is_quote ↦
      let same : c ≡ quote = ==_eq c quote is_quote in
      ap (λ t. read quoted field row (t ++ quote ∷ rest)) (escape-quote c cs is_quote)
      ∙ read_quoted cs (field ++ quote ∷ []) row rest
      ∙ ap (λ f. read closing f row rest) (++_assoc field (quote ∷ []) cs)
      ∙ ap (λ x. read closing (field ++ x ∷ cs) row rest) (sym same)
  | inr other ↦
      ap (λ t. read quoted field row (t ++ quote ∷ rest)) (escape-other c cs other)
      ∙ quoted_other c (escape cs ++ quote ∷ rest) field row other
      ∙ read_quoted cs (field ++ c ∷ []) row rest
      ∙ ap (λ f. read closing f row rest) (++_assoc field (c ∷ []) cs)
]

escape_plain : (value : Text) → any is_special value ≡ false → escape value ≡ value
unfolding escape
escape_plain [] h = refl
escape_plain (c ∷ cs) h =
    escape-other c cs (ground arith) ∙ ap (λ t. c ∷ t) (escape_plain cs (ground arith))

-- The rest of a text that a field may stand before.
pub data Ends : Text → Type 0 where
  at_end : Ends []
  at_comma : (cs : Text) → Ends (comma ∷ cs)
  at_newline : (cs : Text) → Ends (newline ∷ cs)

bare-Ends :
    (rest field : Text) (row : List Text)
    → Ends rest
    → read bare field row rest ≡ read closing field row rest
unfolding read
bare-Ends _ field row at_end = refl
bare-Ends _ field row (at_comma cs) = refl
bare-Ends _ field row (at_newline cs) = refl

start-Ends :
    (rest field : Text) (row : List Text)
    → Ends rest
    → read start field row rest ≡ read closing field row rest
unfolding read
start-Ends _ field row at_end = refl
start-Ends _ field row (at_comma cs) = refl
start-Ends _ field row (at_newline cs) = refl

written_special :
    (value : Text)
    → any is_special value ≡ true
    → to_csv_value value ≡ quote ∷ (escape value ++ quote ∷ [])
unfolding to_csv_value
written_special value h = rw (h, to_csv_value)

written_plain : (value : Text) → any is_special value ≡ false → to_csv_value value ≡ value
unfolding to_csv_value
written_plain value h = rw (h, to_csv_value) (escape_plain value h)

start_quote : (cs : Text) (row : List Text) → read start [] row (quote ∷ cs) ≡ read quoted [] row cs
unfolding read
start_quote cs row = refl

read_plain :
    (value : Text) (row : List Text) (rest : Text)
    → any is_special value ≡ false
    → Ends rest
    → read start [] row (value ++ rest) ≡ read closing value row rest
read_plain [] row rest h ends = start-Ends rest [] row ends
read_plain (c ∷ cs) row rest h ends =
    start_plain c (cs ++ rest) [] row (classify_special c (ground arith))
    ∙ read_bare cs (c ∷ []) row rest (ground arith)
    ∙ bare-Ends rest (c ∷ cs) row ends

-- A written value that stands before a comma, a newline or the end is read back.
pub read_value :
    (value : Text) (row : List Text) (rest : Text)
    → Ends rest
    → read start [] row (to_csv_value value ++ rest) ≡ read closing value row rest
read_value value row rest ends = elim (Bool-cases (any is_special value)) [
  | inl special ↦
      ap (λ t. read start [] row (t ++ rest)) (written_special value special)
      ∙ start_quote ((escape value ++ quote ∷ []) ++ rest) row
      ∙ ap (λ t. read quoted [] row t) (++_assoc (escape value) (quote ∷ []) rest)
      ∙ read_quoted value [] row rest
  | inr plain ↦
      ap (λ t. read start [] row (t ++ rest)) (written_plain value plain)
      ∙ read_plain value row rest plain ends
]
