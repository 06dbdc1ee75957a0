-- ===== src/Csv/Reader.antt =====
-- A reader of CSV as in RFC 4180, except that a line feed alone ends a line. It shares nothing with the
-- writer.
use sohcahtoa_api.Prelude.{Text, ℕ, true, false, List, [], ◌∷◌, ◌++◌, ◌==◌, if◌then◌else◌}

pub data CharClass : Type 0 where
  a_quote a_comma a_newline a_plain : CharClass

abbrev pub classify : ℕ → CharClass
classify c =
    if c == 34 then a_quote else if c == 44 then a_comma else if c == 10 then a_newline else a_plain

-- Where the reader stands: at the start of a field, in a bare field, in a quoted one, or after a
-- quote inside a quoted one.
pub data Place : Type 0 where
  start bare quoted closing : Place

-- `field` and `row` are what has been read of the field and of the row.
unfoldable pub read : Place → Text → List Text → Text → List (List Text)
read place field row [] = (row ++ field ∷ []) ∷ []
read start field row (c ∷ cs) = elim (classify c) [
  | a_quote ↦ read quoted field row cs
  | a_comma ↦ read start [] (row ++ field ∷ []) cs
  | a_newline ↦ (row ++ field ∷ []) ∷ read start [] [] cs
  | a_plain ↦ read bare (field ++ c ∷ []) row cs
]
read bare field row (c ∷ cs) = elim (classify c) [
  | a_quote ↦ read bare (field ++ c ∷ []) row cs
  | a_comma ↦ read start [] (row ++ field ∷ []) cs
  | a_newline ↦ (row ++ field ∷ []) ∷ read start [] [] cs
  | a_plain ↦ read bare (field ++ c ∷ []) row cs
]
read quoted field row (c ∷ cs) = elim (c == 34) [
  | true ↦ read closing field row cs
  | false ↦ read quoted (field ++ c ∷ []) row cs
]
read closing field row (c ∷ cs) = elim (classify c) [
  | a_quote ↦ read quoted (field ++ c ∷ []) row cs
  | a_comma ↦ read start [] (row ++ field ∷ []) cs
  | a_newline ↦ (row ++ field ∷ []) ∷ read start [] [] cs
  | a_plain ↦ read bare (field ++ c ∷ []) row cs
]

abbrev pub read_csv : Text → List (List Text)
read_csv text = read start [] [] text
