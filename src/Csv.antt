-- ===== src/Csv.antt =====
-- src/shared/utils/csv.ts on values that are strings: the quoting of a value, and buildCsv. A string
-- is the list of its UTF-16 code units.
pub mod Reader
pub mod Fields
pub mod RoundTrip
use sohcahtoa_api.Prelude.{Text, ℕ, Bool, ◌||◌, List, [], ◌∷◌, ◌++◌, map, any, ◌==◌, if◌then◌else◌}

abbrev pub newline : ℕ
newline = 10

abbrev pub quote : ℕ
quote = 34

abbrev pub comma : ℕ
comma = 44

-- /[",\n]/
abbrev pub is_special : ℕ → Bool
is_special c = c == quote || (c == comma || c == newline)

-- val.replace(/"/g, '""')
unfoldable pub escape : Text → Text
escape [] = []
escape (c ∷ cs) = let rest = escape cs in if c == quote then quote ∷ quote ∷ rest else c ∷ rest

-- toCsvValue, for a string
unfoldable pub to_csv_value : Text → Text
unfolding escape
to_csv_value value =
    if any is_special value then quote ∷ (escape value ++ quote ∷ []) else escape value

-- xs.join(separator)
unfoldable pub join : ℕ → List Text → Text
join separator [] = []
join separator (x ∷ []) = x
join separator (x ∷ y ∷ rest) = x ++ separator ∷ join separator (y ∷ rest)

-- columns.map(...).join(",")
unfoldable pub csv_line : List Text → Text
unfolding join to_csv_value
csv_line values = join comma (map to_csv_value values)

-- the header's line and a line for each row, where a row is given by its selected values
unfoldable pub build_csv : List Text → List (List Text) → Text
unfolding join csv_line
build_csv header rows = join newline (csv_line header ∷ map csv_line rows)
