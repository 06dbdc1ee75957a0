-- ===== src/Tests/Export.antt =====
-- CSV on a concrete table.
use sohcahtoa_api.Prelude.{Text, ◌≡◌, List, [], ◌∷◌, arith}
use sohcahtoa_api.Csv.{build_csv}
use sohcahtoa_api.Csv.Reader.{read_csv}
use sohcahtoa_api.Csv.RoundTrip.{build_csv_round_trip}

-- a,"b
abbrev awkward : Text
awkward = 97 ∷ 44 ∷ 34 ∷ 98 ∷ []

abbrev header : List Text
header = (120 ∷ []) ∷ (121 ∷ []) ∷ []

abbrev rows : List (List Text)
rows = (awkward ∷ [] ∷ []) ∷ []

build_csv_round_trip_example : read_csv (build_csv header rows) ≡ header ∷ rows
build_csv_round_trip_example = build_csv_round_trip header rows (omega arith) (omega arith, tt)
