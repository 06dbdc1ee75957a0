-- ===== src/Csv/RoundTrip.antt =====
-- What is written is read back.
use sohcahtoa_api.Prelude.{
  Text, All, length, ◌<◌, ◌≡◌, refl, sym, ap, ◌∙◌, List, [], ◌∷◌, ◌++◌, arith,
}
use sohcahtoa_api.Csv.{newline, comma, to_csv_value, join, csv_line, build_csv}
use sohcahtoa_api.Csv.Reader.{start, closing, read, read_csv}
use sohcahtoa_api.Csv.Fields.{++_assoc, ++_nil, read_value, Ends, at_end, at_comma, at_newline}

data LineEnds : Text → Type 0 where
  line_end : LineEnds []
  line_break : (cs : Text) → LineEnds (newline ∷ cs)

-- the rows that are read once a row is complete
abbrev then_rest : List Text → Text → List (List Text)
then_rest row [] = row ∷ []
then_rest row (c ∷ cs) = row ∷ read start [] [] cs

close_line :
    (rest field : Text) (row : List Text)
    → LineEnds rest
    → read closing field row rest ≡ then_rest (row ++ field ∷ []) rest
unfolding read
close_line _ field row line_end = refl
close_line _ field row (line_break cs) = refl

LineEnds-Ends : (rest : Text) → LineEnds rest → Ends rest
LineEnds-Ends _ line_end = at_end
LineEnds-Ends _ (line_break cs) = at_newline cs

close_comma :
    (cs field : Text) (row : List Text)
    → read closing field row (comma ∷ cs) ≡ read start [] (row ++ field ∷ []) cs
unfolding read
close_comma cs field row = refl

line_one : (v : Text) → csv_line (v ∷ []) ≡ to_csv_value v
unfolding csv_line join
line_one v = refl

line_more :
    (v w : Text) (ws : List Text)
    → csv_line (v ∷ w ∷ ws) ≡ to_csv_value v ++ comma ∷ csv_line (w ∷ ws)
unfolding csv_line join
line_more v w ws = refl

-- A written line is read back as one row.
read_line :
    (v : Text) (vs row : List Text) (rest : Text)
    → LineEnds rest
    → read start [] row (csv_line (v ∷ vs) ++ rest) ≡ then_rest (row ++ v ∷ vs) rest
read_line v [] row rest ends =
    ap (λ t. read start [] row (t ++ rest)) (line_one v)
    ∙ read_value v row rest (LineEnds-Ends rest ends)
    ∙ close_line rest v row ends
read_line v (w ∷ ws) row rest ends =
    ap (λ t. read start [] row (t ++ rest)) (line_more v w ws)
    ∙ ap (λ t. read start [] row t) (++_assoc (to_csv_value v) (comma ∷ csv_line (w ∷ ws)) rest)
    ∙ read_value v row (comma ∷ (csv_line (w ∷ ws) ++ rest)) (at_comma (csv_line (w ∷ ws) ++ rest))
    ∙ close_comma (csv_line (w ∷ ws) ++ rest) v row
    ∙ read_line w ws (row ++ v ∷ []) rest ends
    ∙ ap (λ r. then_rest r rest) (++_assoc row (v ∷ []) (w ∷ ws))

file_one : (header : List Text) → build_csv header [] ≡ csv_line header
unfolding build_csv join
file_one header = refl

file_more :
    (header r : List Text) (rs : List (List Text))
    → build_csv header (r ∷ rs) ≡ csv_line header ++ newline ∷ build_csv r rs
unfolding build_csv join
file_more header r rs = refl

-- What buildCsv writes is read back, header and rows, by a reader for which commas separate fields,
-- line feeds end lines and double quotes quote and are doubled, whatever commas, quotes and line
-- feeds the values have: for at least one column.
pub build_csv_round_trip :
    (header : List Text) (rows : List (List Text))
    → 0 < length header
    → All (λ r. 0 < length r) rows
    → read_csv (build_csv header rows) ≡ header ∷ rows
build_csv_round_trip [] rows some_column h = absurd (ground arith)
build_csv_round_trip (v ∷ vs) [] some_column h =
    ap read_csv (file_one (v ∷ vs) ∙ sym (++_nil (csv_line (v ∷ vs))))
    ∙ read_line v vs [] [] line_end
build_csv_round_trip (v ∷ vs) (r ∷ rs) some_column h =
    ap read_csv (file_more (v ∷ vs) r rs)
    ∙ read_line v vs [] (newline ∷ build_csv r rs) (line_break (build_csv r rs))
    ∙ ap (λ l. (v ∷ vs) ∷ l) (build_csv_round_trip r rs h.0 h.1)
