-- ===== src/Tests/Csv.antt =====
-- A reader of CSV files that refuses every piece of a row.
use logrotate_cache_lab.Base.{ℕ, refl, ap, Option, none, some, List, [], ◌∷◌, Bytes}
use logrotate_cache_lab.Csv.{whole, torn, Reader, ReadsBack}

abbrev pub before : List Bytes → Option (List (List Bytes)) → Option (List (List Bytes))
before row none = none
before row (some rows) = some (row ∷ rows)

unfoldable pub whole_rows : Reader
whole_rows [] = some []
whole_rows (whole row ∷ pieces) = before row (whole_rows pieces)
whole_rows (torn rows n ∷ pieces) = none

pub whole_rows-ReadsBack : (width : ℕ) → ReadsBack whole_rows width
unfolding whole_rows
whole_rows-ReadsBack width [] h = refl
whole_rows-ReadsBack width (row ∷ rows) (p, h) = ap (before row) (whole_rows-ReadsBack width rows h)
