-- ===== src/Csv.antt =====
-- The files that are written with Go's `encoding/csv`, as the pieces that were written to them. The text of
-- a row is not modelled: a piece is a row, or the first bytes of the text of some rows.
use logrotate_cache_lab.Base.{
  ℕ, ◌≡◌, refl, arith, Bool, false, ◌||◌, ◌≢◌, ◌==◌, Option, some, List, [], ◌∷◌, map, Bytes,
  length, if◌then◌else◌, All,
}

pub data Piece : Type 0 where
  whole : List Bytes → Piece
  torn : List (List Bytes) → ℕ → Piece

-- What a write that fails leaves of the text of some rows.
abbrev pub first_bytes : ℕ → List (List Bytes) → List Piece
first_bytes n rows = if n == 0 then [] else torn rows n ∷ []

-- The rows that a reader finds in a file, none if it refuses one.
abbrev pub Reader : Type 0
Reader = List Piece → Option (List (List Bytes))

-- A row of `width` fields without a carriage return.
abbrev pub IsPlain : ℕ → List Bytes → Type 0
IsPlain width row = (length row ≡ width) × All (All (λ c. c ≢ 13)) row

-- What the package documents: the rows that were written are read back, if all have the same number of
-- fields, two at least. The reader takes a carriage return before a newline away.
abbrev pub ReadsBack : Reader → ℕ → Type 0
ReadsBack read width =
    (rows : List (List Bytes)) → All (IsPlain width) rows → read (map whole rows) ≡ some rows

unfoldable pub has_return : Bytes → Bool
has_return [] = false
has_return (c ∷ s) = c == 13 || has_return s

unfoldable pub any_return : List Bytes → Bool
unfolding has_return
any_return [] = false
any_return (field ∷ fields) = has_return field || any_return fields

pub no_return : (s : Bytes) → has_return s ≡ false → All (λ c. c ≢ 13) s
unfolding has_return
no_return [] h = tt
no_return (c ∷ s) h = ground (arith, no_return s)

no_returns : (row : List Bytes) → any_return row ≡ false → All (All (λ c. c ≢ 13)) row
unfolding any_return
no_returns [] h = tt
no_returns (field ∷ fields) h =
    (no_return field (ground (arith, h)), no_returns fields (ground (arith, h)))

pub IsPlain-of : (row : List Bytes) → any_return row ≡ false → IsPlain (length row) row
IsPlain-of row h = (refl, no_returns row h)
