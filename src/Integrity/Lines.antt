-- ===== src/Integrity/Lines.antt =====
-- The `bufio.Scanner` of internal/integrity/analyze.go with its buffer of at most 4 MiB: a line is cut
-- at its newline, loses one carriage return, and fails the scan when it does not fit the buffer.
use logrotate_cache_lab.Base.{
  ℕ, ◌+◌, ◌*◌, Bool, true, List, [], ◌∷◌, ◌++◌, Bytes, leb, ◌==◌, if◌then◌else◌,
}

-- What is read from an open file, and whether the reading ended in an error.
pub record OpenFile : Type 0 where
  pub content : Bytes
  pub read_fails : Bool

-- The lines that `Scan` handed out, and whether `Err` is set.
pub record Scanned : Type 0 where
  pub tokens : List Bytes
  pub failed : Bool

abbrev pub max_line : ℕ
max_line = 4 * 1024 * 1024

-- `dropCR`
unfoldable pub drop_cr : Bytes → Bytes
drop_cr [] = []
drop_cr (c ∷ []) = if c == 13 then [] else c ∷ []
drop_cr (c ∷ d ∷ s) = c ∷ drop_cr (d ∷ s)

abbrev pub with_token : Bytes → Scanned → Scanned
with_token token s = record s { tokens = token ∷ s.tokens }

-- The rest of the file behind the bytes `cur` of the current line; `size` is their number.
unfoldable pub scan_from : Bool → ℕ → Bytes → Bytes → Scanned
scan_from fails size cur [] = record {
  tokens = if size == 0 then [] else drop_cr cur ∷ [];
  failed = fails;
}
scan_from fails size cur (c ∷ s) =
    let line = with_token (drop_cr cur) (scan_from fails 0 [] s) in
    let more = scan_from fails (size + 1) (cur ++ c ∷ []) s in
    if c == 10
    then line
    else if leb max_line (size + 1)
    then record { tokens = []; failed = true }
    else more

unfoldable pub scan_file : OpenFile → Scanned
unfolding scan_from drop_cr
scan_file f = scan_from f.read_fails 0 [] f.content
