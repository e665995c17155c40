-- ===== src/Record.antt =====
-- internal/record/record.go: the fixed-width log record and its parser. A run id and a line are
-- bytes. `Encode`'s size is an int; a negative one fails the same test as 0, so it is a number here.
pub mod RoundTrip
use logrotate_cache_lab.Base.{
  ℕ, ◌+◌, ◌-◌, Bool, true, false, not, ◌||◌, ◌&&◌, List, [], ◌∷◌, ◌++◌, Bytes, ltb, ◌==◌,
  if◌then◌else◌, length, replicate, Result, ok, err,
}
use logrotate_cache_lab.Strconv.{Parsed, valid, syntax_error, range_error, zero_pad, parse_uint}

pub record Record : Type 0 where
  pub run_id : Bytes
  pub sequence : ℕ

pub data RecordError : Type 0 where
  bad_run_id : RecordError
  too_small : ℕ → ℕ → RecordError
  malformed : RecordError
  bad_sequence : RecordError

-- `strings.ContainsAny(runID, " \t\r\n")`
unfoldable pub has_space : Bytes → Bool
has_space [] = false
has_space (c ∷ s) = c == b' ' || c == 9 || c == 13 || c == 10 || has_space s

-- `fmt.Sprintf("%s %020d ", runID, sequence)`
unfoldable pub prefix : Bytes → ℕ → Bytes
prefix run_id sequence = run_id ++ b' ' ∷ (zero_pad 20 sequence ++ b' ' ∷ [])

-- The buffer of `size` bytes: the prefix, then `x` up to the last byte, which is a newline.
fill : Bytes → ℕ → Bytes
fill p size = (p ++ replicate (size - 1 - length p) b'x') ++ 10 ∷ []

unfoldable pub encode : Bytes → ℕ → ℕ → Result RecordError Bytes
unfolding fill
encode run_id sequence size =
    let p = prefix run_id sequence in
    if length run_id == 0 || has_space run_id
    then err bad_run_id
    else if ltb size (length p + 1)
    then err (too_small size (length p + 1))
    else ok (fill p size)

-- `bytes.TrimSuffix(line, "\n")`
unfoldable pub trim_newline : Bytes → Bytes
trim_newline [] = []
trim_newline (c ∷ []) = if c == 10 then [] else c ∷ []
trim_newline (c ∷ d ∷ s) = c ∷ trim_newline (d ∷ s)

-- `bytes.SplitN(line, " ", parts)`: `cur` is the part that is being read.
split_from : ℕ → Bytes → Bytes → List Bytes
split_from parts cur [] = cur ∷ []
split_from parts cur (c ∷ s) =
    let next = cur ∷ split_from (parts - 1) [] s in
    let more = split_from parts (cur ++ c ∷ []) s in if c == b' ' && ltb 1 parts then next else more

unfoldable pub split_n : Bytes → ℕ → List Bytes
unfolding split_from
split_n s parts = split_from parts [] s

-- The second part is read as a number only when it has 20 bytes.
with_sequence : Bytes → Parsed ℕ → Result RecordError Record
with_sequence run_id (valid n) = ok (record { run_id = run_id; sequence = n })
with_sequence run_id syntax_error = err bad_sequence
with_sequence run_id (range_error n) = err bad_sequence

of_parts : List Bytes → Result RecordError Record
unfolding with_sequence
of_parts (p ∷ q ∷ r ∷ []) =
    if length p == 0 || not (length q == 20) then err malformed else with_sequence p (parse_uint q)
of_parts _ = err malformed

unfoldable pub parse : Bytes → Result RecordError Record
unfolding trim_newline split_n of_parts
parse line = of_parts (split_n (trim_newline line) 3)
