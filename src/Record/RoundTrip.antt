-- ===== src/Record/RoundTrip.antt =====
-- `Parse` reads back what `Encode` wrote, with the newline or without.
use logrotate_cache_lab.Base.{
  ℕ, ◌+◌, ◌-◌, ◌≤◌, ◌<◌, ◌≡◌, ◌≢◌, refl, ap, false, [], ◌∷◌, ◌++◌, append_assoc, append-nil, Bytes,
  All, arith, length, length-append, length-replicate, replicate, ok,
}
use logrotate_cache_lab.Strconv.{max_uint64, zero_pad}
use logrotate_cache_lab.Strconv.Parse.{IsDigits}
use logrotate_cache_lab.Strconv.Format.{zero_pad-IsDigits, length-zero_pad, parse_uint-zero_pad}
use logrotate_cache_lab.Record.{
  has_space, prefix, encode, trim_newline, split_from, split_n, of_parts, with_sequence, parse,
}

-- A run id that `Encode` takes.
abbrev pub IsRunId : Bytes → Type 0
IsRunId run_id = (run_id ≢ []) × (has_space run_id ≡ false)

-- A part holds no space and is followed by one.
NoSpace : Bytes → Type 0
NoSpace = All (λ c. c ≢ b' ')

has_space-NoSpace : (s : Bytes) → has_space s ≡ false → NoSpace s
unfolding has_space NoSpace
has_space-NoSpace [] h = tt
has_space-NoSpace (c ∷ s) h = ground (arith, has_space-NoSpace s)

IsDigits-NoSpace : (s : Bytes) → IsDigits s → NoSpace s
unfolding NoSpace
IsDigits-NoSpace [] h = tt
IsDigits-NoSpace (c ∷ s) (hc, h) = ground (arith, IsDigits-NoSpace s h)

split_from-append :
    (p rest cur : Bytes) (parts : ℕ)
    → NoSpace p
    → 1 < parts
    → split_from parts cur (p ++ b' ' ∷ rest) ≡ (cur ++ p) ∷ split_from (parts - 1) [] rest
unfolding split_from NoSpace
split_from-append [] rest cur parts h few = rw append-nil (ground arith)
split_from-append (c ∷ p) rest cur parts (hc, h) few =
    ground
      (arith, split_from-append p rest (cur ++ c ∷ []) parts h few, append_assoc cur (c ∷ []) p)

-- The last part takes the rest of the line, spaces included.
split_from_last : (s cur : Bytes) → split_from 1 cur s ≡ (cur ++ s) ∷ []
unfolding split_from
split_from_last [] cur = rw append-nil
split_from_last (c ∷ s) cur =
    ground (arith, split_from_last s (cur ++ c ∷ []), append_assoc cur (c ∷ []) s)

trim_newline-append : (s : Bytes) → trim_newline (s ++ 10 ∷ []) ≡ s
unfolding trim_newline
trim_newline-append [] = refl
trim_newline-append (c ∷ []) = refl
trim_newline-append (c ∷ d ∷ s) = ap (λ t. c ∷ t) (trim_newline-append (d ∷ s))

split_prefix :
    (run_id : Bytes) (sequence : ℕ) (rest : Bytes)
    → has_space run_id ≡ false
    → split_n (prefix run_id sequence ++ rest) 3 ≡ run_id ∷ zero_pad 20 sequence ∷ rest ∷ []
unfolding prefix split_n
split_prefix run_id sequence rest plain =
    let field = zero_pad 20 sequence in
    simp append_assoc (
      rw
        (
          split_from-append run_id _ [] 3 (has_space-NoSpace run_id plain) (omega arith),
          split_from-append field rest [] 2 (IsDigits-NoSpace field (zero_pad-IsDigits 20 sequence))
              (omega arith),
        )
        (rw split_from_last))

of_three :
    (run_id : Bytes) (sequence : ℕ) (rest : Bytes)
    → run_id ≢ []
    → sequence ≤ max_uint64
    → of_parts (run_id ∷ zero_pad 20 sequence ∷ rest ∷ [])
      ≡ ok (record { run_id = run_id; sequence = sequence })
unfolding of_parts
of_three [] sequence rest named fits = absurd (named refl)
of_three (c ∷ run_id) sequence rest named fits =
    rw (length-zero_pad 19 sequence (omega arith), parse_uint-zero_pad 20 sequence fits)
      (unfold with_sequence in ground arith)

-- The text behind the second space is not looked at.
pub parse-prefix :
    (run_id : Bytes) (sequence : ℕ) (rest : Bytes)
    → IsRunId run_id
    → sequence ≤ max_uint64
    → parse ((prefix run_id sequence ++ rest) ++ 10 ∷ [])
      ≡ ok (record { run_id = run_id; sequence = sequence })
unfolding parse
parse-prefix run_id sequence rest (named, plain) fits =
    rw (trim_newline-append, split_prefix run_id sequence rest plain)
      (of_three run_id sequence rest named fits)

-- An encoded record has the size that was asked for.
pub length-encode :
    (run_id : Bytes) (sequence size : ℕ) {line : Bytes}
    → encode run_id sequence size ≡ ok line
    → length line ≡ size
unfolding encode
length-encode run_id sequence size {line} h =
    let p = prefix run_id sequence in
    let k = size - 1 - length p in
    ground (
      arith,
      length-append (p ++ replicate {A = ℕ} k b'x') (10 ∷ []),
      length-append p (replicate {A = ℕ} k b'x'),
      length-replicate {A = ℕ} k b'x',
    )

abbrev filling : Bytes → ℕ → ℕ → Bytes
filling run_id sequence size = replicate (size - 1 - length (prefix run_id sequence)) b'x'

-- What `encode` returns: the prefix, filling and a newline.
pub encode-ok :
    (run_id : Bytes) (sequence size : ℕ)
    → IsRunId run_id
    → length (prefix run_id sequence) < size
    → encode run_id sequence size
      ≡ ok ((prefix run_id sequence ++ filling run_id sequence size) ++ 10 ∷ [])
unfolding encode
encode-ok [] sequence size (named, plain) room = absurd (named refl)
encode-ok (c ∷ run_id) sequence size (named, plain) room = ground arith

-- `encode` writes only for a run id with no white space and a size with room for the prefix and the
-- newline.
encode_accepts :
    (run_id : Bytes) (sequence size : ℕ) {bytes : Bytes}
    → encode run_id sequence size ≡ ok bytes
    → IsRunId run_id × (length (prefix run_id sequence) < size)
unfolding encode
encode_accepts [] sequence size h = cc
encode_accepts (c ∷ run_id) sequence size h =
    let plain : has_space (c ∷ run_id) ≡ false = ground arith in ((λ e. cc, plain), ground arith)

-- The prefix has a fixed length: the run id, two spaces and 20 digits.
pub length-prefix :
    (run_id : Bytes) (sequence : ℕ)
    → sequence ≤ max_uint64
    → length (prefix run_id sequence) ≡ length run_id + 22
unfolding prefix
length-prefix run_id sequence fits =
    rw (length-append, length-append, length-zero_pad 19 sequence (omega arith)) (omega arith)

-- Whatever `encode` writes is read back: the run id and the sequence, if it is a uint64.
pub parse-encode :
    (run_id : Bytes) (sequence size : ℕ) {bytes : Bytes}
    → sequence ≤ max_uint64
    → encode run_id sequence size ≡ ok bytes
    → parse bytes ≡ ok (record { run_id = run_id; sequence = sequence })
parse-encode run_id sequence size {bytes} small h =
    let (named, room) = encode_accepts run_id sequence size h in
    let same : bytes ≡ (prefix run_id sequence ++ filling run_id sequence size) ++ 10 ∷ [] =
      cc (h, encode-ok run_id sequence size named room) in
    rw same (parse-prefix run_id sequence _ named small)
