-- ===== src/Integrity/Intact.antt =====
-- The audit of files that hold records as internal/record/record.go writes them: the lines are read
-- back, so the report speaks of the sequences that were written.
use logrotate_cache_lab.Base.{
  ℕ, ◌+◌, ◌-◌, ◌<◌, ◌≤◌, ◌≡◌, ◌≢◌, refl, ◌∙◌, ap, Bool, false, List, [], ◌∷◌, ◌++◌, Bytes, arith,
  length, map, length-append, length-replicate, replicate, All, All-append, All-replicate,
  append-nil, append_assoc, str_eq_refl, Result, ok, err,
}
use logrotate_cache_lab.Strconv.{max_uint64}
use logrotate_cache_lab.Strconv.Parse.{IsDigits}
use logrotate_cache_lab.Strconv.Format.{zero_pad-IsDigits}
use logrotate_cache_lab.Record.{has_space, prefix, encode}
use logrotate_cache_lab.Record.RoundTrip.{IsRunId, parse-prefix, encode-ok, length-prefix}
use logrotate_cache_lab.Integrity.Lines.{max_line, drop_cr, with_token, scan_from}
use logrotate_cache_lab.Integrity.Counts.{sequences, line_sequence}

-- A byte that ends no line.
abbrev IsInline : ℕ → Type 0
IsInline c = (c ≢ 10) × (c ≢ 13)

drop_cr-inline : (s : Bytes) → All IsInline s → drop_cr s ≡ s
unfolding drop_cr
drop_cr-inline [] h = refl
drop_cr-inline (c ∷ []) (hc, h) = ground arith
drop_cr-inline (c ∷ d ∷ s) (hc, h) = ap (λ t. c ∷ t) (drop_cr-inline (d ∷ s) h)

-- A line that fits the buffer is handed out at its newline.
scan_from-line :
    (fails : Bool) (token rest cur : Bytes) (size : ℕ)
    → All IsInline token
    → size + length token < max_line
    → scan_from fails size cur (token ++ 10 ∷ rest)
      ≡ with_token (drop_cr (cur ++ token)) (scan_from fails 0 [] rest)
unfolding scan_from
scan_from-line fails [] rest cur size h fits = rw append-nil
scan_from-line fails (c ∷ token) rest cur size (hc, h) fits = ground (
  arith,
  scan_from-line fails token rest (cur ++ c ∷ []) (size + 1) h,
  append_assoc cur (c ∷ []) token,
)

has_space-IsInline : (s : Bytes) → has_space s ≡ false → All IsInline s
unfolding has_space
has_space-IsInline [] h = tt
has_space-IsInline (c ∷ s) h = ground (arith, has_space-IsInline s)

IsDigits-IsInline : (s : Bytes) → IsDigits s → All IsInline s
IsDigits-IsInline [] h = tt
IsDigits-IsInline (c ∷ s) (hc, h) = ground (arith, IsDigits-IsInline s h)

abbrev pub written {ℓ} : {E : Type ℓ} → Result E Bytes → Bytes
written (ok bytes) = bytes
written (err e) = []

module _ (run_id : Bytes) (size : ℕ) where
  -- A record without its newline.
  pub line : ℕ → Bytes
  line sequence = let p = prefix run_id sequence in p ++ replicate (size - 1 - length p) b'x'

  -- The bytes of a file that the records were written to, one after the other.
  abbrev pub log_of : List ℕ → Bytes
  log_of [] = []
  log_of (sequence ∷ rest) = written (encode run_id sequence size) ++ log_of rest

  line-IsInline : (sequence : ℕ) → has_space run_id ≡ false → All IsInline (line sequence)
  unfolding line prefix
  line-IsInline sequence plain =
      All-append _ _ _
        (All-append _ _ _ (has_space-IsInline run_id plain) (
          ground arith,
          All-append _ _ _ (IsDigits-IsInline _ (zero_pad-IsDigits 20 sequence)) (ground arith),
        ))
        (All-replicate _ _ b'x' (ground arith))

  module _ (named : IsRunId run_id) (room : length run_id + 22 < size)
      (fits : size ≤ max_line) where
    written-encode :
        (sequence : ℕ)
        → sequence ≤ max_uint64
        → written (encode run_id sequence size) ≡ line sequence ++ 10 ∷ []
    unfolding line
    written-encode sequence small =
        rw (
          encode-ok run_id sequence size named (omega (arith, length-prefix run_id sequence small)))

    length-line : (sequence : ℕ) → sequence ≤ max_uint64 → 0 + length (line sequence) < max_line
    unfolding line
    length-line sequence small =
        let p = prefix run_id sequence in
        omega (
          arith,
          length-append p (replicate {A = ℕ} (size - 1 - length p) b'x'),
          length-replicate {A = ℕ} (size - 1 - length p) b'x',
          length-prefix run_id sequence small,
        )

    line_sequence-line :
        (sequence : ℕ)
        → sequence ≤ max_uint64
        → line_sequence run_id (line sequence) ≡ sequence ∷ []
    unfolding line
    line_sequence-line sequence small = rw (parse-prefix run_id sequence _ named small, str_eq_refl)

    -- Scanning a log gives back its lines.
    pub scan_from-log_of :
        (fails : Bool) (xs : List ℕ)
        → All (λ k. k ≤ max_uint64) xs
        → scan_from fails 0 [] (log_of xs) ≡ record { tokens = map line xs; failed = fails }
    scan_from-log_of fails [] h = unfold scan_from in refl
    scan_from-log_of fails (x ∷ xs) (small, h) =
        rw (written-encode x small, append_assoc)
          (scan_from-line fails (line x) (log_of xs) [] 0 (line-IsInline x named.1)
              (length-line x small)
            ∙ rw (drop_cr-inline (line x) (line-IsInline x named.1), scan_from-log_of fails xs h))

    pub sequences-map-line :
        (xs : List ℕ) → All (λ k. k ≤ max_uint64) xs → sequences run_id (map line xs) ≡ xs
    sequences-map-line [] h = refl
    sequences-map-line (x ∷ xs) (small, h) =
        rw (line_sequence-line x small, sequences-map-line xs h)
