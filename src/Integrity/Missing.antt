-- ===== src/Integrity/Missing.antt =====
-- The last loop of internal/integrity/analyze.go, and what the finished report says.
use logrotate_cache_lab.Base.{
  ℕ, zero, suc, ◌+◌, ◌-◌, ◌%◌, ◌^◌, ◌<◌, ◌≤◌, ◌≡◌, ◌↔◌, refl, sym, ap, ◌∙◌, false, Option, none,
  List, [], ◌∷◌, ◌++◌, Bytes, arith, ltb, ◌==◌, if◌then◌else◌, length, length-append, take,
  Option-cases, Bool-cases, lt→ltb, append-nil, append_assoc, inl, inr,
}
use native.Mathlib.Decide.{dec_lt}
use logrotate_cache_lab.Strconv.{max_uint64}
use logrotate_cache_lab.Report.{IntegrityReport, no_file_set}
use logrotate_cache_lab.Integrity.Lines.{OpenFile}
use logrotate_cache_lab.Integrity.Counts.{
  times, sequences, lines_of_all, Audited, Audited-files, seen_times-le-excess,
}
use logrotate_cache_lab.Integrity.{
  Seen, seen_times, Audit, note_missing, find_missing, new_report, finish, audit_files, analyze,
}

-- The sequences from `s` on, `rounds` of them, that are not in the list.
abbrev pub absent : ℕ → ℕ → List ℕ → List ℕ
absent zero s xs = []
absent (suc rounds) s xs =
    let rest = absent rounds (s + 1) xs in if times s xs == 0 then s ∷ rest else rest

-- The report with more missing sequences, of which it keeps the first hundred.
abbrev with_missing : List ℕ → IntegrityReport → IntegrityReport
with_missing gaps r = record r {
  missing = r.missing + length gaps;
  missing_examples = r.missing_examples ++ take (100 - length r.missing_examples) gaps;
}

take-nil : (n : ℕ) → take {A = ℕ} n [] ≡ []
take-nil zero = refl
take-nil (suc n) = refl

-- One more example, as long as there are fewer than a hundred.
more_examples :
    (es gaps : List ℕ) (s : ℕ)
    → es ++ take (100 - length es) (s ∷ gaps) ≡ (
        let es' = if ltb (length es) 100 then es ++ s ∷ [] else es in
        es' ++ take (100 - length es') gaps)
more_examples es gaps s = elim (dec_lt (length es) 100) [
  | yes room ↦
      let next : 100 - length es ≡ suc (99 - length es) = omega arith in
      let same : 100 - length (es ++ s ∷ []) ≡ 99 - length es =
        omega (arith, length-append es (s ∷ [])) in
      rw (lt→ltb _ _ room, next, same, append_assoc)
  | no full ↦
      let none_left : 100 - length es ≡ 0 = omega arith in
      let closed : ltb (length es) 100 ≡ false = ground arith in rw (closed, none_left)
]

with_missing-nil : (r : IntegrityReport) → with_missing [] r ≡ r
with_missing-nil r =
    ground (arith, take-nil (100 - length r.missing_examples), append-nil r.missing_examples)

with_missing-note_missing :
    (gaps : List ℕ) (seen : Seen) (s : ℕ) (r : IntegrityReport)
    → with_missing gaps (note_missing seen s r)
      ≡ with_missing (if seen_times s seen == 0 then s ∷ gaps else gaps) r
unfolding note_missing
with_missing-note_missing gaps seen s r = elim (Bool-cases (seen_times s seen == 0)) [
  | inl gap ↦
      let examples = sym (more_examples r.missing_examples gaps s) in
      let counts : r.missing + 1 + length gaps ≡ r.missing + suc (length gaps) = omega arith in
      rw gap (λ i. record r { missing = counts i; missing_examples = examples i })
  | inr found ↦ rw found
]

small_mod : (n : ℕ) → n < 2 ^ 64 → n % 2 ^ 64 ≡ n
small_mod n h = omega arith

find_missing_lem :
    (rounds : ℕ) (seen : Seen) (s : ℕ) (xs : List ℕ) (r : IntegrityReport)
    → s + rounds < 2 ^ 64
    → ((k : ℕ) → seen_times k seen ≡ times k xs)
    → find_missing rounds seen s r ≡ with_missing (absent rounds s xs) r
unfolding find_missing
find_missing_lem zero seen s xs r room h = sym (with_missing-nil r)
find_missing_lem (suc rounds) seen s xs r room h =
    ap (λ next. find_missing rounds seen next (note_missing seen s r))
      (small_mod (s + 1) (omega arith))
    ∙ find_missing_lem rounds seen (s + 1) xs (note_missing seen s r) (omega arith) h
    ∙ with_missing-note_missing (absent rounds (s + 1) xs) seen s r
    ∙ rw (h s)

-- The loop changes nothing else.
pub find_missing-descending :
    (rounds : ℕ) (seen : Seen) (s : ℕ) (r : IntegrityReport)
    → (find_missing rounds seen s r).descending_transitions ≡ r.descending_transitions
unfolding find_missing note_missing
find_missing-descending zero seen s r = refl
find_missing-descending (suc rounds) seen s r =
    find_missing-descending rounds seen ((s + 1) % 2 ^ 64) (note_missing seen s r) ∙ ground arith

absent-length_zero :
    (rounds s : ℕ) (xs : List ℕ)
    → length (absent rounds s xs) ≡ 0
    → (k : ℕ) → s ≤ k
    → k < s + rounds
    → 0 < times k xs
absent-length_zero zero s xs none_absent k low high = absurd (omega arith)
absent-length_zero (suc rounds) s xs none_absent k low high = elim (dec_lt s k) [
  | yes later ↦ absent-length_zero rounds (s + 1) xs (ground arith) k (omega arith) (omega arith)
  | no here ↦ let e : k ≡ s = omega arith in rw e (ground arith)
]

absent-eq-nil :
    (rounds s : ℕ) (xs : List ℕ)
    → ((k : ℕ) → s ≤ k → k < s + rounds → 0 < times k xs)
    → absent rounds s xs ≡ []
absent-eq-nil zero s xs h = refl
absent-eq-nil (suc rounds) s xs h = ground (
  arith,
  h s (omega arith) (omega arith),
  absent-eq-nil rounds (s + 1) xs (λ k low high. h k (omega arith) (omega arith)),
)

module _ (open_file : Bytes → Option OpenFile) (run_id : Bytes) (expected : ℕ)
    (paths : List Bytes) where
  -- The sequences of the run's records in all the files.
  abbrev pub read_sequences : List ℕ
  read_sequences = sequences run_id (lines_of_all open_file paths)

  abbrev pub start : Audit
  start = record { report = new_report expected; seen = []; file_set = no_file_set; previous = 0 }

  pub analyze-eq_finish :
      (analyze open_file run_id expected paths).1 ≡ none
      → ((audit_files open_file run_id paths start).1 ≡ none)
        × ((analyze open_file run_id expected paths).0
            ≡ finish expected (audit_files open_file run_id paths start).0)
  unfolding analyze
  analyze-eq_finish h = elim (Option-cases (audit_files open_file run_id paths start).1) [
    | inl fine ↦ (fine, rw (fine, analyze))
    | inr (x, stopped) ↦ absurd (cc (rw (stopped, analyze) at h))
  ]

  pub analyze_complete :
      (audit_files open_file run_id paths start).1 ≡ none
      → (analyze open_file run_id expected paths).1 ≡ none
  unfolding analyze
  analyze_complete h = rw (h, analyze)

  module _ (complete : (analyze open_file run_id expected paths).1 ≡ none)
      (finite : expected < max_uint64) where
    abbrev audit : Audit
    audit = (audit_files open_file run_id paths start).0

    audited : Audited run_id (lines_of_all open_file paths) start audit
    audited = Audited-files open_file run_id paths start tt (analyze-eq_finish complete).0

    seen_times-audit : (k : ℕ) → seen_times k audit.seen ≡ times k read_sequences
    unfolding seen_times
    seen_times-audit k = omega (arith, audited.seen k)

    analyze_lem :
        (analyze open_file run_id expected paths).0
        ≡ with_missing
            (absent expected 1 read_sequences)
            (record (audit.report) { valid_unique = length audit.seen })
    unfolding finish
    analyze_lem =
        (analyze-eq_finish complete).1
        ∙ find_missing_lem expected audit.seen 1 read_sequences _ (omega arith) seen_times-audit

    -- When Analyze ends without an error, for a count below the greatest uint64, `Missing` is the number of sequences from 1 to `expected`
    -- that no valid record of the run carries, and the examples are the first hundred of them.
    pub analyze-missing :
        ((analyze open_file run_id expected paths).0.missing
          ≡ length (absent expected 1 read_sequences))
        × ((analyze open_file run_id expected paths).0.missing_examples
            ≡ take 100 (absent expected 1 read_sequences))
    unfolding new_report
    analyze-missing = (
      rw analyze_lem (omega (arith, audited.missing)),
      rw (analyze_lem, audited.missing_examples),
    )

    -- When Analyze ends without an error, for a count below the greatest uint64, nothing is missing exactly when every sequence from 1 to
    -- `expected` was read in a valid record of the run.
    pub analyze-missing_zero :
        ((analyze open_file run_id expected paths).0.missing ≡ 0)
        ↔ ((k : ℕ) → 1 ≤ k → k ≤ expected → 0 < times k read_sequences)
    analyze-missing_zero = (
      λ clean k low high.
          absent-length_zero expected 1 read_sequences (sym analyze-missing.0 ∙ clean) k low
            (omega arith),
      λ all. rw (
        analyze-missing.0,
        absent-eq-nil expected 1 read_sequences (λ k low high. all k low (omega arith)),
      ),
    )

    -- When Analyze ends without an error, for a count below the greatest uint64, every line is counted once: as malformed, as of another
    -- run, as the first record of its sequence or as a duplicate.
    pub analyze-accounts :
        let r = (analyze open_file run_id expected paths).0 in
        (r.valid_unique + r.duplicates ≡ length read_sequences)
        × (r.malformed + r.wrong_run_id + r.valid_unique + r.duplicates
            ≡ length (lines_of_all open_file paths))
    unfolding new_report
    analyze-accounts = (
      rw analyze_lem (omega (arith, audited.unique)),
      rw analyze_lem (omega (arith, audited.unique, audited.total)),
    )

    -- When Analyze ends without an error, for a count below the greatest uint64, no duplicate is counted exactly when no sequence was read
    -- in two valid records of the run, in one file or in two.
    pub analyze-duplicates_zero :
        ((analyze open_file run_id expected paths).0.duplicates ≡ 0)
        ↔ ((k : ℕ) → times k read_sequences ≤ 1)
    unfolding new_report
    analyze-duplicates_zero = (
      λ clean k. omega (
        arith,
        seen_times-le-excess k audit.seen,
        seen_times-audit k,
        audited.surplus,
        rw analyze_lem at clean,
      ),
      λ once. rw analyze_lem (elim audited.repeated [
        | inl same ↦ same
        | inr (k, twice) ↦ absurd (omega (arith, once k, seen_times-audit k))
      ]),
    )
