-- ===== src/Integrity/Order.antt =====
-- `DescendingTransitions` of internal/integrity/analyze.go: the order of the sequences in each file.
use logrotate_cache_lab.Base.{
  ℕ, ◌+◌, ◌≤◌, ◌≡◌, ◌⊎◌, ◌↔◌, refl, ◌∙◌, not, ◌&&◌, Option, none, some, List, [], ◌∷◌, ◌++◌, Bytes,
  arith, ◌<◌, ltb, ◌==◌, if◌then◌else◌, All, str_eq, Result-cases, Bool-cases, Option-cases, inl,
  inr,
}
use native.Mathlib.Nat.{zero-add}
use logrotate_cache_lab.Strconv.{max_uint64}
use logrotate_cache_lab.Record.{parse}
use logrotate_cache_lab.Integrity.Lines.{OpenFile, Scanned, scan_file}
use logrotate_cache_lab.Integrity.Counts.{
  sequences, line_sequence, tokens_of, lines_of, audit_files_step, audit_files_stop,
}
use logrotate_cache_lab.Integrity.Missing.{start, analyze-eq_finish, find_missing-descending}
use logrotate_cache_lab.Integrity.{
  Audit, count_record, judge, audit_line, audit_lines, store_file, after_scan, audit_file,
  audit_files, finish, analyze, new_report, start_file,
}

-- How often a sequence follows a larger one, from a previous one on.
abbrev drops : ℕ → List ℕ → ℕ
drops previous [] = 0
drops previous (x ∷ xs) = (if not (previous == 0) && ltb x previous then 1 else 0) + drops x xs

-- No sequence follows a larger one. (A sequence 0, which no writer uses, is followed by anything.)
abbrev pub Ascends : List ℕ → Type 0
Ascends [] = Unit
Ascends (x ∷ []) = Unit
Ascends (x ∷ y ∷ xs) = ((x ≡ 0) ⊎ (x ≤ y)) × Ascends (y ∷ xs)

drops_zero : (x : ℕ) (xs : List ℕ) → drops x xs ≡ 0 ↔ Ascends (x ∷ xs)
drops_zero x [] = (λ _. tt, λ _. refl)
drops_zero x (y ∷ xs) = ground (arith, drops_zero y xs)

drops_zero_from_start : (xs : List ℕ) → drops 0 xs ≡ 0 ↔ Ascends xs
drops_zero_from_start [] = (λ _. tt, λ _. refl)
drops_zero_from_start (x ∷ xs) = ground (arith, drops_zero x xs)

abbrev drops_of : Audit → ℕ
drops_of a = a.report.descending_transitions

drops_of-count_record :
    (x : ℕ) (xs : List ℕ) (a : Audit)
    → drops_of (count_record x a) + drops (count_record x a).previous xs
      ≡ drops_of a + drops a.previous (x ∷ xs)
unfolding count_record
drops_of-count_record x xs a = ground arith

drops_of-audit_line :
    (run_id token : Bytes) (xs : List ℕ) (a : Audit)
    → drops_of (audit_line run_id token a) + drops (audit_line run_id token a).previous xs
      ≡ drops_of a + drops a.previous (line_sequence run_id token ++ xs)
unfolding audit_line judge
drops_of-audit_line run_id token xs a = elim (Result-cases (parse (token ++ 10 ∷ []))) [
  | inr (e, bad) ↦ rw bad
  | inl (r, good) ↦ elim (Bool-cases (str_eq r.run_id run_id)) [
    | inl own ↦ rw (good, own) (drops_of-count_record r.sequence xs a)
    | inr other ↦ rw (good, other)
  ]
]

drops_of-audit_lines :
    (run_id : Bytes) (tokens : List Bytes) (a : Audit)
    → drops_of (audit_lines run_id tokens a)
      ≡ drops_of a + drops a.previous (sequences run_id tokens)
unfolding audit_lines
drops_of-audit_lines run_id [] a = omega arith
drops_of-audit_lines run_id (token ∷ tokens) a =
    drops_of-audit_lines run_id tokens (audit_line run_id token a)
    ∙ drops_of-audit_line run_id token (sequences run_id tokens) a

module _ (open_file : Bytes → Option OpenFile) (run_id : Bytes) where
  abbrev drops_in : List Bytes → ℕ
  drops_in [] = 0
  drops_in (path ∷ paths) = drops 0 (sequences run_id (lines_of open_file path)) + drops_in paths

  drops_of-after_scan :
      (path : Bytes) (s : Scanned) (a : Audit)
      → drops_of (after_scan open_file run_id path s a).0
        ≡ drops_of a + drops 0 (sequences run_id s.tokens)
  unfolding after_scan store_file
  drops_of-after_scan path s a = ground (arith, drops_of-audit_lines run_id s.tokens (start_file a))

  drops_of-audit_file :
      (path : Bytes) (o : Option OpenFile) (a : Audit)
      → drops_of (audit_file open_file run_id path o a).0
        ≡ drops_of a + drops 0 (sequences run_id (tokens_of o))
  unfolding audit_file
  drops_of-audit_file path none a = omega arith
  drops_of-audit_file path (some f) a = drops_of-after_scan path (scan_file f) a

  drops_of-audit_files :
      (paths : List Bytes) (a : Audit)
      → (audit_files open_file run_id paths a).1 ≡ none
      → drops_of (audit_files open_file run_id paths a).0 ≡ drops_of a + drops_in paths
  drops_of-audit_files [] a e = unfold audit_files in omega arith
  drops_of-audit_files (path ∷ paths) a e =
      let r = audit_file open_file run_id path (open_file path) a in
      elim (Option-cases r.1) [
        | inl fine ↦
            let step = audit_files_step open_file run_id path paths a fine in
            rw step (
              omega (
                arith,
                drops_of-audit_files paths r.0 (rw step at e),
                drops_of-audit_file path (open_file path) a,
              ))
        | inr (x, stopped) ↦
            absurd (cc (rw (audit_files_stop open_file run_id path paths a stopped) at e))
      ]

  drops_in_zero :
      (paths : List Bytes)
      → (drops_in paths ≡ 0)
        ↔ All (λ path. Ascends (sequences run_id (lines_of open_file path))) paths
  drops_in_zero [] = (λ _. tt, λ _. refl)
  drops_in_zero (path ∷ paths) =
      let head = drops_zero_from_start (sequences run_id (lines_of open_file path)) in
      let rest = drops_in_zero paths in
      (
        λ z. (head.0 (omega arith), rest.0 (omega arith)),
        λ (h, t). omega (arith, head.1 h, rest.1 t),
      )

  module _ (expected : ℕ) (paths : List Bytes)
      (complete : (analyze open_file run_id expected paths).1 ≡ none)
      (finite : expected < max_uint64) where
    -- When Analyze ends without an error, for a count below the greatest uint64, no descending transition is counted exactly when in every
    -- file no sequence of the run follows a larger one.
    pub analyze-descending_zero :
        ((analyze open_file run_id expected paths).0.descending_transitions ≡ 0)
        ↔ All (λ path. Ascends (sequences run_id (lines_of open_file path))) paths
    unfolding finish new_report
    analyze-descending_zero =
        let (fine, done) = analyze-eq_finish open_file run_id expected paths complete in
        let count = drops_of-audit_files paths (start open_file run_id expected paths) fine in
        rw (done, find_missing-descending, count, zero-add) (drops_in_zero paths)
