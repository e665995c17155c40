-- ===== src/Integrity/Counts.antt =====
-- The counters of internal/integrity/analyze.go against the lines that were read: what one line, one
-- file and a list of files add.
use logrotate_cache_lab.Base.{
  ℕ, ◌+◌, ◌-◌, ◌<◌, ◌≤◌, ◌⊎◌, ◌≡◌, refl, sym, ◌∙◌, Option, none, some, List, [], ◌∷◌, ◌++◌, Bytes,
  arith, ltb, ltb→lt, ◌==◌, if◌then◌else◌, length, length-append, All, str_eq, subst, Result,
  Result-cases, ok, err, Bool-cases, Option-cases, append-nil, append_assoc, inl, inr,
}
use logrotate_cache_lab.Record.{Record, RecordError, parse}
use logrotate_cache_lab.Integrity.Lines.{OpenFile, Scanned, scan_file}
use logrotate_cache_lab.Integrity.{
  Seen, seen_times, see, Audit, count_record, judge, audit_line, audit_lines, start_file,
  store_file, AnalyzeError, after_scan, audit_file, audit_files,
}

-- How often `k` stands in a list.
abbrev pub times : ℕ → List ℕ → ℕ
times k [] = 0
times k (x ∷ xs) = let rest = times k xs in if k == x then rest + 1 else rest

pub times-append : (k : ℕ) (xs ys : List ℕ) → times k (xs ++ ys) ≡ times k xs + times k ys
times-append k [] ys = omega arith
times-append k (x ∷ xs) ys = ground (arith, times-append k xs ys)

-- The sequence of a record of the run, if the line is one.
abbrev own_sequence : Bytes → Result RecordError Record → List ℕ
own_sequence run_id (ok r) = if str_eq r.run_id run_id then r.sequence ∷ [] else []
own_sequence run_id (err e) = []

abbrev pub line_sequence : Bytes → Bytes → List ℕ
line_sequence run_id token = own_sequence run_id (parse (token ++ 10 ∷ []))

-- The sequences of the run's records among the lines, in the order in which they were read.
abbrev pub sequences : Bytes → List Bytes → List ℕ
sequences run_id [] = []
sequences run_id (token ∷ tokens) = line_sequence run_id token ++ sequences run_id tokens

pub sequences-append :
    (run_id : Bytes) (xs ys : List Bytes)
    → sequences run_id (xs ++ ys) ≡ sequences run_id xs ++ sequences run_id ys
sequences-append run_id [] ys = refl
sequences-append run_id (x ∷ xs) ys = simp (sequences-append run_id xs ys, append_assoc)

times-sequences-append :
    (run_id : Bytes) (xs ys : List Bytes) (k : ℕ)
    → times k (sequences run_id (xs ++ ys))
      ≡ times k (sequences run_id xs) + times k (sequences run_id ys)
times-sequences-append run_id xs ys k = rw sequences-append (times-append k _ _)

length-sequences-append :
    (run_id : Bytes) (xs ys : List Bytes)
    → length (sequences run_id (xs ++ ys))
      ≡ length (sequences run_id xs) + length (sequences run_id ys)
length-sequences-append run_id xs ys = rw sequences-append (length-append _ _)

sequences_of_line :
    (run_id token : Bytes) {own : List ℕ}
    → line_sequence run_id token ≡ own
    → sequences run_id (token ∷ []) ≡ own
sequences_of_line run_id token e = append-nil _ ∙ e

-- A sequence in `seen` was read at least once.
abbrev pub IsCounted : Seen → Type 0
IsCounted = All (λ (j, n). 0 < n)

pub seen_times-see :
    (k j : ℕ) (m : Seen)
    → seen_times k (see j m) ≡ (if k == j then seen_times k m + 1 else seen_times k m)
unfolding seen_times see
seen_times-see k j [] = ground arith
seen_times-see k j ((i, n) ∷ m) = ground (arith, seen_times-see k j m)

see-IsCounted : (j : ℕ) (m : Seen) → IsCounted m → IsCounted (see j m)
unfolding see
see-IsCounted j [] h = ground arith
see-IsCounted j ((i, n) ∷ m) (hn, h) = ground (arith, see-IsCounted j m h)

-- The map grows by a sequence that it did not hold.
length-see :
    (j : ℕ) (m : Seen)
    → IsCounted m
    → length (see j m) ≡ (if seen_times j m == 0 then length m + 1 else length m)
unfolding seen_times see
length-see j [] h = ground arith
length-see j ((i, n) ∷ m) (hn, h) = ground (arith, length-see j m h)

-- How often sequences were read beyond their first time.
abbrev pub excess : Seen → ℕ
excess [] = 0
excess ((j, n) ∷ m) = (n - 1) + excess m

excess-see :
    (j : ℕ) (m : Seen)
    → IsCounted m
    → excess (see j m) ≡ (if seen_times j m == 0 then excess m else excess m + 1)
unfolding seen_times see
excess-see j [] h = ground arith
excess-see j ((i, n) ∷ m) (hn, h) = ground (arith, excess-see j m h)

pub seen_times-le-excess : (k : ℕ) (m : Seen) → seen_times k m ≤ excess m + 1
unfolding seen_times
seen_times-le-excess k [] = omega arith
seen_times-le-excess k ((j, n) ∷ m) = ground (arith, seen_times-le-excess k m)

-- What the lines `tokens` change in an audit.
pub record Audited (run_id : Bytes) (tokens : List Bytes) (a b : Audit) : Type 0 where
  pub counted : IsCounted b.seen
  pub seen : (k : ℕ) → seen_times k b.seen ≡ seen_times k a.seen + times k (sequences run_id tokens)
  pub unique :
      length b.seen + b.report.duplicates
      ≡ length a.seen + a.report.duplicates + length (sequences run_id tokens)
  pub total :
      b.report.malformed + b.report.wrong_run_id + length (sequences run_id tokens)
      ≡ a.report.malformed + a.report.wrong_run_id + length tokens
  pub surplus : excess b.seen + a.report.duplicates ≡ excess a.seen + b.report.duplicates
  pub repeated : (b.report.duplicates ≡ a.report.duplicates) ⊎ ((k : ℕ) × (2 ≤ seen_times k b.seen))
  pub missing : b.report.missing ≡ a.report.missing
  pub missing_examples : b.report.missing_examples ≡ a.report.missing_examples

Audited-refl : (run_id : Bytes) (a : Audit) → IsCounted a.seen → Audited run_id [] a a
Audited-refl run_id a h = record {
  counted = h;
  seen = λ k. omega arith;
  unique = omega arith;
  total = omega arith;
  surplus = refl;
  repeated = inl refl;
  missing = refl;
  missing_examples = refl;
}

-- A sequence that was read twice stays so.
repeated_trans :
    (run_id : Bytes) (xs ys : List Bytes) (a b c : Audit)
    → Audited run_id xs a b
    → Audited run_id ys b c
    → (c.report.duplicates ≡ a.report.duplicates) ⊎ ((k : ℕ) × (2 ≤ seen_times k c.seen))
repeated_trans run_id xs ys a b c p q = elim q.repeated [
  | inr again ↦ inr again
  | inl same ↦ elim p.repeated [
    | inl unchanged ↦ inl (same ∙ unchanged)
    | inr (k, twice) ↦ inr (k, omega (arith, q.seen k))
  ]
]

Audited-trans :
    (run_id : Bytes) (xs ys : List Bytes) (a b c : Audit)
    → Audited run_id xs a b
    → Audited run_id ys b c
    → Audited run_id (xs ++ ys) a c
Audited-trans run_id xs ys a b c p q = record {
  counted = q.counted;
  seen = λ k. omega (arith, p.seen k, q.seen k, times-sequences-append run_id xs ys k);
  unique = omega (arith, length-sequences-append run_id xs ys);
  total = omega (arith, length-sequences-append run_id xs ys, length-append xs ys);
  surplus = omega (arith, p.surplus, q.surplus);
  repeated = repeated_trans run_id xs ys a b c p q;
  missing = q.missing ∙ p.missing;
  missing_examples = q.missing_examples ∙ p.missing_examples;
}

Audited-count_record :
    (run_id token : Bytes) (sequence : ℕ) (a : Audit)
    → line_sequence run_id token ≡ sequence ∷ []
    → IsCounted a.seen
    → Audited run_id (token ∷ []) a (count_record sequence a)
unfolding count_record
Audited-count_record run_id token sequence a own h =
    let one = sequences_of_line run_id token own in
    record {
      counted = see-IsCounted sequence a.seen h;
      seen = λ k. rw one (ground (arith, seen_times-see k sequence a.seen));
      unique =
          rw one
            (ground (arith, length-see sequence a.seen h, seen_times-see sequence sequence a.seen));
      total = rw one (omega arith);
      surplus =
          ground (arith, excess-see sequence a.seen h, seen_times-see sequence sequence a.seen);
      repeated = elim (Bool-cases (ltb 1 (seen_times sequence (see sequence a.seen)))) [
        | inl again ↦ inr (sequence, ltb→lt 1 _ again)
        | inr first ↦ inl (rw first)
      ];
      missing = refl;
      missing_examples = refl;
    }

Audited-skipped :
    (run_id token : Bytes) (a b : Audit)
    → line_sequence run_id token ≡ []
    → IsCounted a.seen
    → b.seen ≡ a.seen
    → b.report.duplicates ≡ a.report.duplicates
    → b.report.malformed + b.report.wrong_run_id ≡ a.report.malformed + a.report.wrong_run_id + 1
    → b.report.missing ≡ a.report.missing
    → b.report.missing_examples ≡ a.report.missing_examples
    → Audited run_id (token ∷ []) a b
Audited-skipped run_id token a b own h same dup more miss ex =
    let nothing = sequences_of_line run_id token own in
    record {
      counted = subst IsCounted (sym same) h;
      seen = λ k. rw (nothing, same) (omega arith);
      unique = rw (nothing, same) (omega arith);
      total = rw nothing (omega arith);
      surplus = rw (same, dup);
      repeated = inl dup;
      missing = miss;
      missing_examples = ex;
    }

Audited-line :
    (run_id token : Bytes) (a : Audit)
    → IsCounted a.seen
    → Audited run_id (token ∷ []) a (audit_line run_id token a)
unfolding audit_line judge
Audited-line run_id token a h = elim (Result-cases (parse (token ++ 10 ∷ []))) [
  | inr (e, bad) ↦
      rw bad (Audited-skipped run_id token a _ (rw bad) h refl refl (omega arith) refl refl)
  | inl (r, good) ↦ elim (Bool-cases (str_eq r.run_id run_id)) [
    | inl own ↦ rw (good, own) (Audited-count_record run_id token r.sequence a (rw (good, own)) h)
    | inr other ↦
        rw (good, other)
          (Audited-skipped run_id token a _ (rw (good, other)) h refl refl (omega arith) refl refl)
  ]
]

-- What all lines of a file change.
pub Audited-lines :
    (run_id : Bytes) (tokens : List Bytes) (a : Audit)
    → IsCounted a.seen
    → Audited run_id tokens a (audit_lines run_id tokens a)
unfolding audit_lines
Audited-lines run_id [] a h = Audited-refl run_id a h
Audited-lines run_id (token ∷ tokens) a h =
    let first = Audited-line run_id token a h in
    Audited-trans run_id (token ∷ []) tokens a _ _ first
      (Audited-lines run_id tokens (audit_line run_id token a) first.counted)

abbrev pub tokens_of : Option OpenFile → List Bytes
tokens_of none = []
tokens_of (some f) = (scan_file f).tokens

-- The lines of a file that can be opened, and of several files, in the order of the paths.
module _ (open_file : Bytes → Option OpenFile) where
  abbrev pub lines_of : Bytes → List Bytes
  lines_of path = tokens_of (open_file path)

  abbrev pub lines_of_all : List Bytes → List Bytes
  lines_of_all [] = []
  lines_of_all (path ∷ paths) = lines_of path ++ lines_of_all paths

  Audited-scan :
      (run_id path : Bytes) (s : Scanned) (a : Audit)
      → IsCounted a.seen
      → (after_scan open_file run_id path s a).1 ≡ none
      → Audited run_id s.tokens a (after_scan open_file run_id path s a).0
  unfolding after_scan store_file
  Audited-scan run_id path s a h e = elim (Bool-cases s.failed) [
    | inl bad ↦ absurd (ground arith)
    | inr good ↦
        let p = Audited-lines run_id s.tokens (start_file a) h in
        rw good (record {
          counted = p.counted;
          seen = p.seen;
          unique = p.unique;
          total = p.total;
          surplus = p.surplus;
          repeated = p.repeated;
          missing = p.missing;
          missing_examples = p.missing_examples;
        })
  ]

  Audited-file :
      (run_id path : Bytes) (o : Option OpenFile) (a : Audit)
      → IsCounted a.seen
      → (audit_file open_file run_id path o a).1 ≡ none
      → Audited run_id (tokens_of o) a (audit_file open_file run_id path o a).0
  unfolding audit_file
  Audited-file run_id path none a h e = cc
  Audited-file run_id path (some f) a h e = Audited-scan run_id path (scan_file f) a h e

  pub audit_files_step :
      (run_id path : Bytes) (paths : List Bytes) (a : Audit)
      → (audit_file open_file run_id path (open_file path) a).1 ≡ none
      → audit_files open_file run_id (path ∷ paths) a
        ≡ audit_files open_file run_id paths (audit_file open_file run_id path (open_file path) a).0
  unfolding audit_files
  audit_files_step run_id path paths a fine = rw (fine, audit_files)

  pub audit_files_stop :
      (run_id path : Bytes) (paths : List Bytes) (a : Audit) {x : AnalyzeError}
      → (audit_file open_file run_id path (open_file path) a).1 ≡ some x
      → (audit_files open_file run_id (path ∷ paths) a).1 ≡ some x
  unfolding audit_files
  audit_files_stop run_id path paths a stopped = rw (stopped, audit_files)

  -- What all files change, when every one of them was read to its end.
  pub Audited-files :
      (run_id : Bytes) (paths : List Bytes) (a : Audit)
      → IsCounted a.seen
      → (audit_files open_file run_id paths a).1 ≡ none
      → Audited run_id (lines_of_all paths) a (audit_files open_file run_id paths a).0
  Audited-files run_id [] a h e = unfold audit_files in Audited-refl run_id a h
  Audited-files run_id (path ∷ paths) a h e =
      let r = audit_file open_file run_id path (open_file path) a in
      elim (Option-cases r.1) [
        | inl fine ↦
            let first = Audited-file run_id path (open_file path) a h fine in
            rw (audit_files_step run_id path paths a fine) (
              Audited-trans run_id (lines_of path) (lines_of_all paths) a r.0 _ first (
                Audited-files run_id paths r.0 first.counted
                  (rw (audit_files_step run_id path paths a fine) at e)))
        | inr (x, stopped) ↦ absurd (cc (rw (audit_files_stop run_id path paths a stopped) at e))
      ]
