-- ===== src/Integrity.antt =====
-- internal/integrity/analyze.go: the audit of the log files for gaps, repeats, bad records and
-- descending order. The counters count lines that were read, so they stay far below 2^64 and are
-- plain numbers. `os.Open` is the parameter `open_file`.
pub mod Lines
pub mod Counts
pub mod Missing
pub mod Order
pub mod Intact
pub mod Rotated
use logrotate_cache_lab.Base.{
  ℕ, zero, suc, ◌%◌, ◌+◌, ◌*◌, ◌^◌, Bool, true, false, not, ◌&&◌, ◌||◌, Option, none, some, List,
  [], ◌∷◌, ◌++◌, Bytes, ltb, ◌==◌, if◌then◌else◌, length, str_eq, Result, ok, err,
}
use logrotate_cache_lab.Report.{IntegrityReport, FileSet, no_file_set, schema_version}
use logrotate_cache_lab.FilePath
use logrotate_cache_lab.Record.{Record, RecordError, parse}
use logrotate_cache_lab.Integrity.Lines.{OpenFile, Scanned, scan_file}

-- `seen`: how often each sequence was read.
abbrev pub Seen : Type 0
Seen = List (ℕ × ℕ)

unfoldable pub seen_times : ℕ → Seen → ℕ
seen_times k [] = 0
seen_times k ((j, n) ∷ m) = if k == j then n else seen_times k m

-- `seen[k]++`
unfoldable pub see : ℕ → Seen → Seen
see k [] = (k, 1) ∷ []
see k ((j, n) ∷ m) = if k == j then (j, n + 1) ∷ m else (j, n) ∷ see k m

-- The variables of `Analyze` while a file is scanned.
pub record Audit : Type 0 where
  pub report : IntegrityReport
  pub seen : Seen
  pub file_set : FileSet
  pub previous : ℕ

-- `fileSet` takes in one more sequence; a `Min` of 0 stands for none yet.
unfoldable pub widen : FileSet → ℕ → FileSet
widen f sequence = record {
  records = f.records + 1;
  min = if f.min == 0 || ltb sequence f.min then sequence else f.min;
  max = if ltb f.max sequence then sequence else f.max;
}

-- A valid record of the run.
unfoldable pub count_record : ℕ → Audit → Audit
unfolding widen
count_record sequence a =
    let descends = not (a.previous == 0) && ltb sequence a.previous in
    let seen' = see sequence a.seen in
    let again = ltb 1 (seen_times sequence seen') in
    let r = a.report in
    record {
      report = record r {
        descending_transitions =
            if descends then r.descending_transitions + 1 else r.descending_transitions;
        duplicates = if again then r.duplicates + 1 else r.duplicates;
      };
      seen = seen';
      file_set = widen a.file_set sequence;
      previous = sequence;
    }

abbrev count_malformed : Audit → Audit
count_malformed a =
    let r = a.report in record a { report = record r { malformed = r.malformed + 1 } }

abbrev count_wrong_run_id : Audit → Audit
count_wrong_run_id a =
    let r = a.report in record a { report = record r { wrong_run_id = r.wrong_run_id + 1 } }

judge : Bytes → Result RecordError Record → Audit → Audit
judge run_id (err e) a = count_malformed a
judge run_id (ok parsed) a =
    if str_eq parsed.run_id run_id then count_record parsed.sequence a else count_wrong_run_id a

-- The body of the scanner's loop: the newline is put back before the line is parsed.
unfoldable pub audit_line : Bytes → Bytes → Audit → Audit
unfolding judge
audit_line run_id token a = judge run_id (parse (token ++ 10 ∷ [])) a

unfoldable pub audit_lines : Bytes → List Bytes → Audit → Audit
audit_lines run_id [] a = a
audit_lines run_id (token ∷ tokens) a = audit_lines run_id tokens (audit_line run_id token a)

-- `result.Files[name] = fileSet`
set_file : Bytes → FileSet → List (Bytes × FileSet) → List (Bytes × FileSet)
set_file name f [] = (name, f) ∷ []
set_file name f ((n, g) ∷ m) = if str_eq name n then (name, f) ∷ m else (n, g) ∷ set_file name f m

pub data AnalyzeError : Type 0 where
  open_failed : Bytes → AnalyzeError
  scan_failed : Bytes → AnalyzeError

unfoldable pub store_file : Bytes → Audit → Audit
unfolding set_file
store_file path a =
    let r = a.report in
    record a { report = record r { files = set_file (FilePath.base path) a.file_set r.files } }

-- A file starts with no file set and no previous sequence.
abbrev pub start_file : Audit → Audit
start_file a = record a { file_set = no_file_set; previous = 0 }

-- `if seen[sequence] != 0 { continue }` and what follows it, for one sequence.
unfoldable pub note_missing : Seen → ℕ → IntegrityReport → IntegrityReport
note_missing seen sequence r = if not (seen_times sequence seen == 0) then r else record r {
  missing = r.missing + 1;
  missing_examples =
      if ltb (length r.missing_examples) 100
      then r.missing_examples ++ sequence ∷ []
      else r.missing_examples;
}

-- `for sequence := 1; sequence <= expected; sequence++`, by the rounds that are left.
-- The loop over the sequences, `rounds` of them. For the greatest uint64 the source's loop never ends.
unfoldable pub find_missing : ℕ → Seen → ℕ → IntegrityReport → IntegrityReport
find_missing zero seen sequence r = r
find_missing (suc rounds) seen sequence r =
    find_missing rounds seen ((sequence + 1) % 2 ^ 64) (note_missing seen sequence r)

unfoldable pub new_report : ℕ → IntegrityReport
new_report expected = record {
  schema_version = schema_version;
  expected = expected;
  valid_unique = 0;
  missing = 0;
  duplicates = 0;
  malformed = 0;
  wrong_run_id = 0;
  descending_transitions = 0;
  missing_examples = [];
  files = [];
}

unfoldable pub finish : ℕ → Audit → IntegrityReport
finish expected a =
    let r = a.report in find_missing expected a.seen 1 (record r { valid_unique = length a.seen })

module _ (open_file : Bytes → Option OpenFile) where
  -- The loop over the paths: the audit so far, and the error that ended it.
  unfoldable pub after_scan : Bytes → Bytes → Scanned → Audit → Audit × Option AnalyzeError
  after_scan run_id path s a =
      let a' = audit_lines run_id s.tokens (start_file a) in
      if s.failed then (a', some (scan_failed path)) else (store_file path a', none)

  unfoldable pub audit_file : Bytes → Bytes → Option OpenFile → Audit → Audit × Option AnalyzeError
  unfolding after_scan
  audit_file run_id path none a = (a, some (open_failed path))
  audit_file run_id path (some f) a = after_scan run_id path (scan_file f) a

  unfoldable pub audit_files : Bytes → List Bytes → Audit → Audit × Option AnalyzeError
  audit_files run_id [] a = (a, none)
  audit_files run_id (path ∷ paths) a =
      let (a', e) = audit_file run_id path (open_file path) a in
      elim e [ none ↦ audit_files run_id paths a' | some x ↦ (a', some x) ]

  unfoldable pub analyze : Bytes → ℕ → List Bytes → IntegrityReport × Option AnalyzeError
  analyze run_id expected paths =
      let start : Audit = record {
        report = new_report expected;
        seen = [];
        file_set = no_file_set;
        previous = 0;
      } in
      let (a, e) = audit_files run_id paths start in
      elim e [ none ↦ (finish expected a, none) | some x ↦ (a.report, some x) ]
