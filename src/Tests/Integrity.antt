-- ===== src/Tests/Integrity.antt =====
-- Audits of a rotated log: a backup with the records 1 and 2, and the active file with record 3.
use logrotate_cache_lab.Base.{
  ℕ, ◌+◌, ◌≤◌, ◌≡◌, ◌↔◌, refl, none, some, false, Option, List, [], ◌∷◌, ◌++◌, Bytes, codes, arith,
  length, take, All, str_eq, if◌then◌else◌, ok,
}
use logrotate_cache_lab.Strconv.{zero_pad, parse_uint}
use logrotate_cache_lab.FilePath.{base}
use logrotate_cache_lab.Record.{encode, parse, has_space, prefix, split_n, trim_newline}
use logrotate_cache_lab.Record.RoundTrip.{parse-encode, length-encode, IsRunId}
use logrotate_cache_lab.Integrity.{
  analyze, audit_files, audit_file, audit_lines, audit_line, count_record, see, seen_times, finish,
  find_missing, note_missing, store_file, new_report,
}
use logrotate_cache_lab.Integrity.Lines.{OpenFile, scan_file}
use logrotate_cache_lab.Integrity.Counts.{times, lines_of, lines_of_all, sequences}
use logrotate_cache_lab.Integrity.Missing.{
  absent, read_sequences, analyze-missing, analyze-accounts, analyze-duplicates_zero,
}
use logrotate_cache_lab.Integrity.Order.{Ascends, analyze-descending_zero}
use logrotate_cache_lab.Integrity.Intact.{log_of}
use logrotate_cache_lab.Integrity.Rotated.{Logs, paths_of, HoldsLog, analyze-intact}

abbrev pub run_id : Bytes
run_id = codes "run-a"

pub run_id-IsRunId : IsRunId run_id
unfolding has_space
run_id-IsRunId = (cc, refl)

abbrev pub active : Bytes
active = codes "log"

abbrev pub backup : Bytes
backup = codes "log.000001"

abbrev rotated : Bytes → Option OpenFile
rotated path =
    if str_eq path backup
    then some (record { content = log_of run_id 64 (1 ∷ 2 ∷ []); read_fails = false })
    else if str_eq path active
    then some (record { content = log_of run_id 64 (3 ∷ []); read_fails = false })
    else none

abbrev logs : Logs
logs = (backup, 1 ∷ 2 ∷ []) ∷ (active, 3 ∷ []) ∷ []

logs_held : All (HoldsLog rotated run_id 64) logs
unfolding str_eq
logs_held = (refl, (refl, tt))

analyze-intact_example :
    let (r, e) = analyze rotated run_id 3 (paths_of logs) in
    (e ≡ none)
    × (r.missing ≡ 0)
    × (r.duplicates ≡ 0)
    × (r.malformed ≡ 0)
    × (r.wrong_run_id ≡ 0)
    × (r.descending_transitions ≡ 0)
analyze-intact_example =
    analyze-intact rotated run_id 64 run_id-IsRunId (omega arith) (omega arith) 3 logs (omega arith)
      logs_held (omega arith) (λ k. ground arith)

complete : (analyze rotated run_id 3 (paths_of logs)).1 ≡ none
complete =
    (analyze-intact rotated run_id 64 run_id-IsRunId (omega arith) (omega arith) 3 logs
      (omega arith) logs_held (omega arith) (λ k. ground arith)).0

abbrev paths : List Bytes
paths = paths_of logs

analyze-missing_example :
    let r = (analyze rotated run_id 3 paths).0 in
    (r.missing ≡ length (absent 3 1 (read_sequences rotated run_id 3 paths)))
    × (r.missing_examples ≡ take 100 (absent 3 1 (read_sequences rotated run_id 3 paths)))
analyze-missing_example = analyze-missing rotated run_id 3 paths complete (omega arith)

analyze-accounts_example :
    let r = (analyze rotated run_id 3 paths).0 in
    (r.valid_unique + r.duplicates ≡ length (read_sequences rotated run_id 3 paths))
    × (r.malformed + r.wrong_run_id + r.valid_unique + r.duplicates
        ≡ length (lines_of_all rotated paths))
analyze-accounts_example = analyze-accounts rotated run_id 3 paths complete (omega arith)

analyze-duplicates_zero_example :
    ((analyze rotated run_id 3 paths).0.duplicates ≡ 0)
    ↔ ((k : ℕ) → times k (read_sequences rotated run_id 3 paths) ≤ 1)
analyze-duplicates_zero_example =
    analyze-duplicates_zero rotated run_id 3 paths complete (omega arith)

analyze-descending_zero_example :
    ((analyze rotated run_id 3 paths).0.descending_transitions ≡ 0)
    ↔ All (λ path. Ascends (sequences run_id (lines_of rotated path))) paths
analyze-descending_zero_example =
    analyze-descending_zero rotated run_id 3 paths complete (omega arith)

abbrev encoded : Bytes
encoded = codes "run-a 00000000000000000007 xxxx\n"

encode_seven : encode run_id 7 32 ≡ ok encoded
unfolding encode prefix has_space zero_pad
encode_seven = refl

parse-encode_example : parse encoded ≡ ok (record { run_id = run_id; sequence = 7 })
parse-encode_example = parse-encode run_id 7 32 (omega arith) encode_seven

length-encode_example : length encoded ≡ 32
length-encode_example = length-encode run_id 7 32 encode_seven

-- The input of `TestAnalyzeDetectsIntegrityProblems`.
abbrev mixed : Bytes → Option OpenFile
mixed path =
    if str_eq path backup
    then some (record { content = log_of run_id 64 (1 ∷ 2 ∷ 2 ∷ 4 ∷ []); read_fails = false })
    else some (record {
      content = log_of run_id 64 (9 ∷ 8 ∷ []) ++ codes "malformed\n";
      read_fails = false;
    })

mixed_report :
    let r = (analyze mixed run_id 9 paths).0 in
    (r.valid_unique ≡ 5)
    × (r.missing ≡ 4)
    × (r.duplicates ≡ 1)
    × (r.malformed ≡ 1)
    × (r.descending_transitions ≡ 1)
unfolding analyze audit_files audit_file audit_lines audit_line count_record see seen_times finish
    find_missing note_missing store_file new_report scan_file parse encode prefix has_space zero_pad
    parse_uint str_eq base split_n trim_newline
mixed_report = (refl, refl, refl, refl, refl)
