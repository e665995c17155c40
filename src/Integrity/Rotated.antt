-- ===== src/Integrity/Rotated.antt =====
-- The audit of an active file and its backups that together hold every record of a run once.
use logrotate_cache_lab.Base.{
  ℕ, ◌+◌, ◌<◌, ◌≤◌, ◌≡◌, refl, false, ◌&&◌, Option, none, some, List, [], ◌∷◌, ◌++◌, Bytes, arith,
  leb, if◌then◌else◌, length, map, length-map, length-append, ap, All,
}
use logrotate_cache_lab.Strconv.{max_uint64}
use logrotate_cache_lab.Record.RoundTrip.{IsRunId}
use logrotate_cache_lab.Integrity.Lines.{OpenFile, Scanned, scan_file, max_line}
use logrotate_cache_lab.Integrity.Counts.{
  times, times-append, sequences, sequences-append, tokens_of, lines_of, lines_of_all,
  audit_files_step,
}
use logrotate_cache_lab.Integrity.Missing.{
  start, analyze_complete, analyze-missing_zero, analyze-duplicates_zero, analyze-accounts,
}
use logrotate_cache_lab.Integrity.Order.{Ascends, analyze-descending_zero}
use logrotate_cache_lab.Integrity.Intact.{log_of, line, scan_from-log_of, sequences-map-line}
use logrotate_cache_lab.Integrity.{Audit, after_scan, audit_file, audit_files, analyze}

All-of_times {ℓ} : (P : ℕ → Type ℓ) (xs : List ℕ) → ((k : ℕ) → 0 < times k xs → P k) → All P xs
All-of_times P [] h = tt
All-of_times P (x ∷ xs) h = (h x (ground arith), All-of_times P xs (λ k there. h k (ground arith)))

-- The sequences that each file holds, by path.
abbrev pub Logs : Type 0
Logs = List (Bytes × List ℕ)

abbrev pub paths_of : Logs → List Bytes
paths_of [] = []
paths_of ((path, xs) ∷ logs) = path ∷ paths_of logs

abbrev pub all_sequences : Logs → List ℕ
all_sequences [] = []
all_sequences ((path, xs) ∷ logs) = xs ++ all_sequences logs

module _ (open_file : Bytes → Option OpenFile) (run_id : Bytes) (size : ℕ) where
  -- A file that holds the records of the sequences `xs` and nothing else.
  abbrev pub HoldsLog : Bytes × List ℕ → Type 0
  HoldsLog (path, xs) =
      open_file path ≡ some (record { content = log_of run_id size xs; read_fails = false })

  module _ (named : IsRunId run_id) (room : length run_id + 22 < size)
      (fits : size ≤ max_line) where
    abbrev Small : List ℕ → Type 0
    Small = All (λ k. k ≤ max_uint64)

    scan_of_log :
        (path : Bytes) (xs : List ℕ)
        → Small xs
        → HoldsLog (path, xs)
        → tokens_of (open_file path) ≡ map (line run_id size) xs
    unfolding scan_file
    scan_of_log path xs h e =
        rw e (ap Scanned.tokens (scan_from-log_of run_id size named room fits false xs h))

    sequences_of_log :
        (path : Bytes) (xs : List ℕ)
        → Small xs
        → HoldsLog (path, xs)
        → sequences run_id (lines_of open_file path) ≡ xs
    sequences_of_log path xs h e =
        rw (scan_of_log path xs h e) (sequences-map-line run_id size named room fits xs h)

    read_sequences_of_logs :
        (expected : ℕ) (logs : Logs)
        → All (λ (path, xs). Small xs) logs
        → All HoldsLog logs
        → sequences run_id (lines_of_all open_file (paths_of logs)) ≡ all_sequences logs
    read_sequences_of_logs expected [] _ _ = refl
    read_sequences_of_logs expected ((path, xs) ∷ logs) (h, hs) (e, es) =
        rw (
          sequences-append,
          sequences_of_log path xs h e,
          read_sequences_of_logs expected logs hs es,
        )

    length-lines :
        (logs : Logs)
        → All (λ (path, xs). Small xs) logs
        → All HoldsLog logs
        → length (lines_of_all open_file (paths_of logs)) ≡ length (all_sequences logs)
    length-lines [] _ _ = refl
    length-lines ((path, xs) ∷ logs) (h, hs) (e, es) =
        rw (length-append, scan_of_log path xs h e, length-map, length-append)
          (omega (arith, length-lines logs hs es))

    audit_file_of_log :
        (path : Bytes) (xs : List ℕ) (a : Audit)
        → Small xs
        → HoldsLog (path, xs)
        → (audit_file open_file run_id path (open_file path) a).1 ≡ none
    unfolding audit_file after_scan scan_file
    audit_file_of_log path xs a h e =
        rw (e, scan_from-log_of run_id size named room fits false xs h)

    audit_files_of_logs :
        (logs : Logs) (a : Audit)
        → All (λ (path, xs). Small xs) logs
        → All HoldsLog logs
        → (audit_files open_file run_id (paths_of logs) a).1 ≡ none
    audit_files_of_logs [] a _ _ = unfold audit_files in refl
    audit_files_of_logs ((path, xs) ∷ logs) a (h, hs) (e, es) =
        rw
          (audit_files_step open_file run_id path (paths_of logs) a
            (audit_file_of_log path xs a h e))
          (audit_files_of_logs logs _ hs es)

    ascending_of_logs :
        (logs : Logs)
        → All (λ (path, xs). Small xs) logs
        → All HoldsLog logs
        → All (λ (path, xs). Ascends xs) logs
        → All (λ path. Ascends (sequences run_id (lines_of open_file path))) (paths_of logs)
    ascending_of_logs [] _ _ _ = tt
    ascending_of_logs ((path, xs) ∷ logs) (h, hs) (e, es) (up, ups) =
        (rw (sequences_of_log path xs h e) up, ascending_of_logs logs hs es ups)

    Small-of_logs :
        (logs : Logs)
        → ((k : ℕ) → 0 < times k (all_sequences logs) → k ≤ max_uint64)
        → All (λ (path, xs). Small xs) logs
    Small-of_logs [] h = tt
    Small-of_logs ((path, xs) ∷ logs) h = (
      All-of_times _ xs (λ k there. h k (omega (arith, times-append k xs (all_sequences logs)))),
      Small-of_logs logs (λ k there. h k (omega (arith, times-append k xs (all_sequences logs)))),
    )

    module _ (expected : ℕ) (logs : Logs) (finite : expected < max_uint64)
        (held : All HoldsLog logs) (ascending : All (λ (path, xs). Ascends xs) logs)
        (once : (k : ℕ)
          → times k (all_sequences logs) ≡ (if leb 1 k && leb k expected then 1 else 0)) where
      smalls : All (λ (path, xs). Small xs) logs
      smalls = Small-of_logs logs (λ k there. ground (arith, once k))

      -- If the files together hold the records 1 to `expected` of the run once each, in ascending
      -- order within a file, then the audit reads every file, ends with no error and counts nothing
      -- missing, repeated, malformed, foreign or descending. The run id is one that `Encode` takes, the
      -- record size has room for the prefix and is not above the 4 MiB of a line, and `expected` is
      -- below the greatest uint64.
      pub analyze-intact :
          let (r, e) = analyze open_file run_id expected (paths_of logs) in
          (e ≡ none)
          × (r.missing ≡ 0)
          × (r.duplicates ≡ 0)
          × (r.malformed ≡ 0)
          × (r.wrong_run_id ≡ 0)
          × (r.descending_transitions ≡ 0)
      analyze-intact =
          let paths = paths_of logs in
          let complete =
            analyze_complete open_file run_id expected paths
              (audit_files_of_logs logs (start open_file run_id expected paths) smalls held) in
          let same = read_sequences_of_logs expected logs smalls held in
          let accounts = analyze-accounts open_file run_id expected paths complete finite in
          let lengths = length-lines logs smalls held in
          let read = ap {B = ℕ} (λ (xs : List ℕ). length xs) same in
          (
            complete,
            (analyze-missing_zero open_file run_id expected paths complete finite).1
                (λ k low high. rw same (ground (arith, once k))),
            (analyze-duplicates_zero open_file run_id expected paths complete finite).1
                (λ k. rw same (ground (arith, once k))),
            omega (arith, accounts, lengths, read),
            omega (arith, accounts, lengths, read),
            (analyze-descending_zero open_file run_id expected paths complete finite).1
                (ascending_of_logs logs smalls held ascending),
          )
