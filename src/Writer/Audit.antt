-- ===== src/Writer/Audit.antt =====
-- The writer of internal/writer/writer.go and the audit of internal/integrity/analyze.go together: what
-- a run without an error wrote is found intact, when each file it opened is audited once.
use logrotate_cache_lab.Base.{
  ℕ, ◌+◌, ◌*◌, ◌%◌, ◌^◌, ◌<◌, ◌≤◌, ◌≡◌, sym, ap, subst, ◌∙◌, Bool, Option, none, List, [], ◌∷◌,
  ◌++◌, map, Bytes, length, All, arith,
}
use logrotate_cache_lab.Base.Int.{pos_part}
use logrotate_cache_lab.Strconv.{max_uint64}
use logrotate_cache_lab.Record.RoundTrip.{IsRunId}
use logrotate_cache_lab.Report.{IntegrityReport}
use logrotate_cache_lab.Integrity.{analyze, AnalyzeError}
use logrotate_cache_lab.Integrity.Lines.{OpenFile, max_line}
use logrotate_cache_lab.Integrity.Counts.{times}
use logrotate_cache_lab.Integrity.Order.{Ascends}
use logrotate_cache_lab.Integrity.Intact.{log_of}
use logrotate_cache_lab.Integrity.Rotated.{analyze-intact}
use logrotate_cache_lab.Writer.{Config, WriteError}
use logrotate_cache_lab.Writer.Stream.{numbers, all_of}
use logrotate_cache_lab.Writer.Loop.{Event, Ending, run}
use logrotate_cache_lab.Writer.Complete.{run-WroteAll}
use mathlib.Core.List.{Permᴰ}
use logrotate_cache_lab.Writer.Files.{
  times-numbers, Ascends-all_of, Ascends-numbers, numbers-small, length-numbers, total_length,
  Stored, zip, total_length-logs, paths_of-zip, all_sequences-zip, zip-HoldsLog, zip-Ascends,
}
use logrotate_cache_lab.Writer.Shuffle.{permuted}

small_mod : (n : ℕ) → n ≤ max_uint64 → n % 2 ^ 64 ≡ n
small_mod n h = omega arith

-- The audit ended with no error and counted nothing wrong.
abbrev pub IsIntact : IntegrityReport × Option AnalyzeError → Type 0
IsIntact (r, e) =
    (e ≡ none)
    × (r.missing ≡ 0)
    × (r.duplicates ≡ 0)
    × (r.malformed ≡ 0)
    × (r.wrong_run_id ≡ 0)
    × (r.descending_transitions ≡ 0)

module _ (run_id : Bytes) (size : ℕ) (named : IsRunId run_id) (room : length run_id + 22 < size)
    (fits : size ≤ max_line) (open_file : Bytes → Option OpenFile) (paths : List Bytes)
    (files : List (List ℕ)) (total : ℕ)
    (stored : Stored open_file paths (map (log_of run_id size) files))
    (order : all_of files ≡ numbers total) where
  -- A record takes at least a byte.
  total-le : total_length (map (log_of run_id size) files) < 2 ^ 64 → total < max_uint64
  total-le h =
      let small = subst (All (λ k. k ≤ max_uint64)) (sym order) (numbers-small total) in
      let bytes = total_length-logs run_id size named room files small in
      let count = ap {B = ℕ} (λ (xs : List ℕ). length xs) order ∙ length-numbers total in
      let product : total * 2 ≤ total * size = grind arith in
      let whole : total_length (map (log_of run_id size) files) ≡ total * size =
        bytes ∙ ap (λ n. n * size) count in
      omega arith

module _ (run_id : Bytes) (size : ℕ) (named : IsRunId run_id) (room : length run_id + 22 < size)
    (fits : size ≤ max_line) (open_file : Bytes → Option OpenFile) where
  analyze-files :
      (paths : List Bytes) (files : List (List ℕ)) (total : ℕ)
      → Stored open_file paths (map (log_of run_id size) files)
      → ((k : ℕ) → times k (all_of files) ≡ times k (numbers total))
      → All Ascends files
      → total < max_uint64
      → IsIntact (analyze open_file run_id total paths)
  analyze-files paths files total stored counts up h =
      let same = all_sequences-zip run_id size named room open_file paths files stored in
      subst (λ ps. IsIntact (analyze open_file run_id total ps))
        (paths_of-zip run_id size named room open_file paths files stored)
        (analyze-intact open_file run_id size named room fits total (zip paths files) h
          (zip-HoldsLog run_id size named room open_file paths files stored)
          (zip-Ascends paths files up)
          (λ k. rw same (counts k ∙ times-numbers total k (omega arith))))

  -- The files may be audited in any order.
  analyze-permuted :
      (paths audited : List Bytes) (files : List (List ℕ)) (total : ℕ)
      → Permᴰ paths audited
      → Stored open_file paths (map (log_of run_id size) files)
      → all_of files ≡ numbers total
      → total < max_uint64
      → IsIntact (analyze open_file run_id total audited)
  analyze-permuted paths audited files total p stored order h =
      let s = permuted open_file run_id size p files stored in
      let up =
        Ascends-all_of files (subst Ascends (sym order) (Ascends-numbers total (omega arith))) in
      analyze-files audited s.files total s.stored (λ k. s.counts k ∙ ap (times k) order)
        (s.ascends up) h

-- A run of the writer that ends without an error is found intact: the audit of the files that the
-- writer opened, once each, in any order, for the count that its state gives, ends with no error and counts nothing missing, repeated, malformed, foreign or descending. The run id is one
-- that `Encode` takes, a record has room for its prefix and fits a line, and the files hold fewer
-- than 2 ^ 64 bytes.
pub analyze-run :
    (text : WriteError → Bytes) (cfg : Config) (starts : Bool) (events : List Event) (end : Ending)
    (open_file : Bytes → Option OpenFile) (paths audited : List Bytes)
    → IsRunId cfg.run_id
    → length cfg.run_id + 22 < pos_part cfg.record_bytes
    → pos_part cfg.record_bytes ≤ max_line
    → let f = run text cfg starts events end in
      f.error ≡ none
      → total_length (f.writer.closed ++ f.writer.current ∷ []) < 2 ^ 64
      → Stored open_file paths (f.writer.closed ++ f.writer.current ∷ [])
      → Permᴰ paths audited
      → IsIntact (analyze open_file cfg.run_id f.writer.state.generated audited)
analyze-run text cfg starts events end open_file paths audited named room fits clean bounded stored
      p =
    let all = run-WroteAll text cfg (omega arith) starts events end clean in
    let here = subst (Stored open_file paths) all.logs stored in
    let less = subst (λ c. total_length c < 2 ^ 64) all.logs bounded in
    let small =
      total-le cfg.run_id _ named room fits open_file paths all.files all.total here all.order
        less in
    let exact : (run text cfg starts events end).writer.state.generated ≡ all.total =
      all.counts_generated ∙ small_mod all.total (omega arith) in
    subst (λ n. IsIntact (analyze open_file cfg.run_id n audited)) (sym exact)
      (analyze-permuted cfg.run_id _ named room fits open_file paths audited all.files all.total p
        here all.order small)
