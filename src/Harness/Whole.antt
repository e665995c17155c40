-- ===== src/Harness/Whole.antt =====
-- The writer, the audit and the harness together: internal/writer/writer.go,
-- internal/integrity/analyze.go and internal/harness/run.go.
use mathlib.Core.List.{Permᴰ}
use logrotate_cache_lab.Base.{
  arith, ◌+◌, ◌^◌, ◌<◌, ◌≤◌, ◌≡◌, refl, sym, ap, subst, ◌∙◌, inr, inl, Bool, true, Bool-cases,
  Option, none, some, List, [], ◌∷◌, ◌++◌, Bytes, length,
}
use logrotate_cache_lab.Base.Int.{pos_part}
use logrotate_cache_lab.Base.Sort.{insert_by, sort_by, ltb_bytes}
use logrotate_cache_lab.Record.RoundTrip.{IsRunId}
use logrotate_cache_lab.Report.{WriterState, IntegrityReport, RunSummary}
use logrotate_cache_lab.Integrity.Lines.{max_line}
use logrotate_cache_lab.Integrity.{analyze}
use logrotate_cache_lab.Metrics.{Floats}
use logrotate_cache_lab.Writer
use logrotate_cache_lab.Writer.Loop.{Event, Ending}
use logrotate_cache_lab.Writer.Loop
use logrotate_cache_lab.Writer.Files.{Stored, total_length}
use logrotate_cache_lab.Writer.Reopens.{run-failures}
use logrotate_cache_lab.Writer.Audit.{IsIntact, analyze-run}
use logrotate_cache_lab.Harness.{Config}
use logrotate_cache_lab.Harness.Driver.{
  Answers, Findings, active_path, audited_paths, summarize, judged, with_memory, run,
}
use logrotate_cache_lab.Harness.Peaks.{update_peaks-maximum}
use logrotate_cache_lab.Cgroup.{MemorySample}
use logrotate_cache_lab.Harness.Collected.{run-IsCollected, collect-audited}
use logrotate_cache_lab.Harness.Verdict.{run_summary}

same_order {ℓ} : {A : Type ℓ} (l : List A) → Permᴰ l l
same_order [] = Permᴰ.nil
same_order (z ∷ l) = Permᴰ.cons refl (same_order l)

insert_by-Permᴰ {ℓ} :
    {A : Type ℓ} (less : A → A → Bool) (x : A) (xs : List A) → Permᴰ (x ∷ xs) (insert_by less x xs)
unfolding insert_by
insert_by-Permᴰ less x [] = Permᴰ.cons refl Permᴰ.nil
insert_by-Permᴰ less x (y ∷ ys) = elim (Bool-cases (less y x)) [
  | inl e ↦ rw e (Permᴰ.trans (Permᴰ.swap refl refl) (Permᴰ.cons refl (insert_by-Permᴰ less x ys)))
  | inr e ↦ rw e (same_order (x ∷ y ∷ ys))
]

sort_by-Permᴰ {ℓ} : {A : Type ℓ} (less : A → A → Bool) (xs : List A) → Permᴰ xs (sort_by less xs)
unfolding sort_by
sort_by-Permᴰ less [] = Permᴰ.nil
sort_by-Permᴰ less (x ∷ xs) =
    Permᴰ.trans (Permᴰ.cons refl (sort_by-Permᴰ less xs)) (insert_by-Permᴰ less x (sort_by less xs))

module _ {F : Type 0} (float : Floats F) (join : Bytes → Bytes → Bytes) where
  with_memory-keeps :
      (m : Option MemorySample) (r : RunSummary F)
      → ((with_memory float join m r).writer ≡ r.writer)
        × ((with_memory float join m r).integrity ≡ r.integrity)
  with_memory-keeps none r = (refl, refl)
  with_memory-keeps (some m) r = (refl, refl)

  summarize-keeps :
      (cfg : Config) (w : Answers) (found : Findings)
      → ((summarize float join cfg w found).writer ≡ found.state)
        × ((summarize float join cfg w found).integrity ≡ found.integrity)
  unfolding summarize judged
  summarize-keeps cfg w found =
      let (writer, integrity) = with_memory-keeps w.memory _ in
      (
        writer ∙ ap (λ (r : RunSummary F). r.writer) (update_peaks-maximum _ found.samples),
        integrity ∙ ap (λ (r : RunSummary F). r.integrity) (update_peaks-maximum _ found.samples),
      )

-- A run of the harness succeeds, whatever its strategy, if its writer ended without an error, its
-- audit reads the state that this writer left and its files, as they were opened, are the backups and
-- the active file in some order, each readable with what the writer put there; and if a summary is
-- returned. The run id is one that `Encode` takes, a record has room for
-- its prefix and fits a line, and the files hold fewer than 2 ^ 64 bytes.
pub run-success :
    (text : Writer.WriteError → Bytes) (wcfg : Writer.Config) (starts : Bool) (events : List Event)
    (end : Ending) {F : Type 0} (float : Floats F) (join : Bytes → Bytes → Bytes) (cfg : Config)
    (w : Answers) (opened backups : List Bytes) (s : RunSummary F)
    → IsRunId wcfg.run_id
    → length wcfg.run_id + 22 < pos_part wcfg.record_bytes
    → pos_part wcfg.record_bytes ≤ max_line
    → cfg.run_id ≡ wcfg.run_id
    → let f = Loop.run text wcfg starts events end in
      f.error ≡ none
      → total_length (f.writer.closed ++ f.writer.current ∷ []) < 2 ^ 64
      → w.writer_state ≡ some f.writer.state
      → w.backups ≡ some backups
      → Permᴰ opened (backups ++ active_path float join cfg ∷ [])
      → Stored w.open_file opened (f.writer.closed ++ f.writer.current ∷ [])
      → (run float join cfg w).summary ≡ some s
      → s.success ≡ true
run-success text wcfg starts events end {F = F} float join cfg w opened backups s named room fits
      same clean bounded state listed order stored returned =
    let f = Loop.run text wcfg starts events end in
    let (found, collected, made) = run-IsCollected float join cfg w s returned in
    let (others, read, found_backups, report) = collect-audited float join cfg w found collected in
    let its_state : found.state ≡ f.writer.state = cc in
    let its_backups : others ≡ backups = cc in
    let intact =
      analyze-run text wcfg starts events end w.open_file opened
        (audited_paths float join cfg backups) named room fits clean bounded stored
        (Permᴰ.trans order
          (sort_by-Permᴰ ltb_bytes (backups ++ active_path float join cfg ∷ []))) in
    let whole =
      sym (λ i.
        analyze w.open_file (same i) (its_state i).generated
          (audited_paths float join cfg (its_backups i)))
      ∙ report in
    let (e, missing, duplicates, malformed, foreign, descents) = subst IsIntact whole intact in
    let (its_writer, its_integrity) = summarize-keeps float join cfg w found in
    let writer = ap (λ (r : RunSummary F). r.writer) made ∙ its_writer ∙ its_state in
    let integrity = ap (λ (r : RunSummary F). r.integrity) made ∙ its_integrity in
    ((run_summary float join cfg w s returned).0).1 (
      ap (λ (t : WriterState). t.reopen_failures) writer
          ∙ run-failures text wcfg (omega arith) starts events end clean,
      inr (
        ap (λ (t : IntegrityReport). t.missing) integrity ∙ missing,
        ap (λ (t : IntegrityReport). t.duplicates) integrity ∙ duplicates,
        ap (λ (t : IntegrityReport). t.malformed) integrity ∙ malformed,
      ),
    )
