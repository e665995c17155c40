-- ===== src/Harness/Verdict.antt =====
-- When a run of internal/harness/run.go succeeds, and that internal/sweep/docker.go then agrees.
use logrotate_cache_lab.Base.{
  ◌≡◌, ◌≢◌, ◌⊎◌, ◌↔◌, refl, sym, subst, inl, inr, Bool, true, false, if◌then◌else◌, Bytes, codes,
  arith, str_eq_iff, some, [],
}
use logrotate_cache_lab.Report.{WriterState, IntegrityReport, RunSummary, SweepAttempt}
use logrotate_cache_lab.Sweep.Docker.{copytruncate, functional, integral, classify_summary}
use logrotate_cache_lab.Sweep.Docker.Verdict.{classify_summary_passes}
use logrotate_cache_lab.Metrics.{Floats}
use logrotate_cache_lab.Harness.{Config, baseline, rename_reopen, succeeds}
use logrotate_cache_lab.Harness.Driver.{Answers, run, judged, summarize}
use logrotate_cache_lab.Harness.Collected.{run-IsCollected}

succeeds_iff :
    (strategy : Bytes) (state : WriterState) (r : IntegrityReport)
    → (succeeds strategy state r ≡ true) ↔ (
        (state.reopen_failures ≡ 0)
        × (((strategy ≢ rename_reopen) × (strategy ≢ baseline))
            ⊎ ((r.missing ≡ 0) × (r.duplicates ≡ 0) × (r.malformed ≡ 0))))
unfolding succeeds
succeeds_iff strategy state r =
    ground (arith, str_eq_iff strategy rename_reopen, str_eq_iff strategy baseline)

-- The rule of success holds in a summary, and its error says the same.
abbrev IsJudged : {F : Type 0} → Config → RunSummary F → Type 0
IsJudged cfg s =
    ((s.success ≡ true) ↔ (
      (s.writer.reopen_failures ≡ 0)
      × (((cfg.strategy ≢ rename_reopen) × (cfg.strategy ≢ baseline))
          ⊎ ((s.integrity.missing ≡ 0)
              × (s.integrity.duplicates ≡ 0)
              × (s.integrity.malformed ≡ 0)))))
    × ((s.error ≡ []) ↔ (s.success ≡ true))

copytruncate_other : (copytruncate ≢ rename_reopen) × (copytruncate ≢ baseline)
copytruncate_other = (λ h. cc, λ h. cc)

passed-rule :
    {F : Type 0} (strategy : Bytes) (s : RunSummary F)
    → (functional s ≡ true) × ((strategy ≡ copytruncate) ⊎ (integral s.integrity ≡ true))
    → (s.writer.reopen_failures ≡ 0)
      × (((strategy ≢ rename_reopen) × (strategy ≢ baseline))
          ⊎ ((s.integrity.missing ≡ 0)
              × (s.integrity.duplicates ≡ 0)
              × (s.integrity.malformed ≡ 0)))
unfolding functional integral
passed-rule strategy s (works, inl same) = (
  ground arith,
  inl (subst (λ t. (t ≢ rename_reopen) × (t ≢ baseline)) (sym same) copytruncate_other),
)
passed-rule strategy s (works, inr intact) = (ground arith, inr (ground arith))

error_if : (b : Bool) → ((if b then [] else codes "acceptance criteria failed") ≡ []) ↔ (b ≡ true)
error_if true = (λ h. refl, λ h. refl)
error_if false = (λ h. cc, λ h. cc)

module _ {F : Type 0} (float : Floats F) (join : Bytes → Bytes → Bytes) (cfg : Config) where
  judged-IsJudged : (s : RunSummary F) → IsJudged cfg (judged float join cfg s)
  unfolding judged
  judged-IsJudged s = (succeeds_iff cfg.strategy s.writer s.integrity, error_if _)

  -- The summary that `Run` returns counts as a success exactly when no reopen failed and, for the
  -- strategies `rename-reopen` and `baseline`, nothing is missing, repeated or malformed; its error is
  -- empty exactly then.
  pub run_summary :
      (w : Answers) (s : RunSummary F)
      → (run float join cfg w).summary ≡ some s
      → ((s.success ≡ true) ↔ (
          (s.writer.reopen_failures ≡ 0)
          × (((cfg.strategy ≢ rename_reopen) × (cfg.strategy ≢ baseline))
              ⊎ ((s.integrity.missing ≡ 0)
                  × (s.integrity.duplicates ≡ 0)
                  × (s.integrity.malformed ≡ 0)))))
        × ((s.error ≡ []) ↔ (s.success ≡ true))
  unfolding summarize
  run_summary w s e =
      let (found, collected, same) = run-IsCollected float join cfg w s e in
      subst (IsJudged cfg) (sym same) (judged-IsJudged _)

  -- A summary that `Run` returns and that then passes the check of a Docker attempt for the same
  -- strategy counts as a success of the run.
  pub run-classify_summary :
      (w : Answers) (s : RunSummary F) (attempt : SweepAttempt F)
      → (run float join cfg w).summary ≡ some s
      → (classify_summary cfg.strategy attempt s).passed ≡ true
      → s.success ≡ true
  run-classify_summary w s attempt e passed =
      let works = (classify_summary_passes cfg.strategy attempt s).0 passed in
      ((run_summary w s e).0).1 (passed-rule cfg.strategy s works)
