-- ===== src/Sweep/Docker/Verdict.antt =====
-- How internal/sweep/docker.go judges one attempt.
use logrotate_cache_lab.Base.{
  ◌≡◌, ◌≢◌, ◌⊎◌, ◌↔◌, Bool, true, false, some, [], Bytes, codes, arith, str_eq_iff,
}
use logrotate_cache_lab.Base.Int.{ℤ, pos, negsuc}
use logrotate_cache_lab.Report.{SweepAttempt, RunSummary, schema_version}
use logrotate_cache_lab.Sweep.Docker.{
  copytruncate, functional, integral, classify_summary, classify_process_failure,
}

module _ {F : Type 0} where
  pub classify_summary_passes :
      (strategy : Bytes) (a : SweepAttempt F) (s : RunSummary F)
      → ((classify_summary strategy a s).passed ≡ true)
        ↔ ((functional s ≡ true) × ((strategy ≡ copytruncate) ⊎ (integral s.integrity ≡ true)))
  unfolding classify_summary
  classify_summary_passes strategy a s = ground (arith, str_eq_iff strategy copytruncate)

  -- The summary and its audit have the schema's version, and no reopen failed.
  abbrev pub Works : RunSummary F → Type 0
  Works s =
      (s.schema_version ≡ schema_version)
      × (s.integrity.schema_version ≡ schema_version)
      × (s.writer.reopen_failures ≡ 0)

  -- Nothing is missing, repeated, malformed, foreign or out of order.
  abbrev pub Intact : RunSummary F → Type 0
  Intact s =
      (s.integrity.missing ≡ 0)
      × (s.integrity.duplicates ≡ 0)
      × (s.integrity.malformed ≡ 0)
      × (s.integrity.wrong_run_id ≡ 0)
      × (s.integrity.descending_transitions ≡ 0)

  -- A summary passes exactly when it and its audit have the schema's version and no reopen of its writer
  -- failed and, but for copytruncate, its audit counts nothing missing, repeated, malformed, foreign or
  -- descending. It is labelled `functional` exactly when a version is another or a reopen failed,
  -- `integrity` exactly when neither is so and it does not pass, and not at all exactly when it passes, if
  -- it had none before. The summary is kept, and the exit code and the limit are as they were.
  pub classify_summary_verdict :
      (strategy : Bytes) (a : SweepAttempt F) (s : RunSummary F)
      → a.failure_kind ≡ []
      → let r = classify_summary strategy a s in
        ((r.passed ≡ true) ↔ (Works s × ((strategy ≡ codes "copytruncate") ⊎ Intact s)))
        × ((r.failure_kind ≡ codes "functional") ↔ (¬ Works s))
        × ((r.failure_kind ≡ codes "integrity")
            ↔ (Works s × (strategy ≢ codes "copytruncate") × (¬ Intact s)))
        × ((r.failure_kind ≡ []) ↔ (r.passed ≡ true))
        × (r.summary ≡ some s)
        × (r.limit_mib ≡ a.limit_mib)
        × (r.exit_code ≡ a.exit_code)
  unfolding classify_summary functional integral
  classify_summary_verdict strategy a s fresh =
      ground (arith, str_eq_iff strategy copytruncate, fresh)

  -- A process that failed is `oom` when the container was seen killed or the exit code is 137, else
  -- `timeout` when the deadline passed, else `functional`; it has an error text, and its verdict stays.
  pub classify_process_failure_kind :
      (a : SweepAttempt F) (code : ℤ) (timed_out killed : Bool) (output : Bytes)
      → let r = classify_process_failure a code timed_out killed output in
        ((r.failure_kind ≡ codes "oom") ↔ ((killed ≡ true) ⊎ (code ≡ pos 137)))
        × ((r.failure_kind ≡ codes "timeout")
            ↔ ((timed_out ≡ true) × (killed ≡ false) × (code ≢ pos 137)))
        × (r.error ≢ [])
        × (r.passed ≡ a.passed)
  unfolding classify_process_failure
  classify_process_failure_kind a code timed_out true output = ground arith
  classify_process_failure_kind a (pos n) timed_out false output = ground arith
  classify_process_failure_kind a (negsuc n) timed_out false output = ground arith
