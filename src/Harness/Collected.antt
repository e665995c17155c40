-- ===== src/Harness/Collected.antt =====
-- Where the summary of internal/harness/run.go comes from.
use logrotate_cache_lab.Base.{
  ◌>>=◌, ap, ◌∙◌, ◌≡◌, refl, subst, inl, inr, Bool, true, false, Bool-cases, ◌||◌, if◌then◌else◌,
  Bytes, Option, none, some, List, Result, ok, err,
}
use logrotate_cache_lab.Report.{IntegrityReport, RunSummary}
use logrotate_cache_lab.Metrics.{Floats}
use logrotate_cache_lab.Harness.{Config, is_invalid, WaitError, wait_http}
use logrotate_cache_lab.Harness.Driver.{
  start_fails, can_listen, or_error, audited, unless_failed, samples_of, audited_paths,
  bad_writer_state, cannot_list, cannot_write_integrity, bad_events, Answers, Outcome, Call,
  HarnessError, rotator_child, monitor_child, writer_child, first_failure, concluded, after_rotator,
  with_monitor, with_writer, run, summarize, collect, gather, Findings,
}
use logrotate_cache_lab.Integrity.{analyze, AnalyzeError}

abbrev InResult {ℓ κ} : {E : Type 0} {A : Type ℓ} → (A → Type κ) → Result E A → Type κ
InResult P (ok a) = P a
InResult P (err e) = Unit

abbrev InOption {ℓ κ} : {A : Type ℓ} → (A → Type κ) → Option A → Type κ
InOption P none = Unit
InOption P (some a) = P a

abbrev collected : Findings → Result HarnessError Findings
collected found = ok found

ok_injective : (a b : Findings) → collected a ≡ collected b → a ≡ b
ok_injective a b h = cc

or_error-some :
    {A : Type 0} (e : HarnessError) (o : Option A) (a : A) → or_error e o ≡ ok a → o ≡ some a
or_error-some e none a h = absurd cc
or_error-some e (some b) a h = cc

audited_ok :
    (p : IntegrityReport × Option AnalyzeError) (r : IntegrityReport)
    → audited p ≡ ok r
    → p ≡ (r, none)
audited_ok (q, none) r h = cc
audited_ok (q, some e) r h = absurd cc

module _ {F : Type 0} (float : Floats F) (join : Bytes → Bytes → Bytes) (cfg : Config)
    (w : Answers) where
  -- The summary of what was read of the files.
  abbrev pub IsCollected : RunSummary F → Type 0
  IsCollected s =
      (found : Findings) × (collect float join cfg w ≡ ok found)
      × (s ≡ summarize float join cfg w found)

  gather-InResult :
      (r : Result HarnessError Findings)
      → collect float join cfg w ≡ r
      → InResult IsCollected (gather float join cfg w r)
  gather-InResult (ok found) e = (found, e, refl)
  gather-InResult (err x) e = tt

  Judges : Outcome F → Type 0
  Judges o = InOption IsCollected o.summary

  concluded-Judges :
      (calls : List Call) (r : Result HarnessError (RunSummary F)) (failure : Option HarnessError)
      → InResult IsCollected r
      → Judges (concluded float join calls w r failure)
  unfolding Judges
  concluded-Judges calls r (some e) h = tt
  concluded-Judges calls (ok s) none h = h
  concluded-Judges calls (err e) none h = tt

  if-Judges : (b : Bool) (x y : Outcome F) → Judges x → Judges y → Judges (if b then x else y)
  if-Judges true x y hx hy = hx
  if-Judges false x y hx hy = hy

  with_monitor-Judges : (calls : List Call) → Judges (with_monitor float join cfg w calls)
  unfolding with_monitor after_rotator Judges
  with_monitor-Judges calls = elim (Bool-cases (start_fails w rotator_child)) [
    | inl e ↦ rw e tt
    | inr e ↦ rw e (
        concluded-Judges _ _ (first_failure cfg w)
          (gather-InResult (collect float join cfg w) refl))
  ]

  none-Judges :
      (calls : List Call) (e : Option HarnessError)
      → Judges (record { calls = calls; summary = none; error = e })
  unfolding Judges
  none-Judges calls e = tt

  with_writer-Judges : (failure : Option WaitError) → Judges (with_writer float join cfg w failure)
  with_writer-Judges (some e) = none-Judges _ _
  with_writer-Judges none =
      if-Judges cfg.enable_monitor _ _
        (if-Judges (start_fails w monitor_child) _ _ (none-Judges _ _) (with_monitor-Judges _))
        (with_monitor-Judges _)

  run-Judges : Judges (run float join cfg w)
  unfolding run
  run-Judges = if-Judges (is_invalid cfg) _ _ (none-Judges _ _) (
      if-Judges (w.log_dir_fails || w.result_dir_fails) _ _ (none-Judges _ _) (
        if-Judges (can_listen w) _ _
          (if-Judges (start_fails w writer_child) _ _ (none-Judges _ _)
            (with_writer-Judges (wait_http w.healthz)))
          (none-Judges _ _)))

  in_summary : (o : Outcome F) (s : RunSummary F) → Judges o → o.summary ≡ some s → IsCollected s
  unfolding Judges
  in_summary o s h e = subst (InOption IsCollected) e h

  pub run-IsCollected : (s : RunSummary F) → (run float join cfg w).summary ≡ some s → IsCollected s
  run-IsCollected s e = in_summary (run float join cfg w) s run-Judges e

  bind_ok :
      {A B : Type 0} (m : Result HarnessError A) (f : A → Result HarnessError B) (b : B)
      → (m >>= f) ≡ ok b
      → (a : A) × (m ≡ ok a) × (f a ≡ ok b)
  bind_ok (ok a) f b h = (a, refl, h)
  bind_ok (err e) f b h = absurd cc

  -- The state and the audit that a summary is made from.
  pub collect-audited :
      (found : Findings)
      → collect float join cfg w ≡ ok found
      → (backups : List Bytes) × (w.writer_state ≡ some found.state)
        × (w.backups ≡ some backups)
        × (analyze w.open_file cfg.run_id found.state.generated
              (audited_paths float join cfg backups)
            ≡ (found.integrity, none))
  unfolding collect
  collect-audited found h =
      let (state, s, h1) = bind_ok (or_error bad_writer_state w.writer_state) _ found h in
      let (backups, b, h2) = bind_ok (or_error cannot_list w.backups) _ found h1 in
      let (integrity, i, h3) =
        bind_ok
          (audited
            (analyze w.open_file cfg.run_id state.generated (audited_paths float join cfg backups)))
          _ found h2 in
      let (written, n, h4) =
        bind_ok (unless_failed w.integrity_fails cannot_write_integrity integrity) _ found h3 in
      let (rows, r, h5) = bind_ok (or_error bad_events w.event_rows) _ found h4 in
      let (samples, t, h6) = bind_ok (samples_of float join cfg w) _ found h5 in
      let same = ok_injective _ found h6 in
      (
        backups,
        or_error-some _ w.writer_state state s ∙ ap (λ (f : Findings). some f.state) same,
        or_error-some _ w.backups backups b,
        subst
            (λ (f : Findings).
              analyze w.open_file cfg.run_id f.state.generated
                (audited_paths float join cfg backups)
              ≡ (f.integrity, none))
            same (audited_ok _ integrity i),
      )
