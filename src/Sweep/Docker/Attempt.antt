-- ===== src/Sweep/Docker/Attempt.antt =====
-- The ways through `dockerAttempt` of internal/sweep/docker.go.
use logrotate_cache_lab.Base.{
  ◌≡◌, ◌≢◌, ◌⊎◌, ◌↔◌, refl, Bool, true, false, [], Bytes, arith, Result, Result-cases, ok, err, inl,
  inr,
}
use logrotate_cache_lab.Base.Int.{ℤ, pos}
use logrotate_cache_lab.Report.{SweepAttempt, RunSummary}
use logrotate_cache_lab.Sweep.Docker.{
  Answers, prepared, WaitResult, copytruncate, exited_well, exit_error, wait_error, functional,
  integral, classify_summary, classify_process_failure, docker_attempt, fail, fail_unlabelled,
  after_root, after_prepare, after_volume, after_start, judge_wait, judge_summary, parsed_summary,
}
use logrotate_cache_lab.Sweep.Docker.Verdict.{classify_summary_passes}

abbrev pub IsErr {ℓ κ} : {E : Type ℓ} {A : Type κ} → Result E A → Type 0
IsErr (ok a) = ⊥
IsErr (err e) = Unit

process_kind :
    {F : Type 0} (a : SweepAttempt F) (code : ℤ) (timed_out killed : Bool) (text : Bytes)
    → (classify_process_failure a code timed_out killed text).failure_kind ≢ []
unfolding classify_process_failure
process_kind a code timed_out killed text = ground arith

summary_kind :
    {F : Type 0} (strategy : Bytes) (a : SweepAttempt F) (s : RunSummary F)
    → (classify_summary strategy a s).passed ≡ false
    → (classify_summary strategy a s).failure_kind ≢ []
unfolding classify_summary
summary_kind strategy a s p = ground arith

module _ {F : Type 0} (strategy : Bytes) (w : Answers F) (a : SweepAttempt F) where
  -- The attempt with the exit code of a command that ended well.
  abbrev exited : SweepAttempt F
  exited = record a { exit_code = pos 0 }

  -- How an attempt comes to its result.
  data Way : SweepAttempt F → Type 0 where
    no_root : (text : Bytes) → IsErr w.result_root → Way (fail text a)
    not_prepared :
        (text : Bytes) → ¬ IsErr w.result_root → IsErr (prepared w) → Way (fail_unlabelled text a)
    no_volume :
        (text : Bytes)
        → ¬ IsErr w.result_root
        → IsErr w.create_volume
        → Way (fail_unlabelled text a)
    process_failed :
        (code : ℤ) (timed_out killed : Bool) (text : Bytes)
        → Way (classify_process_failure a code timed_out killed text)
    no_summary : (text : Bytes) → Way (fail text exited)
    judged :
        (s : RunSummary F) (b : Bytes)
        → w.wait_result ≡ exited_well
        → w.read_summary ≡ ok b
        → w.parse_summary b ≡ ok s
        → Way (classify_summary strategy exited s)

  parsed_summary-Way :
      (b : Bytes) (p : Result Bytes (RunSummary F))
      → w.wait_result ≡ exited_well
      → w.read_summary ≡ ok b
      → w.parse_summary b ≡ p
      → Way (parsed_summary strategy exited p)
  unfolding parsed_summary
  parsed_summary-Way b (err e) well read parsed = no_summary _
  parsed_summary-Way b (ok s) well read parsed = judged s b well read parsed

  judge_summary-Way :
      (p : Result Bytes Bytes)
      → w.wait_result ≡ exited_well
      → w.read_summary ≡ p
      → Way (judge_summary strategy w exited p)
  unfolding judge_summary
  judge_summary-Way (err e) well read = no_summary _
  judge_summary-Way (ok b) well read = parsed_summary-Way b (w.parse_summary b) well read refl

  judge_wait-Way : (x : WaitResult) → w.wait_result ≡ x → Way (judge_wait strategy w a x)
  unfolding judge_wait
  judge_wait-Way exited_well e = judge_summary-Way w.read_summary e refl
  judge_wait-Way (exit_error code) e = process_failed code _ _ _
  judge_wait-Way wait_error e = process_failed _ _ _ _

  after_start-Way : (p : Result Bytes Bytes) → Way (after_start strategy w a p)
  unfolding after_start
  after_start-Way (err e) = process_failed _ _ _ _
  after_start-Way (ok b) = judge_wait-Way w.wait_result refl

  after_volume-Way :
      (p : Result (Bytes × Bytes) Bytes)
      → ¬ IsErr w.result_root
      → w.create_volume ≡ p
      → Way (after_volume strategy w a p)
  unfolding after_volume
  after_volume-Way (err (e, out)) root q = no_volume _ root (rw q tt)
  after_volume-Way (ok b) root q = after_start-Way w.start_command

  after_prepare-Way :
      (p : Result Bytes Bytes)
      → ¬ IsErr w.result_root
      → (prepared w) ≡ p
      → Way (after_prepare strategy w a p)
  unfolding after_prepare
  after_prepare-Way (err e) root q = not_prepared _ root (rw q tt)
  after_prepare-Way (ok b) root q = after_volume-Way w.create_volume root refl

  after_root-Way : (p : Result Bytes Bytes) → w.result_root ≡ p → Way (after_root strategy w a p)
  unfolding after_root
  after_root-Way (err e) q = no_root _ (rw q tt)
  after_root-Way (ok b) q = after_prepare-Way (prepared w) (λ h. rw q at h) refl

  docker_attempt-Way : Way (docker_attempt strategy w a)
  unfolding docker_attempt
  docker_attempt-Way = after_root-Way w.result_root refl

  -- The limit, the strategy and the repetition of the request.
  abbrev pub KeepsRequest : SweepAttempt F → Type 0
  KeepsRequest r =
      (r.limit_mib ≡ a.limit_mib) × (r.strategy ≡ a.strategy) × (r.repetition ≡ a.repetition)

  Way-KeepsRequest : {r : SweepAttempt F} → Way r → KeepsRequest r
  unfolding fail fail_unlabelled classify_process_failure classify_summary
  Way-KeepsRequest (no_root text h) = (refl, refl, refl)
  Way-KeepsRequest (not_prepared text root h) = (refl, refl, refl)
  Way-KeepsRequest (no_volume text root h) = (refl, refl, refl)
  Way-KeepsRequest (process_failed code timed_out killed text) = (refl, refl, refl)
  Way-KeepsRequest (no_summary text) = (refl, refl, refl)
  Way-KeepsRequest (judged s b well read parsed) = ground arith

  -- Whatever the world answers, an attempt keeps the limit, strategy and repetition of its request.
  pub docker_attempt-KeepsRequest : KeepsRequest (docker_attempt strategy w a)
  docker_attempt-KeepsRequest = Way-KeepsRequest docker_attempt-Way

  -- What a pass rests on: the command ended well and left a summary that works, and that is intact
  -- unless the strategy is copytruncate.
  abbrev pub Evidence : Type 0
  Evidence =
      (s : RunSummary F) × (b : Bytes) × (w.wait_result ≡ exited_well)
      × (w.read_summary ≡ ok b)
      × (w.parse_summary b ≡ ok s)
      × (functional s ≡ true)
      × ((strategy ≡ copytruncate) ⊎ (integral s.integrity ≡ true))

  module _ (fresh : a.passed ≡ false) where
    Way-Evidence : {r : SweepAttempt F} → Way r → r.passed ≡ true → Evidence
    unfolding fail fail_unlabelled classify_process_failure
    Way-Evidence (no_root text h) p = absurd (cc)
    Way-Evidence (not_prepared text root h) p = absurd (cc)
    Way-Evidence (no_volume text root h) p = absurd (cc)
    Way-Evidence (process_failed code timed_out killed text) p = absurd (cc)
    Way-Evidence (no_summary text) p = absurd (cc)
    Way-Evidence (judged s b well read parsed) p =
        let (works, intact) = (classify_summary_passes strategy exited s).0 p in
        (s, b, well, read, parsed, works, intact)

    -- An attempt that was not passed before passes only on such evidence.
    pub docker_attempt-Evidence : (docker_attempt strategy w a).passed ≡ true → Evidence
    docker_attempt-Evidence = Way-Evidence docker_attempt-Way

    module _ (unlabelled : a.failure_kind ≡ []) where
      Way-unlabelled :
          {r : SweepAttempt F}
          → Way r
          → r.passed ≡ false
          → r.failure_kind ≡ []
          → (¬ IsErr w.result_root) × (IsErr (prepared w) ⊎ IsErr w.create_volume)
      unfolding fail fail_unlabelled
      Way-unlabelled (no_root text h) p k = absurd (cc)
      Way-unlabelled (not_prepared text root h) p k = (root, inl h)
      Way-unlabelled (no_volume text root h) p k = (root, inr h)
      Way-unlabelled (process_failed code timed_out killed text) p k =
          absurd (process_kind a code timed_out killed text k)
      Way-unlabelled (no_summary text) p k = absurd (cc)
      Way-unlabelled (judged s b well read parsed) p k = absurd (summary_kind strategy exited s p k)

      unlabelled_of_err :
          (¬ IsErr w.result_root) × (IsErr (prepared w) ⊎ IsErr w.create_volume)
          → ((docker_attempt strategy w a).passed ≡ false)
            × ((docker_attempt strategy w a).failure_kind ≡ [])
      unfolding docker_attempt
      unlabelled_of_err (root, later) = elim (Result-cases w.result_root) [
        | inr (e, bad) ↦ absurd (root (rw bad tt))
        | inl (_, rooted) ↦ elim (Result-cases (prepared w)) [
          | inr (e, bad) ↦ rw (rooted, bad) (fresh, unlabelled)
          | inl (_, prepared) ↦ elim (Result-cases w.create_volume) [
            | inr (e, bad) ↦ rw (rooted, prepared, bad) (fresh, unlabelled)
            | inl (_, made) ↦
                absurd (elim later [ inl h ↦ rw prepared at h | inr h ↦ rw made at h ])
          ]
        ]
      ]

      -- A first attempt fails with no failure kind, and so in no failure counter, exactly when the
      -- result root is there but its directory or the volume could not be made.
      pub docker_attempt_unlabelled :
          (((docker_attempt strategy w a).passed ≡ false)
            × ((docker_attempt strategy w a).failure_kind ≡ []))
          ↔ ((¬ IsErr w.result_root) × (IsErr (prepared w) ⊎ IsErr w.create_volume))
      docker_attempt_unlabelled =
          (λ (p, k). Way-unlabelled docker_attempt-Way p k, unlabelled_of_err)
