-- ===== src/Sweep/Search.antt =====
-- internal/sweep/search.go. The runner of attempts is a function of the attempts made before, so that
-- it may answer differently each time; `cancelled` is the context, asked before each repetition.
-- `Search` rejects bounds that are not positive, so the arithmetic behind its guard is on numbers, but
-- for the two sums that can wrap around.
pub mod Attempts
pub mod Log
pub mod Bracket
pub mod Boundary
pub mod Least
pub mod Plain
use logrotate_cache_lab.Base.{
  ℕ, zero, suc, ◌+◌, ◌-◌, ◌*◌, ◌/◌, Bool, true, false, ◌&&◌, ◌||◌, Option, none, some, List, [],
  ◌∷◌, ◌++◌, Bytes, codes, ltb, leb, ◌==◌, if◌then◌else◌, str_eq,
}
use logrotate_cache_lab.Base.Int.{ℤ, pos, negsuc, pos_part, ltb_ℤ, leb_ℤ, wrap_int64, quotient}
use logrotate_cache_lab.Report.{SweepAttempt, SweepReport, WorkloadConfig, schema_version}

pub record Config : Type 0 where
  pub lower_mib : ℤ
  pub upper_mib : ℤ
  pub step_mib : ℤ
  pub repetitions : ℤ
  pub strategy : Bytes

pub data SearchError : Type 0 where
  invalid_configuration : SearchError
  empty_range : SearchError
  upper_did_not_pass : ℕ → SearchError
  context_done : SearchError

-- The product with a number.
unfoldable pub scaled : ℤ → ℕ → ℤ
scaled (pos n) d = pos (n * d)
scaled (negsuc n) d = negsuc (suc n * d - 1)

-- The sum is an `int`, which may wrap around.
unfoldable pub align_up : ℕ → ℕ → ℤ
align_up value step = scaled (quotient (wrap_int64 (value + step - 1)) step) step

unfoldable pub align_down : ℕ → ℕ → ℕ
align_down value step = (value / step) * step

-- `tested`: the limits that were tried, with their verdicts.
abbrev pub Tested : Type 0
Tested = List (ℕ × Bool)

unfoldable pub verdict : ℕ → Tested → Option Bool
verdict limit [] = none
verdict limit ((l, p) ∷ m) = if limit == l then some p else verdict limit m

-- The workload of a report that is not filled in yet.
abbrev pub no_workload : WorkloadConfig
no_workload = record {
  max_file_bytes = pos 0;
  rotations = pos 0;
  max_backups = pos 0;
  record_bytes = pos 0;
  bytes_per_second = pos 0;
  buffer_bytes = pos 0;
  flush_interval_ns = pos 0;
  monitor_interval_ns = pos 0;
  resident_bytes = pos 0;
}

-- The variables that the closure `test` shares with `Search`.
pub record Progress (F : Type 0) : Type 0 where
  pub report : SweepReport F
  pub tested : Tested

-- What `Search` returns.
abbrev pub Outcome : Type 0 → Type 0
Outcome F = SweepReport F × Option SearchError

module _ (cfg : Config) where
  abbrev pub step : ℕ
  step = pos_part cfg.step_mib

  abbrev pub upper : ℕ
  upper = align_down (pos_part cfg.upper_mib) step

  -- Only a sum that wraps makes this limit negative. Such a limit stands as 0 here: attempts below zero
  -- are not modelled.
  abbrev pub lower : ℕ
  lower = pos_part (align_up (pos_part cfg.lower_mib) step)

  abbrev pub is_invalid : Bool
  is_invalid =
      leb_ℤ cfg.lower_mib (pos 0)
      || ltb_ℤ cfg.upper_mib cfg.lower_mib
      || leb_ℤ cfg.step_mib (pos 0)
      || leb_ℤ cfg.repetitions (pos 0)

  -- A sum that wraps is negative, and so is the limit in its middle, which is then below `fail`, as 0 is.
  unfoldable pub middle : ℕ → ℕ → ℕ
  unfolding align_down
  middle fail pass =
      let mid = align_down (pos_part (wrap_int64 (fail + pass)) / 2) step in
      if leb mid fail then fail + step else mid

module _ {F : Type 0} where
  -- `switch attempt.FailureKind`
  unfoldable pub tally : Bytes → SweepReport F → SweepReport F
  tally kind r =
      if str_eq kind (codes "oom")
      then record r { oom_failures = r.oom_failures + 1 }
      else if str_eq kind (codes "functional")
      then record r { functional_failures = r.functional_failures + 1 }
      else if str_eq kind (codes "integrity")
      then record r { integrity_failures = r.integrity_failures + 1 }
      else if str_eq kind (codes "timeout")
      then record r { timeout_failures = r.timeout_failures + 1 }
      else r

  unfoldable pub record_attempt : SweepAttempt F → SweepReport F → SweepReport F
  unfolding tally
  record_attempt a r = tally a.failure_kind (record r { attempts = r.attempts ++ a ∷ [] })

  abbrev pub new_report : Config → SweepReport F
  new_report cfg = record {
    schema_version = schema_version;
    strategy = cfg.strategy;
    minimum_pass_mib = 0;
    greatest_fail_mib = 0;
    boundary_resolved = false;
    baseline_minimum_mib = 0;
    delta_minimum_mib = pos 0;
    delta_resolved = false;
    oom_failures = 0;
    timeout_failures = 0;
    functional_failures = 0;
    integrity_failures = 0;
    lower_mib = cfg.lower_mib;
    upper_mib = cfg.upper_mib;
    step_mib = cfg.step_mib;
    repetitions = cfg.repetitions;
    attempt_timeout_ns = pos 0;
    workload = no_workload;
    attempts = [];
  }

  -- `report.SweepAttempt{Strategy: ..., LimitMiB: ..., Repetition: ...}`
  abbrev pub new_attempt : Bytes → ℕ → ℕ → SweepAttempt F
  new_attempt strategy limit repetition = record {
    strategy = strategy;
    limit_mib = limit;
    repetition = repetition;
    exit_code = pos 0;
    oom = false;
    timed_out = false;
    functional_passed = false;
    integrity_passed = false;
    passed = false;
    failure_kind = [];
    error = [];
    summary = none;
  }

  abbrev pub start : Config → Progress F
  start cfg = record { report = new_report cfg; tested = [] }

  abbrev pub conclude : ℕ → Tested → Option Bool × SweepReport F → Option Bool × Progress F
  conclude limit tested (none, r) = (none, record { report = r; tested = tested })
  conclude limit tested (some p, r) = (some p, record { report = r; tested = (limit, p) ∷ tested })

module _ {F : Type 0} (run : List (SweepAttempt F) → SweepAttempt F → SweepAttempt F)
    (cancelled : List (SweepAttempt F) → Bool) (cfg : Config) where
  -- The rounds `repetition` to `cfg.Repetitions`, `left` of them; no verdict when the context is done.
  unfoldable pub repeat : ℕ → ℕ → ℕ → Bool → SweepReport F → Option Bool × SweepReport F
  repeat zero limit repetition passed r = (some passed, r)
  repeat (suc left) limit repetition passed r =
      let attempt = run r.attempts (new_attempt cfg.strategy limit repetition) in
      let rest =
        repeat left limit (repetition + 1) (passed && attempt.passed) (record_attempt attempt r) in
      if cancelled r.attempts then (none, r) else rest

  -- The closure `test`.
  unfoldable pub test : ℕ → Progress F → Option Bool × Progress F
  test limit s = elim (verdict limit s.tested) [
    | some p ↦ (some p, s)
    | none ↦ conclude limit s.tested (repeat (pos_part cfg.repetitions) limit 1 true s.report)
  ]

  -- `for pass-fail > cfg.StepMiB`, on fuel, and the report behind it. `none`: the fuel ran out.
  unfoldable pub narrow : ℕ → ℕ → ℕ → Progress F → Option (Outcome F)
  narrow zero fail pass s = none
  narrow (suc fuel) fail pass s =
      let r = s.report in
      let resolved : Option (Outcome F) = some (
        record r { minimum_pass_mib = pass; greatest_fail_mib = fail; boundary_resolved = true },
        none,
      ) in
      let mid = middle cfg fail pass in
      let (p, s') = test mid s in
      let split : Option (Outcome F) = elim p [
        | none ↦ some (s'.report, some context_done)
        | some true ↦ narrow fuel fail mid s'
        | some false ↦ narrow fuel mid pass s'
      ] in
      if ltb (step cfg) (pass - fail) then split else resolved

  unfoldable pub after_lower : ℕ → ℕ → Option Bool × Progress F → Option (Outcome F)
  after_lower low high (none, s) = some (s.report, some context_done)
  after_lower low high (some true, s) =
      let r = s.report in some (record r { minimum_pass_mib = low }, none)
  after_lower low high (some false, s) = narrow (suc (high - low)) low high s

  unfoldable pub after_upper : ℕ → ℕ → Option Bool × Progress F → Option (Outcome F)
  after_upper low high (none, s) = some (s.report, some context_done)
  after_upper low high (some false, s) =
      let r = s.report in
      some (record r { greatest_fail_mib = high }, some (upper_did_not_pass high))
  after_upper low high (some true, s) = after_lower low high (test low s)

  unfoldable pub search : Option (Outcome F)
  search =
      if is_invalid cfg
      then some (new_report cfg, some invalid_configuration)
      else if ltb (upper cfg) (lower cfg)
      then some (new_report cfg, some empty_range)
      else after_upper (lower cfg) (upper cfg) (test (upper cfg) (start cfg))
