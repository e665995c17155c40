-- ===== src/Sweep/Docker.antt =====
-- internal/sweep/docker.go: one Docker attempt, its verdict, and the search over such attempts. What
-- the operating system, the clock and the `docker` command answer is the record `Answers`; the names
-- of directories, volumes and containers are not modelled, and the arguments of `docker run` are in
-- Harness/Children.
pub mod Verdict
pub mod Attempt
pub mod Driver
use logrotate_cache_lab.Base.{
  ℕ, suc, ◌+◌, Bool, true, false, not, ◌&&◌, ◌||◌, Option, none, some, List, [], ◌∷◌, ◌++◌, Bytes,
  codes, ltb, ◌==◌, if◌then◌else◌, str_eq, Result, ok, err, length,
}
use mathlib.Core.Option
use logrotate_cache_lab.Base.Int.{ℤ, pos, negsuc, eq_ℤ, leb_ℤ}
use logrotate_cache_lab.Report.{
  SweepAttempt, SweepReport, RunSummary, IntegrityReport, WorkloadConfig, schema_version,
}
use logrotate_cache_lab.Sweep.Search.{Config, Outcome, SearchError, search}

-- `rotator.Strategy`, a string.
abbrev pub baseline : Bytes
baseline = codes "baseline"

abbrev pub copytruncate : Bytes
copytruncate = codes "copytruncate"

abbrev pub rename_reopen : Bytes
rename_reopen = codes "rename-reopen"

-- The image and the result root name things outside the model. Durations are in nanoseconds.
pub record DockerConfig : Type 0 where
  pub lower_mib : ℤ
  pub upper_mib : ℤ
  pub step_mib : ℤ
  pub repetitions : ℤ
  pub max_file_bytes : ℤ
  pub bytes_per_second : ℤ
  pub resident_bytes : ℤ
  pub rotations : ℤ
  pub max_backups : ℤ
  pub record_bytes : ℤ
  pub buffer_bytes : ℤ
  pub flush_interval : ℤ
  pub monitor_interval : ℤ
  pub attempt_timeout : ℤ

unfoldable pub docker_workload : DockerConfig → WorkloadConfig
docker_workload cfg = record {
  max_file_bytes = cfg.max_file_bytes;
  rotations = cfg.rotations;
  max_backups = cfg.max_backups;
  record_bytes = cfg.record_bytes;
  bytes_per_second = cfg.bytes_per_second;
  buffer_bytes = cfg.buffer_bytes;
  flush_interval_ns = cfg.flush_interval;
  monitor_interval_ns = cfg.monitor_interval;
  resident_bytes = cfg.resident_bytes;
}

-- `strings.TrimSpace`, on ASCII.
is_space : ℕ → Bool
is_space c = c == b' ' || (c == 9 || (c == 10 || (c == 11 || (c == 12 || c == 13))))

trim_left : Bytes → Bytes
trim_left [] = []
trim_left (c ∷ s) = let rest = trim_left s in if is_space c then rest else c ∷ s

trim_right : Bytes → Bytes
trim_right [] = []
trim_right (c ∷ s) = elim (trim_right s) [
  | [] ↦ if is_space c then [] else c ∷ []
  | d ∷ t ↦ c ∷ d ∷ t
]

unfoldable pub trim_space : Bytes → Bytes
unfolding is_space trim_left trim_right
trim_space s = trim_right (trim_left s)

-- `containerOOMKilled`, by the output of `docker inspect`, if the command succeeded.
unfoldable pub container_oom_killed : Option Bytes → Bool
container_oom_killed none = false
container_oom_killed (some output) = str_eq (trim_space output) (codes "true")

-- What a turn of `waitLoop` meets: the command ended, a tick with the output of `docker inspect`, or
-- the end of the attempt's context.
pub data WaitEvent : Type 0 where
  command_done : WaitEvent
  tick : Option Bytes → WaitEvent
  context_ended : WaitEvent

-- `waitLoop`: whether it ended because the container was killed for its memory. In each case the
-- command's own end is waited for. The end of the list is the end of the command.
unfoldable pub wait_loop : List WaitEvent → Bool
wait_loop [] = false
wait_loop (command_done ∷ events) = false
wait_loop (tick output ∷ events) =
    let rest = wait_loop events in if container_oom_killed output then true else rest
wait_loop (context_ended ∷ events) = false

-- How `cmd.Wait` ended: with no error, with an exit code, or with another error.
pub data WaitResult : Type 0 where
  exited_well : WaitResult
  exit_error : ℤ → WaitResult
  wait_error : WaitResult

abbrev exit_code_of : ℤ → WaitResult → ℤ
exit_code_of default exited_well = default
exit_code_of default (exit_error code) = code
exit_code_of default wait_error = default

-- The answers of the world to one attempt; an error is its text, for the volume with the output of
-- the command.
pub record Answers (F : Type 0) : Type 0 where
  pub result_root : Result Bytes Bytes
  pub make_run_dir : Result Bytes Bytes
  pub chmod_run_dir : Result Bytes Bytes
  pub create_volume : Result (Bytes × Bytes) Bytes
  pub start_command : Result Bytes Bytes
  pub wait_events : List WaitEvent
  pub wait_result : WaitResult
  pub deadline_exceeded : Bool
  pub output : Bytes
  pub read_summary : Result Bytes Bytes
  pub parse_summary : Bytes → Result Bytes (RunSummary F)

-- `prepareResultDir`
unfoldable pub prepare_result_dir : Result Bytes Bytes → Result Bytes Bytes → Result Bytes Bytes
prepare_result_dir (err e) chmod = err e
prepare_result_dir (ok _) chmod = chmod

abbrev pub prepared : {F : Type 0} → Answers F → Result Bytes Bytes
prepared w = prepare_result_dir w.make_run_dir w.chmod_run_dir

-- No gap, repeat, bad record, record of another run or descending order.
unfoldable pub integral : IntegrityReport → Bool
integral r =
    r.missing == 0
    && (r.duplicates == 0
        && (r.malformed == 0 && (r.wrong_run_id == 0 && r.descending_transitions == 0)))

abbrev pub search_config : DockerConfig → Bytes → Config
search_config cfg strategy = record {
  lower_mib = cfg.lower_mib;
  upper_mib = cfg.upper_mib;
  step_mib = cfg.step_mib;
  repetitions = cfg.repetitions;
  strategy = strategy;
}

module _ {F : Type 0} where
  unfoldable pub classify_process_failure :
      SweepAttempt F → ℤ → Bool → Bool → Bytes → SweepAttempt F
  classify_process_failure attempt exit_code timed_out oom_killed output =
      let oom = oom_killed || eq_ℤ exit_code (pos 137) in
      record attempt {
        exit_code = exit_code;
        timed_out = timed_out;
        oom = oom;
        error = if length output == 0 then codes "docker attempt failed" else output;
        failure_kind =
            if oom then codes "oom" else if timed_out then codes "timeout" else codes "functional";
      }

  unfoldable pub functional : RunSummary F → Bool
  functional s =
      eq_ℤ s.schema_version schema_version
      && (eq_ℤ s.integrity.schema_version schema_version && s.writer.reopen_failures == 0)

  -- The last `if` of `classifySummary`.
  abbrev label : SweepAttempt F → SweepAttempt F
  label a =
      if not a.functional_passed
      then record a {
        failure_kind = codes "functional";
        error = codes "invalid summary schema or writer reopen failure";
      }
      else if not a.passed
      then record a {
        failure_kind = codes "integrity";
        error = codes "integrity acceptance failed";
      }
      else a

  unfoldable pub classify_summary : Bytes → SweepAttempt F → RunSummary F → SweepAttempt F
  classify_summary strategy attempt summary =
      let works = functional summary in
      let intact = integral summary.integrity in
      label (record attempt {
        summary = some summary;
        functional_passed = works;
        integrity_passed = intact;
        passed = works && (str_eq strategy copytruncate || intact);
      })

  fail : Bytes → SweepAttempt F → SweepAttempt F
  fail text attempt = record attempt { error = text; failure_kind = codes "functional" }

  -- An error with no failure kind.
  fail_unlabelled : Bytes → SweepAttempt F → SweepAttempt F
  fail_unlabelled text attempt = record attempt { error = text }

  parsed_summary : Bytes → SweepAttempt F → Result Bytes (RunSummary F) → SweepAttempt F
  parsed_summary strategy attempt (err e) = fail (codes "parse summary: " ++ e) attempt
  parsed_summary strategy attempt (ok summary) = classify_summary strategy attempt summary

  judge_summary : Bytes → Answers F → SweepAttempt F → Result Bytes Bytes → SweepAttempt F
  unfolding parsed_summary
  judge_summary strategy w attempt (err e) =
      fail (codes "read summary: " ++ (e ++ (codes "; output: " ++ w.output))) attempt
  judge_summary strategy w attempt (ok b) = parsed_summary strategy attempt (w.parse_summary b)

  judge_wait : Bytes → Answers F → SweepAttempt F → WaitResult → SweepAttempt F
  unfolding judge_summary
  judge_wait strategy w attempt exited_well =
      judge_summary strategy w (record attempt { exit_code = pos 0 }) w.read_summary
  judge_wait strategy w attempt (exit_error code) =
      classify_process_failure attempt code w.deadline_exceeded (wait_loop w.wait_events)
        (trim_space w.output)
  judge_wait strategy w attempt wait_error =
      classify_process_failure attempt (negsuc 0) w.deadline_exceeded (wait_loop w.wait_events)
        (trim_space w.output)

  after_start : Bytes → Answers F → SweepAttempt F → Result Bytes Bytes → SweepAttempt F
  unfolding judge_wait
  after_start strategy w attempt (err e) = classify_process_failure attempt (negsuc 0) false false e
  after_start strategy w attempt (ok _) = judge_wait strategy w attempt w.wait_result

  after_volume : Bytes → Answers F → SweepAttempt F → Result (Bytes × Bytes) Bytes → SweepAttempt F
  unfolding after_start
  after_volume strategy w attempt (err (e, out)) =
      fail_unlabelled (codes "create volume: " ++ (e ++ (codes ": " ++ trim_space out))) attempt
  after_volume strategy w attempt (ok _) = after_start strategy w attempt w.start_command

  after_prepare : Bytes → Answers F → SweepAttempt F → Result Bytes Bytes → SweepAttempt F
  unfolding after_volume
  after_prepare strategy w attempt (err e) = fail_unlabelled e attempt
  after_prepare strategy w attempt (ok _) = after_volume strategy w attempt w.create_volume

  after_root : Bytes → Answers F → SweepAttempt F → Result Bytes Bytes → SweepAttempt F
  unfolding after_prepare
  after_root strategy w attempt (err e) = fail (codes "resolve result root: " ++ e) attempt
  after_root strategy w attempt (ok _) = after_prepare strategy w attempt (prepared w)

  unfoldable pub docker_attempt : Bytes → Answers F → SweepAttempt F → SweepAttempt F
  unfolding after_root fail fail_unlabelled
  docker_attempt strategy w attempt = after_root strategy w attempt w.result_root

  with_workload : DockerConfig → Outcome F → Outcome F
  with_workload cfg (r, e) =
      (record r { attempt_timeout_ns = cfg.attempt_timeout; workload = docker_workload cfg }, e)

  -- The world may answer each attempt differently: its answers depend on the attempts before.
  unfoldable pub docker_search :
      (List (SweepAttempt F) → SweepAttempt F → Answers F)
      → (List (SweepAttempt F) → Bool)
      → DockerConfig
      → Bytes
      → Option (Outcome F)
  unfolding with_workload docker_workload
  docker_search world cancelled cfg strategy =
      Option.map (with_workload cfg) (
        search (λ h a. docker_attempt strategy (world h a) a) cancelled
          (search_config cfg strategy))
