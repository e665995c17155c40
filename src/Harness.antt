-- ===== src/Harness.antt =====
-- internal/harness/run.go: the parts that wait for a process, and those that judge a run. What the
-- other processes and the servers answer is given as lists, one entry for each turn of a loop.
pub mod Children
pub mod Driver
pub mod Processes
pub mod Peaks
pub mod Collected
pub mod Verdict
pub mod Whole
use logrotate_cache_lab.Base.{
  ℕ, Bool, true, false, ◌||◌, ◌&&◌, Option, none, some, List, [], ◌∷◌, Bytes, codes, str_eq, ltb,
  leb, ◌==◌, if◌then◌else◌, length,
}
use logrotate_cache_lab.Base.Int.{ℤ, pos, leb_ℤ, eq_ℤ}
use logrotate_cache_lab.Report.{Sample, WriterState, IntegrityReport, RunSummary}

pub record Config : Type 0 where
  pub executable : Bytes
  pub writer_executable : Bytes
  pub run_id : Bytes
  pub strategy : Bytes
  pub log_dir : Bytes
  pub result_dir : Bytes
  pub max_file_bytes : ℤ
  pub rotations : ℤ
  pub max_backups : ℤ
  pub record_bytes : ℤ
  pub bytes_per_second : ℤ
  pub buffer_bytes : ℤ
  pub flush_interval : ℤ
  pub monitor_interval : ℤ
  pub resident_bytes : ℤ
  pub enable_monitor : Bool

abbrev pub baseline : Bytes
baseline = codes "baseline"

abbrev pub rename_reopen : Bytes
rename_reopen = codes "rename-reopen"

unfoldable pub is_invalid : Config → Bool
is_invalid cfg =
    length cfg.run_id == 0
    || length cfg.log_dir == 0
    || length cfg.result_dir == 0
    || leb_ℤ cfg.max_file_bytes (pos 0)
    || leb_ℤ cfg.rotations (pos 0)

-- `writerInvocation`
unfoldable pub writer_invocation : Bytes → Bytes → List Bytes → Bytes × List Bytes
writer_invocation loglab_executable writer_executable args =
    if length writer_executable == 0
    then (loglab_executable, codes "writer" ∷ args)
    else (writer_executable, args)

-- A turn of `waitHTTP`: the status of the response, and whether the context is done.
pub record Poll : Type 0 where
  pub status : Option ℕ
  pub done : Bool

abbrev is_ok : Option ℕ → Bool
is_ok none = false
is_ok (some status) = status == 200

pub data WaitError : Type 0 where
  timed_out : WaitError
  cancelled : WaitError

-- The list ends with the deadline.
unfoldable pub wait_http : List Poll → Option WaitError
wait_http [] = some timed_out
wait_http (p ∷ polls) =
    let rest = wait_http polls in
    if is_ok p.status then none else if p.done then some cancelled else rest

-- A turn of `waitReopens`: the state in the response, where it could be decoded.
unfoldable pub wait_reopens : ℕ → List (Option WriterState) → Option WaitError
wait_reopens want [] = some timed_out
wait_reopens want (none ∷ polls) = wait_reopens want polls
wait_reopens want (some s ∷ polls) =
    let rest = wait_reopens want polls in if leb want s.reopen_requests then none else rest

-- How `cmd.Wait` returned.
pub data ExitStatus : Type 0 where
  exited_well : ExitStatus
  exit_error : ℤ → ExitStatus
  wait_error : ExitStatus

-- What came first: the end of the command, or the timeout or the context.
pub data CommandEnd : Type 0 where
  ended : ExitStatus → CommandEnd
  expired : CommandEnd

pub data ChildError : Type 0 where
  exit_failed : ExitStatus → ChildError
  context_done : ChildError
  stop_timeout : ChildError

-- `waitCommand`: a command that the context interrupts is killed.
unfoldable pub wait_command : CommandEnd → Option ChildError
wait_command (ended exited_well) = none
wait_command (ended (exit_error code)) = some (exit_failed (exit_error code))
wait_command (ended wait_error) = some (exit_failed wait_error)
wait_command expired = some context_done

-- `stopChild`, after the signal: a child that does not end is killed.
unfoldable pub stop_child : CommandEnd → Option ChildError
stop_child (ended exited_well) = none
stop_child (ended (exit_error code)) =
    if eq_ℤ code (pos 0) then none else some (exit_failed (exit_error code))
stop_child (ended wait_error) = some (exit_failed wait_error)
stop_child expired = some stop_timeout

-- `if v > peak { peak = v }`
abbrev pub raised : ℕ → ℕ → ℕ
raised peak v = if ltb peak v then v else peak

abbrev pub raised_anon : ℕ → Option ℕ → ℕ
raised_anon peak none = peak
raised_anon peak (some v) = raised peak v

module _ {F : Type 0} where
  abbrev pub update_peak : RunSummary F → Sample → RunSummary F
  update_peak r s = record r {
    peak_memory = raised r.peak_memory s.memory_current;
    peak_rss = raised r.peak_rss s.rss;
    peak_anon = raised_anon r.peak_anon s.anon;
  }

  unfoldable pub update_peaks : RunSummary F → List Sample → RunSummary F
  update_peaks r [] = r
  update_peaks r (s ∷ samples) = update_peaks (update_peak r s) samples

-- The rule for `summary.Success`.
unfoldable pub succeeds : Bytes → WriterState → IntegrityReport → Bool
succeeds strategy state report =
    let works = state.reopen_failures == 0 in
    if str_eq strategy rename_reopen || str_eq strategy baseline
    then works && (report.missing == 0 && (report.duplicates == 0 && report.malformed == 0))
    else works
