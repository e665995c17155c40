-- ===== src/Harness/Driver.antt =====
-- `Run` of internal/harness/run.go: the children it starts and ends, and the summary of their files.
use logrotate_cache_lab.Base.{
  Bool, true, false, not, ◌||◌, Option, none, some, List, [], ◌∷◌, ◌++◌, Bytes, codes, str_eq, ◌==◌,
  if◌then◌else◌, length, Result, ok, err, ◌>>=◌, wrap,
}
use logrotate_cache_lab.Base.Int.{ℤ, pos_part}
use logrotate_cache_lab.Base.Sort.{sort_by, ltb_bytes}
use logrotate_cache_lab.FilePath.{base}
use logrotate_cache_lab.Report.{
  schema_version, Sample, RotationEvent, WriterState, IntegrityReport, WorkloadConfig, RunSummary,
}
use logrotate_cache_lab.Integrity.{analyze, AnalyzeError}
use logrotate_cache_lab.Integrity.Lines.{OpenFile}
use logrotate_cache_lab.Metrics.{Floats}
use logrotate_cache_lab.Metrics
use logrotate_cache_lab.Monitor.{RowError, read_samples}
use logrotate_cache_lab.Rotator.{read_events}
use logrotate_cache_lab.Cgroup.{Version, v1, v2, MemorySample}
use logrotate_cache_lab.Harness.{
  Config, rename_reopen, is_invalid, Poll, WaitError, wait_http, wait_reopens, CommandEnd,
  ChildError, wait_command, stop_child, update_peaks, succeeds,
}

pub data Child : Type 0 where
  writer_child : Child
  monitor_child : Child
  rotator_child : Child

-- What `Run` does to its children, in order; `polled` is the wait for the reopens, whose result is not
-- looked at.
pub data Call : Type 0 where
  started : Child → Call
  stopped : Child → Call
  waited : Child → Call
  polled : Option WaitError → Call

pub data HarnessError : Type 0 where
  invalid_configuration : HarnessError
  cannot_make_directory : HarnessError
  cannot_listen : HarnessError
  cannot_start : Child → HarnessError
  not_healthy : WaitError → HarnessError
  child_failed : Child → ChildError → HarnessError
  bad_writer_state : HarnessError
  cannot_list : HarnessError
  audit_failed : AnalyzeError → HarnessError
  cannot_write_integrity : HarnessError
  bad_events : HarnessError
  cannot_read_samples : HarnessError
  bad_samples : RowError → HarnessError
  cannot_write_summary : HarnessError

-- `startChild`: the child's log is made, then the command is started.
pub record StartAnswer : Type 0 where
  pub creates_log : Bool
  pub runs : Bool

-- The answers of the world. A file that was read is its contents, the writer's state decoded, and the
-- tables as rows; `memory` is what the group's counters gave.
pub record Answers : Type 0 where
  pub log_dir_fails : Bool
  pub result_dir_fails : Bool
  pub free_address : Option Bytes
  pub close_fails : Bool
  pub start_answer : Child → StartAnswer
  pub healthz : List Poll
  pub rotator_end : CommandEnd
  pub reopens : List (Option WriterState)
  pub writer_end : CommandEnd
  pub monitor_end : CommandEnd
  pub writer_state : Option WriterState
  pub backups : Option (List Bytes)
  pub open_file : Bytes → Option OpenFile
  pub integrity_fails : Bool
  pub event_rows : Option (List (List Bytes))
  pub sample_rows : Option (List (List Bytes))
  pub started_at : Bytes
  pub duration_ns : ℤ
  pub memory : Option MemorySample
  pub summary_fails : Bool

-- `freeLoopbackAddress`: the address of a listener that is closed again.
unfoldable pub free_loopback_address : Answers → Option Bytes
free_loopback_address w = if w.close_fails then none else w.free_address

abbrev is_some {ℓ} : {A : Type ℓ} → Option A → Bool
is_some none = false
is_some (some a) = true

unfoldable pub can_listen : Answers → Bool
unfolding free_loopback_address
can_listen w = is_some (free_loopback_address w)

-- Whether `startChild` returns an error.
unfoldable pub start_fails : Answers → Child → Bool
start_fails w child = let answer = w.start_answer child in not answer.creates_log || not answer.runs

-- What is read of the files.
pub record Findings : Type 0 where
  pub state : WriterState
  pub integrity : IntegrityReport
  pub events : List RotationEvent
  pub samples : List Sample

pub record Outcome (F : Type 0) : Type 0 where
  pub calls : List Call
  pub summary : Option (RunSummary F)
  pub error : Option HarnessError

abbrev pub or_error {ℓ} : {A : Type ℓ} → HarnessError → Option A → Result HarnessError A
or_error e none = err e
or_error e (some a) = ok a

abbrev pub unless_failed {ℓ} : {A : Type ℓ} → Bool → HarnessError → A → Result HarnessError A
unless_failed true e a = err e
unless_failed false e a = ok a

abbrev pub audited : IntegrityReport × Option AnalyzeError → Result HarnessError IntegrityReport
audited (r, none) = ok r
audited (r, some e) = err (audit_failed e)

abbrev version_name : Version → Bytes
version_name v1 = codes "v1"
version_name v2 = codes "v2"

abbrev pub workload_of : Config → WorkloadConfig
workload_of cfg = record {
  max_file_bytes = cfg.max_file_bytes;
  rotations = cfg.rotations;
  max_backups = cfg.max_backups;
  record_bytes = cfg.record_bytes;
  bytes_per_second = cfg.bytes_per_second;
  buffer_bytes = cfg.buffer_bytes;
  flush_interval_ns = cfg.flush_interval;
  monitor_interval_ns = cfg.monitor_interval;
  resident_bytes = cfg.resident_bytes;
}

-- The calls that end the writer and, where it is enabled, the monitor.
abbrev pub stops : Bool → List Call
stops enabled = stopped writer_child ∷ (if enabled then stopped monitor_child ∷ [] else [])

-- The wait for the reopens is only there after a rotator that succeeded.
abbrev pub poll_if : Bool → Option ChildError → Call → List Call
poll_if true none poll = poll ∷ []
poll_if false none poll = []
poll_if renames (some e) poll = []

abbrev pub polls : Config → Answers → List Call
polls cfg w =
    poll_if (str_eq cfg.strategy rename_reopen) (wait_command w.rotator_end)
      (polled (wait_reopens (pos_part cfg.rotations) w.reopens))

-- The rotator's error goes before the writer's, and that before the monitor's.
abbrev pub first_of :
    Option ChildError → Option ChildError → Option ChildError → Option HarnessError
first_of (some e) w m = some (child_failed rotator_child e)
first_of none (some e) m = some (child_failed writer_child e)
first_of none none (some e) = some (child_failed monitor_child e)
first_of none none none = none

unfoldable pub first_failure : Config → Answers → Option HarnessError
first_failure cfg w =
    first_of (wait_command w.rotator_end) (stop_child w.writer_end)
      (if cfg.enable_monitor then stop_child w.monitor_end else none)

module _ {F : Type 0} (float : Floats F) (join : Bytes → Bytes → Bytes) where
  abbrev pub active_path : Config → Bytes
  active_path cfg = join cfg.log_dir (codes "envoy.log")

  -- What is audited: the backups and the active file, by their names.
  abbrev pub audited_paths : Config → List Bytes → List Bytes
  audited_paths cfg backups = sort_by ltb_bytes (backups ++ active_path cfg ∷ [])

  abbrev pub with_memory : Option MemorySample → RunSummary F → RunSummary F
  with_memory none s = s
  with_memory (some m) s = record s {
    cgroup_version = version_name m.version;
    cache_source = m.cache_source;
  }

  -- The last fields of the summary.
  unfoldable pub judged : Config → RunSummary F → RunSummary F
  judged cfg s =
      let success = succeeds cfg.strategy s.writer s.integrity in
      record s {
        success = success;
        error = if success then [] else codes "acceptance criteria failed";
      }

  unfoldable pub summarize : Config → Answers → Findings → RunSummary F
  summarize cfg w found = judged cfg (
      with_memory w.memory (
        update_peaks
          (record {
            schema_version = schema_version;
            run_id = cfg.run_id;
            strategy = cfg.strategy;
            success = false;
            started_at = w.started_at;
            duration_ns = w.duration_ns;
            cgroup_version = [];
            cache_source = [];
            filesystem = [];
            rotations = cfg.rotations;
            workload = workload_of cfg;
            peak_memory = 0;
            peak_rss = 0;
            peak_anon = 0;
            cache = Metrics.analyze float found.samples found.events;
            writer = found.state;
            writer_implementation =
                if length cfg.writer_executable == 0
                then codes "go"
                else base cfg.writer_executable;
            integrity = found.integrity;
            error = [];
          })
          found.samples))

  abbrev pub samples_of : Config → Answers → Result HarnessError (List Sample)
  samples_of cfg w =
      if cfg.enable_monitor
      then or_error cannot_read_samples w.sample_rows
        >>= (λ rows. wrap bad_samples (read_samples rows))
      else ok []

  -- The files are read once the children have ended, and the audit is written.
  unfoldable pub collect : Config → Answers → Result HarnessError Findings
  collect cfg w = do
    state ← or_error bad_writer_state w.writer_state
    backups ← or_error cannot_list w.backups
    integrity ← audited (analyze w.open_file cfg.run_id state.generated (audited_paths cfg backups))
    written ← unless_failed w.integrity_fails cannot_write_integrity integrity
    rows ← or_error bad_events w.event_rows
    samples ← samples_of cfg w
    ok record { state = state; integrity = integrity; events = read_events rows; samples = samples }

  abbrev pub gather :
      Config → Answers → Result HarnessError Findings → Result HarnessError (RunSummary F)
  gather cfg w (err e) = err e
  gather cfg w (ok found) = ok (summarize cfg w found)

  abbrev failed_run : List Call → HarnessError → Outcome F
  failed_run calls e = record { calls = calls; summary = none; error = some e }

  -- A summary that cannot be written is returned with the error.
  abbrev pub summary_written : List Call → Answers → Result HarnessError (RunSummary F) → Outcome F
  summary_written calls w (err e) = failed_run calls e
  summary_written calls w (ok s) = record {
    calls = calls;
    summary = some s;
    error = if w.summary_fails then some cannot_write_summary else none;
  }

  abbrev pub concluded :
      List Call → Answers → Result HarnessError (RunSummary F) → Option HarnessError → Outcome F
  concluded calls w r (some e) = failed_run calls e
  concluded calls w r none = summary_written calls w r

  unfoldable pub after_rotator : Config → Answers → List Call → Outcome F
  after_rotator cfg w calls =
      concluded (calls ++ waited rotator_child ∷ (polls cfg w ++ stops cfg.enable_monitor)) w
        (gather cfg w (collect cfg w)) (first_failure cfg w)

  unfoldable pub with_monitor : Config → Answers → List Call → Outcome F
  with_monitor cfg w calls =
      if start_fails w rotator_child
      then failed_run (calls ++ stops cfg.enable_monitor) (cannot_start rotator_child)
      else after_rotator cfg w (calls ++ started rotator_child ∷ [])

  abbrev writer_only : List Call
  writer_only = started writer_child ∷ []

  -- By the result of the wait for the writer.
  abbrev pub with_writer : Config → Answers → Option WaitError → Outcome F
  with_writer cfg w (some e) = failed_run (writer_only ++ stopped writer_child ∷ []) (not_healthy e)
  with_writer cfg w none =
      if cfg.enable_monitor
      then if start_fails w monitor_child
        then failed_run (writer_only ++ stopped writer_child ∷ []) (cannot_start monitor_child)
        else with_monitor cfg w (writer_only ++ started monitor_child ∷ [])
      else with_monitor cfg w writer_only

  unfoldable pub run : Config → Answers → Outcome F
  run cfg w =
      if is_invalid cfg
      then failed_run [] invalid_configuration
      else if w.log_dir_fails || w.result_dir_fails
      then failed_run [] cannot_make_directory
      else if can_listen w
      then if start_fails w writer_child
        then failed_run [] (cannot_start writer_child)
        else with_writer cfg w (wait_http w.healthz)
      else failed_run [] cannot_listen
