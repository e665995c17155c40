-- ===== src/Command/Program.antt =====
-- The commands `rotate` and `monitor` of cmd/loglab/main.go, and the program: its commands with their
-- flags.
use logrotate_cache_lab.Base.{
  Bool, Option, none, some, List, Bytes, codes, str_eq, if◌then◌else◌, Result, ok, err,
}
use logrotate_cache_lab.Base.Int.{ℤ, pos, leb_ℤ, eq_ℤ}
use logrotate_cache_lab.Report.{SweepReport}
use logrotate_cache_lab.Writer
use logrotate_cache_lab.Writer.{WriteError}
use logrotate_cache_lab.Rotator
use logrotate_cache_lab.Rotator.{
  Strategy, baseline, copy_truncate, rename_reopen, unknown, RotateError,
}
use logrotate_cache_lab.Monitor.Readings.{RunError}
use logrotate_cache_lab.Harness
use logrotate_cache_lab.Harness.Driver.{Outcome}
use logrotate_cache_lab.Sweep.Docker.{DockerConfig}
use logrotate_cache_lab.Sweep.Search
use logrotate_cache_lab.Command.{
  CommandError, bad_flags, rotate_failed, monitor_failed, Commands, writer_command, run_with,
  run_command,
}
use logrotate_cache_lab.Command.Sweep.{memory_sweep_command}
use logrotate_cache_lab.Command.Values.{run_defaults, milliseconds}
use logrotate_cache_lab.Command.Flags.{Values, FlagError, parse_flags}
use logrotate_cache_lab.Command.Flags.Tables.{
  writer_flags, RotateFlags, rotate_defaults, rotate_flags, MonitorFlags, monitor_defaults,
  monitor_flags, run_flags, SweepFlags, sweep_flag_defaults, sweep_flags,
}

-- `rotator.Strategy(strategy)`
unfoldable pub strategy_of : Bytes → Strategy
strategy_of name =
    if str_eq name (codes "baseline")
    then baseline
    else if str_eq name (codes "copytruncate")
    then copy_truncate
    else if str_eq name (codes "rename-reopen")
    then rename_reopen
    else unknown name

-- What `rotator.Run` is called with: the configuration, and the times of the clock beside it.
pub record RotatorStart : Type 0 where
  pub config : Rotator.Config
  pub poll_interval : ℤ
  pub start_time : Option ℤ

-- `monitor.Config`
pub record MonitorStart : Type 0 where
  pub run_id : Bytes
  pub strategy : Bytes
  pub active_path : Bytes
  pub samples_path : Bytes
  pub interval : ℤ
  pub start_time : Option ℤ

-- `if startUnixNano != 0 { cfg.StartTime = time.Unix(0, startUnixNano) }`
abbrev pub start_at : ℤ → Option ℤ
start_at nano = if eq_ℤ nano (pos 0) then none else some nano

unfoldable pub rotator_start : RotateFlags → RotatorStart
rotator_start f = record {
  config = record {
    strategy = strategy_of f.strategy;
    active_path = f.active_path;
    reopen_url = f.reopen_url;
    event_path = f.event_path;
    max_file_bytes = f.max_file_bytes;
    rotations = f.rotations;
    max_backups = f.max_backups;
  };
  poll_interval = f.poll_interval;
  start_time = start_at f.start_unix_nano;
}

unfoldable pub monitor_start : MonitorFlags → MonitorStart
monitor_start f = record {
  run_id = f.run_id;
  strategy = f.strategy;
  active_path = f.active_path;
  samples_path = f.samples_path;
  interval = f.interval;
  start_time = start_at f.start_unix_nano;
}

-- `if cfg.PollInterval <= 0` of `rotator.Run`, and the same of `monitor.Run`.
abbrev pub interval_or : ℤ → ℤ → ℤ
interval_or default interval = if leb_ℤ interval (pos 0) then default else interval

abbrev pub poll_interval_of : RotatorStart → ℤ
poll_interval_of s = interval_or (pos (milliseconds 20)) s.poll_interval

abbrev pub sample_interval_of : MonitorStart → ℤ
sample_interval_of s = interval_or (pos (milliseconds 100)) s.interval

abbrev pub parsed : {C : Type 0} → Result FlagError C → Option C
parsed (ok c) = some c
parsed (err e) = none

abbrev pub failed : {E : Type 0} → (E → CommandError) → Option E → Option CommandError
failed error none = none
failed error (some e) = some (error e)

-- `return err` of `fs.Parse`, or the run of what was parsed.
abbrev pub after_flags :
    {C : Type 0} → (C → Option CommandError) → Result FlagError C → Option CommandError
after_flags run (err e) = some bad_flags
after_flags run (ok c) = run c

unfoldable pub rotate_command :
    Values → (RotatorStart → Option RotateError) → List Bytes → Option CommandError
rotate_command values run args =
    after_flags (λ f. failed rotate_failed (run (rotator_start f)))
      (parse_flags values rotate_flags args rotate_defaults)

unfoldable pub monitor_command :
    Values → (MonitorStart → Option RunError) → List Bytes → Option CommandError
monitor_command values run args =
    after_flags (λ f. failed monitor_failed (run (monitor_start f)))
      (parse_flags values monitor_flags args monitor_defaults)

-- The parts that the program calls, and what the operating system gives: its own path, the environment
-- variable of the writer, the run id of the clock, and whether a call fails.
pub record System (F : Type 0) : Type 0 where
  pub values : Values
  pub listens : Bool
  pub run_writer : Writer.Config → Option WriteError
  pub run_rotator : RotatorStart → Option RotateError
  pub run_monitor : MonitorStart → Option RunError
  pub executable : Option Bytes
  pub writer_variable : Bytes
  pub fresh_run_id : Bytes
  pub run_harness : Harness.Config → Outcome F
  pub print_fails : Bool
  pub search_one : List (SweepReport F) → DockerConfig → Bytes → Search.Outcome F
  pub root_fails : Bool
  pub report_fails : Bool

module _ {F : Type 0} (system : System F) where
  abbrev pub parse_writer : Writer.Config → List Bytes → Option Writer.Config
  parse_writer defaults args = parsed (parse_flags system.values writer_flags args defaults)

  abbrev pub parse_run : List Bytes → Result FlagError Harness.Config
  parse_run args =
      parse_flags system.values run_flags args
        (run_defaults system.fresh_run_id system.writer_variable)

  -- `runCommand` from the parsed configuration on.
  abbrev pub run_parsed : Option Harness.Config → Option CommandError
  run_parsed cfg =
      run_with (λ args. parsed (parse_run args)) system.executable system.run_harness
        system.print_fails cfg system.executable

  abbrev sweep_values : SweepFlags → DockerConfig × Bytes
  sweep_values f = (f.config, f.strategy)

  abbrev swept_with : Result FlagError SweepFlags → Option (DockerConfig × Bytes)
  swept_with (err e) = none
  swept_with (ok f) = some (sweep_values f)

  abbrev parse_sweep : DockerConfig → Bytes → List Bytes → Option (DockerConfig × Bytes)
  parse_sweep config strategy args = swept_with (
      parse_flags system.values sweep_flags args
        (record sweep_flag_defaults { config = config; strategy = strategy }))

  abbrev pub program : Commands
  program = record {
    writer = writer_command parse_writer system.listens system.run_writer;
    rotate = rotate_command system.values system.run_rotator;
    monitor = monitor_command system.values system.run_monitor;
    run =
        run_command (λ args. parsed (parse_run args)) system.executable system.run_harness
          system.print_fails;
    memory_sweep = λ args.
        (memory_sweep_command system.search_one system.report_fails parse_sweep system.root_fails
          args).error;
  }
