-- ===== src/Command/Started.antt =====
-- What the processes that internal/harness/run.go starts read of their arguments.
use logrotate_cache_lab.Base.{◌≡◌, refl, ◌∙◌, ◌∷◌, ◌++◌, Bytes, codes, str_eq, ok}
use logrotate_cache_lab.Base.Int.{ℤ, IsInt64}
use logrotate_cache_lab.Writer
use logrotate_cache_lab.Harness
use logrotate_cache_lab.Harness.Children.{
  writer_args, monitor_flag_args, monitor_args, rotate_flag_args, rotate_args,
}
use logrotate_cache_lab.Command.{
  exit_code, dispatch, main, made, writer_command, monitor_failed, rotate_failed,
}
use logrotate_cache_lab.Command.Program.{
  System, program, parse_writer, failed, monitor_start, rotator_start, monitor_command,
  rotate_command,
}
use logrotate_cache_lab.Command.Values.{writer_defaults}
use logrotate_cache_lab.Command.Flags.{
  Values, take_turn, parse_flags, read_argument, split_value, find_flag,
}
use logrotate_cache_lab.Command.Flags.Given.{
  IsExact, parse_from-nil, given_text, given_number, given_time,
}
use logrotate_cache_lab.Command.Flags.Tables.{
  writer_flags, RotateFlags, rotate_defaults, rotate_flags, MonitorFlags, monitor_defaults,
  monitor_flags,
}

-- The integers of the configuration are values of their Go types.
pub record IsMachine (cfg : Harness.Config) : Type 0 where
  pub max_file_bytes_bound : IsInt64 cfg.max_file_bytes
  pub rotations_bound : IsInt64 cfg.rotations
  pub max_backups_bound : IsInt64 cfg.max_backups
  pub record_bytes_bound : IsInt64 cfg.record_bytes
  pub bytes_per_second_bound : IsInt64 cfg.bytes_per_second
  pub buffer_bytes_bound : IsInt64 cfg.buffer_bytes
  pub flush_interval_bound : IsInt64 cfg.flush_interval
  pub monitor_interval_bound : IsInt64 cfg.monitor_interval
  pub resident_bytes_bound : IsInt64 cfg.resident_bytes

-- What the harness asks of its children, by its own configuration.
module _ (join : Bytes → Bytes → Bytes) (listen : Bytes) (start : ℤ) (cfg : Harness.Config) where
  abbrev pub asked_writer : Writer.Config
  asked_writer = record {
    run_id = cfg.run_id;
    path = join cfg.log_dir (codes "envoy.log");
    listen_address = listen;
    state_path = join cfg.result_dir (codes "writer-state.json");
    record_bytes = cfg.record_bytes;
    buffer_bytes = cfg.buffer_bytes;
    bytes_per_second = cfg.bytes_per_second;
    flush_interval = cfg.flush_interval;
    resident_bytes = cfg.resident_bytes;
  }

  abbrev pub asked_monitor : MonitorFlags
  asked_monitor = record {
    run_id = cfg.run_id;
    strategy = cfg.strategy;
    active_path = join cfg.log_dir (codes "envoy.log");
    samples_path = join cfg.result_dir (codes "samples.csv");
    interval = cfg.monitor_interval;
    start_unix_nano = start;
  }

  -- The rotator polls as often as it does where that is not said.
  abbrev pub asked_rotator : RotateFlags
  asked_rotator = record rotate_defaults {
    strategy = cfg.strategy;
    active_path = join cfg.log_dir (codes "envoy.log");
    reopen_url = codes "http://" ++ listen;
    event_path = join cfg.result_dir (codes "events.csv");
    max_file_bytes = cfg.max_file_bytes;
    rotations = cfg.rotations;
    max_backups = cfg.max_backups;
    start_unix_nano = start;
  }

module _ (values : Values) (exact : IsExact values) (join : Bytes → Bytes → Bytes) (listen : Bytes)
    (start : ℤ) (bound : IsInt64 start) (cfg : Harness.Config) (m : IsMachine cfg) where
  parse-writer_args :
      parse_flags values writer_flags
        (writer_args values.print_duration join listen start cfg)
        writer_defaults
      ≡ ok (asked_writer join listen start cfg)
  unfolding writer_args take_turn read_argument split_value find_flag str_eq
  parse-writer_args =
      given_text values writer_flags _ _ _ _ _ refl
      ∙ given_text values writer_flags _ _ _ _ _ refl
      ∙ given_text values writer_flags _ _ _ _ _ refl
      ∙ given_text values writer_flags _ _ _ _ _ refl
      ∙ given_number values writer_flags _ _ _ exact _ m.record_bytes_bound _ refl
      ∙ given_number values writer_flags _ _ _ exact _ m.buffer_bytes_bound _ refl
      ∙ given_number values writer_flags _ _ _ exact _ m.bytes_per_second_bound _ refl
      ∙ given_time values writer_flags _ _ _ exact _ m.flush_interval_bound _ refl
      ∙ given_number values writer_flags _ _ _ exact _ m.resident_bytes_bound _ refl
      ∙ parse_from-nil values writer_flags _

  parse-monitor_flag_args :
      parse_flags values monitor_flags
        (monitor_flag_args values.print_duration join listen start cfg)
        monitor_defaults
      ≡ ok (asked_monitor join listen start cfg)
  unfolding monitor_flag_args take_turn read_argument split_value find_flag str_eq
  parse-monitor_flag_args =
      given_text values monitor_flags _ _ _ _ _ refl
      ∙ given_text values monitor_flags _ _ _ _ _ refl
      ∙ given_text values monitor_flags _ _ _ _ _ refl
      ∙ given_text values monitor_flags _ _ _ _ _ refl
      ∙ given_time values monitor_flags _ _ _ exact _ m.monitor_interval_bound _ refl
      ∙ given_number values monitor_flags _ _ _ exact _ bound _ refl
      ∙ parse_from-nil values monitor_flags _

  parse-rotate_flag_args :
      parse_flags values rotate_flags
        (rotate_flag_args values.print_duration join listen start cfg)
        rotate_defaults
      ≡ ok (asked_rotator join listen start cfg)
  unfolding rotate_flag_args take_turn read_argument split_value find_flag str_eq
  parse-rotate_flag_args =
      given_text values rotate_flags _ _ _ _ _ refl
      ∙ given_text values rotate_flags _ _ _ _ _ refl
      ∙ given_text values rotate_flags _ _ _ _ _ refl
      ∙ given_text values rotate_flags _ _ _ _ _ refl
      ∙ given_number values rotate_flags _ _ _ exact _ m.max_file_bytes_bound _ refl
      ∙ given_number values rotate_flags _ _ _ exact _ m.rotations_bound _ refl
      ∙ given_number values rotate_flags _ _ _ exact _ m.max_backups_bound _ refl
      ∙ given_number values rotate_flags _ _ _ exact _ bound _ refl
      ∙ parse_from-nil values rotate_flags _

module _ {F : Type 0} (system : System F) (join : Bytes → Bytes → Bytes) (listen : Bytes)
    (start : ℤ) where
  abbrev print : ℤ → Bytes
  print = system.values.print_duration

  -- Each child runs its part with what the harness asks of it.
  abbrev pub RunsChildren : Harness.Config → Type 0
  RunsChildren cfg =
      (main (program system) (codes "writer" ∷ writer_args print join listen start cfg)
        ≡ exit_code (
            made (parse_writer system) system.run_writer
              (Writer.new system.listens (asked_writer join listen start cfg))))
      × (main (program system) (monitor_args print join listen start cfg)
          ≡ exit_code (
              failed monitor_failed
                (system.run_monitor (monitor_start (asked_monitor join listen start cfg)))))
      × (main (program system) (rotate_args print join listen start cfg)
          ≡ exit_code (
              failed rotate_failed
                (system.run_rotator (rotator_start (asked_rotator join listen start cfg)))))

  pub program-RunsChildren :
      IsExact system.values
      → IsInt64 start
      → (cfg : Harness.Config) → IsMachine cfg
      → RunsChildren cfg
  unfolding main dispatch str_eq writer_command monitor_command rotate_command monitor_args
      rotate_args
  program-RunsChildren exact bound cfg m = (
    rw (parse-writer_args system.values exact join listen start bound cfg m) refl,
    rw (parse-monitor_flag_args system.values exact join listen start bound cfg m) refl,
    rw (parse-rotate_flag_args system.values exact join listen start bound cfg m) refl,
  )
