-- ===== src/Command/Contained.antt =====
-- What the program reads in the container of a Docker attempt, and what its children read then.
use logrotate_cache_lab.Base.{◌≡◌, refl, ◌∙◌, some, ◌∷◌, Bytes, codes, str_eq, ok}
use logrotate_cache_lab.Base.Int.{ℤ, IsInt64}
use logrotate_cache_lab.Harness
use logrotate_cache_lab.Harness.Driver.{workload_of}
use logrotate_cache_lab.Harness.Children.{attempt_run_id, container_args}
use logrotate_cache_lab.Sweep.Docker.{DockerConfig, docker_workload}
use logrotate_cache_lab.Command.{exit_code, dispatch, main, run_command}
use logrotate_cache_lab.Command.Program.{System, program, parse_run, run_parsed}
use logrotate_cache_lab.Command.Values.{run_defaults}
use logrotate_cache_lab.Command.Flags.{take_turn, read_argument, split_value, find_flag}
use logrotate_cache_lab.Command.Flags.Given.{
  IsExact, parse_from-nil, given_text, given_number, given_time,
}
use logrotate_cache_lab.Command.Flags.Tables.{run_flags}

pub record IsMachine (cfg : DockerConfig) : Type 0 where
  pub max_file_bytes_bound : IsInt64 cfg.max_file_bytes
  pub rotations_bound : IsInt64 cfg.rotations
  pub max_backups_bound : IsInt64 cfg.max_backups
  pub record_bytes_bound : IsInt64 cfg.record_bytes
  pub bytes_per_second_bound : IsInt64 cfg.bytes_per_second
  pub buffer_bytes_bound : IsInt64 cfg.buffer_bytes
  pub flush_interval_bound : IsInt64 cfg.flush_interval
  pub monitor_interval_bound : IsInt64 cfg.monitor_interval
  pub resident_bytes_bound : IsInt64 cfg.resident_bytes

module _ {F : Type 0} (system : System F) (strategy : Bytes) (limit repetition : ℤ)
    (cfg : DockerConfig) where
  -- The writer is the one that the container's environment names, and the monitor is enabled.
  abbrev pub asked_run : Harness.Config
  asked_run = record (run_defaults system.fresh_run_id system.writer_variable) {
    run_id = attempt_run_id strategy limit repetition;
    strategy = strategy;
    log_dir = codes "/var/log/loglab";
    result_dir = codes "/results";
    max_file_bytes = cfg.max_file_bytes;
    rotations = cfg.rotations;
    max_backups = cfg.max_backups;
    record_bytes = cfg.record_bytes;
    bytes_per_second = cfg.bytes_per_second;
    buffer_bytes = cfg.buffer_bytes;
    flush_interval = cfg.flush_interval;
    monitor_interval = cfg.monitor_interval;
    resident_bytes = cfg.resident_bytes;
  }

  parse_run-container_args :
      IsExact system.values
      → IsMachine cfg
      → parse_run system (container_args system.values.print_duration strategy limit repetition cfg)
        ≡ ok asked_run
  unfolding container_args take_turn read_argument split_value find_flag str_eq
  parse_run-container_args exact m =
      given_text system.values run_flags _ _ _ _ _ refl
      ∙ given_text system.values run_flags _ _ _ _ _ refl
      ∙ given_text system.values run_flags _ _ _ _ _ refl
      ∙ given_text system.values run_flags _ _ _ _ _ refl
      ∙ given_number system.values run_flags _ _ _ exact _ m.max_file_bytes_bound _ refl
      ∙ given_number system.values run_flags _ _ _ exact _ m.rotations_bound _ refl
      ∙ given_number system.values run_flags _ _ _ exact _ m.max_backups_bound _ refl
      ∙ given_number system.values run_flags _ _ _ exact _ m.record_bytes_bound _ refl
      ∙ given_number system.values run_flags _ _ _ exact _ m.bytes_per_second_bound _ refl
      ∙ given_number system.values run_flags _ _ _ exact _ m.buffer_bytes_bound _ refl
      ∙ given_time system.values run_flags _ _ _ exact _ m.flush_interval_bound _ refl
      ∙ given_time system.values run_flags _ _ _ exact _ m.monitor_interval_bound _ refl
      ∙ given_number system.values run_flags _ _ _ exact _ m.resident_bytes_bound _ refl
      ∙ parse_from-nil system.values run_flags _

  -- In the container the program runs the harness with the strategy of the attempt, and with the workload
  -- that the sweep's report states.
  abbrev pub RunsAttempt : Type 0
  RunsAttempt =
      (main (program system)
          (codes "run" ∷ container_args system.values.print_duration strategy limit repetition cfg)
        ≡ exit_code (run_parsed system (some asked_run)))
      × (asked_run.strategy ≡ strategy)
      × (workload_of asked_run ≡ docker_workload cfg)

  pub program-RunsAttempt : IsExact system.values → IsMachine cfg → RunsAttempt
  unfolding main dispatch str_eq run_command docker_workload
  program-RunsAttempt exact m = (rw (parse_run-container_args exact m) refl, refl, refl)
