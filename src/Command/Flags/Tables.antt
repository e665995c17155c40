-- ===== src/Command/Flags/Tables.antt =====
-- The flags of the subcommands of cmd/loglab/main.go. A subcommand's flags set the fields of its
-- configuration, and the values that it has beside one.
use logrotate_cache_lab.Base.{[], ◌∷◌, Bytes, codes}
use logrotate_cache_lab.Base.Int.{ℤ, pos}
use logrotate_cache_lab.Writer
use logrotate_cache_lab.Harness
use logrotate_cache_lab.Sweep.Docker.{DockerConfig}
use logrotate_cache_lab.Command.Values.{sweep_defaults, mib, milliseconds}
use logrotate_cache_lab.Command.Flags.{text, number, time, switch, Flags}

-- `writerCommand`
abbrev pub writer_flags : Flags Writer.Config
writer_flags =
    (codes "run-id", text (λ v c. record c { run_id = v }))
    ∷ (codes "path", text (λ v c. record c { path = v }))
    ∷ (codes "listen", text (λ v c. record c { listen_address = v }))
    ∷ (codes "state", text (λ v c. record c { state_path = v }))
    ∷ (codes "record-bytes", number (λ v c. record c { record_bytes = v }))
    ∷ (codes "buffer-bytes", number (λ v c. record c { buffer_bytes = v }))
    ∷ (codes "bytes-per-second", number (λ v c. record c { bytes_per_second = v }))
    ∷ (codes "flush-interval", time (λ v c. record c { flush_interval = v }))
    ∷ (codes "resident-bytes", number (λ v c. record c { resident_bytes = v }))
    ∷ []

-- `rotateCommand`; the strategy is a string until the flags are parsed.
pub record RotateFlags : Type 0 where
  pub strategy : Bytes
  pub active_path : Bytes
  pub reopen_url : Bytes
  pub event_path : Bytes
  pub max_file_bytes : ℤ
  pub rotations : ℤ
  pub max_backups : ℤ
  pub poll_interval : ℤ
  pub start_unix_nano : ℤ

abbrev pub rotate_defaults : RotateFlags
rotate_defaults = record {
  strategy = [];
  active_path = [];
  reopen_url = [];
  event_path = [];
  max_file_bytes = pos (mib 32);
  rotations = pos 4;
  max_backups = pos 0;
  poll_interval = pos (milliseconds 20);
  start_unix_nano = pos 0;
}

abbrev pub rotate_flags : Flags RotateFlags
rotate_flags =
    (codes "strategy", text (λ v c. record c { strategy = v }))
    ∷ (codes "active", text (λ v c. record c { active_path = v }))
    ∷ (codes "reopen-url", text (λ v c. record c { reopen_url = v }))
    ∷ (codes "events", text (λ v c. record c { event_path = v }))
    ∷ (codes "max-file-bytes", number (λ v c. record c { max_file_bytes = v }))
    ∷ (codes "rotations", number (λ v c. record c { rotations = v }))
    ∷ (codes "max-backups", number (λ v c. record c { max_backups = v }))
    ∷ (codes "poll-interval", time (λ v c. record c { poll_interval = v }))
    ∷ (codes "start-unix-nano", number (λ v c. record c { start_unix_nano = v }))
    ∷ []

-- `monitorCommand`
pub record MonitorFlags : Type 0 where
  pub run_id : Bytes
  pub strategy : Bytes
  pub active_path : Bytes
  pub samples_path : Bytes
  pub interval : ℤ
  pub start_unix_nano : ℤ

abbrev pub monitor_defaults : MonitorFlags
monitor_defaults = record {
  run_id = [];
  strategy = [];
  active_path = [];
  samples_path = [];
  interval = pos (milliseconds 100);
  start_unix_nano = pos 0;
}

abbrev pub monitor_flags : Flags MonitorFlags
monitor_flags =
    (codes "run-id", text (λ v c. record c { run_id = v }))
    ∷ (codes "strategy", text (λ v c. record c { strategy = v }))
    ∷ (codes "active", text (λ v c. record c { active_path = v }))
    ∷ (codes "samples", text (λ v c. record c { samples_path = v }))
    ∷ (codes "interval", time (λ v c. record c { interval = v }))
    ∷ (codes "start-unix-nano", number (λ v c. record c { start_unix_nano = v }))
    ∷ []

-- `runCommand`
abbrev pub run_flags : Flags Harness.Config
run_flags =
    (codes "run-id", text (λ v c. record c { run_id = v }))
    ∷ (codes "strategy", text (λ v c. record c { strategy = v }))
    ∷ (codes "log-dir", text (λ v c. record c { log_dir = v }))
    ∷ (codes "result-dir", text (λ v c. record c { result_dir = v }))
    ∷ (codes "writer-executable", text (λ v c. record c { writer_executable = v }))
    ∷ (codes "max-file-bytes", number (λ v c. record c { max_file_bytes = v }))
    ∷ (codes "rotations", number (λ v c. record c { rotations = v }))
    ∷ (codes "max-backups", number (λ v c. record c { max_backups = v }))
    ∷ (codes "record-bytes", number (λ v c. record c { record_bytes = v }))
    ∷ (codes "bytes-per-second", number (λ v c. record c { bytes_per_second = v }))
    ∷ (codes "buffer-bytes", number (λ v c. record c { buffer_bytes = v }))
    ∷ (codes "flush-interval", time (λ v c. record c { flush_interval = v }))
    ∷ (codes "monitor-interval", time (λ v c. record c { monitor_interval = v }))
    ∷ (codes "resident-bytes", number (λ v c. record c { resident_bytes = v }))
    ∷ (codes "monitor", switch (λ v c. record c { enable_monitor = v }))
    ∷ []

-- `memorySweepCommand`
pub record SweepFlags : Type 0 where
  pub config : DockerConfig
  pub image : Bytes
  pub result_root : Bytes
  pub output : Bytes
  pub strategy : Bytes

abbrev pub sweep_flag_defaults : SweepFlags
sweep_flag_defaults = record {
  config = sweep_defaults;
  image = codes "logrotate-cache-lab:dev";
  result_root = codes "results/sweep-attempts";
  output = codes "results/memory-sweep.json";
  strategy = codes "both";
}

abbrev of_config : (ℤ → DockerConfig → DockerConfig) → ℤ → SweepFlags → SweepFlags
of_config set v c = record c { config = set v c.config }

abbrev pub sweep_flags : Flags SweepFlags
sweep_flags =
    (codes "image", text (λ v c. record c { image = v }))
    ∷ (codes "result-root", text (λ v c. record c { result_root = v }))
    ∷ (codes "output", text (λ v c. record c { output = v }))
    ∷ (codes "strategy", text (λ v c. record c { strategy = v }))
    ∷ (codes "lower-mib", number (of_config (λ v c. record c { lower_mib = v })))
    ∷ (codes "upper-mib", number (of_config (λ v c. record c { upper_mib = v })))
    ∷ (codes "step-mib", number (of_config (λ v c. record c { step_mib = v })))
    ∷ (codes "repetitions", number (of_config (λ v c. record c { repetitions = v })))
    ∷ (codes "max-file-bytes", number (of_config (λ v c. record c { max_file_bytes = v })))
    ∷ (codes "rotations", number (of_config (λ v c. record c { rotations = v })))
    ∷ (codes "max-backups", number (of_config (λ v c. record c { max_backups = v })))
    ∷ (codes "record-bytes", number (of_config (λ v c. record c { record_bytes = v })))
    ∷ (codes "bytes-per-second", number (of_config (λ v c. record c { bytes_per_second = v })))
    ∷ (codes "buffer-bytes", number (of_config (λ v c. record c { buffer_bytes = v })))
    ∷ (codes "flush-interval", time (of_config (λ v c. record c { flush_interval = v })))
    ∷ (codes "monitor-interval", time (of_config (λ v c. record c { monitor_interval = v })))
    ∷ (codes "attempt-timeout", time (of_config (λ v c. record c { attempt_timeout = v })))
    ∷ (codes "resident-bytes", number (of_config (λ v c. record c { resident_bytes = v })))
    ∷ []
