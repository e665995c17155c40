-- ===== src/Command/Values.antt =====
-- The values of the flags of cmd/loglab/main.go that are not set.
use logrotate_cache_lab.Base.{ℕ, ◌*◌, true, [], Bytes, codes}
use logrotate_cache_lab.Base.Int.{pos}
use logrotate_cache_lab.Writer
use logrotate_cache_lab.Harness
use logrotate_cache_lab.Sweep.Docker.{DockerConfig}

abbrev pub mib : ℕ → ℕ
mib n = n * 1024 * 1024

abbrev pub milliseconds : ℕ → ℕ
milliseconds n = n * 1000000

abbrev pub writer_defaults : Writer.Config
writer_defaults = record {
  run_id = [];
  path = [];
  listen_address = codes "127.0.0.1:18080";
  state_path = [];
  record_bytes = pos 512;
  buffer_bytes = pos (64 * 1024);
  bytes_per_second = pos (mib 8);
  flush_interval = pos (milliseconds 100);
  resident_bytes = pos (mib 32);
}

abbrev pub run_defaults : Bytes → Bytes → Harness.Config
run_defaults run_id writer_executable = record {
  executable = [];
  writer_executable = writer_executable;
  run_id = run_id;
  strategy = codes "copytruncate";
  log_dir = codes "/var/log/loglab";
  result_dir = codes "/results";
  max_file_bytes = pos (mib 32);
  rotations = pos 4;
  max_backups = pos 0;
  record_bytes = pos 512;
  bytes_per_second = pos (mib 8);
  buffer_bytes = pos (64 * 1024);
  flush_interval = pos (milliseconds 100);
  monitor_interval = pos (milliseconds 100);
  resident_bytes = pos (mib 32);
  enable_monitor = true;
}

abbrev pub sweep_defaults : DockerConfig
sweep_defaults = record {
  lower_mib = pos 16;
  upper_mib = pos 512;
  step_mib = pos 4;
  repetitions = pos 3;
  max_file_bytes = pos (mib 32);
  rotations = pos 4;
  max_backups = pos 0;
  record_bytes = pos 512;
  bytes_per_second = pos (mib 8);
  buffer_bytes = pos (64 * 1024);
  flush_interval = pos (milliseconds 100);
  monitor_interval = pos (milliseconds 100);
  attempt_timeout = pos (milliseconds 90000);
  resident_bytes = pos (mib 32);
}
