-- ===== src/Harness/Children.antt =====
-- The arguments that `Run` of internal/harness/run.go gives to the processes that it starts, the values
-- that it fills in first, and the arguments that internal/sweep/docker.go gives to the container.
use logrotate_cache_lab.Base.{List, [], ◌∷◌, ◌++◌, Bytes, codes, ◌==◌, if◌then◌else◌, length}
use logrotate_cache_lab.Base.Int.{ℤ}
use logrotate_cache_lab.Strconv.{format_int}
use logrotate_cache_lab.Harness.{Config, writer_invocation}
use logrotate_cache_lab.Sweep.Docker.{DockerConfig}

-- `if cfg.Executable == "" { cfg.Executable = os.Args[0] }`
unfoldable pub with_executable : Bytes → Config → Config
with_executable program cfg = record cfg {
  executable = if length cfg.executable == 0 then program else cfg.executable;
}

-- The print of a duration, the join of two paths, the address that was free, and the time of the start.
module _ (print_duration : ℤ → Bytes) (join : Bytes → Bytes → Bytes) (listen : Bytes)
    (start : ℤ) where
  abbrev pub active_log : Config → Bytes
  active_log cfg = join cfg.log_dir (codes "envoy.log")

  abbrev pub base_url : Bytes
  base_url = codes "http://" ++ listen

  unfoldable pub writer_args : Config → List Bytes
  writer_args cfg =
      codes "--run-id"
      ∷ cfg.run_id
      ∷ codes "--path"
      ∷ active_log cfg
      ∷ codes "--listen"
      ∷ listen
      ∷ codes "--state"
      ∷ join cfg.result_dir (codes "writer-state.json")
      ∷ codes "--record-bytes"
      ∷ format_int cfg.record_bytes
      ∷ codes "--buffer-bytes"
      ∷ format_int cfg.buffer_bytes
      ∷ codes "--bytes-per-second"
      ∷ format_int cfg.bytes_per_second
      ∷ codes "--flush-interval"
      ∷ print_duration cfg.flush_interval
      ∷ codes "--resident-bytes"
      ∷ format_int cfg.resident_bytes
      ∷ []

  -- The program of the writer, and what it is started with.
  unfoldable pub writer_process : Config → Bytes × List Bytes
  unfolding writer_args
  writer_process cfg = writer_invocation cfg.executable cfg.writer_executable (writer_args cfg)

  unfoldable pub monitor_flag_args : Config → List Bytes
  monitor_flag_args cfg =
      codes "--run-id"
      ∷ cfg.run_id
      ∷ codes "--strategy"
      ∷ cfg.strategy
      ∷ codes "--active"
      ∷ active_log cfg
      ∷ codes "--samples"
      ∷ join cfg.result_dir (codes "samples.csv")
      ∷ codes "--interval"
      ∷ print_duration cfg.monitor_interval
      ∷ codes "--start-unix-nano"
      ∷ format_int start
      ∷ []

  unfoldable pub monitor_args : Config → List Bytes
  monitor_args cfg = codes "monitor" ∷ monitor_flag_args cfg

  unfoldable pub rotate_flag_args : Config → List Bytes
  rotate_flag_args cfg =
      codes "--strategy"
      ∷ cfg.strategy
      ∷ codes "--active"
      ∷ active_log cfg
      ∷ codes "--reopen-url"
      ∷ base_url
      ∷ codes "--events"
      ∷ join cfg.result_dir (codes "events.csv")
      ∷ codes "--max-file-bytes"
      ∷ format_int cfg.max_file_bytes
      ∷ codes "--rotations"
      ∷ format_int cfg.rotations
      ∷ codes "--max-backups"
      ∷ format_int cfg.max_backups
      ∷ codes "--start-unix-nano"
      ∷ format_int start
      ∷ []

  unfoldable pub rotate_args : Config → List Bytes
  rotate_args cfg = codes "rotate" ∷ rotate_flag_args cfg

-- What the program in the container is given after its `run`.
abbrev pub attempt_run_id : Bytes → ℤ → ℤ → Bytes
attempt_run_id strategy limit repetition =
    strategy ++ codes "-" ++ format_int limit ++ codes "-" ++ format_int repetition

unfoldable pub container_args : (ℤ → Bytes) → Bytes → ℤ → ℤ → DockerConfig → List Bytes
container_args print_duration strategy limit repetition cfg =
    codes "--run-id"
    ∷ attempt_run_id strategy limit repetition
    ∷ codes "--strategy"
    ∷ strategy
    ∷ codes "--log-dir"
    ∷ codes "/var/log/loglab"
    ∷ codes "--result-dir"
    ∷ codes "/results"
    ∷ codes "--max-file-bytes"
    ∷ format_int cfg.max_file_bytes
    ∷ codes "--rotations"
    ∷ format_int cfg.rotations
    ∷ codes "--max-backups"
    ∷ format_int cfg.max_backups
    ∷ codes "--record-bytes"
    ∷ format_int cfg.record_bytes
    ∷ codes "--bytes-per-second"
    ∷ format_int cfg.bytes_per_second
    ∷ codes "--buffer-bytes"
    ∷ format_int cfg.buffer_bytes
    ∷ codes "--flush-interval"
    ∷ print_duration cfg.flush_interval
    ∷ codes "--monitor-interval"
    ∷ print_duration cfg.monitor_interval
    ∷ codes "--resident-bytes"
    ∷ format_int cfg.resident_bytes
    ∷ []

abbrev megabytes : ℤ → Bytes
megabytes limit = format_int limit ++ codes "m"

-- The arguments of `docker`. `volume` and `container` are the names that the attempt made up, and
-- `run_dir` is the directory of its results.
module _ (print_duration : ℤ → Bytes) (volume container run_dir image : Bytes) where
  unfoldable pub docker_args : Bytes → ℤ → ℤ → DockerConfig → List Bytes
  docker_args strategy limit repetition cfg =
      codes "run"
      ∷ codes "--name"
      ∷ container
      ∷ (codes "--memory=" ++ megabytes limit)
      ∷ (codes "--memory-swap=" ++ megabytes limit)
      ∷ codes "--mount"
      ∷ (codes "source=" ++ volume ++ codes ",target=/var/log/loglab")
      ∷ codes "--mount"
      ∷ (codes "type=bind,source=" ++ run_dir ++ codes ",target=/results")
      ∷ image
      ∷ codes "run"
      ∷ container_args print_duration strategy limit repetition cfg
