-- ===== src/Tests/Docker.antt =====
-- Docker attempts: a clean run, a killed container, and a volume that cannot be made.
use logrotate_cache_lab.Base.{
  ℕ, ◌≡◌, ◌⊎◌, ◌↔◌, refl, some, true, false, Bool, List, [], ◌∷◌, codes, str_eq, ok, err, ◌≢◌,
}
use logrotate_cache_lab.Base.Int.{pos}
use logrotate_cache_lab.Report.{SweepAttempt, RunSummary, CacheMetrics, schema_version}
use logrotate_cache_lab.Sweep.Search.{new_attempt, no_workload}
use logrotate_cache_lab.Sweep.Docker.{
  Answers, prepared, prepare_result_dir, DockerConfig, copytruncate, rename_reopen, exited_well,
  command_done, tick, functional, integral, classify_summary, docker_attempt,
}
use logrotate_cache_lab.Sweep.Docker.Verdict.{Works, Intact, classify_summary_verdict}
use logrotate_cache_lab.Sweep.Docker.Attempt.{
  Evidence, IsErr, docker_attempt-Evidence, docker_attempt_unlabelled,
}

abbrev metrics : CacheMetrics ℕ
metrics = record {
  start_bytes = 0;
  end_bytes = 0;
  max_bytes = 0;
  mean_bytes = 0;
  median_bytes = 0;
  p95_bytes = 0;
  overall_rate_bytes_per_second = 0;
  positive_rate_bytes_per_second = 0;
  reclaim_rate_bytes_per_second = 0;
  rotation_transient_max_bytes = 0;
  rotation_interval_slopes = [];
}

abbrev clean : RunSummary ℕ
clean = record {
  schema_version = schema_version;
  run_id = codes "run-a";
  strategy = rename_reopen;
  success = true;
  started_at = [];
  duration_ns = pos 0;
  cgroup_version = codes "v2";
  cache_source = codes "file";
  filesystem = [];
  rotations = pos 1;
  workload = no_workload;
  peak_memory = 0;
  peak_rss = 0;
  peak_anon = 0;
  cache = metrics;
  writer = record {
    generated = 3;
    written = 3;
    reopen_requests = 1;
    reopen_failures = 0;
    last_error = [];
  };
  writer_implementation = codes "go";
  integrity = record {
    schema_version = schema_version;
    expected = 3;
    valid_unique = 3;
    missing = 0;
    duplicates = 0;
    malformed = 0;
    wrong_run_id = 0;
    descending_transitions = 0;
    missing_examples = [];
    files = [];
  };
  error = [];
}

abbrev good : Answers ℕ
good = record {
  result_root = ok (codes "/r");
  make_run_dir = ok [];
  chmod_run_dir = ok [];
  create_volume = ok [];
  start_command = ok [];
  wait_events = tick (some (codes "false\n")) ∷ command_done ∷ [];
  wait_result = exited_well;
  deadline_exceeded = false;
  output = [];
  read_summary = ok (codes "s");
  parse_summary = λ b. ok clean;
}

abbrev no_disk : Answers ℕ
no_disk = record good { create_volume = err (codes "exit status 1", codes "no space") }

abbrev pub request : SweepAttempt ℕ
request = new_attempt rename_reopen 64 1

classify_summary_verdict_example :
    let r = classify_summary copytruncate request clean in
    ((r.passed ≡ true) ↔ (Works clean × ((copytruncate ≡ codes "copytruncate") ⊎ Intact clean)))
    × ((r.failure_kind ≡ codes "functional") ↔ (¬ Works clean))
    × ((r.failure_kind ≡ codes "integrity")
        ↔ (Works clean × (copytruncate ≢ codes "copytruncate") × (¬ Intact clean)))
    × ((r.failure_kind ≡ []) ↔ (r.passed ≡ true))
    × (r.summary ≡ some clean)
    × (r.limit_mib ≡ request.limit_mib)
    × (r.exit_code ≡ request.exit_code)
classify_summary_verdict_example = classify_summary_verdict copytruncate request clean refl

passes : (docker_attempt rename_reopen good request).passed ≡ true
unfolding docker_attempt prepare_result_dir classify_summary functional integral str_eq
passes = refl

docker_attempt-Evidence_example : Evidence rename_reopen good request
docker_attempt-Evidence_example = docker_attempt-Evidence rename_reopen good request refl passes

docker_attempt_unlabelled_example :
    let r = docker_attempt rename_reopen no_disk request in
    ((r.passed ≡ false) × (r.failure_kind ≡ []))
    ↔ ((¬ IsErr no_disk.result_root) × (IsErr (prepared no_disk) ⊎ IsErr no_disk.create_volume))
docker_attempt_unlabelled_example =
    docker_attempt_unlabelled rename_reopen no_disk request refl refl

abbrev pub docker_cfg : DockerConfig
docker_cfg = record {
  lower_mib = pos 16;
  upper_mib = pos 32;
  step_mib = pos 4;
  repetitions = pos 1;
  max_file_bytes = pos 33554432;
  bytes_per_second = pos 8388608;
  resident_bytes = pos 33554432;
  rotations = pos 4;
  max_backups = pos 0;
  record_bytes = pos 512;
  buffer_bytes = pos 65536;
  flush_interval = pos 100000000;
  monitor_interval = pos 100000000;
  attempt_timeout = pos 90000000000;
}

abbrev pub always_good : List (SweepAttempt ℕ) → SweepAttempt ℕ → Answers ℕ
always_good h a = good

abbrev pub live : List (SweepAttempt ℕ) → Bool
live h = false
