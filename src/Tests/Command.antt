-- ===== src/Tests/Command.antt =====
-- `loglab run` over the files of a short run, and a memory sweep with a search that finds the same
-- minimum for every strategy.
use logrotate_cache_lab.Base.{
  ◌≡◌, refl, true, false, none, some, Option, List, [], ◌∷◌, Bytes, codes, str_eq,
}
use logrotate_cache_lab.Base.Int.{ℤ, pos}
use logrotate_cache_lab.Base.Sort.{sort_by, insert_by, ltb_bytes}
use logrotate_cache_lab.Strconv.{zero_pad, parse_uint}
use logrotate_cache_lab.Record.{encode, parse, has_space, prefix}
use logrotate_cache_lab.Integrity.{
  analyze, audit_files, audit_file, audit_lines, audit_line, count_record, see, seen_times, finish,
  find_missing, note_missing, store_file, new_report,
}
use logrotate_cache_lab.Integrity.Lines.{scan_file}
use logrotate_cache_lab.Rotator.{read_events}
use logrotate_cache_lab.Report.{SweepReport}
use logrotate_cache_lab.Sweep.Docker.{DockerConfig, docker_workload}
use logrotate_cache_lab.Sweep.Search.{Outcome}
use logrotate_cache_lab.Harness.{
  Config, is_invalid, wait_http, wait_command, stop_child, update_peaks, succeeds,
}
use logrotate_cache_lab.Harness.Driver.{
  can_listen, free_loopback_address, start_fails, collect, summarize, judged, first_failure,
  after_rotator, with_monitor, run,
}
use logrotate_cache_lab.Tests.Harness.{cfg, w, join, files}
use logrotate_cache_lab.Tests.Metrics.{hundredths}
use logrotate_cache_lab.Command.{Commands, main, dispatch, run_command}
use logrotate_cache_lab.Command.Exit.{Succeeded, main-Succeeded}
use logrotate_cache_lab.Command.Sweep.{memory_sweep_command, search_all, strategies_of}

abbrev flags : List Bytes → Option Config
flags args = some cfg

abbrev commands : Commands
commands = record {
  writer = λ args. none;
  rotate = λ args. none;
  monitor = λ args. none;
  run = run_command flags (some (codes "loglab")) (λ c. run hundredths join c w) false;
  memory_sweep = λ args. none;
}

exits_well : main commands (codes "run" ∷ []) ≡ 0
unfolding main dispatch run_command run is_invalid can_listen free_loopback_address start_fails
    wait_http with_monitor after_rotator first_failure wait_command stop_child collect sort_by
    insert_by ltb_bytes analyze audit_files audit_file scan_file files str_eq read_events encode
    has_space prefix zero_pad summarize judged succeeds update_peaks audit_lines audit_line
    count_record see seen_times finish find_missing note_missing store_file parse parse_uint
    new_report
exits_well = refl

main-Succeeded_example :
    (c : Config) × (path : Bytes) × (flags [] ≡ some c)
    × (some (codes "loglab") ≡ some path)
    × Succeeded hundredths join w (record c { executable = path })
main-Succeeded_example =
    main-Succeeded hundredths join w flags (some (codes "loglab")) false commands [] refl exits_well

abbrev pub found : DockerConfig → Bytes → SweepReport ℤ
found c strategy = record {
  schema_version = pos 1;
  strategy = strategy;
  minimum_pass_mib = 32;
  greatest_fail_mib = 28;
  boundary_resolved = true;
  baseline_minimum_mib = 0;
  delta_minimum_mib = pos 0;
  delta_resolved = false;
  oom_failures = 1;
  timeout_failures = 0;
  functional_failures = 0;
  integrity_failures = 0;
  lower_mib = c.lower_mib;
  upper_mib = c.upper_mib;
  step_mib = c.step_mib;
  repetitions = c.repetitions;
  attempt_timeout_ns = c.attempt_timeout;
  workload = docker_workload c;
  attempts = [];
}

abbrev search_same : List (SweepReport ℤ) → DockerConfig → Bytes → Outcome ℤ
search_same reports c strategy = (found c strategy, none)

abbrev sweep_parser : DockerConfig → Bytes → List Bytes → Option (DockerConfig × Bytes)
sweep_parser c strategy args = some (c, strategy)

sweep_ends : (memory_sweep_command search_same false sweep_parser false []).error ≡ none
unfolding memory_sweep_command search_all strategies_of str_eq
sweep_ends = refl
