-- ===== src/Tests/Harness.antt =====
-- A run of the harness over a log of two files, without its monitor.
use Prim.Native.Nat.{max}
use logrotate_cache_lab.Base.{
  ◌≡◌, ◌≢◌, ◌⊎◌, ◌↔◌, refl, true, false, none, some, Option, List, [], ◌∷◌, ◌++◌, Bytes, codes,
  str_eq, if◌then◌else◌, map, maximum,
}
use logrotate_cache_lab.Base.Int.{ℤ, pos}
use logrotate_cache_lab.Base.Sort.{sort_by, insert_by, ltb_bytes}
use logrotate_cache_lab.Report.{Sample, WriterState, RunSummary, SweepAttempt}
use logrotate_cache_lab.Integrity.{
  analyze, audit_files, audit_file, audit_lines, audit_line, count_record, see, seen_times, finish,
  find_missing, note_missing, store_file, new_report,
}
use logrotate_cache_lab.Integrity.Lines.{OpenFile, scan_file}
use logrotate_cache_lab.Integrity.Intact.{log_of}
use logrotate_cache_lab.Tests.Integrity.{run_id}
use logrotate_cache_lab.Tests.Metrics.{hundredths, sampled}
use logrotate_cache_lab.Strconv.{zero_pad, parse_uint}
use logrotate_cache_lab.Record.{encode, parse, prefix, has_space}
use logrotate_cache_lab.Rotator.{read_events}
use logrotate_cache_lab.Sweep.Docker.{classify_summary, functional, integral}
use logrotate_cache_lab.Harness.{
  Config, rename_reopen, baseline, is_invalid, wait_http, wait_command, stop_child, exited_well,
  ended, update_peaks, succeeds,
}
use logrotate_cache_lab.Harness.Driver.{
  can_listen, free_loopback_address, start_fails, Answers, Findings, monitor_child, collect,
  summarize, judged, first_failure, after_rotator, with_monitor, run,
}
use logrotate_cache_lab.Harness.Processes.{runs_after, run-calls}
use logrotate_cache_lab.Harness.Peaks.{anon_of, update_peaks-maximum}
use logrotate_cache_lab.Harness.Verdict.{run_summary, run-classify_summary}

abbrev pub join : Bytes → Bytes → Bytes
join dir name = dir ++ b'/' ∷ name

abbrev pub cfg : Config
cfg = record {
  executable = codes "loglab";
  writer_executable = [];
  run_id = run_id;
  strategy = rename_reopen;
  log_dir = codes "l";
  result_dir = codes "r";
  max_file_bytes = pos 128;
  rotations = pos 1;
  max_backups = pos 0;
  record_bytes = pos 64;
  bytes_per_second = pos 64;
  buffer_bytes = pos 64;
  flush_interval = pos 100000000;
  monitor_interval = pos 100000000;
  resident_bytes = pos 0;
  enable_monitor = false;
}

abbrev pub state : WriterState
state = record {
  generated = 3;
  written = 3;
  reopen_requests = 1;
  reopen_failures = 0;
  last_error = [];
}

unfoldable pub files : Bytes → Option OpenFile
files path =
    if str_eq path (codes "l/envoy.log.000001")
    then some (record { content = log_of run_id 64 (1 ∷ 2 ∷ []); read_fails = false })
    else if str_eq path (codes "l/envoy.log")
    then some (record { content = log_of run_id 64 (3 ∷ []); read_fails = false })
    else none

abbrev pub w : Answers
w = record {
  log_dir_fails = false;
  result_dir_fails = false;
  free_address = some (codes "127.0.0.1:4000");
  close_fails = false;
  start_answer = λ c. record { creates_log = true; runs = true };
  healthz =
      record { status = none; done = false } ∷ record { status = some 200; done = false } ∷ [];
  rotator_end = ended exited_well;
  reopens = some state ∷ [];
  writer_end = ended exited_well;
  monitor_end = ended exited_well;
  writer_state = some state;
  backups = some (codes "l/envoy.log.000001" ∷ []);
  open_file = files;
  integrity_fails = false;
  event_rows = some [];
  sample_rows = none;
  started_at = [];
  duration_ns = pos 1;
  memory = none;
  summary_fails = false;
}

abbrev found : Findings
found = record {
  state = state;
  integrity = (analyze files run_id 3 (codes "l/envoy.log" ∷ codes "l/envoy.log.000001" ∷ [])).0;
  events = [];
  samples = [];
}

abbrev summary : RunSummary ℤ
summary = summarize hundredths join cfg w found

returned : (run hundredths join cfg w).summary ≡ some summary
unfolding run is_invalid can_listen free_loopback_address start_fails wait_http with_monitor
    after_rotator first_failure wait_command stop_child collect sort_by insert_by ltb_bytes analyze
    audit_files audit_file scan_file files str_eq read_events encode has_space prefix zero_pad
returned = refl

run-calls_example : runs_after monitor_child false ((run hundredths join cfg w).calls) ≡ false
run-calls_example = run-calls hundredths join cfg w monitor_child

run_summary_example :
    ((summary.success ≡ true) ↔ (
      (summary.writer.reopen_failures ≡ 0)
      × (((cfg.strategy ≢ rename_reopen) × (cfg.strategy ≢ baseline))
          ⊎ ((summary.integrity.missing ≡ 0)
              × (summary.integrity.duplicates ≡ 0)
              × (summary.integrity.malformed ≡ 0)))))
    × ((summary.error ≡ []) ↔ (summary.success ≡ true))
run_summary_example = run_summary hundredths join cfg w summary returned

attempt : SweepAttempt ℤ
attempt = record {
  strategy = rename_reopen;
  limit_mib = 64;
  repetition = 1;
  exit_code = pos 0;
  oom = false;
  timed_out = false;
  functional_passed = false;
  integrity_passed = false;
  passed = false;
  failure_kind = [];
  error = [];
  summary = none;
}

attempt_passed : (classify_summary rename_reopen attempt summary).passed ≡ true
unfolding classify_summary functional integral summarize judged succeeds update_peaks files str_eq
    analyze audit_files audit_file audit_lines audit_line count_record see seen_times finish
    find_missing note_missing store_file scan_file encode has_space prefix zero_pad parse parse_uint
    new_report
attempt_passed = refl

run-classify_summary_example : summary.success ≡ true
run-classify_summary_example =
    run-classify_summary hundredths join cfg w summary attempt returned attempt_passed

abbrev peaks : List Sample
peaks = record (sampled 1 40) { memory_current = 70; rss = 20; anon = some 10 } ∷ sampled 2 30 ∷ []

update_peaks-maximum_example : update_peaks summary peaks ≡ record summary {
  peak_memory = max summary.peak_memory (maximum (map Sample.memory_current peaks));
  peak_rss = max summary.peak_rss (maximum (map Sample.rss peaks));
  peak_anon = max summary.peak_anon (maximum (map anon_of peaks));
}
update_peaks-maximum_example = update_peaks-maximum summary peaks
