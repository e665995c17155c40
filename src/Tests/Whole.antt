-- ===== src/Tests/Whole.antt =====
-- The harness over the files that a run of the writer left.
use mathlib.Core.List.{Permᴰ}
use logrotate_cache_lab.Base.{
  ◌≡◌, refl, true, false, none, some, Option, List, [], ◌∷◌, Bytes, codes, str_eq, if◌then◌else◌,
  arith,
}
use logrotate_cache_lab.Base.Int.{ℤ, ◌+ℤ◌, ◌-ℤ◌}
use logrotate_cache_lab.Base.Sort.{sort_by, insert_by, ltb_bytes}
use logrotate_cache_lab.Strconv.{zero_pad}
use logrotate_cache_lab.Record.{encode, has_space, prefix}
use logrotate_cache_lab.Report.{RunSummary}
use logrotate_cache_lab.Integrity.{analyze, audit_files, audit_file}
use logrotate_cache_lab.Integrity.Lines.{OpenFile, scan_file}
use logrotate_cache_lab.Integrity.Intact.{log_of}
use logrotate_cache_lab.Rotator.{read_events}
use logrotate_cache_lab.Writer.{
  add_credit, generate_tick, generate, reopen_tick, flush, after_write, write_all,
}
use logrotate_cache_lab.Writer.Loop.{loop, step, finish, save, reopen_logs}
use logrotate_cache_lab.Writer.Loop
use logrotate_cache_lab.Writer.Files.{Stored}
use logrotate_cache_lab.Harness.{is_invalid, wait_http, wait_command, stop_child}
use logrotate_cache_lab.Harness.Driver.{
  can_listen, free_loopback_address, start_fails, Answers, Findings, collect, summarize,
  first_failure, after_rotator, with_monitor, run,
}
use logrotate_cache_lab.Harness.Whole.{run-success}
use logrotate_cache_lab.Tests.Integrity.{run_id, run_id-IsRunId}
use logrotate_cache_lab.Tests.Metrics.{hundredths}
use logrotate_cache_lab.Tests.Harness.{cfg, join, w}
use logrotate_cache_lab.Tests.Writer.{
  cfg as writer_cfg, text, events, quiet, ended, clean, logs, few,
}

unfoldable left : Bytes → Option OpenFile
left path =
    if str_eq path (codes "l/envoy.log.000001")
    then some (record { content = log_of run_id 32 (1 ∷ 2 ∷ []); read_fails = false })
    else if str_eq path (codes "l/envoy.log")
    then some (record { content = log_of run_id 32 (3 ∷ 4 ∷ []); read_fails = false })
    else none

abbrev answers : Answers
answers = record w { writer_state = some ended.writer.state; open_file = left }

abbrev paths : List Bytes
paths = codes "l/envoy.log.000001" ∷ codes "l/envoy.log" ∷ []

stored : Stored left paths logs
unfolding left logs Loop.run loop step finish save reopen_logs generate_tick add_credit generate
    reopen_tick flush after_write write_all encode prefix has_space zero_pad ◌+ℤ◌ ◌-ℤ◌ str_eq
stored = (refl, (refl, tt))

abbrev found : Findings
found = record {
  state = ended.writer.state;
  integrity =
      (analyze left run_id ended.writer.state.generated
        (codes "l/envoy.log" ∷ codes "l/envoy.log.000001" ∷ [])).0;
  events = [];
  samples = [];
}

abbrev summary : RunSummary ℤ
summary = summarize hundredths join cfg answers found

returned : (run hundredths join cfg answers).summary ≡ some summary
unfolding run is_invalid can_listen free_loopback_address start_fails wait_http with_monitor
    after_rotator first_failure wait_command stop_child collect sort_by insert_by ltb_bytes analyze
    audit_files audit_file scan_file left str_eq read_events encode has_space prefix zero_pad
returned = refl

run-success_example : summary.success ≡ true
unfolding logs
run-success_example =
    run-success text writer_cfg true events quiet hundredths join cfg answers paths
      (codes "l/envoy.log.000001" ∷ []) summary run_id-IsRunId (omega arith) (omega arith) refl
      clean few refl refl (Permᴰ.cons refl (Permᴰ.cons refl Permᴰ.nil)) stored returned
