-- ===== src/Monitor/Readings.antt =====
-- `Run` of internal/monitor/monitor.go from its start: the reader of the control group, the file of the
-- samples, and what a tick reads.
use logrotate_cache_lab.Base.{
  ℕ, Bool, not, Option, none, some, List, [], map, Bytes, if◌then◌else◌, Result, ok, err,
}
use logrotate_cache_lab.Base.Int.{ℤ}
use logrotate_cache_lab.Csv.{Piece}
use logrotate_cache_lab.Integrity.Lines.{Scanned}
use logrotate_cache_lab.Cgroup.{Reader, ReadError}
use logrotate_cache_lab.Cgroup.Sampling.{discover, sample, rss_from_cgroup_procs}
use logrotate_cache_lab.Monitor.Files.{Config, Stat, Tick, MonitorError, Flush, log_file_stats, run}

-- What the system answers before the loop, and to the flush at its end.
pub record Setup : Type 0 where
  pub exists : Bytes → Bool
  pub makes_directory : Bool
  pub creates : Bool
  pub writes_header : Bool
  pub flush_fails : Bool
  pub flush_amount : ℕ

-- The files at a tick, the time, and whether the row can be written, or else how many bytes are.
pub record Readings : Type 0 where
  pub content : Bytes → Option Bytes
  pub scanned : Bytes → Option Scanned
  pub stat : Stat
  pub glob : Bytes → Option (List Bytes)
  pub elapsed : ℤ
  pub timestamp : Bytes
  pub writes : Bool
  pub amount : ℕ

pub data RunError : Type 0 where
  no_reader : ReadError → RunError
  cannot_make_directory : RunError
  cannot_create : RunError
  header_failed : RunError
  loop_failed : MonitorError → RunError

-- The reader and the two functions that the loop calls; the error beside the sum is dropped.
unfoldable pub tick_of : (Bytes → Bool) → Reader → Bytes → Readings → Tick
tick_of exists reader active r = record {
  elapsed = r.elapsed;
  timestamp = r.timestamp;
  memory = sample r.content r.scanned exists reader;
  rss = (rss_from_cgroup_procs r.content r.scanned exists reader).0;
  files = log_file_stats r.stat r.glob active;
  writes = r.writes;
  amount = r.amount;
}

-- The reader, once the file is there with its header.
unfoldable pub start : Setup → Result ReadError Reader → Result RunError Reader
start setup (err e) = err (no_reader e)
start setup (ok reader) =
    if not setup.makes_directory
    then err cannot_make_directory
    else if not setup.creates
    then err cannot_create
    else if not setup.writes_header
    then err header_failed
    else ok reader

abbrev pub ending : Option MonitorError → Option RunError
ending (some e) = some (loop_failed e)
ending none = none

abbrev pub run_ticks :
    Setup → Config → Bytes → List Readings → Result RunError Reader → List Piece × Option RunError
run_ticks setup cfg active readings (err e) = ([], some e)
run_ticks setup cfg active readings (ok reader) =
    let end : Flush = record { fails = setup.flush_fails; amount = setup.flush_amount } in
    let (pieces, e) = run cfg end (map (tick_of setup.exists reader active) readings) in
    (pieces, ending e)

-- What is written to the file, and the error. The reader is found with `os.Stat` alone.
unfoldable pub monitor_run : Setup → Config → Bytes → List Readings → List Piece × Option RunError
monitor_run setup cfg active readings =
    run_ticks setup cfg active readings
      (start setup (discover (λ path. none) (λ path. none) setup.exists))
