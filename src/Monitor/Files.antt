-- ===== src/Monitor/Files.antt =====
-- `LogFileStats` and `Run` of internal/monitor/monitor.go. The parameters `stat` and `glob` are the
-- calls of `os` and `filepath`.
use logrotate_cache_lab.Base.{
  ℕ, ◌+◌, ◌%◌, ◌^◌, Bool, Option, none, some, List, [], ◌∷◌, ◌++◌, map, Bytes, codes, Result, ok,
  err, if◌then◌else◌,
}
use logrotate_cache_lab.Base.Int.{ℤ, pos}
use logrotate_cache_lab.Report.{Sample}
use logrotate_cache_lab.Cgroup.{MemorySample, ReadError}
use logrotate_cache_lab.Csv.{Piece, whole, first_bytes}
use logrotate_cache_lab.Monitor.{header, sample_row}

pub record FileStats : Type 0 where
  pub active_bytes : ℕ
  pub backup_bytes : ℕ
  pub backup_count : ℕ

pub record FileInfo : Type 0 where
  pub size : ℕ
  pub is_regular : Bool

pub data StatError : Type 0 where
  not_exist : StatError
  stat_failed : StatError
  bad_pattern : StatError

abbrev pub Stat : Type 0
Stat = Bytes → Result StatError FileInfo

unfoldable pub add_backup : Result StatError FileInfo → FileStats → FileStats
add_backup (err e) s = s
add_backup (ok info) s =
    if info.is_regular
    then record s {
      backup_bytes = (s.backup_bytes + info.size) % 2 ^ 64;
      backup_count = s.backup_count + 1;
    }
    else s

unfoldable pub add_backups : Stat → List Bytes → FileStats → FileStats
add_backups stat [] s = s
add_backups stat (match ∷ matches) s = add_backups stat matches (add_backup (stat match) s)

-- An active file that is not there counts no bytes.
unfoldable pub active_size : Result StatError FileInfo → Result StatError ℕ
active_size (ok info) = ok info.size
active_size (err not_exist) = ok 0
active_size (err stat_failed) = err stat_failed
active_size (err bad_pattern) = err bad_pattern

abbrev pub with_matches : Stat → ℕ → Option (List Bytes) → Result StatError FileStats
with_matches stat size none = err bad_pattern
with_matches stat size (some matches) =
    ok (
      add_backups stat matches (record { active_bytes = size; backup_bytes = 0; backup_count = 0 }))

abbrev pub with_active :
    Stat → Option (List Bytes) → Result StatError ℕ → Result StatError FileStats
with_active stat matches (err e) = err e
with_active stat matches (ok size) = with_matches stat size matches

unfoldable pub log_file_stats :
    Stat → (Bytes → Option (List Bytes)) → Bytes → Result StatError FileStats
log_file_stats stat glob active =
    with_active stat (glob (active ++ codes ".*")) (active_size (stat active))

pub record Config : Type 0 where
  pub run_id : Bytes
  pub strategy : Bytes

-- One tick: the clock, what the readers return, and whether the row can be written, or else how many
-- bytes are.
pub record Tick : Type 0 where
  pub elapsed : ℤ
  pub timestamp : Bytes
  pub memory : Result ReadError MemorySample
  pub rss : ℕ
  pub files : Result StatError FileStats
  pub writes : Bool
  pub amount : ℕ

pub data MonitorError : Type 0 where
  memory_failed : ReadError → MonitorError
  files_failed : StatError → MonitorError
  write_failed : MonitorError
  flush_failed : MonitorError

unfoldable pub make_sample : Config → Tick → MemorySample → FileStats → Sample
make_sample cfg t memory files = record {
  elapsed_ns = t.elapsed;
  timestamp = t.timestamp;
  strategy = cfg.strategy;
  run_id = cfg.run_id;
  memory_current = memory.current;
  cache = memory.cache;
  rss = t.rss;
  anon = memory.anon;
  inactive_file = memory.inactive_file;
  active_file = memory.active_file;
  dirty = memory.dirty;
  writeback = memory.writeback;
  shmem = memory.shmem;
  active_bytes = files.active_bytes;
  backup_bytes = files.backup_bytes;
  backup_count = pos files.backup_count;
}

-- The sample of a tick, or the error that ends the loop.
unfoldable pub sample_of : Config → Tick → Result MonitorError Sample
sample_of cfg t = elim t.memory [
  | err e ↦ err (memory_failed e)
  | ok memory ↦ elim t.files [
    | err e ↦ err (files_failed e)
    | ok files ↦ ok (make_sample cfg t memory files)
  ]
]

-- The flush behind the loop: whether its write fails, and how many bytes it has written then.
pub record Flush : Type 0 where
  pub fails : Bool
  pub amount : ℕ

-- The rows that wait in the buffer are written, if there are any.
abbrev pub flush_pieces : Flush → List (List Bytes) → List Piece
flush_pieces end pending = if end.fails then first_bytes end.amount pending else map whole pending

abbrev flush_error : Flush → List (List Bytes) → Option MonitorError
flush_error end [] = none
flush_error end (row ∷ rows) = if end.fails then some flush_failed else none

-- The loop of `Run` by the ticks before the context is done: what it writes to the file, and the error.
-- The rows in the buffer are written with the row of the next tick, or by the flush behind the loop. A
-- write that fails may leave some first bytes, and nothing is written behind it.
unfoldable pub sample_rows :
    Config → Flush → List (List Bytes) → List Tick → List Piece × Option MonitorError
sample_rows cfg end pending [] = (flush_pieces end pending, flush_error end pending)
sample_rows cfg end pending (t ∷ ticks) =
    let (pieces, e) = sample_rows cfg end [] ticks in
    elim (sample_of cfg t) [
      | err x ↦ (flush_pieces end pending, some x)
      | ok s ↦
          let rows = pending ++ sample_row s ∷ [] in
          if t.writes
          then (map whole rows ++ pieces, e)
          else (first_bytes t.amount rows, some write_failed)
    ]

unfoldable pub run : Config → Flush → List Tick → List Piece × Option MonitorError
run cfg end ticks = sample_rows cfg end (header ∷ []) ticks

-- The samples of the ticks before the first one that fails.
unfoldable pub samples_before : Config → List Tick → List Sample
samples_before cfg [] = []
samples_before cfg (t ∷ ticks) =
    let rest = samples_before cfg ticks in
    elim (sample_of cfg t) [ err x ↦ [] | ok s ↦ if t.writes then s ∷ rest else [] ]
