-- ===== src/Monitor/Bounds.antt =====
-- What internal/monitor/monitor.go writes of the files of the system is read back by `ReadSamples`.
use logrotate_cache_lab.Base.{
  ℕ, ◌+◌, ◌%◌, ◌≤◌, ◌^◌, ◌≡◌, refl, ◌≢◌, ap, ◌∙◌, Bool, true, false, Option, none, some, List, [],
  ◌∷◌, ◌++◌, map, Bytes, codes, length, if◌then◌else◌, Result, ok, err, All, arith,
}
use logrotate_cache_lab.Base.Int.{IsInt64}
use logrotate_cache_lab.Report.{Sample}
use logrotate_cache_lab.Strconv.{max_uint64, max_int64}
use logrotate_cache_lab.Cgroup.{MemorySample, Reader, ReadError}
use logrotate_cache_lab.Cgroup.Sampling.{discover}
use logrotate_cache_lab.Cgroup.Bounds.{Ok, CountersBound, sample-Ok, rss-bound}
use logrotate_cache_lab.Monitor.{header, sample_row, read_samples}
use logrotate_cache_lab.Csv
use logrotate_cache_lab.Csv.{Piece, whole, IsPlain, IsPlain-of, ReadsBack, has_return, any_return}
use logrotate_cache_lab.Monitor.Written.{IsClean, sample_row-IsPlain, sample_rows-whole}
use logrotate_cache_lab.Monitor.Rows.{InRange, read_samples-sample_row}
use logrotate_cache_lab.Monitor.Files.{
  Config, FileInfo, FileStats, StatError, not_exist, stat_failed, bad_pattern, Stat, Tick,
  MonitorError, add_backup, add_backups, active_size, with_matches, with_active, memory_failed,
  files_failed, write_failed, log_file_stats, make_sample, sample_of, samples_before, Flush, run,
  sample_rows,
}
use logrotate_cache_lab.Monitor.Readings.{
  Setup, Readings, loop_failed, ending, tick_of, start, monitor_run,
}

-- The time is an `int64`, and so are the sizes of the files and the number of the backups.
pub record IsReal (active : Bytes) (r : Readings) : Type 0 where
  pub elapsed_bound : IsInt64 r.elapsed
  pub size_bound : (path : Bytes) (info : FileInfo) → r.stat path ≡ ok info → info.size ≤ max_int64
  pub count_bound :
      (matches : List Bytes)
      → r.glob (active ++ codes ".*") ≡ some matches
      → length matches ≤ max_int64

abbrev FilesBound : FileStats → Type 0
FilesBound s =
    (s.active_bytes ≤ max_uint64) × (s.backup_bytes ≤ max_uint64) × (s.backup_count ≤ max_int64)

abbrev OkFiles : Result StatError FileStats → Type 0
OkFiles (ok s) = FilesBound s
OkFiles (err e) = Unit

add_backup-bound :
    (o : Result StatError FileInfo) (s : FileStats)
    → s.backup_bytes ≤ max_uint64
    → ((add_backup o s).active_bytes ≡ s.active_bytes)
      × ((add_backup o s).backup_bytes ≤ max_uint64)
      × ((add_backup o s).backup_count ≤ s.backup_count + 1)
unfolding add_backup
add_backup-bound (err e) s h = (refl, h, omega arith)
add_backup-bound (ok info) s h = by_kind info.is_regular
  where
    added : Bool → FileStats
    added b =
        if b
        then record s {
          backup_bytes = (s.backup_bytes + info.size) % 2 ^ 64;
          backup_count = s.backup_count + 1;
        }
        else s

    by_kind :
        (b : Bool)
        → ((added b).active_bytes ≡ s.active_bytes)
          × ((added b).backup_bytes ≤ max_uint64)
          × ((added b).backup_count ≤ s.backup_count + 1)
    by_kind true = (refl, omega arith, omega arith)
    by_kind false = (refl, h, omega arith)

add_backups-bound :
    (stat : Stat) (matches : List Bytes) (s : FileStats)
    → s.active_bytes ≤ max_uint64
    → s.backup_bytes ≤ max_uint64
    → s.backup_count + length matches ≤ max_int64
    → FilesBound (add_backups stat matches s)
unfolding add_backups
add_backups-bound stat [] s a b c = (a, b, omega arith)
add_backups-bound stat (match ∷ matches) s a b c =
    let (same, bytes, count) = add_backup-bound (stat match) s b in
    add_backups-bound stat matches (add_backup (stat match) s) (rw same a) bytes (omega arith)

log_file_stats-OkFiles :
    (active : Bytes) (r : Readings)
    → IsReal active r
    → OkFiles (log_file_stats r.stat r.glob active)
unfolding log_file_stats active_size
log_file_stats-OkFiles active r real =
    with_size (r.stat active) refl (r.glob (active ++ codes ".*")) refl
  where
    counted :
        (size : ℕ) (o : Option (List Bytes))
        → size ≤ max_int64
        → r.glob (active ++ codes ".*") ≡ o
        → OkFiles (with_matches r.stat size o)
    counted size none h e = tt
    counted size (some matches) h e =
        let few = real.count_bound matches e in
        add_backups-bound r.stat matches _ (omega arith) (omega arith) (omega arith)

    with_size :
        (a : Result StatError FileInfo)
        → r.stat active ≡ a
        → (o : Option (List Bytes)) → r.glob (active ++ codes ".*") ≡ o
        → OkFiles (with_active r.stat o (active_size a))
    with_size (ok info) e o g = counted info.size o (real.size_bound active info e) g
    with_size (err not_exist) e o g = counted 0 o (omega arith) g
    with_size (err stat_failed) e o g = tt
    with_size (err bad_pattern) e o g = tt

make_sample-InRange :
    (cfg : Config) (t : Tick) (memory : MemorySample) (files : FileStats)
    → IsInt64 t.elapsed
    → t.rss ≤ max_uint64
    → CountersBound memory
    → FilesBound files
    → InRange (make_sample cfg t memory files)
unfolding make_sample
make_sample-InRange cfg t memory files time rss (current, cache, a, b, c) (active, backup, count) =
    ((time, (omega arith, omega arith)), current, cache, rss, active, backup, a, b, c)

-- The samples of ticks whose parts are in range.
ticks-InRange :
    (cfg : Config) (t : Tick) (ticks : List Tick)
    → IsInt64 t.elapsed
    → t.rss ≤ max_uint64
    → Ok CountersBound t.memory
    → OkFiles t.files
    → All InRange (samples_before cfg ticks)
    → All InRange (samples_before cfg (t ∷ ticks))
unfolding samples_before sample_of
ticks-InRange cfg t ticks time rss memory files rest =
    by_memory t.memory memory t.files files t.writes
  where
    first : Result ReadError MemorySample → Result StatError FileStats → Result MonitorError Sample
    first m f = elim m [
      | err e ↦ err (memory_failed e)
      | ok memory ↦ elim f [
        | err e ↦ err (files_failed e)
        | ok files ↦ ok (make_sample cfg t memory files)
      ]
    ]

    by_memory :
        (m : Result ReadError MemorySample)
        → Ok CountersBound m
        → (f : Result StatError FileStats) → OkFiles f
        → (b : Bool)
        → All InRange (elim (first m f) [
          | err x ↦ []
          | ok s ↦ if b then s ∷ samples_before cfg ticks else []
        ])
    by_memory (err e) hm f hf b = tt
    by_memory (ok m) hm (err e) hf b = tt
    by_memory (ok m) hm (ok f) hf false = tt
    by_memory (ok m) hm (ok f) hf true = (make_sample-InRange cfg t m f time rss hm hf, rest)

module _ (cfg : Config) (active : Bytes) (exists : Bytes → Bool) (reader : Reader) where
  abbrev ticks : List Readings → List Tick
  ticks readings = map (tick_of exists reader active) readings

  readings-InRange :
      (readings : List Readings)
      → All (IsReal active) readings
      → All InRange (samples_before cfg (ticks readings))
  unfolding samples_before tick_of
  readings-InRange [] h = tt
  readings-InRange (r ∷ readings) (real, h) =
      ticks-InRange cfg (tick_of exists reader active r) (ticks readings) real.elapsed_bound
        (rss-bound r.content r.scanned exists reader) (sample-Ok r.content r.scanned exists reader)
        (log_file_stats-OkFiles active r real) (readings-InRange readings h)

-- The texts of a sample are those of the configuration and of its tick.
abbrev HasTexts : Config → Sample → Type 0
HasTexts cfg s = IsClean s.timestamp × (s.strategy ≡ cfg.strategy) × (s.run_id ≡ cfg.run_id)

sample_of-HasTexts :
    (cfg : Config) (t : Tick) (rest : List Sample)
    → IsClean t.timestamp
    → All (HasTexts cfg) rest
    → All
        (HasTexts cfg)
        (elim (sample_of cfg t) [ err x ↦ [] | ok s ↦ if t.writes then s ∷ rest else [] ])
unfolding sample_of make_sample
sample_of-HasTexts cfg t rest time h = by_memory t.memory t.files t.writes
  where
    first : Result ReadError MemorySample → Result StatError FileStats → Result MonitorError Sample
    first m f = elim m [
      | err e ↦ err (memory_failed e)
      | ok memory ↦ elim f [
        | err e ↦ err (files_failed e)
        | ok files ↦ ok (make_sample cfg t memory files)
      ]
    ]

    by_memory :
        (m : Result ReadError MemorySample) (f : Result StatError FileStats) (b : Bool)
        → All (HasTexts cfg) (elim (first m f) [ err x ↦ [] | ok s ↦ if b then s ∷ rest else [] ])
    by_memory (err e) f b = tt
    by_memory (ok m) (err e) b = tt
    by_memory (ok m) (ok f) false = tt
    by_memory (ok m) (ok f) true = ((time, refl, refl), h)

samples-HasTexts :
    (cfg : Config) (active : Bytes) (exists : Bytes → Bool) (reader : Reader)
    (readings : List Readings)
    → All (λ r. IsClean r.timestamp) readings
    → All (HasTexts cfg) (samples_before cfg (map (tick_of exists reader active) readings))
unfolding samples_before tick_of
samples-HasTexts cfg active exists reader [] h = tt
samples-HasTexts cfg active exists reader (r ∷ readings) (time, h) =
    sample_of-HasTexts cfg (tick_of exists reader active r) _ time
      (samples-HasTexts cfg active exists reader readings h)

rows-IsPlain :
    (cfg : Config) (samples : List Sample)
    → IsClean cfg.strategy
    → IsClean cfg.run_id
    → All (HasTexts cfg) samples
    → All (IsPlain 16) (map sample_row samples)
rows-IsPlain cfg [] g r h = tt
rows-IsPlain cfg (s ∷ samples) g r ((time, same, named), h) =
    (sample_row-IsPlain s time (rw same g) (rw named r), rows-IsPlain cfg samples g r h)

header-IsPlain : IsPlain 16 header
unfolding has_return any_return
header-IsPlain = IsPlain-of header refl

-- What ReadSamples returns of a file, where the CSV reader finds its rows.
abbrev pub ReadAs : Csv.Reader → List Piece → List Sample → Type 0
ReadAs read file samples =
    (rows : List (List Bytes)) × (read file ≡ some rows) × (read_samples rows ≡ ok samples)

-- Where the monitor finds a reader of the control group and can make its file, and neither the write of a
-- row nor the flush at the end fails, ReadSamples reads from that file the samples of the ticks before
-- the first that failed, whatever the files of the group hold. The times, the sizes of the log's files
-- and their number are in range, the run id, the strategy and the time stamps have no carriage return,
-- and the CSV reader reads back rows of sixteen such fields.
pub read_samples-monitor_run :
    (read : Csv.Reader)
    → ReadsBack read 16
    → (setup : Setup) (cfg : Config) (active : Bytes) (readings : List Readings) (reader : Reader)
    → start setup (discover (λ path. none) (λ path. none) setup.exists) ≡ ok reader
    → All (IsReal active) readings
    → IsClean cfg.strategy
    → IsClean cfg.run_id
    → All (λ r. IsClean r.timestamp) readings
    → setup.flush_fails ≡ false
    → (monitor_run setup cfg active readings).1 ≢ some (loop_failed write_failed)
    → ReadAs read
        (monitor_run setup cfg active readings).0
        (samples_before cfg (map (tick_of setup.exists reader active) readings))
unfolding monitor_run run
read_samples-monitor_run read back setup cfg active readings reader starts real g r times flushes
      written =
    let ticks = map (tick_of setup.exists reader active) readings in
    let end : Flush = record { fails = setup.flush_fails; amount = setup.flush_amount } in
    let loop = sample_rows cfg end (header ∷ []) ticks in
    let samples = samples_before cfg ticks in
    let fine : loop.1 ≢ some write_failed = λ e. written (rw starts (ap ending e)) in
    (
      header ∷ map sample_row samples,
      rw starts (
          ap read (sample_rows-whole cfg end flushes (header ∷ []) ticks fine)
          ∙ back _ (
            header-IsPlain,
            rows-IsPlain cfg samples g r
                (samples-HasTexts cfg active setup.exists reader readings times),
          )),
      read_samples-sample_row samples
          (readings-InRange cfg active setup.exists reader readings real),
    )
