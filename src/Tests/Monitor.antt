-- ===== src/Tests/Monitor.antt =====
-- The monitor over the files of a version 2 control group; its second tick finds no counter for the cache.
use logrotate_cache_lab.Base.{
  ℕ, length, ap, ◌≢◌, ◌≡◌, refl, true, false, Bool, none, some, Option, List, [], ◌∷◌, map, Bytes,
  codes, str_eq, Result, ok, err, arith, if◌then◌else◌,
}
use logrotate_cache_lab.Base.Int.{pos}
use logrotate_cache_lab.Strconv.{parse_uint}
use logrotate_cache_lab.Integrity.Lines.{Scanned}
use logrotate_cache_lab.Cgroup.{
  v2, Reader, fields_from, trim_right, trim_left, find_stat, set_stat, read_stat, read_stat_lines,
  stat_ptr, choose_cache,
}
use logrotate_cache_lab.Cgroup.Sampling.{
  discover, sample, read_uint, read_stats, rss_from_cgroup_procs, sum_rss, read_vm_rss, find_rss,
}
use logrotate_cache_lab.Monitor.Files.{
  FileInfo, StatError, Config, samples_before, write_failed, run, sample_rows, sample_of,
  make_sample, log_file_stats, active_size, add_backups, add_backup,
}
use logrotate_cache_lab.Monitor.Readings.{Setup, Readings, loop_failed, tick_of, start, monitor_run}
use logrotate_cache_lab.Monitor.Bounds.{ReadAs, IsReal, read_samples-monitor_run}
use logrotate_cache_lab.Csv.{no_return, has_return}
use logrotate_cache_lab.Tests.Csv.{whole_rows, whole_rows-ReadsBack}

abbrev root : Bytes
root = codes "/sys/fs/cgroup"

unfoldable is_v2 : Bytes → Bool
is_v2 path = str_eq path (codes "/sys/fs/cgroup/memory.current")

unfoldable content : Bytes → Option Bytes
content path = if is_v2 path then some (codes "900\n") else none

unfoldable scanned : List Bytes → Bytes → Option Scanned
scanned stats path =
    if str_eq path (codes "/sys/fs/cgroup/memory.stat")
    then some (record { tokens = stats; failed = false })
    else if str_eq path (codes "/sys/fs/cgroup/cgroup.procs")
    then some (record { tokens = codes "7" ∷ codes "" ∷ codes "8" ∷ []; failed = false })
    else if str_eq path (codes "/proc/7/status")
    then some (record { tokens = codes "Name: a" ∷ codes "VmRSS: 2 kB" ∷ []; failed = false })
    else none

abbrev reading : List Bytes → Readings
reading stats = record {
  content = content;
  scanned = scanned stats;
  stat = λ path. ok record { size = 11; is_regular = true };
  glob = λ pattern. some (codes "l.1" ∷ codes "l.2" ∷ []);
  elapsed = pos 120;
  timestamp = codes "2024-01-01T00:00:00Z";
  writes = true;
  amount = 0;
}

abbrev counters : List Bytes
counters = codes "anon 5" ∷ codes "file 600" ∷ codes "file_dirty 7" ∷ codes "kernel" ∷ []

abbrev readings : List Readings
readings = reading counters ∷ reading [] ∷ []

abbrev setup : Setup
setup = record {
  exists = is_v2;
  makes_directory = true;
  creates = true;
  writes_header = true;
  flush_fails = false;
  flush_amount = 0;
}

abbrev reader : Reader
reader = record { root = root; version = v2 }

reader_starts : start setup (discover (λ path. none) (λ path. none) is_v2) ≡ ok reader
unfolding start discover is_v2 str_eq
reader_starts = refl

size_of : Result StatError FileInfo → ℕ
size_of (ok info) = info.size
size_of (err e) = 0

count_of : Option (List Bytes) → ℕ
count_of none = 0
count_of (some matches) = length matches

reading-IsReal : (stats : List Bytes) → IsReal (codes "l") (reading stats)
unfolding size_of count_of
reading-IsReal stats = record {
  elapsed_bound = (omega arith, omega arith);
  size_bound = λ path info e. omega (arith, ap size_of e);
  count_bound = λ matches e. omega (arith, ap count_of e);
}

abbrev config : Config
config = record { run_id = codes "r"; strategy = codes "baseline" }

is_written : (monitor_run setup config (codes "l") readings).1 ≢ some (loop_failed write_failed)
unfolding monitor_run run sample_rows sample_of make_sample tick_of start discover is_v2 str_eq
    sample read_uint read_stats content scanned fields_from trim_right trim_left find_stat set_stat
    read_stat read_stat_lines stat_ptr choose_cache parse_uint log_file_stats active_size
    add_backups add_backup
is_written e = cc

read_samples-monitor_run_example :
    ReadAs whole_rows
      (monitor_run setup config (codes "l") readings).0
      (samples_before config (map (tick_of is_v2 reader (codes "l")) readings))
unfolding has_return
read_samples-monitor_run_example =
    read_samples-monitor_run whole_rows (whole_rows-ReadsBack 16) setup config (codes "l") readings
      reader reader_starts (reading-IsReal counters, (reading-IsReal [], tt))
      (no_return (codes "baseline") refl) (no_return (codes "r") refl)
      (
        no_return (codes "2024-01-01T00:00:00Z") refl,
        (no_return (codes "2024-01-01T00:00:00Z") refl, tt),
      )
      refl is_written

-- Where the first row is cut off, the rows are not read back.
abbrev full : List Readings
full = record (reading counters) { writes = false; amount = 9 } ∷ []

torn_row : whole_rows (monitor_run setup config (codes "l") full).0 ≡ none
unfolding whole_rows monitor_run run sample_rows sample_of make_sample tick_of start discover is_v2
    str_eq sample read_uint read_stats content scanned fields_from trim_right trim_left find_stat
    set_stat read_stat read_stat_lines stat_ptr choose_cache parse_uint log_file_stats active_size
    add_backups add_backup
torn_row = refl

memory_read :
    sample content (scanned counters) is_v2 reader
    ≡ ok (record {
      current = 900;
      cache = 600;
      anon = some 5;
      inactive_file = none;
      active_file = none;
      dirty = some 7;
      writeback = none;
      shmem = none;
      version = v2;
      cache_source = codes "file";
    })
unfolding sample read_uint read_stats content scanned is_v2 str_eq fields_from trim_right trim_left
    find_stat set_stat read_stat read_stat_lines stat_ptr choose_cache parse_uint
memory_read = refl

rss_read : rss_from_cgroup_procs content (scanned counters) is_v2 reader ≡ (2048, false)
unfolding rss_from_cgroup_procs sum_rss read_vm_rss find_rss scanned is_v2 str_eq fields_from
    trim_right trim_left parse_uint
rss_read = refl
