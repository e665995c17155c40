-- ===== src/Monitor/Rows.antt =====
-- `sampleRow` and `ReadSamples` of internal/monitor/monitor.go.
use logrotate_cache_lab.Base.{
  ℕ, ◌+◌, ◌≤◌, ◌≡◌, ◌≢◌, refl, Option, none, some, List, [], ◌∷◌, map, Bytes, ok, All,
}
use logrotate_cache_lab.Base.Int.{IsInt64}
use logrotate_cache_lab.Report.{Sample}
use logrotate_cache_lab.Strconv.{max_uint64, parse_uint, parsed?}
use logrotate_cache_lab.Strconv.Format.{format_uint-ne-nil, parse_uint-format_uint}
use logrotate_cache_lab.Strconv.Signed.{parse_int-format_int}
use logrotate_cache_lab.Monitor.{
  ptr_string, parse_ptr, header, sample_row, read_row, read_rows, read_samples,
}

abbrev pub OptUint64 : Option ℕ → Type 0
OptUint64 none = Unit
OptUint64 (some n) = n ≤ max_uint64

-- What the Go types of the fields say.
abbrev pub InRange : Sample → Type 0
InRange s =
    (IsInt64 s.elapsed_ns × IsInt64 s.backup_count)
    × (s.memory_current ≤ max_uint64)
    × (s.cache ≤ max_uint64)
    × (s.rss ≤ max_uint64)
    × (s.active_bytes ≤ max_uint64)
    × (s.backup_bytes ≤ max_uint64)
    × (OptUint64 s.anon × OptUint64 s.inactive_file)
    × (OptUint64 s.active_file × OptUint64 s.dirty)
    × (OptUint64 s.writeback × OptUint64 s.shmem)

parse_ptr_of_ne : (s : Bytes) → s ≢ [] → parse_ptr s ≡ parsed? (parse_uint s)
unfolding parse_ptr
parse_ptr_of_ne [] h = absurd (h refl)
parse_ptr_of_ne (c ∷ s) h = refl

-- A counter that is absent is written as an empty field, and every counter is read back.
pub parse_ptr-ptr_string : (o : Option ℕ) → OptUint64 o → parse_ptr (ptr_string o) ≡ o
unfolding parse_ptr ptr_string
parse_ptr-ptr_string none _ = refl
parse_ptr-ptr_string (some n) h =
    rw (parse_ptr_of_ne _ (format_uint-ne-nil n), parse_uint-format_uint n h) refl

pub read_row-sample_row : (i : ℕ) (s : Sample) → InRange s → read_row i (sample_row s) ≡ ok s
unfolding read_row sample_row
read_row-sample_row i s ((he, hb), hm, hc, hr, ha, hk, (o1, o2), (o3, o4), (o5, o6)) =
    rw
      (
        parse_int-format_int s.elapsed_ns he,
        parse_int-format_int s.backup_count hb,
        parse_uint-format_uint s.memory_current hm,
        parse_uint-format_uint s.cache hc,
        parse_uint-format_uint s.rss hr,
        parse_uint-format_uint s.active_bytes ha,
        parse_uint-format_uint s.backup_bytes hk,
        parse_ptr-ptr_string s.anon o1,
        parse_ptr-ptr_string s.inactive_file o2,
        parse_ptr-ptr_string s.active_file o3,
        parse_ptr-ptr_string s.dirty o4,
        parse_ptr-ptr_string s.writeback o5,
        parse_ptr-ptr_string s.shmem o6,
      )
      refl

read_rows-sample_row :
    (i : ℕ) (samples : List Sample)
    → All InRange samples
    → read_rows i (map sample_row samples) ≡ ok samples
unfolding read_rows
read_rows-sample_row i [] _ = refl
read_rows-sample_row i (s ∷ samples) (h, hs) =
    rw (read_row-sample_row i s h, read_rows-sample_row (i + 1) samples hs) refl

-- ReadSamples reads back the samples whose rows stand under the header, absent counters included,
-- when their numbers are in the range of their Go types.
pub read_samples-sample_row :
    (samples : List Sample)
    → All InRange samples
    → read_samples (header ∷ map sample_row samples) ≡ ok samples
unfolding read_samples
read_samples-sample_row samples h = read_rows-sample_row 1 samples h
