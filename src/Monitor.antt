-- ===== src/Monitor.antt =====
-- internal/monitor/monitor.go: the samples of a run as rows of a CSV file. The CSV reader and writer
-- are Go's: a file is the list of its rows, and a row the list of its fields.
pub mod Rows
pub mod Files
pub mod Readings
pub mod Written
pub mod Bounds
use logrotate_cache_lab.Base.{
  ℕ, suc, ◌+◌, ◌%◌, ◌^◌, Bool, Option, none, some, List, [], ◌∷◌, ◌++◌, Bytes, codes, Result, ok,
  err, ◌>>=◌, length, if◌then◌else◌,
}
use logrotate_cache_lab.Base.Int.{ℤ, pos}
use logrotate_cache_lab.Report.{Sample}
use logrotate_cache_lab.Strconv.{format_uint, format_int, parse_uint, parse_int, value_or, parsed?}

unfoldable pub ptr_string : Option ℕ → Bytes
ptr_string none = []
ptr_string (some n) = format_uint n

unfoldable pub parse_ptr : Bytes → Option ℕ
parse_ptr [] = none
parse_ptr (c ∷ s) = parsed? (parse_uint (c ∷ s))

abbrev pub header : List Bytes
header =
    codes "elapsed_ns"
    ∷ codes "timestamp"
    ∷ codes "strategy"
    ∷ codes "run_id"
    ∷ codes "memory_current"
    ∷ codes "cache"
    ∷ codes "rss"
    ∷ codes "anon"
    ∷ codes "inactive_file"
    ∷ codes "active_file"
    ∷ codes "file_dirty"
    ∷ codes "file_writeback"
    ∷ codes "shmem"
    ∷ codes "active_bytes"
    ∷ codes "backup_bytes"
    ∷ codes "backup_count"
    ∷ []

unfoldable pub sample_row : Sample → List Bytes
sample_row s =
    format_int s.elapsed_ns
    ∷ s.timestamp
    ∷ s.strategy
    ∷ s.run_id
    ∷ format_uint s.memory_current
    ∷ format_uint s.cache
    ∷ format_uint s.rss
    ∷ ptr_string s.anon
    ∷ ptr_string s.inactive_file
    ∷ ptr_string s.active_file
    ∷ ptr_string s.dirty
    ∷ ptr_string s.writeback
    ∷ ptr_string s.shmem
    ∷ format_uint s.active_bytes
    ∷ format_uint s.backup_bytes
    ∷ format_int s.backup_count
    ∷ []

-- The number of the row, from 1, and its length.
pub data RowError : Type 0 where
  columns : ℕ → ℕ → RowError

abbrev uint_of : Bytes → ℕ
uint_of field = value_or 0 (parse_uint field)

abbrev int_of : Bytes → ℤ
int_of field = value_or (pos 0) (parse_int field)

-- `if len(row) != 16` and the fields by their index; `i` is the index of the row.
unfoldable pub read_row : ℕ → List Bytes → Result RowError Sample
read_row i (a ∷ b ∷ c ∷ d ∷ e ∷ f ∷ g ∷ h ∷ j ∷ k ∷ l ∷ m ∷ n ∷ o ∷ p ∷ q ∷ []) = ok record {
  elapsed_ns = int_of a;
  timestamp = b;
  strategy = c;
  run_id = d;
  memory_current = uint_of e;
  cache = uint_of f;
  rss = uint_of g;
  anon = parse_ptr h;
  inactive_file = parse_ptr j;
  active_file = parse_ptr k;
  dirty = parse_ptr l;
  writeback = parse_ptr m;
  shmem = parse_ptr n;
  active_bytes = uint_of o;
  backup_bytes = uint_of p;
  backup_count = int_of q;
}
read_row i row = err (columns (i + 1) (length row))

unfoldable pub read_rows : ℕ → List (List Bytes) → Result RowError (List Sample)
read_rows i [] = ok []
read_rows i (row ∷ rows) = do s ← read_row i row; rest ← read_rows (i + 1) rows; ok (s ∷ rest)

-- `ReadSamples` of the rows of a file: the first row is passed over.
unfoldable pub read_samples : List (List Bytes) → Result RowError (List Sample)
read_samples [] = ok []
read_samples (first ∷ rows) = read_rows 1 rows
