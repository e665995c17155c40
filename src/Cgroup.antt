-- ===== src/Cgroup.antt =====
-- internal/cgroup/reader.go: the memory counters of a control group. Files are read by the scanner of
-- `bufio`: the parameter `scanned` is the lines it hands out of a file and whether it ended in an
-- error; `content` is what `os.ReadFile` returns.
pub mod Sampling
pub mod Bounds
use Prim.Native.String.{String}
use logrotate_cache_lab.Base.{
  ℕ, ◌+◌, ◌*◌, ◌%◌, ◌^◌, Bool, true, false, ◌||◌, Option, none, some, List, [], ◌∷◌, ◌++◌, Bytes,
  codes, str_eq, ◌==◌, leb, ◌&&◌, if◌then◌else◌, Result, ok, err, ◌>>=◌, length,
}
use logrotate_cache_lab.Strconv.{Parsed, valid, syntax_error, range_error, parse_uint}
use logrotate_cache_lab.Integrity.Lines.{Scanned}

pub data Version : Type 0 where
  v1 : Version
  v2 : Version

pub record MemorySample : Type 0 where
  pub current : ℕ
  pub cache : ℕ
  pub anon : Option ℕ
  pub inactive_file : Option ℕ
  pub active_file : Option ℕ
  pub dirty : Option ℕ
  pub writeback : Option ℕ
  pub shmem : Option ℕ
  pub version : Version
  pub cache_source : Bytes

pub record Reader : Type 0 where
  pub root : Bytes
  pub version : Version

pub data ReadError : Type 0 where
  cannot_read : Bytes → ReadError
  cannot_parse : Bytes → ReadError
  no_cache_counter : ReadError
  no_rss : ReadError
  no_controller : ReadError

-- White space of `strings.Fields` and `TrimSpace` in ASCII text.
abbrev is_space : ℕ → Bool
is_space c = c == 32 || leb 9 c && leb c 13

abbrev cut_field : Bytes → List Bytes → List Bytes
cut_field [] fields = fields
cut_field (c ∷ s) fields = (c ∷ s) ∷ fields

-- `strings.Fields`; `cur` is the field that is being read.
unfoldable pub fields_from : Bytes → Bytes → List Bytes
fields_from cur [] = cut_field cur []
fields_from cur (c ∷ s) =
    let cut = cut_field cur (fields_from [] s) in
    let more = fields_from (cur ++ c ∷ []) s in if is_space c then cut else more

abbrev pub fields : Bytes → List Bytes
fields s = fields_from [] s

-- `strings.TrimSpace`: `held` is white space that something may still follow.
unfoldable pub trim_right : Bytes → Bytes → Bytes
trim_right held [] = []
trim_right held (c ∷ s) =
    let space = trim_right (held ++ c ∷ []) s in
    let other = held ++ c ∷ trim_right [] s in if is_space c then space else other

unfoldable pub trim_left : Bytes → Bytes
trim_left [] = []
trim_left (c ∷ s) = let rest = trim_left s in if is_space c then rest else c ∷ s

abbrev pub trim_space : Bytes → Bytes
trim_space s = trim_right [] (trim_left s)

abbrev pub Stats : Type 0
Stats = List (Bytes × ℕ)

unfoldable pub find_stat : Bytes → Stats → Option ℕ
find_stat name [] = none
find_stat name ((n, v) ∷ stats) = if str_eq name n then some v else find_stat name stats

-- `out[fields[0]] = v`
unfoldable pub set_stat : Bytes → ℕ → Stats → Stats
set_stat name v [] = (name, v) ∷ []
set_stat name v ((n, u) ∷ stats) =
    let rest = set_stat name v stats in if str_eq name n then (name, v) ∷ stats else (n, u) ∷ rest

abbrev pub uint_or : ReadError → Parsed ℕ → Result ReadError ℕ
uint_or e (valid v) = ok v
uint_or e syntax_error = err e
uint_or e (range_error v) = err e

-- One line of memory.stat: one that has not two fields is passed over.
unfoldable pub read_stat : Bytes → List Bytes → Stats → Result ReadError Stats
read_stat path (name ∷ value ∷ []) stats = do
  v ← uint_or (cannot_parse path) (parse_uint value)
  ok (set_stat name v stats)
read_stat path other stats = ok stats

unfoldable pub read_stat_lines : Bytes → List Bytes → Stats → Result ReadError Stats
read_stat_lines path [] stats = ok stats
read_stat_lines path (line ∷ lines) stats =
    read_stat path (fields line) stats >>= read_stat_lines path lines

-- `statPtr`: the first of the names that is there.
unfoldable pub stat_ptr : Stats → List Bytes → Option ℕ
stat_ptr stats [] = none
stat_ptr stats (name ∷ names) =
    let rest = stat_ptr stats names in elim (find_stat name stats) [ none ↦ rest | some v ↦ some v ]

-- The cache counter and its name.
unfoldable pub choose_cache : Version → Stats → Option (ℕ × Bytes)
choose_cache v2 stats = elim (find_stat (codes "file") stats) [
  | none ↦ none
  | some v ↦ some (v, codes "file")
]
choose_cache v1 stats = elim (find_stat (codes "total_cache") stats) [
  | some v ↦ some (v, codes "total_cache")
  | none ↦ elim (find_stat (codes "cache") stats) [ none ↦ none | some v ↦ some (v, codes "cache") ]
]

abbrev two_names : String → String → List Bytes
two_names a b = codes a ∷ codes b ∷ []

abbrev pub memory_sample : Version → ℕ → Stats → Option (ℕ × Bytes) → Result ReadError MemorySample
memory_sample version current stats none = err no_cache_counter
memory_sample version current stats (some (cache, source)) = ok record {
  current = current;
  cache = cache;
  anon = stat_ptr stats (two_names "anon" "total_rss");
  inactive_file = stat_ptr stats (two_names "inactive_file" "total_inactive_file");
  active_file = stat_ptr stats (two_names "active_file" "total_active_file");
  dirty = stat_ptr stats (two_names "file_dirty" "dirty");
  writeback = stat_ptr stats (two_names "file_writeback" "writeback");
  shmem = stat_ptr stats (two_names "shmem" "total_shmem");
  version = version;
  cache_source = source;
}

abbrev pub usage_name : Version → Bytes
usage_name v1 = codes "memory.usage_in_bytes"
usage_name v2 = codes "memory.current"

-- `filepath.Join` of a clean directory and a name.
abbrev pub join : Bytes → Bytes → Bytes
join dir name = dir ++ b'/' ∷ name
