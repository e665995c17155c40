-- ===== src/Cgroup/Sampling.antt =====
-- `Discover`, `Sample` and `RSSFromCgroupProcs` of internal/cgroup/reader.go.
use logrotate_cache_lab.Base.{
  ℕ, ◌+◌, ◌*◌, ◌%◌, ◌^◌, Bool, true, Option, none, some, List, [], ◌∷◌, Bytes, codes, str_eq, ◌==◌,
  if◌then◌else◌, Result, ok, err, ◌>>=◌, length,
}
use logrotate_cache_lab.Strconv.{parse_uint}
use logrotate_cache_lab.Integrity.Lines.{Scanned}
use logrotate_cache_lab.Cgroup.{
  v1, v2, MemorySample, Reader, ReadError, cannot_read, cannot_parse, no_rss, no_controller, fields,
  trim_space, Stats, uint_or, read_stat_lines, choose_cache, memory_sample, usage_name, join,
}

module _ (content : Bytes → Option Bytes) (scanned : Bytes → Option Scanned)
    (exists : Bytes → Bool) where
  unfoldable pub discover : Result ReadError Reader
  discover =
      if exists (codes "/sys/fs/cgroup/memory.current")
      then ok record { root = codes "/sys/fs/cgroup"; version = v2 }
      else if exists (codes "/sys/fs/cgroup/memory/memory.usage_in_bytes")
      then ok record { root = codes "/sys/fs/cgroup/memory"; version = v1 }
      else if exists (codes "/sys/fs/cgroup/memory.usage_in_bytes")
      then ok record { root = codes "/sys/fs/cgroup"; version = v1 }
      else err no_controller

  abbrev or_unread {ℓ} : {A : Type ℓ} → Bytes → Option A → Result ReadError A
  or_unread path none = err (cannot_read path)
  or_unread path (some a) = ok a

  unfoldable pub read_uint : Bytes → Result ReadError ℕ
  read_uint path = do
    b ← or_unread path (content path)
    uint_or (cannot_parse path) (parse_uint (trim_space b))

  -- A line that does not parse ends the reading before the scanner's own error is looked at.
  unfoldable pub read_stats : Bytes → Result ReadError Stats
  read_stats path = do
    s ← or_unread path (scanned path)
    stats ← read_stat_lines path s.tokens []
    if s.failed then err (cannot_read path) else ok stats

  unfoldable pub sample : Reader → Result ReadError MemorySample
  sample r = do
    current ← read_uint (join r.root (usage_name r.version))
    stats ← read_stats (join r.root (codes "memory.stat"))
    memory_sample r.version current stats (choose_cache r.version stats)

  -- The value counts only when it parses; the product wraps around.
  unfoldable pub find_rss : List Bytes → Result ReadError ℕ
  find_rss [] = err no_rss
  find_rss (line ∷ lines) =
      let rest = find_rss lines in
      elim (fields line) [
        | [] ↦ rest
        | a ∷ [] ↦ rest
        | a ∷ b ∷ more ↦
            if str_eq a (codes "VmRSS:")
            then uint_or no_rss (parse_uint b) >>= (λ kb. ok (kb * 1024 % 2 ^ 64))
            else rest
      ]

  unfoldable pub read_vm_rss : Bytes → Result ReadError ℕ
  read_vm_rss path = do s ← or_unread path (scanned path); find_rss s.tokens

  abbrev pub add_rss : Result ReadError ℕ → ℕ → ℕ
  add_rss (ok rss) total = (total + rss) % 2 ^ 64
  add_rss (err e) total = total

  -- A process that cannot be read counts nothing.
  unfoldable pub sum_rss : List Bytes → ℕ → ℕ
  sum_rss [] total = total
  sum_rss (line ∷ lines) total =
      let pid = trim_space line in
      if length pid == 0
      then sum_rss lines total
      else sum_rss lines
          (add_rss (read_vm_rss (join (join (codes "/proc") pid) (codes "status"))) total)

  abbrev pub rss_of : Option Scanned → ℕ × Bool
  rss_of none = (0, true)
  rss_of (some s) = (sum_rss s.tokens 0, s.failed)

  -- The sum, and whether there is an error beside it.
  unfoldable pub rss_from_cgroup_procs : Reader → ℕ × Bool
  rss_from_cgroup_procs r = rss_of (scanned (join r.root (codes "cgroup.procs")))
