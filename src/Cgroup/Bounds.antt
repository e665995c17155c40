-- ===== src/Cgroup/Bounds.antt =====
-- The numbers that internal/cgroup/reader.go returns are values of `uint64`, whatever its files hold.
use logrotate_cache_lab.Base.{
  ℕ, ◌≤◌, Bool, true, false, Bool-cases, inl, inr, Option, none, some, List, [], ◌∷◌, Bytes, codes,
  str_eq, if◌then◌else◌, Result, ok, err, ◌>>=◌, length, ◌==◌, All, arith,
}
use logrotate_cache_lab.Strconv.{Parsed, valid, syntax_error, range_error, max_uint64}
use logrotate_cache_lab.Strconv.Range.{Bounded, parse_uint-Bounded}
use logrotate_cache_lab.Integrity.Lines.{Scanned}
use logrotate_cache_lab.Cgroup.{
  Version, v1, v2, MemorySample, Reader, ReadError, cannot_read, fields, trim_space, Stats,
  find_stat, set_stat, uint_or, read_stat, read_stat_lines, stat_ptr, choose_cache, memory_sample,
  join,
}
use logrotate_cache_lab.Cgroup.Sampling.{
  read_uint, read_stats, sample, add_rss, rss_of, sum_rss, rss_from_cgroup_procs,
}
use logrotate_cache_lab.Monitor.Rows.{OptUint64}

-- A value that is there has the property.
abbrev pub Ok {ℓ} : {A : Type ℓ} → (A → Type 0) → Result ReadError A → Type 0
Ok P (ok a) = P a
Ok P (err e) = Unit

module _ {ℓ κ} {A : Type ℓ} {B : Type κ} where
  pub bind-Ok :
      (P : A → Type 0) (Q : B → Type 0) (r : Result ReadError A) (f : A → Result ReadError B)
      → Ok P r
      → ((a : A) → P a → Ok Q (f a))
      → Ok Q (r >>= f)
  bind-Ok P Q (ok a) f h k = k a h
  bind-Ok P Q (err e) f h k = tt

  -- Whatever the value is.
  pub bind_any :
      (Q : B → Type 0) (r : Result ReadError A) (f : A → Result ReadError B)
      → ((a : A) → Ok Q (f a))
      → Ok Q (r >>= f)
  bind_any Q (ok a) f k = k a
  bind_any Q (err e) f k = tt

abbrev IsUint64 : ℕ → Type 0
IsUint64 n = n ≤ max_uint64

uint_or-Ok : (e : ReadError) (p : Parsed ℕ) → Bounded p → Ok IsUint64 (uint_or e p)
uint_or-Ok e (valid n) h = h
uint_or-Ok e syntax_error h = tt
uint_or-Ok e (range_error n) h = tt

abbrev InStats : Bytes × ℕ → Type 0
InStats (name, v) = v ≤ max_uint64

set_stat-All :
    (name : Bytes) (v : ℕ) (stats : Stats)
    → v ≤ max_uint64
    → All InStats stats
    → All InStats (set_stat name v stats)
unfolding set_stat
set_stat-All name v [] h t = (h, tt)
set_stat-All name v ((n, u) ∷ stats) h (hu, t) = elim (Bool-cases (str_eq name n)) [
  | inl e ↦ rw e (h, t)
  | inr e ↦ rw e (hu, set_stat-All name v stats h t)
]

read_stat-Ok :
    (path : Bytes) (parts : List Bytes) (stats : Stats)
    → All InStats stats
    → Ok (All InStats) (read_stat path parts stats)
unfolding read_stat
read_stat-Ok path [] stats t = t
read_stat-Ok path (name ∷ []) stats t = t
read_stat-Ok path (name ∷ value ∷ []) stats t =
    bind-Ok IsUint64 (All InStats) _ _ (uint_or-Ok _ _ (parse_uint-Bounded value))
      (λ v h. set_stat-All name v stats h t)
read_stat-Ok path (a ∷ b ∷ c ∷ more) stats t = t

read_stat_lines-Ok :
    (path : Bytes) (lines : List Bytes) (stats : Stats)
    → All InStats stats
    → Ok (All InStats) (read_stat_lines path lines stats)
unfolding read_stat_lines
read_stat_lines-Ok path [] stats t = t
read_stat_lines-Ok path (line ∷ lines) stats t =
    bind-Ok (All InStats) (All InStats) _ _ (read_stat-Ok path (fields line) stats t)
      (read_stat_lines-Ok path lines)

find_stat-OptUint64 :
    (name : Bytes) (stats : Stats) → All InStats stats → OptUint64 (find_stat name stats)
unfolding find_stat
find_stat-OptUint64 name [] t = tt
find_stat-OptUint64 name ((n, v) ∷ stats) (h, t) = elim (Bool-cases (str_eq name n)) [
  | inl e ↦ rw e h
  | inr e ↦ rw e (find_stat-OptUint64 name stats t)
]

stat_ptr-OptUint64 :
    (stats : Stats) (names : List Bytes) → All InStats stats → OptUint64 (stat_ptr stats names)
unfolding stat_ptr
stat_ptr-OptUint64 stats [] t = tt
stat_ptr-OptUint64 stats (name ∷ names) t =
    after (find_stat name stats) (find_stat-OptUint64 name stats t)
      (stat_ptr-OptUint64 stats names t)
  where
    after :
        (o : Option ℕ)
        → OptUint64 o
        → OptUint64 (stat_ptr stats names)
        → OptUint64 (elim o [ none ↦ stat_ptr stats names | some v ↦ some v ])
    after none h rest = rest
    after (some v) h rest = h

abbrev CacheBound : Option (ℕ × Bytes) → Type 0
CacheBound none = Unit
CacheBound (some (v, source)) = v ≤ max_uint64

choose_cache-CacheBound :
    (version : Version) (stats : Stats)
    → All InStats stats
    → CacheBound (choose_cache version stats)
unfolding choose_cache
choose_cache-CacheBound v2 stats t =
    one (find_stat (codes "file") stats) (find_stat-OptUint64 (codes "file") stats t)
  where
    one :
        (o : Option ℕ)
        → OptUint64 o
        → CacheBound (elim o [ none ↦ none | some v ↦ some (v, codes "file") ])
    one none h = tt
    one (some v) h = h
choose_cache-CacheBound v1 stats t =
    two (find_stat (codes "total_cache") stats) (find_stat (codes "cache") stats)
      (find_stat-OptUint64 (codes "total_cache") stats t)
      (find_stat-OptUint64 (codes "cache") stats t)
  where
    two :
        (o p : Option ℕ)
        → OptUint64 o
        → OptUint64 p
        → CacheBound (elim o [
          | some v ↦ some (v, codes "total_cache")
          | none ↦ elim p [ none ↦ none | some v ↦ some (v, codes "cache") ]
        ])
    two (some v) p h k = h
    two none none h k = tt
    two none (some v) h k = k

-- Every counter of a sample.
abbrev pub CountersBound : MemorySample → Type 0
CountersBound m =
    (m.current ≤ max_uint64)
    × (m.cache ≤ max_uint64)
    × (OptUint64 m.anon × OptUint64 m.inactive_file)
    × (OptUint64 m.active_file × OptUint64 m.dirty)
    × (OptUint64 m.writeback × OptUint64 m.shmem)

memory_sample-Ok :
    (version : Version) (current : ℕ) (stats : Stats) (cache : Option (ℕ × Bytes))
    → current ≤ max_uint64
    → All InStats stats
    → CacheBound cache
    → Ok CountersBound (memory_sample version current stats cache)
memory_sample-Ok version current stats none h t k = tt
memory_sample-Ok version current stats (some (cache, source)) h t k = (
  h,
  k,
  (stat_ptr-OptUint64 stats _ t, stat_ptr-OptUint64 stats _ t),
  (stat_ptr-OptUint64 stats _ t, stat_ptr-OptUint64 stats _ t),
  (stat_ptr-OptUint64 stats _ t, stat_ptr-OptUint64 stats _ t),
)

module _ (content : Bytes → Option Bytes) (scanned : Bytes → Option Scanned)
    (exists : Bytes → Bool) where
  read_uint-Ok : (path : Bytes) → Ok IsUint64 (read_uint content scanned exists path)
  unfolding read_uint
  read_uint-Ok path =
      bind_any IsUint64 _ _ (λ b. uint_or-Ok _ _ (parse_uint-Bounded (trim_space b)))

  read_stats-Ok : (path : Bytes) → Ok (All InStats) (read_stats content scanned exists path)
  unfolding read_stats
  read_stats-Ok path = bind_any (All InStats) _ _ (λ s.
      bind-Ok (All InStats) (All InStats) _ _ (read_stat_lines-Ok path s.tokens [] tt)
        (unless_failed s.failed))
    where
      unless_failed :
          (failed : Bool) (stats : Stats)
          → All InStats stats
          → Ok (All InStats) (if failed then err (cannot_read path) else ok stats)
      unless_failed true stats t = tt
      unless_failed false stats t = t

  -- Whatever the files of the group hold, every counter of a sample that Sample returns is a value of
  -- `uint64`.
  pub sample-Ok : (r : Reader) → Ok CountersBound (sample content scanned exists r)
  unfolding sample
  sample-Ok r = bind-Ok IsUint64 CountersBound _ _ (read_uint-Ok _) (λ current h.
      bind-Ok (All InStats) CountersBound _ _ (read_stats-Ok _) (λ stats t.
        memory_sample-Ok r.version current stats _ h t (choose_cache-CacheBound r.version stats t)))

  add_rss-bound :
      (r : Result ReadError ℕ) (total : ℕ)
      → total ≤ max_uint64
      → add_rss content scanned exists r total ≤ max_uint64
  add_rss-bound (ok rss) total h = omega arith
  add_rss-bound (err e) total h = h

  sum_rss-bound :
      (lines : List Bytes) (total : ℕ)
      → total ≤ max_uint64
      → sum_rss content scanned exists lines total ≤ max_uint64
  unfolding sum_rss
  sum_rss-bound [] total h = h
  sum_rss-bound (line ∷ lines) total h = elim (Bool-cases (length (trim_space line) == 0)) [
    | inl e ↦ rw e (sum_rss-bound lines total h)
    | inr e ↦ rw e (sum_rss-bound lines _ (add_rss-bound _ total h))
  ]

  pub rss-bound : (r : Reader) → (rss_from_cgroup_procs content scanned exists r).0 ≤ max_uint64
  unfolding rss_from_cgroup_procs
  rss-bound r = after (scanned (join r.root (codes "cgroup.procs")))
    where
      after : (o : Option Scanned) → (rss_of content scanned exists o).0 ≤ max_uint64
      after none = omega arith
      after (some s) = sum_rss-bound s.tokens 0 (omega arith)
