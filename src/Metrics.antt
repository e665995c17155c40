-- ===== src/Metrics.antt =====
-- internal/metrics/analyze.go: what a run's samples say of the cache. Floats are a parameter, `Floats`,
-- whose operations are those that the code uses.
pub mod Ranks
pub mod Transient
use logrotate_cache_lab.Base.{
  ℕ, ◌+◌, ◌-◌, ◌*◌, ◌/◌, ◌^◌, Bool, true, false, not, ◌&&◌, ◌||◌, Option, none, some, List, [], ◌∷◌,
  ◌++◌, map, codes, str_eq, ltb, leb, if◌then◌else◌, length, get_elem?,
}
use logrotate_cache_lab.Base.Int.{ℤ, pos, pos_part, ltb_ℤ, leb_ℤ, eq_ℤ, ◌-ℤ◌, to_int64}
use logrotate_cache_lab.Base.Sort.{sort_by}
use logrotate_cache_lab.Report.{Sample, RotationEvent, CacheMetrics}

-- `ceil_int x` is `int(math.Ceil(x))`; `p95` is the literal 0.95.
pub record Floats (F : Type 0) : Type 0 where
  pub of_int : ℤ → F
  pub add : F → F → F
  pub sub : F → F → F
  pub mul : F → F → F
  pub div : F → F → F
  pub lt : F → F → Bool
  pub le : F → F → Bool
  pub eq : F → F → Bool
  pub ceil_int : F → ℤ
  pub p95 : F

-- `values[i]`; the ranks that are asked for are in range.
abbrev pub value_at : List ℕ → ℕ → ℕ
value_at values i = elim (get_elem? values i) [ none ↦ 0 | some v ↦ v ]

-- The last of `sample ∷ samples`.
abbrev pub last_sample : Sample → List Sample → Sample
last_sample s [] = s
last_sample s (t ∷ samples) = last_sample t samples

-- `if v > max { max = v }` over the caches.
unfoldable pub max_cache : ℕ → List Sample → ℕ
max_cache m [] = m
max_cache m (s ∷ samples) = max_cache (if ltb m s.cache then s.cache else m) samples

abbrev pub starts : RotationEvent → Bool
starts e = str_eq e.phase (codes "copy-start") || str_eq e.phase (codes "rename")

abbrev completes : RotationEvent → Bool
completes e = str_eq e.phase (codes "retention-complete")

-- The end of the rotation that `start` begins; `math.MaxInt64` where there is none.
unfoldable pub end_of : RotationEvent → List RotationEvent → ℤ
end_of start [] = pos (2 ^ 63 - 1)
end_of start (e ∷ events) =
    let rest = end_of start events in
    if eq_ℤ e.ordinal start.ordinal && (completes e && leb_ℤ start.elapsed_ns e.elapsed_ns)
    then e.elapsed_ns
    else rest

abbrev pub within : ℤ → ℤ → Sample → Bool
within first last s = leb_ℤ first s.elapsed_ns && leb_ℤ s.elapsed_ns last

-- `base`, `peak` and `found`.
abbrev pub widen : Option (ℕ × ℕ) → ℕ → Option (ℕ × ℕ)
widen none c = some (c, c)
widen (some (base, peak)) c = some (base, if ltb peak c then c else peak)

unfoldable pub span : ℤ → ℤ → Option (ℕ × ℕ) → List Sample → Option (ℕ × ℕ)
span first last found [] = found
span first last found (s ∷ samples) =
    span first last (if within first last s then widen found s.cache else found) samples

abbrev pub raise : ℕ → Option (ℕ × ℕ) → ℕ
raise m none = m
raise m (some (base, peak)) = if ltb base peak && ltb m (peak - base) then peak - base else m

-- The outer loop over the events; `all` are the events that the inner loop goes through.
unfoldable pub transient_from : List RotationEvent → List Sample → ℕ → List RotationEvent → ℕ
transient_from all samples m [] = m
transient_from all samples m (start ∷ events) =
    let seen = span start.elapsed_ns (end_of start all) none samples in
    transient_from all samples (if starts start then raise m seen else m) events

unfoldable pub rotation_transient : List Sample → List RotationEvent → ℕ
rotation_transient samples events = transient_from events samples 0 events

unfoldable pub segment : ℤ → ℤ → List Sample → List Sample
segment first last [] = []
segment first last (s ∷ samples) =
    let rest = segment first last samples in if within first last s then s ∷ rest else rest

unfoldable pub completions : List RotationEvent → List ℤ
completions [] = []
completions (e ∷ events) =
    let rest = completions events in if completes e then e.elapsed_ns ∷ rest else rest

module _ {F : Type 0} (float : Floats F) where
  abbrev zero_float : F
  zero_float = float.of_int (pos 0)

  -- `float64(ns) / 1e9`
  abbrev seconds : ℤ → F
  seconds ns = float.div (float.of_int ns) (float.of_int (pos 1000000000))

  unfoldable pub divide : F → F → F
  divide n d = if float.eq d zero_float then zero_float else float.div n d

  unfoldable pub nearest_rank : ℕ → F → ℕ
  nearest_rank n p =
      let rank = to_int64 (float.ceil_int (float.mul p (float.of_int (pos n))) -ℤ pos 1) in
      if ltb_ℤ rank (pos 0) then 0 else if leb_ℤ (pos n) rank then n - 1 else pos_part rank

  -- The sums of the main loop.
  pub record Sums : Type 0 where
    pub sum : F
    pub positive_bytes : F
    pub positive_seconds : F
    pub reclaim_bytes : F
    pub reclaim_seconds : F

  abbrev no_sums : Sums
  no_sums = record {
    sum = zero_float;
    positive_bytes = zero_float;
    positive_seconds = zero_float;
    reclaim_bytes = zero_float;
    reclaim_seconds = zero_float;
  }

  -- From the second sample on; no time between two samples counts for nothing.
  unfoldable pub add_change : Sample → Sample → Sums → Sums
  add_change before s r =
      let dt = seconds (to_int64 (s.elapsed_ns -ℤ before.elapsed_ns)) in
      if float.le dt zero_float
      then r
      else if leb before.cache s.cache
      then record r {
        positive_bytes = float.add r.positive_bytes (float.of_int (pos (s.cache - before.cache)));
        positive_seconds = float.add r.positive_seconds dt;
      }
      else record r {
        reclaim_bytes = float.add r.reclaim_bytes (float.of_int (pos (before.cache - s.cache)));
        reclaim_seconds = float.add r.reclaim_seconds dt;
      }

  abbrev add_sample : Sample → Sums → Sums
  add_sample s r = record r { sum = float.add r.sum (float.of_int (pos s.cache)) }

  unfoldable pub add_samples : Sample → List Sample → Sums → Sums
  add_samples before [] r = r
  add_samples before (s ∷ samples) r = add_samples s samples (add_change before s (add_sample s r))

  -- The four sums of `leastSquares`: x, y, x * y and x * x.
  pub record Squares : Type 0 where
    pub sx : F
    pub sy : F
    pub sxy : F
    pub sxx : F

  unfoldable pub add_squares : List Sample → Squares → Squares
  add_squares [] q = q
  add_squares (s ∷ samples) q =
      let x = seconds s.elapsed_ns in
      let y = float.of_int (pos s.cache) in
      add_squares samples (record {
        sx = float.add q.sx x;
        sy = float.add q.sy y;
        sxy = float.add q.sxy (float.mul x y);
        sxx = float.add q.sxx (float.mul x x);
      })

  unfoldable pub least_squares : List Sample → F
  least_squares samples =
      let q =
        add_squares samples
          (record { sx = zero_float; sy = zero_float; sxy = zero_float; sxx = zero_float }) in
      let n = float.of_int (pos (length samples)) in
      divide (float.sub (float.mul n q.sxy) (float.mul q.sx q.sy))
        (float.sub (float.mul n q.sxx) (float.mul q.sx q.sx))

  -- The segments between neighbouring boundaries.
  unfoldable pub slopes_between : List Sample → ℤ → List ℤ → List F
  slopes_between samples b [] = []
  slopes_between samples b (c ∷ boundaries) =
      let rest = slopes_between samples c boundaries in
      let part = segment b c samples in
      if leb 2 (length part) then least_squares part ∷ rest else rest

  abbrev slopes_of : List Sample → List ℤ → List F
  slopes_of samples [] = []
  slopes_of samples (b ∷ boundaries) = slopes_between samples b boundaries

  unfoldable pub interval_slopes : Sample → List Sample → List RotationEvent → List F
  interval_slopes s samples events = slopes_of (s ∷ samples) (
      sort_by ltb_ℤ
        (s.elapsed_ns ∷ (completions events ++ (last_sample s samples).elapsed_ns ∷ [])))

  -- The zero value of `report.CacheMetrics`.
  abbrev pub no_metrics : CacheMetrics F
  no_metrics = record {
    start_bytes = 0;
    end_bytes = 0;
    max_bytes = 0;
    mean_bytes = zero_float;
    median_bytes = 0;
    p95_bytes = 0;
    overall_rate_bytes_per_second = zero_float;
    positive_rate_bytes_per_second = zero_float;
    reclaim_rate_bytes_per_second = zero_float;
    rotation_transient_max_bytes = 0;
    rotation_interval_slopes = [];
  }

  unfoldable pub overall_rate : Sample → Sample → F
  overall_rate s t =
      let duration = seconds (to_int64 (t.elapsed_ns -ℤ s.elapsed_ns)) in
      if float.lt zero_float duration
      then float.div (float.sub (float.of_int (pos t.cache)) (float.of_int (pos s.cache))) duration
      else zero_float

  unfoldable pub analyze : List Sample → List RotationEvent → CacheMetrics F
  analyze [] events = no_metrics
  analyze (s ∷ samples) events =
      let t = last_sample s samples in
      let n = length (s ∷ samples) in
      let sums = add_samples s samples (add_sample s no_sums) in
      let values = sort_by ltb (map Sample.cache (s ∷ samples)) in
      record {
        start_bytes = s.cache;
        end_bytes = t.cache;
        max_bytes = max_cache s.cache (s ∷ samples);
        mean_bytes = float.div sums.sum (float.of_int (pos n));
        median_bytes = value_at values (n / 2);
        p95_bytes = value_at values (nearest_rank n float.p95);
        overall_rate_bytes_per_second = overall_rate s t;
        positive_rate_bytes_per_second = divide sums.positive_bytes sums.positive_seconds;
        reclaim_rate_bytes_per_second = divide sums.reclaim_bytes sums.reclaim_seconds;
        rotation_transient_max_bytes = rotation_transient (s ∷ samples) events;
        rotation_interval_slopes = interval_slopes s samples events;
      }
