-- ===== src/Tests/Metrics.antt =====
-- Metrics of five samples around one rotation, with floats that are counted in hundredths.
use logrotate_cache_lab.Base.{
  maximum, ℕ, ◌+◌, ◌*◌, ◌/◌, ◌<◌, ◌≡◌, refl, List, [], ◌∷◌, codes, str_eq, none, map,
}
use logrotate_cache_lab.Base.Int.{
  ℤ, pos, pos_part, neg_part, sub_ℕ, ◌+ℤ◌, ◌-ℤ◌, ltb_ℤ, leb_ℤ, eq_ℤ, quotient,
}
use logrotate_cache_lab.Report.{Sample, RotationEvent}
use logrotate_cache_lab.Base.Sort.{insert_by, sort_by}
use logrotate_cache_lab.Metrics.{
  Floats, analyze, nearest_rank, rotation_transient, starts, transient_from, span, end_of,
}
use logrotate_cache_lab.Metrics.Ranks.{IsRank, analyze-IsRank}
use logrotate_cache_lab.Metrics.Transient.{filter, growth, samples_of, rotation_transient-growth}

abbrev pub times : ℤ → ℤ → ℤ
times a b =
    sub_ℕ (pos_part a * pos_part b + neg_part a * neg_part b)
      (pos_part a * neg_part b + neg_part a * pos_part b)

-- A quotient of hundredths is rounded to zero.
abbrev pub hundredths : Floats ℤ
hundredths = record {
  of_int = λ n. times n (pos 100);
  add = ◌+ℤ◌;
  sub = ◌-ℤ◌;
  mul = λ a b. quotient (times a b) 100;
  div = λ a b. quotient (times a (pos 100)) (pos_part b);
  lt = ltb_ℤ;
  le = leb_ℤ;
  eq = eq_ℤ;
  ceil_int = λ a. quotient (a +ℤ pos 99) 100;
  p95 = pos 95;
}

abbrev pub sampled : ℕ → ℕ → Sample
sampled second cache = record {
  elapsed_ns = pos (second * 1000000000);
  timestamp = [];
  strategy = codes "copytruncate";
  run_id = codes "r";
  memory_current = 0;
  cache = cache;
  rss = 0;
  anon = none;
  inactive_file = none;
  active_file = none;
  dirty = none;
  writeback = none;
  shmem = none;
  active_bytes = 0;
  backup_bytes = 0;
  backup_count = pos 0;
}

abbrev phase_at : ℕ → RotationEvent
phase_at second = record {
  elapsed_ns = pos (second * 1000000000);
  timestamp = [];
  ordinal = pos 1;
  phase = codes "retention-complete";
  bytes = pos 0;
  error = [];
}

abbrev samples : List Sample
samples = sampled 2 30 ∷ sampled 3 90 ∷ sampled 4 50 ∷ sampled 5 95 ∷ []

abbrev events : List RotationEvent
events = record (phase_at 2) { phase = codes "copy-start" } ∷ phase_at 4 ∷ []

analyze-IsRank_example :
    let caches = map Sample.cache (sampled 1 40 ∷ samples) in
    let r = analyze hundredths (sampled 1 40 ∷ samples) events in
    let rank = nearest_rank hundredths 5 (pos 95) in
    IsRank caches 4 r.max_bytes
    × IsRank caches (5 / 2) r.median_bytes
    × IsRank caches rank r.p95_bytes
    × (rank < 5)
analyze-IsRank_example = analyze-IsRank hundredths (sampled 1 40) samples events

median_of_five : (analyze hundredths (sampled 1 40 ∷ samples) events).median_bytes ≡ 50
unfolding analyze sort_by insert_by
median_of_five = refl

rotation_transient-growth_example :
    rotation_transient samples events
    ≡ maximum (map (λ e. growth (samples_of events samples e)) (filter starts events))
rotation_transient-growth_example = rotation_transient-growth samples events

transient_of_one : rotation_transient samples events ≡ 60
unfolding rotation_transient transient_from span end_of str_eq
transient_of_one = refl
