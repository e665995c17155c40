-- ===== src/Harness/Peaks.antt =====
-- `updatePeaks` of internal/harness/run.go.
use Prim.Native.Nat.{max}
use logrotate_cache_lab.Base.{
  ℕ, ◌≡◌, ap, ◌∙◌, Option, none, some, List, [], ◌∷◌, map, maximum, arith,
}
use logrotate_cache_lab.Report.{Sample, RunSummary}
use logrotate_cache_lab.Harness.{raised, raised_anon, update_peak, update_peaks}

-- The anonymous memory of a sample, where it is known.
abbrev pub anon_of : Sample → ℕ
anon_of s = elim s.anon [ none ↦ 0 | some v ↦ v ]

raised_max : (peak v : ℕ) → raised peak v ≡ max peak v
raised_max peak v = ground arith

raised_anon_max :
    (peak : ℕ) (v : Option ℕ) → raised_anon peak v ≡ max peak (elim v [ none ↦ 0 | some n ↦ n ])
raised_anon_max peak none = omega arith
raised_anon_max peak (some v) = raised_max peak v

max_step : (a b c : ℕ) → max (max a b) c ≡ max a (max b c)
max_step a b c = omega arith

module _ {F : Type 0} where
  abbrev with_peaks : RunSummary F → ℕ → ℕ → ℕ → RunSummary F
  with_peaks r memory rss anon = record r { peak_memory = memory; peak_rss = rss; peak_anon = anon }

  same_peaks :
      (r : RunSummary F) (a b c d e f : ℕ)
      → a ≡ d
      → b ≡ e
      → c ≡ f
      → with_peaks r a b c ≡ with_peaks r d e f
  same_peaks r a b c d e f p q s = λ i. with_peaks r (p i) (q i) (s i)

  -- The peaks are the maxima of the samples' memory, resident and anonymous sizes and of what the
  -- summary had before; nothing else of the summary changes.
  pub update_peaks-maximum :
      (r : RunSummary F) (samples : List Sample)
      → update_peaks r samples ≡ record r {
        peak_memory = max r.peak_memory (maximum (map Sample.memory_current samples));
        peak_rss = max r.peak_rss (maximum (map Sample.rss samples));
        peak_anon = max r.peak_anon (maximum (map anon_of samples));
      }
  unfolding update_peaks
  update_peaks-maximum r [] = same_peaks r _ _ _ _ _ _ (omega arith) (omega arith) (omega arith)
  update_peaks-maximum r (s ∷ samples) =
      update_peaks-maximum (update_peak r s) samples
      ∙ same_peaks r _ _ _ _ _ _
          (ap (λ p. max p (maximum (map Sample.memory_current samples)))
              (raised_max r.peak_memory s.memory_current)
            ∙ max_step r.peak_memory s.memory_current _)
          (ap (λ p. max p (maximum (map Sample.rss samples))) (raised_max r.peak_rss s.rss)
            ∙ max_step r.peak_rss s.rss _)
          (ap (λ p. max p (maximum (map anon_of samples))) (raised_anon_max r.peak_anon s.anon)
            ∙ max_step r.peak_anon (anon_of s) _)
