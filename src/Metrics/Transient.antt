-- ===== src/Metrics/Transient.antt =====
-- The loops of `rotationTransient` of internal/metrics/analyze.go against a definition without them.
use Prim.Native.Nat.{max}
use logrotate_cache_lab.Base.{
  maximum, ℕ, ◌-◌, ◌≡◌, refl, ap, ◌∙◌, inl, inr, Bool, Bool-cases, Option, none, some, List, [],
  ◌∷◌, map, if◌then◌else◌, arith,
}
use logrotate_cache_lab.Base.Int.{ℤ}
use logrotate_cache_lab.Report.{Sample, RotationEvent}
use logrotate_cache_lab.Metrics.{
  starts, end_of, within, widen, span, segment, raise, transient_from, rotation_transient,
}

abbrev pub filter {ℓ} : {A : Type ℓ} → (A → Bool) → List A → List A
filter p [] = []
filter p (x ∷ xs) = let rest = filter p xs in if p x then x ∷ rest else rest

-- How far the caches of some samples rise above the first.
abbrev pub growth : List Sample → ℕ
growth [] = 0
growth (s ∷ samples) = maximum (map Sample.cache samples) - s.cache

-- The samples from the start of a rotation to its end.
abbrev pub samples_of : List RotationEvent → List Sample → RotationEvent → List Sample
samples_of events samples start = segment start.elapsed_ns (end_of start events) samples

max_assoc : (a b c : ℕ) → max (max a b) c ≡ max a (max b c)
max_assoc a b c = omega arith

widen_peak : (base peak c : ℕ) → widen (some (base, peak)) c ≡ some (base, max peak c)
widen_peak base peak c = ap (λ p. some (base, p)) (ground arith)

module _ (first last : ℤ) where
  span_found :
      (base peak : ℕ) (samples : List Sample)
      → span first last (some (base, peak)) samples
        ≡ some (base, max peak (maximum (map Sample.cache (segment first last samples))))
  unfolding span segment
  span_found base peak [] = ap (λ p. some (base, p)) (omega arith)
  span_found base peak (s ∷ samples) = elim (Bool-cases (within first last s)) [
    | inl e ↦ rw e (
        rw (widen_peak base peak s.cache) (
          span_found base (max peak s.cache) samples
          ∙ ap (λ p. some (base, p)) (max_assoc peak s.cache _)))
    | inr e ↦ rw e (span_found base peak samples)
  ]

  abbrev spanned : List Sample → Option (ℕ × ℕ)
  spanned [] = none
  spanned (s ∷ samples) = some (s.cache, max s.cache (maximum (map Sample.cache samples)))

  span-none :
      (samples : List Sample) → span first last none samples ≡ spanned (segment first last samples)
  unfolding span segment
  span-none [] = refl
  span-none (s ∷ samples) = elim (Bool-cases (within first last s)) [
    | inl e ↦ rw e (span_found s.cache s.cache samples)
    | inr e ↦ rw e (span-none samples)
  ]

raise-spanned :
    (first last : ℤ) (m : ℕ) (samples : List Sample)
    → raise m (spanned first last samples) ≡ max m (growth samples)
raise-spanned first last m [] = omega arith
raise-spanned first last m (s ∷ samples) = ground arith

transient_from_lem :
    (all : List RotationEvent) (samples : List Sample) (m : ℕ) (events : List RotationEvent)
    → transient_from all samples m events
      ≡ max m (maximum (map (λ e. growth (samples_of all samples e)) (filter starts events)))
unfolding transient_from
transient_from_lem all samples m [] = omega arith
transient_from_lem all samples m (e ∷ events) = elim (Bool-cases (starts e)) [
  | inl h ↦
      let raised =
        ap (raise m) (span-none e.elapsed_ns (end_of e all) samples)
        ∙ raise-spanned e.elapsed_ns (end_of e all) m (samples_of all samples e) in
      rw h (
        transient_from_lem all samples (raise m (span e.elapsed_ns (end_of e all) none samples))
          events
        ∙ rw raised (max_assoc m _ _))
  | inr h ↦ rw h (transient_from_lem all samples m events)
]

-- The transient is the greatest rise of the cache during a rotation, whether it completes or not: over the
-- events that start one, how far the caches of the samples up to its completion, or up to the last
-- sample where there is none, rise above the first of them.
pub rotation_transient-growth :
    (samples : List Sample) (events : List RotationEvent)
    → rotation_transient samples events
      ≡ maximum (map (λ e. growth (samples_of events samples e)) (filter starts events))
unfolding rotation_transient
rotation_transient-growth samples events = transient_from_lem events samples 0 events ∙ omega arith
