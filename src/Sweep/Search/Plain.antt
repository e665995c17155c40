-- ===== src/Sweep/Search/Plain.antt =====
-- What `Search` of internal/sweep/search.go leaves as it is in its report: the strategy it was asked for,
-- and the fields that compare it with another search.
use logrotate_cache_lab.Base.{
  ℕ, zero, suc, ◌+◌, ◌-◌, if◌then◌else◌, ◌≡◌, refl, Bool, true, false, Option, none, some, List,
  Bytes, Bool-cases, inl, inr, ltb, arith,
}
use logrotate_cache_lab.Base.Int.{pos, pos_part}
use logrotate_cache_lab.Report.{SweepAttempt, SweepReport}
use logrotate_cache_lab.Sweep.Search.{
  Config, Outcome, verdict, Progress, step, upper, lower, middle, is_invalid, record_attempt,
  new_report, new_attempt, start, context_done, conclude, repeat, test, narrow, after_lower,
  after_upper, search,
}

module _ {F : Type 0} (strategy : Bytes) where
  abbrev pub IsPlain : SweepReport F → Type 0
  IsPlain r =
      (r.strategy ≡ strategy)
      × (r.baseline_minimum_mib ≡ 0)
      × (r.delta_minimum_mib ≡ pos 0)
      × (r.delta_resolved ≡ false)

  record_attempt-IsPlain :
      (a : SweepAttempt F) (r : SweepReport F) → IsPlain r → IsPlain (record_attempt a r)
  unfolding record_attempt
  record_attempt-IsPlain a r (asked, base, delta, unresolved) =
      (ground arith, ground arith, ground arith, ground arith)

  -- What is returned, if anything is.
  abbrev pub Returns : Option (Outcome F) → Type 0
  Returns none = Unit
  Returns (some (r, e)) = IsPlain r

  Returns-if :
      (b : Bool) (x y : Option (Outcome F)) → Returns x → Returns y → Returns (if b then x else y)
  Returns-if true x y hx hy = hx
  Returns-if false x y hx hy = hy

module _ {F : Type 0} (run : List (SweepAttempt F) → SweepAttempt F → SweepAttempt F)
    (cancelled : List (SweepAttempt F) → Bool) (cfg : Config) where
  abbrev Plain : SweepReport F → Type 0
  Plain = IsPlain cfg.strategy

  repeat-IsPlain :
      (left limit repetition : ℕ) (passed : Bool) (r : SweepReport F)
      → Plain r
      → Plain ((repeat run cancelled cfg left limit repetition passed r).1)
  unfolding repeat
  repeat-IsPlain zero limit repetition passed r h = h
  repeat-IsPlain (suc left) limit repetition passed r h = elim (Bool-cases (cancelled r.attempts)) [
    | inl done ↦ rw done h
    | inr live ↦ rw live (
        repeat-IsPlain left limit (repetition + 1) _ _ (
          record_attempt-IsPlain cfg.strategy
            (run r.attempts (new_attempt cfg.strategy limit repetition)) r h))
  ]

  test-IsPlain :
      (limit : ℕ) (s : Progress F)
      → Plain s.report
      → Plain ((test run cancelled cfg limit s).1.report)
  unfolding test
  test-IsPlain limit s h = by_verdict (verdict limit s.tested)
    where
      by_result :
          (o : Option Bool × SweepReport F)
          → Plain (o.1)
          → Plain ((conclude limit s.tested o).1.report)
      by_result (none, r) k = k
      by_result (some p, r) k = k

      by_verdict :
          (o : Option Bool)
          → Plain (
              (elim o as (λ x. Option Bool × Progress F) [
                | some p ↦ (some p, s)
                | none ↦
                    conclude limit s.tested
                      (repeat run cancelled cfg (pos_part cfg.repetitions) limit 1 true s.report)
              ]).1.report)
      by_verdict (some p) = h
      by_verdict none = by_result _ (repeat-IsPlain _ limit 1 true s.report h)

  split-Returns :
      (p : Option Bool) (s : Progress F) (x y : Option (Outcome F))
      → Plain s.report
      → Returns cfg.strategy x
      → Returns cfg.strategy y
      → Returns cfg.strategy
          (elim p [ none ↦ some (s.report, some context_done) | some true ↦ x | some false ↦ y ])
  split-Returns none s x y h hx hy = h
  split-Returns (some true) s x y h hx hy = hx
  split-Returns (some false) s x y h hx hy = hy

  narrow-Returns :
      (fuel fail pass : ℕ) (s : Progress F)
      → Plain s.report
      → Returns cfg.strategy (narrow run cancelled cfg fuel fail pass s)
  unfolding narrow
  narrow-Returns zero fail pass s h = tt
  narrow-Returns (suc fuel) fail pass s h =
      let mid = middle cfg fail pass in
      let (p, s') = test run cancelled cfg mid s in
      let h' = test-IsPlain mid s h in
      Returns-if cfg.strategy (ltb (step cfg) (pass - fail)) _ _
        (split-Returns p s' _ _ h' (narrow-Returns fuel fail mid s' h')
          (narrow-Returns fuel mid pass s' h'))
        h

  after_lower-Returns :
      (low high : ℕ) (o : Option Bool) (s : Progress F)
      → Plain s.report
      → Returns cfg.strategy (after_lower run cancelled cfg low high (o, s))
  unfolding after_lower
  after_lower-Returns low high none s h = h
  after_lower-Returns low high (some true) s h = h
  after_lower-Returns low high (some false) s h = narrow-Returns (suc (high - low)) low high s h

  after_upper-Returns :
      (low high : ℕ) (o : Option Bool) (s : Progress F)
      → Plain s.report
      → Returns cfg.strategy (after_upper run cancelled cfg low high (o, s))
  unfolding after_upper
  after_upper-Returns low high none s h = h
  after_upper-Returns low high (some false) s h = h
  after_upper-Returns low high (some true) s h =
      after_lower-Returns low high _ _ (test-IsPlain low s h)

  -- The report of a search names its strategy, and compares nothing.
  pub search-Returns : Returns cfg.strategy (search run cancelled cfg)
  unfolding search
  search-Returns = Returns-if cfg.strategy (is_invalid cfg) _ _ fresh (
      Returns-if cfg.strategy (ltb (upper cfg) (lower cfg)) _ _ fresh (
        after_upper-Returns (lower cfg) (upper cfg) _ _
          (test-IsPlain (upper cfg) (start cfg) fresh)))
    where
      fresh : Plain (new_report cfg)
      fresh = (refl, refl, refl, refl)
