-- ===== src/Sweep/Search/Bracket.antt =====
-- The binary search of internal/sweep/search.go: it ends, and it keeps a failing limit below a passing
-- one until they are one step apart.
use native.Mathlib.Decide.{dec_lt}
use logrotate_cache_lab.Base.{
  ℕ, zero, suc, ◌+◌, ◌-◌, ◌*◌, ◌/◌, ◌^◌, ◌≤◌, ◌<◌, ◌≡◌, ◌⊎◌, refl, ◌∙◌, Bool, true, false, Option,
  none, some, List, arith, ltb, lt→ltb, leb, length, if◌then◌else◌, All, Bool-cases, inl, inr,
}
use logrotate_cache_lab.Base.Int.{ℤ, pos, negsuc, pos_part, wrap_int64, quotient}
use logrotate_cache_lab.Report.{SweepAttempt, SweepReport}
use logrotate_cache_lab.Sweep.Search.{
  Config, Outcome, context_done, verdict, Progress, scaled, align_up, align_down, test, step,
  middle, narrow,
}
use logrotate_cache_lab.Sweep.Search.Attempts.{attempts_at, all_passed, IsTallied}
use logrotate_cache_lab.Sweep.Search.Log.{IsLogged, After, test-After}

pub verdict-cases : (o : Option Bool) → (o ≡ none) ⊎ ((o ≡ some true) ⊎ (o ≡ some false))
verdict-cases none = inl refl
verdict-cases (some true) = inr (inl refl)
verdict-cases (some false) = inr (inr refl)

-- A multiple of the step.
abbrev pub IsAligned : ℕ → ℕ → Type 0
IsAligned s n = (k : ℕ) × (n ≡ k * s)

pub align_down-le : (n s : ℕ) → align_down n s ≤ n
unfolding align_down
align_down-le n s = grind arith

pub align_down-IsAligned : (n s : ℕ) → IsAligned s (align_down n s)
unfolding align_down
align_down-IsAligned n s = (n / s, refl)

scaled-IsAligned : (z : ℤ) (s : ℕ) → IsAligned s (pos_part (scaled z s))
unfolding scaled
scaled-IsAligned (pos n) s = (n, refl)
scaled-IsAligned (negsuc n) s = (0, omega arith)

pub align_up-IsAligned : (n s : ℕ) → IsAligned s (pos_part (align_up n s))
unfolding align_up
align_up-IsAligned n s = scaled-IsAligned (quotient (wrap_int64 (n + s - 1)) s) s

wrap_small : (n : ℕ) → n < 2 ^ 63 → wrap_int64 n ≡ pos n
wrap_small n h = ground arith

-- Where the sum does not wrap, the aligned limit is the least multiple that is not below the value.
pub align_up-least :
    (n s : ℕ)
    → 0 < s
    → n + s ≤ 2 ^ 63
    → (n ≤ pos_part (align_up n s)) × (pos_part (align_up n s) < n + s)
unfolding align_up scaled
align_up-least n s positive fits =
    rw (wrap_small (n + s - 1) (omega arith)) (grind arith, grind arith)

wrapped-le : (n : ℕ) → pos_part (wrap_int64 n) ≤ n
wrapped-le n = ground arith

-- The half of a sum, wrapped or not, is not above the half of the sum.
half-le : (n : ℕ) → pos_part (wrap_int64 n) / 2 ≤ n / 2
half-le n = omega (arith, wrapped-le n)

next-IsAligned : (n s : ℕ) → IsAligned s n → IsAligned s (n + s)
next-IsAligned n s (k, e) = (k + 1, grind arith)

mul_mono : (a b s : ℕ) → a ≤ b → a * s ≤ b * s
mul_mono a b s h = grind arith

-- Two aligned numbers lie a step apart at least.
pub aligned_gap : (a b s : ℕ) → IsAligned s a → IsAligned s b → a < b → a + s ≤ b
aligned_gap a b s (k, e) (j, d) h = elim (dec_lt k j) [
  | yes less ↦ omega (arith, mul_mono (k + 1) j s (omega arith))
  | no more ↦ absurd (omega (arith, mul_mono j k s (omega arith)))
]

module _ (cfg : Config) where
  -- The next limit lies strictly between a failing and a passing one.
  middle_between :
      (fail pass : ℕ)
      → step cfg < pass - fail
      → 0 < step cfg
      → (fail < middle cfg fail pass) × (middle cfg fail pass < pass)
  unfolding middle
  middle_between fail pass wide positive =
      let half = pos_part (wrap_int64 (fail + pass)) / 2 in
      let below = align_down-le half (step cfg) in
      let low = half-le (fail + pass) in by_middle (align_down half (step cfg)) (omega arith)
    where
      by_middle :
          (mid : ℕ)
          → mid ≤ (fail + pass) / 2
          → (fail < (if leb mid fail then fail + step cfg else mid))
            × ((if leb mid fail then fail + step cfg else mid) < pass)
      by_middle mid h = ground arith

  middle-IsAligned :
      (fail pass : ℕ) → IsAligned (step cfg) fail → IsAligned (step cfg) (middle cfg fail pass)
  unfolding middle
  middle-IsAligned fail pass aligned =
      elim (Bool-cases
        (leb (align_down (pos_part (wrap_int64 (fail + pass)) / 2) (step cfg)) fail)) [
          | inl low ↦ rw low (next-IsAligned fail _ aligned)
          | inr high ↦ rw high (align_down-IsAligned _ _)
        ]

module _ {F : Type 0} (run : List (SweepAttempt F) → SweepAttempt F → SweepAttempt F)
    (cancelled : List (SweepAttempt F) → Bool) (cfg : Config)
    (keeps : (h : List (SweepAttempt F)) (a : SweepAttempt F) → (run h a).limit_mib ≡ a.limit_mib)
    (Q : SweepAttempt F → Type 0)
    (each : (h : List (SweepAttempt F)) (a : SweepAttempt F) → Q (run h a)) where
  -- The full number of repetitions was made at a limit, and whether all of them passed.
  abbrev pub Tried : ℕ → Bool → SweepReport F → Type 0
  Tried limit p r =
      (length (attempts_at limit r.attempts) ≡ pos_part cfg.repetitions)
      × (all_passed (attempts_at limit r.attempts) ≡ p)

  -- A report with a resolved boundary inside `low` to `high`.
  pub record Resolved (low high : ℕ) (r : SweepReport F) : Type 0 where
    pub flag : r.boundary_resolved ≡ true
    pub from_low : low ≤ r.greatest_fail_mib
    pub ordered : r.greatest_fail_mib < r.minimum_pass_mib
    pub to_high : r.minimum_pass_mib ≤ high
    pub close : r.minimum_pass_mib ≤ r.greatest_fail_mib + step cfg
    pub fail_aligned : IsAligned (step cfg) r.greatest_fail_mib
    pub pass_aligned : IsAligned (step cfg) r.minimum_pass_mib
    pub passes : Tried r.minimum_pass_mib true r
    pub fails : Tried r.greatest_fail_mib false r
    pub counters : IsTallied r
    pub every : All Q r.attempts

  -- A search ends resolved, or because the context is done.
  abbrev pub Narrowed : ℕ → ℕ → Outcome F → Type 0
  Narrowed low high (r, none) = Resolved low high r
  Narrowed low high (r, some e) =
      (e ≡ context_done)
      × IsTallied r
      × (r.boundary_resolved ≡ false)
      × ((h : List (SweepAttempt F)) × (cancelled h ≡ true))

  -- What holds between two rounds of the loop.
  pub record Between (low high fail pass : ℕ) (s : Progress F) : Type 0 where
    pub logged : IsLogged run cancelled cfg keeps Q each s
    pub fail_verdict : verdict fail s.tested ≡ some false
    pub pass_verdict : verdict pass s.tested ≡ some true
    pub low_fail : low ≤ fail
    pub fail_pass : fail < pass
    pub pass_high : pass ≤ high
    pub aligned_fail : IsAligned (step cfg) fail
    pub aligned_pass : IsAligned (step cfg) pass

  pub Tried-of_verdict :
      (l : ℕ) (p : Bool) (s : Progress F)
      → IsLogged run cancelled cfg keeps Q each s
      → verdict l s.tested ≡ some p
      → Tried l p s.report
  Tried-of_verdict l p s h e = rw e at (h.log l)

  abbrev next : ℕ → ℕ → Progress F → Option Bool × Progress F
  next fail pass s = test run cancelled cfg (middle cfg fail pass) s

  module _ (fuel fail pass : ℕ) (s : Progress F) where
    narrow_close :
        pass - fail ≤ step cfg
        → narrow run cancelled cfg (suc fuel) fail pass s
          ≡ some (
            record (s.report) {
              minimum_pass_mib = pass;
              greatest_fail_mib = fail;
              boundary_resolved = true;
            },
            none,
          )
    unfolding narrow
    narrow_close h =
        let test_fails : ltb (step cfg) (pass - fail) ≡ false = ground arith in rw test_fails

    module _ (wide : step cfg < pass - fail) where
      narrow_done :
          (next fail pass s).0 ≡ none
          → narrow run cancelled cfg (suc fuel) fail pass s
            ≡ some ((next fail pass s).1.report, some context_done)
      unfolding narrow
      narrow_done e = rw (lt→ltb _ _ wide, e, narrow)

      narrow_lower :
          (next fail pass s).0 ≡ some true
          → narrow run cancelled cfg (suc fuel) fail pass s
            ≡ narrow run cancelled cfg fuel fail (middle cfg fail pass) (next fail pass s).1
      unfolding narrow
      narrow_lower e = rw (lt→ltb _ _ wide, e, narrow)

      narrow_raise :
          (next fail pass s).0 ≡ some false
          → narrow run cancelled cfg (suc fuel) fail pass s
            ≡ narrow run cancelled cfg fuel (middle cfg fail pass) pass (next fail pass s).1
      unfolding narrow
      narrow_raise e = rw (lt→ltb _ _ wide, e, narrow)

  module _ (low high fail pass : ℕ) (s : Progress F) (b : Between low high fail pass s)
      (positive : 0 < step cfg) (wide : step cfg < pass - fail) where
    abbrev after :
        After run cancelled cfg keeps Q each
          (middle cfg fail pass)
          s
          (next fail pass s).1
          (next fail pass s).0
    after = test-After run cancelled cfg keeps Q each (middle cfg fail pass) s b.logged

    Between-lower :
        (next fail pass s).0 ≡ some true
        → Between low high fail (middle cfg fail pass) (next fail pass s).1
    Between-lower e =
        let (logged, found) = after.logged true e in
        let (above, below) = middle_between cfg fail pass wide positive in
        record {
          logged = logged;
          fail_verdict = after.kept fail false b.fail_verdict;
          pass_verdict = found;
          low_fail = b.low_fail;
          fail_pass = above;
          pass_high = omega (arith, b.pass_high);
          aligned_fail = b.aligned_fail;
          aligned_pass = middle-IsAligned cfg fail pass b.aligned_fail;
        }

    Between-raise :
        (next fail pass s).0 ≡ some false
        → Between low high (middle cfg fail pass) pass (next fail pass s).1
    Between-raise e =
        let (logged, found) = after.logged false e in
        let (above, below) = middle_between cfg fail pass wide positive in
        record {
          logged = logged;
          fail_verdict = found;
          pass_verdict = after.kept pass true b.pass_verdict;
          low_fail = omega (arith, b.low_fail);
          fail_pass = below;
          pass_high = b.pass_high;
          aligned_fail = middle-IsAligned cfg fail pass b.aligned_fail;
          aligned_pass = b.aligned_pass;
        }

  Between-Resolved :
      (low high fail pass : ℕ) (s : Progress F)
      → Between low high fail pass s
      → pass - fail ≤ step cfg
      → Resolved low high (record (s.report) {
        minimum_pass_mib = pass;
        greatest_fail_mib = fail;
        boundary_resolved = true;
      })
  Between-Resolved low high fail pass s b near = record {
    flag = refl;
    from_low = b.low_fail;
    ordered = b.fail_pass;
    to_high = b.pass_high;
    close = omega (arith, b.fail_pass);
    fail_aligned = b.aligned_fail;
    pass_aligned = b.aligned_pass;
    passes = Tried-of_verdict pass true s b.logged b.pass_verdict;
    fails = Tried-of_verdict fail false s b.logged b.fail_verdict;
    counters = record {
      oom = b.logged.tallied.oom;
      functional = b.logged.tallied.functional;
      integrity = b.logged.tallied.integrity;
      timeout = b.logged.tallied.timeout;
    };
    every = b.logged.all_hold;
  }

  -- With fuel beyond the distance the loop ends, in one of its two ways.
  pub narrow_ends :
      (fuel low high fail pass : ℕ) (s : Progress F)
      → pass - fail < fuel
      → 0 < step cfg
      → Between low high fail pass s
      → (o : Outcome F) × (narrow run cancelled cfg fuel fail pass s ≡ some o) × Narrowed low high o
  narrow_ends zero low high fail pass s enough positive b = absurd (omega arith)
  narrow_ends (suc fuel) low high fail pass s enough positive b =
      elim (dec_lt (step cfg) (pass - fail)) [
        | yes wide ↦
            let (above, below) = middle_between cfg fail pass wide positive in
            elim (verdict-cases (next fail pass s).0) [
              | inl done ↦
                  let known = test-After run cancelled cfg keeps Q each _ s b.logged in
                  (
                    ((next fail pass s).1.report, some context_done),
                    narrow_done fuel fail pass s wide done,
                    (refl, known.still_tallied, known.still_unresolved, known.was_stopped done),
                  )
              | inr (inl passed) ↦
                  let (o, ends, good) =
                    narrow_ends fuel low high fail (middle cfg fail pass) _ (omega arith) positive
                      (Between-lower low high fail pass s b positive wide passed) in
                  (o, narrow_lower fuel fail pass s wide passed ∙ ends, good)
              | inr (inr failed) ↦
                  let (o, ends, good) =
                    narrow_ends fuel low high (middle cfg fail pass) pass _ (omega arith) positive
                      (Between-raise low high fail pass s b positive wide failed) in
                  (o, narrow_raise fuel fail pass s wide failed ∙ ends, good)
            ]
        | no close ↦ (
          _,
          narrow_close fuel fail pass s (omega arith),
          Between-Resolved low high fail pass s b (omega arith),
        )
      ]
