-- ===== src/Sweep/Search/Least.antt =====
-- `Search` of internal/sweep/search.go finds the least limit, if there is a threshold above which
-- every attempt passes and below which none does.
use logrotate_cache_lab.Base.{
  ℕ, ◌+◌, ◌^◌, ◌≤◌, ◌<◌, ◌≡◌, ◌⊎◌, refl, ◌∙◌, ap, Bool, true, false, Option, none, some, List, [],
  ◌∷◌, arith, leb, ==_iff, length, All, inl, inr,
}
use logrotate_cache_lab.Base.Int.{pos_part}
use logrotate_cache_lab.Report.{SweepAttempt, SweepReport}
use logrotate_cache_lab.Sweep.Search.{
  Config, Outcome, invalid_configuration, empty_range, upper_did_not_pass, context_done, step,
  upper, lower, is_invalid, search,
}
use logrotate_cache_lab.Sweep.Search.Attempts.{attempts_at, all_passed}
use logrotate_cache_lab.Sweep.Search.Bracket.{
  IsAligned, aligned_gap, align_up-IsAligned, Resolved, Tried,
}
use logrotate_cache_lab.Sweep.Search.Boundary.{Ends, LowerPassed, IsNear, search-Ends}

module _ {F : Type 0} (run : List (SweepAttempt F) → SweepAttempt F → SweepAttempt F)
    (cancelled : List (SweepAttempt F) → Bool) (cfg : Config)
    (keeps : (h : List (SweepAttempt F)) (a : SweepAttempt F) → (run h a).limit_mib ≡ a.limit_mib)
    (threshold : ℕ)
    (passes : (h : List (SweepAttempt F)) (a : SweepAttempt F)
      → (run h a).passed ≡ leb threshold a.limit_mib) where
  Judged : SweepAttempt F → Type 0
  Judged a = a.passed ≡ leb threshold a.limit_mib

  run-Judged : (h : List (SweepAttempt F)) (a : SweepAttempt F) → Judged (run h a)
  unfolding Judged
  run-Judged h a = passes h a ∙ rw (keeps h a)

  judged_at :
      (limit : ℕ) (xs : List (SweepAttempt F))
      → All Judged xs
      → ((length (attempts_at limit xs) ≡ 0) × (all_passed (attempts_at limit xs) ≡ true))
        ⊎ (all_passed (attempts_at limit xs) ≡ leb threshold limit)
  unfolding Judged
  judged_at limit [] h = inl (refl, refl)
  judged_at limit (a ∷ xs) (ha, h) = ground (arith, ==_iff a.limit_mib limit, judged_at limit xs h)

  module _ (valid : is_invalid cfg ≡ false) where
    -- A limit that was tried is judged by the threshold.
    Tried-judged :
        (limit : ℕ) (p : Bool) (r : SweepReport F)
        → All Judged r.attempts
        → Tried run cancelled cfg keeps Judged run-Judged limit p r
        → p ≡ leb threshold limit
    Tried-judged limit p r h (count, verdict) = ground (arith, judged_at limit r.attempts h)

    -- The least aligned limit from the lower bound on that reaches the threshold.
    abbrev pub IsLeast : ℕ → Type 0
    IsLeast m =
        IsAligned (step cfg) m
        × (lower cfg ≤ m)
        × (threshold ≤ m)
        × ((n : ℕ) → IsAligned (step cfg) n → lower cfg ≤ n → threshold ≤ n → m ≤ n)

    Resolved-IsLeast :
        (r : SweepReport F)
        → Resolved run cancelled cfg keeps Judged run-Judged (lower cfg) (upper cfg) r
        → IsLeast r.minimum_pass_mib
    Resolved-IsLeast r h =
        let passed = Tried-judged r.minimum_pass_mib true r h.every h.passes in
        let failed = Tried-judged r.greatest_fail_mib false r h.every h.fails in
        let above : r.greatest_fail_mib < threshold = ground arith in
        (
          h.pass_aligned,
          omega (arith, h.from_low, h.ordered),
          ground arith,
          λ n aligned from_low reached.
              let gap =
                aligned_gap r.greatest_fail_mib n (step cfg) h.fail_aligned aligned (omega arith) in
              omega (arith, h.close),
        )

    lower-IsLeast :
        (r : SweepReport F)
        → LowerPassed run cancelled cfg keeps Judged run-Judged r
        → IsLeast r.minimum_pass_mib
    lower-IsLeast r h =
        let passed = Tried-judged (lower cfg) true r h.every h.lower_tried in
        rw h.minimum (
          align_up-IsAligned _ _,
          omega arith,
          ground arith,
          λ n aligned from_low reached. from_low,
        )

    Ends-IsLeast :
        ((h : List (SweepAttempt F)) → cancelled h ≡ false)
        → lower cfg ≤ upper cfg
        → threshold ≤ upper cfg
        → (o : Outcome F) → Ends run cancelled cfg keeps Judged run-Judged o
        → (o.1 ≡ none) × IsLeast o.0.minimum_pass_mib
    Ends-IsLeast live ordered reached (r, none) (inl h) = (refl, Resolved-IsLeast r h)
    Ends-IsLeast live ordered reached (r, none) (inr h) = (refl, lower-IsLeast r h)
    Ends-IsLeast live ordered reached (r, some invalid_configuration) (bad, _) = absurd (cc)
    Ends-IsLeast live ordered reached (r, some empty_range) (empty, _) = absurd (omega arith)
    Ends-IsLeast live ordered reached (r, some (upper_did_not_pass l)) (_, _, _, tried, every, _) =
        let judged = Tried-judged (upper cfg) false r every tried in absurd (ground arith)
    Ends-IsLeast live ordered reached (r, some context_done) (_, _, (h, done)) =
        absurd (cc (live h))

    -- Let the configuration be valid and its lower bound and step add up to 2^63 at most. Let every attempt
    -- keep its limit and pass exactly from a threshold on, whatever was tried
    -- before, let the context never be done, and let the aligned bounds hold a limit that reaches the
    -- threshold. Then the search ends with no error, and reports the least such limit. The aligned lower
    -- bound is the least multiple of the step from the lower bound on.
    pub search-IsLeast :
        pos_part cfg.lower_mib + step cfg ≤ 2 ^ 63
        → ((h : List (SweepAttempt F)) → cancelled h ≡ false)
        → lower cfg ≤ upper cfg
        → threshold ≤ upper cfg
        → (r : SweepReport F) × (search run cancelled cfg ≡ some (r, none))
          × IsLeast r.minimum_pass_mib
          × IsNear cfg
    search-IsLeast fits live ordered reached =
        let (o, returns, ends, near) = search-Ends run cancelled cfg keeps Judged run-Judged fits in
        let (clean, least) = Ends-IsLeast live ordered reached o ends in
        (o.0, returns ∙ ap {B = Option (Outcome F)} (λ e. some (o.0, e)) clean, least, near)
