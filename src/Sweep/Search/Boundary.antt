-- ===== src/Sweep/Search/Boundary.antt =====
-- What `Search` of internal/sweep/search.go returns, for every runner of attempts.
use native.Mathlib.Decide.{dec_lt, ℕ_discrete}
use logrotate_cache_lab.Base.{
  ℕ, ◌+◌, ◌^◌, ◌≤◌, ◌<◌, ◌≡◌, ◌⊎◌, refl, sym, subst, Bool, true, false, Option, none, some, List,
  arith, ltb, lt→ltb, All, Bool-cases, inl, inr,
}
use logrotate_cache_lab.Base.Int.{pos_part}
use logrotate_cache_lab.Report.{SweepAttempt, SweepReport}
use logrotate_cache_lab.Sweep.Search.{
  Config, Outcome, invalid_configuration, empty_range, upper_did_not_pass, context_done, verdict,
  Progress, step, upper, lower, is_invalid, start, new_report, after_upper, after_lower, search,
}
use logrotate_cache_lab.Sweep.Search.Attempts.{IsTallied}
use logrotate_cache_lab.Sweep.Search.Log.{IsLogged, After, start-IsLogged, test-After}
use logrotate_cache_lab.Sweep.Search.Bracket.{
  IsAligned, align_down-IsAligned, align_up-IsAligned, align_up-least, Tried, Resolved, Narrowed,
  narrow_ends, Tried-of_verdict, Between,
}

-- But for a configuration that is refused, the lowest limit is the least multiple of the step from the
-- lower bound on.
abbrev pub IsNear : Config → Type 0
IsNear cfg =
    (is_invalid cfg ≡ true)
    ⊎ (IsAligned (step cfg) (lower cfg)
        × (pos_part cfg.lower_mib ≤ lower cfg)
        × (lower cfg < pos_part cfg.lower_mib + step cfg))

step-pos : (cfg : Config) → is_invalid cfg ≡ false → 0 < step cfg
step-pos cfg valid = ground arith

pub IsNear-of : (cfg : Config) → pos_part cfg.lower_mib + step cfg ≤ 2 ^ 63 → IsNear cfg
IsNear-of cfg fits = elim (Bool-cases (is_invalid cfg)) [
  | inl invalid ↦ inl invalid
  | inr valid ↦
      let (above, near) = align_up-least _ _ (step-pos cfg valid) fits in
      inr (align_up-IsAligned _ _, above, near)
]

module _ {F : Type 0} (run : List (SweepAttempt F) → SweepAttempt F → SweepAttempt F)
    (cancelled : List (SweepAttempt F) → Bool) (cfg : Config)
    (keeps : (h : List (SweepAttempt F)) (a : SweepAttempt F) → (run h a).limit_mib ≡ a.limit_mib)
    (Q : SweepAttempt F → Type 0)
    (each : (h : List (SweepAttempt F)) (a : SweepAttempt F) → Q (run h a)) where
  abbrev Logged : Progress F → Type 0
  Logged = IsLogged run cancelled cfg keeps Q each

  abbrev AllTried : ℕ → Bool → SweepReport F → Type 0
  AllTried = Tried run cancelled cfg keeps Q each

  -- The lower bound passed, so that no failing limit is known.
  pub record LowerPassed (r : SweepReport F) : Type 0 where
    pub minimum : r.minimum_pass_mib ≡ lower cfg
    pub no_failure : r.greatest_fail_mib ≡ 0
    pub unresolved : r.boundary_resolved ≡ false
    pub lower_tried : AllTried (lower cfg) true r
    pub upper_tried : AllTried (upper cfg) true r
    pub counters : IsTallied r
    pub every : All Q r.attempts

  -- What a search returns, by the way in which it ends.
  abbrev pub Ends : Outcome F → Type 0
  Ends (r, none) =
      (Resolved run cancelled cfg keeps Q each (lower cfg) (upper cfg) r) ⊎ (LowerPassed r)
  Ends (r, some invalid_configuration) = (is_invalid cfg ≡ true) × (r ≡ new_report cfg)
  Ends (r, some empty_range) = (upper cfg < lower cfg) × (r ≡ new_report cfg)
  Ends (r, some (upper_did_not_pass limit)) =
      (limit ≡ upper cfg)
      × (r.greatest_fail_mib ≡ upper cfg)
      × (r.boundary_resolved ≡ false)
      × AllTried (upper cfg) false r
      × All Q r.attempts
      × IsTallied r
  Ends (r, some context_done) =
      (r.boundary_resolved ≡ false)
      × IsTallied r
      × ((h : List (SweepAttempt F)) × (cancelled h ≡ true))

  Between-start :
      (s : Progress F)
      → Logged s
      → lower cfg ≤ upper cfg
      → verdict (lower cfg) s.tested ≡ some false
      → verdict (upper cfg) s.tested ≡ some true
      → Between run cancelled cfg keeps Q each (lower cfg) (upper cfg) (lower cfg) (upper cfg) s
  Between-start s h ordered failed passed = record {
    logged = h;
    fail_verdict = failed;
    pass_verdict = passed;
    low_fail = omega arith;
    fail_pass = elim (ℕ_discrete (lower cfg) (upper cfg)) [
      | yes same ↦ absurd (cc (subst (λ l. verdict l s.tested ≡ some false) same failed, passed))
      | no other ↦ omega arith
    ];
    pass_high = omega arith;
    aligned_fail = align_up-IsAligned _ _;
    aligned_pass = align_down-IsAligned _ _;
  }

  LowerPassed-of :
      (s : Progress F)
      → Logged s
      → verdict (lower cfg) s.tested ≡ some true
      → verdict (upper cfg) s.tested ≡ some true
      → LowerPassed (record (s.report) { minimum_pass_mib = lower cfg })
  LowerPassed-of s h low high = record {
    minimum = refl;
    no_failure = h.no_greatest;
    unresolved = h.unresolved;
    lower_tried = Tried-of_verdict run cancelled cfg keeps Q each (lower cfg) true s h low;
    upper_tried = Tried-of_verdict run cancelled cfg keeps Q each (upper cfg) true s h high;
    counters = record {
      oom = h.tallied.oom;
      functional = h.tallied.functional;
      integrity = h.tallied.integrity;
      timeout = h.tallied.timeout;
    };
    every = h.all_hold;
  }

  widen-Narrowed :
      (o : Outcome F) → Narrowed run cancelled cfg keeps Q each (lower cfg) (upper cfg) o → Ends o
  widen-Narrowed (r, none) h = inl h
  widen-Narrowed (r, some e) (done, tallied, unresolved, stopped) =
      subst (λ x. Ends (r, some x)) (sym done) (unresolved, tallied, stopped)

  after_lower-Ends :
      (s s' : Progress F) (o : Option Bool)
      → 0 < step cfg
      → lower cfg ≤ upper cfg
      → verdict (upper cfg) s.tested ≡ some true
      → After run cancelled cfg keeps Q each (lower cfg) s s' o
      → (r : Outcome F) × (after_lower run cancelled cfg (lower cfg) (upper cfg) (o, s') ≡ some r)
        × Ends r
  unfolding after_lower
  after_lower-Ends s s' none positive ordered passed known = (
    (s'.report, some context_done),
    refl,
    (known.still_unresolved, known.still_tallied, known.was_stopped refl),
  )
  after_lower-Ends s s' (some true) positive ordered passed known =
      let (h, low) = known.logged true refl in
      (_, refl, inr (LowerPassed-of s' h low (known.kept (upper cfg) true passed)))
  after_lower-Ends s s' (some false) positive ordered passed known =
      let (h, low) = known.logged false refl in
      let (r, ends, good) =
        narrow_ends run cancelled cfg keeps Q each _ (lower cfg) (upper cfg) (lower cfg) (upper cfg)
          s' (omega arith) positive
          (Between-start s' h ordered low (known.kept (upper cfg) true passed)) in
      (r, ends, widen-Narrowed r good)

  after_upper-Ends :
      (s s' : Progress F) (o : Option Bool)
      → 0 < step cfg
      → lower cfg ≤ upper cfg
      → After run cancelled cfg keeps Q each (upper cfg) s s' o
      → (r : Outcome F) × (after_upper run cancelled cfg (lower cfg) (upper cfg) (o, s') ≡ some r)
        × Ends r
  unfolding after_upper
  after_upper-Ends s s' none positive ordered known = (
    (s'.report, some context_done),
    refl,
    (known.still_unresolved, known.still_tallied, known.was_stopped refl),
  )
  after_upper-Ends s s' (some true) positive ordered known =
      let (h, high) = known.logged true refl in
      after_lower-Ends s' _ _ positive ordered high
        (test-After run cancelled cfg keeps Q each (lower cfg) s' h)
  after_upper-Ends s s' (some false) positive ordered known =
      let (h, high) = known.logged false refl in
      (
        _,
        refl,
        (
          refl,
          refl,
          h.unresolved,
          Tried-of_verdict run cancelled cfg keeps Q each (upper cfg) false s' h high,
          h.all_hold,
          record {
            oom = h.tallied.oom;
            functional = h.tallied.functional;
            integrity = h.tallied.integrity;
            timeout = h.tallied.timeout;
          },
        ),
      )

  -- A search always returns.
  pub search_returns : (o : Outcome F) × (search run cancelled cfg ≡ some o) × Ends o
  unfolding search
  search_returns = elim (Bool-cases (is_invalid cfg)) [
    | inl invalid ↦ ((new_report cfg, some invalid_configuration), rw invalid, (invalid, refl))
    | inr valid ↦ elim (dec_lt (upper cfg) (lower cfg)) [
      | yes empty ↦
          ((new_report cfg, some empty_range), rw (valid, lt→ltb _ _ empty), (empty, refl))
      | no ordered ↦
          let closed : ltb (upper cfg) (lower cfg) ≡ false = ground arith in
          let known =
            test-After run cancelled cfg keeps Q each (upper cfg) (start cfg)
              (start-IsLogged run cancelled cfg keeps Q each) in
          rw (valid, closed)
            (after_upper-Ends (start cfg) _ _ (step-pos cfg valid) (omega arith) known)
    ]
  ]

  -- Let the runner keep the limit of an attempt, let `Q` hold of all that it returns, and let the lower
  -- bound and the step add up to 2^63 at most. Then the search returns. If it reports no error, then
  -- either the boundary is resolved: two aligned limits inside the bounds, at most one step apart, of which the upper one had all its repetitions
  -- pass and the lower one had one fail, each of them tried exactly as often as asked; or the lowest
  -- limit passed. If it reports that the upper limit did not pass, that limit was tried as often as
  -- asked and failed. It reports a context that is done only if the context was done. But for a
  -- configuration that is refused, the failure counters count the recorded attempts. But for such a
  -- configuration, the lowest limit is the least multiple of the step from the lower bound on.
  pub search-Ends :
      pos_part cfg.lower_mib + step cfg ≤ 2 ^ 63
      → (o : Outcome F) × (search run cancelled cfg ≡ some o) × Ends o × IsNear cfg
  search-Ends fits =
      let (o, returns, ends) = search_returns in (o, returns, ends, IsNear-of cfg fits)
