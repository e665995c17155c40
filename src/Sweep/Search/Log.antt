-- ===== src/Sweep/Search/Log.antt =====
-- What one call of the closure `test` of internal/sweep/search.go adds to the recorded attempts.
use logrotate_cache_lab.Base.{
  ℕ, zero, suc, ◌+◌, ◌≡◌, ◌≢◌, refl, sym, ◌∙◌, ap, subst, Bool, true, false, ◌&&◌, Option, none,
  some, List, [], ◌∷◌, ◌++◌, arith, ◌==◌, ==_iff, if◌then◌else◌, length, length-append, All,
  All-append, Bool-cases, Option-cases, inl, inr, append-nil,
}
use native.Mathlib.Decide.{ℕ_discrete}
use mathlib.Core.Option.{some-injective, none-ne-some, some-ne-none}
use logrotate_cache_lab.Base.Int.{pos_part}
use logrotate_cache_lab.Report.{SweepAttempt, SweepReport}
use logrotate_cache_lab.Sweep.Search.{
  Config, Tested, verdict, Progress, record_attempt, repeat, conclude, test, start,
}
use logrotate_cache_lab.Sweep.Search.Attempts.{
  attempts_at, all_passed, IsTallied, attempts_at-snoc, all_passed-snoc, attempts-record_attempt,
  record_attempt-IsTallied,
}

module _ {F : Type 0} (a : SweepAttempt F) (r : SweepReport F) where
  boundary-record_attempt : (record_attempt a r).boundary_resolved ≡ r.boundary_resolved
  unfolding record_attempt
  boundary-record_attempt = ground arith

  greatest-record_attempt : (record_attempt a r).greatest_fail_mib ≡ r.greatest_fail_mib
  unfolding record_attempt
  greatest-record_attempt = ground arith

module _ {F : Type 0} (run : List (SweepAttempt F) → SweepAttempt F → SweepAttempt F)
    (cancelled : List (SweepAttempt F) → Bool) (cfg : Config)
    (keeps : (h : List (SweepAttempt F)) (a : SweepAttempt F) → (run h a).limit_mib ≡ a.limit_mib)
    (Q : SweepAttempt F → Type 0)
    (each : (h : List (SweepAttempt F)) (a : SweepAttempt F) → Q (run h a)) where
  -- What the rounds at a limit did to a report, and the verdict `o` that they came to.
  record Repeated (limit left : ℕ) (passed : Bool) (r r' : SweepReport F) (o : Option Bool)
      : Type 0 where
    others : (l : ℕ) → l ≢ limit → attempts_at l r'.attempts ≡ attempts_at l r.attempts
    tallied : IsTallied r → IsTallied r'
    all : All Q r.attempts → All Q r'.attempts
    count :
        (p : Bool)
        → o ≡ some p
        → length (attempts_at limit r'.attempts) ≡ length (attempts_at limit r.attempts) + left
    result :
        (p : Bool)
        → o ≡ some p
        → all_passed (attempts_at limit r.attempts) ≡ passed
        → all_passed (attempts_at limit r'.attempts) ≡ p
    stopped : o ≡ none → (h : List (SweepAttempt F)) × (cancelled h ≡ true)
    same_boundary : r'.boundary_resolved ≡ r.boundary_resolved
    same_greatest : r'.greatest_fail_mib ≡ r.greatest_fail_mib

  module _ (limit : ℕ) (a : SweepAttempt F) (r : SweepReport F) (here : a.limit_mib ≡ limit) where
    attempts_at-here :
        attempts_at limit (record_attempt a r).attempts ≡ attempts_at limit r.attempts ++ a ∷ []
    attempts_at-here =
        rw (attempts-record_attempt, attempts_at-snoc) (ground (arith, ==_iff a.limit_mib limit))

    attempts_at-elsewhere :
        (l : ℕ) → l ≢ limit → attempts_at l (record_attempt a r).attempts ≡ attempts_at l r.attempts
    attempts_at-elsewhere l differ =
        rw (attempts-record_attempt, attempts_at-snoc)
          (ground (arith, append-nil (attempts_at l r.attempts)))

  -- One round before the others.
  Repeated-step :
      (left limit : ℕ) (passed : Bool) (r r' : SweepReport F) (o : Option Bool) (a : SweepAttempt F)
      → a.limit_mib ≡ limit
      → Q a
      → Repeated limit left (passed && a.passed) (record_attempt a r) r' o
      → Repeated limit (suc left) passed r r' o
  Repeated-step left limit passed r r' o a here q more = record {
    others = λ l differ. more.others l differ ∙ attempts_at-elsewhere limit a r here l differ;
    tallied = λ h. more.tallied (record_attempt-IsTallied a r h);
    all = λ h. more.all (rw attempts-record_attempt (All-append Q r.attempts (a ∷ []) h (q, tt)));
    count = λ p e. omega (
      arith,
      more.count p e,
      ap {B = ℕ} length (attempts_at-here limit a r here),
      length-append (attempts_at limit r.attempts) (a ∷ []),
    );
    result =
        λ p e start. more.result p e (rw (attempts_at-here limit a r here, all_passed-snoc, start));
    stopped = more.stopped;
    same_boundary = more.same_boundary ∙ boundary-record_attempt a r;
    same_greatest = more.same_greatest ∙ greatest-record_attempt a r;
  }

  repeat-Repeated :
      (left limit repetition : ℕ) (passed : Bool) (r : SweepReport F)
      → Repeated limit left passed r
          (repeat run cancelled cfg left limit repetition passed r).1
          (repeat run cancelled cfg left limit repetition passed r).0
  unfolding repeat
  repeat-Repeated zero limit repetition passed r = record {
    others = λ l differ. refl;
    tallied = λ h. h;
    all = λ h. h;
    count = λ p e. omega arith;
    result = λ p e start. start ∙ some-injective _ _ e;
    stopped = λ e. absurd (some-ne-none passed e);
    same_boundary = refl;
    same_greatest = refl;
  }
  repeat-Repeated (suc left) limit repetition passed r = elim (Bool-cases (cancelled r.attempts)) [
    | inl done ↦ rw done (record {
      others = λ l differ. refl;
      tallied = λ h. h;
      all = λ h. h;
      count = λ p e. absurd (none-ne-some p e);
      result = λ p e. absurd (none-ne-some p e);
      stopped = λ e. (r.attempts, done);
      same_boundary = refl;
      same_greatest = refl;
    })
    | inr live ↦ rw live (
        Repeated-step left limit passed r _ _ _ (keeps _ _) (each _ _)
          (repeat-Repeated left limit (repetition + 1) _ _))
  ]

  -- The attempts at a limit are as many as the repetitions, and the verdict is whether all passed.
  abbrev pub Agrees : Option Bool → List (SweepAttempt F) → Type 0
  Agrees none xs = xs ≡ []
  Agrees (some p) xs = (length xs ≡ pos_part cfg.repetitions) × (all_passed xs ≡ p)

  -- The map of verdicts and the recorded attempts agree at every limit.
  pub record IsLogged (s : Progress F) : Type 0 where
    pub log : (l : ℕ) → Agrees (verdict l s.tested) (attempts_at l s.report.attempts)
    pub tallied : IsTallied s.report
    pub all_hold : All Q s.report.attempts
    pub unresolved : s.report.boundary_resolved ≡ false
    pub no_greatest : s.report.greatest_fail_mib ≡ 0

  pub start-IsLogged : IsLogged (start cfg)
  unfolding verdict
  start-IsLogged = record {
    log = λ l. refl;
    tallied = record { oom = refl; functional = refl; integrity = refl; timeout = refl };
    all_hold = tt;
    unresolved = refl;
    no_greatest = refl;
  }

  -- What is known after a call of `test` that came to `o`.
  pub record After (limit : ℕ) (s s' : Progress F) (o : Option Bool) : Type 0 where
    pub still_tallied : IsTallied s'.report
    pub still_unresolved : s'.report.boundary_resolved ≡ false
    pub still_no_greatest : s'.report.greatest_fail_mib ≡ 0
    pub kept : (l : ℕ) (q : Bool) → verdict l s.tested ≡ some q → verdict l s'.tested ≡ some q
    pub was_stopped : o ≡ none → (h : List (SweepAttempt F)) × (cancelled h ≡ true)
    pub logged : (p : Bool) → o ≡ some p → IsLogged s' × (verdict limit s'.tested ≡ some p)

  known-After :
      (limit : ℕ) (s : Progress F) (p : Bool)
      → IsLogged s
      → verdict limit s.tested ≡ some p
      → After limit s s (some p)
  known-After limit s p h known = record {
    still_tallied = h.tallied;
    still_unresolved = h.unresolved;
    still_no_greatest = h.no_greatest;
    kept = λ l q e. e;
    was_stopped = λ e. absurd (some-ne-none p e);
    logged = λ q e. (h, known ∙ e);
  }

  verdict-cons :
      (l limit : ℕ) (p : Bool) (m : Tested)
      → verdict l ((limit, p) ∷ m) ≡ (if l == limit then some p else verdict l m)
  unfolding verdict
  verdict-cons l limit p m = refl

  -- A verdict is added for a limit that had none.
  verdict_kept :
      (limit : ℕ) (p : Bool) (m : Tested)
      → verdict limit m ≡ none
      → (l : ℕ) (q : Bool) → verdict l m ≡ some q
      → verdict l ((limit, p) ∷ m) ≡ some q
  verdict_kept limit p m untried l q e = elim (ℕ_discrete l limit) [
    | yes same ↦ absurd (none-ne-some q (sym untried ∙ subst (λ k. verdict k m ≡ some q) same e))
    | no other ↦ rw verdict-cons (ground (arith, ==_iff l limit))
  ]

  not_same : (l limit : ℕ) → l ≢ limit → (l == limit) ≡ false
  not_same l limit other = ground arith

  test_known :
      (limit : ℕ) (s : Progress F) (p : Bool)
      → verdict limit s.tested ≡ some p
      → test run cancelled cfg limit s ≡ (some p, s)
  unfolding test
  test_known limit s p known = rw (known, test)

  test_untried :
      (limit : ℕ) (s : Progress F)
      → verdict limit s.tested ≡ none
      → test run cancelled cfg limit s
        ≡ conclude limit s.tested
            (repeat run cancelled cfg (pos_part cfg.repetitions) limit 1 true s.report)
  unfolding test
  test_untried limit s untried = rw (untried, test)

  conclude-log :
      (limit : ℕ) (s : Progress F) (r : SweepReport F) (p : Bool)
      → IsLogged s
      → verdict limit s.tested ≡ none
      → Repeated limit (pos_part cfg.repetitions) true s.report r (some p)
      → (l : ℕ) → Agrees (verdict l ((limit, p) ∷ s.tested)) (attempts_at l r.attempts)
  conclude-log limit s r p h untried rep l = elim (ℕ_discrete l limit) [
    | yes same ↦
        let empty = rw untried at (h.log limit) in
        rw (same, verdict-cons, (==_iff limit limit).1 refl)
          (rep.count p refl ∙ rw empty (omega arith), rep.result p refl (rw empty))
    | no other ↦ rw (verdict-cons, not_same l limit other, rep.others l other) (h.log l)
  ]

  conclude-After :
      (limit : ℕ) (s : Progress F) (o : Option Bool) (r : SweepReport F)
      → IsLogged s
      → verdict limit s.tested ≡ none
      → Repeated limit (pos_part cfg.repetitions) true s.report r o
      → After limit s (conclude limit s.tested (o, r)).1 (conclude limit s.tested (o, r)).0
  conclude-After limit s none r h untried rep = record {
    still_tallied = rep.tallied h.tallied;
    still_unresolved = rep.same_boundary ∙ h.unresolved;
    still_no_greatest = rep.same_greatest ∙ h.no_greatest;
    kept = λ l q e. e;
    was_stopped = rep.stopped;
    logged = λ p e. absurd (none-ne-some p e);
  }
  conclude-After limit s (some p) r h untried rep = record {
    still_tallied = rep.tallied h.tallied;
    still_unresolved = rep.same_boundary ∙ h.unresolved;
    still_no_greatest = rep.same_greatest ∙ h.no_greatest;
    kept = verdict_kept limit p s.tested untried;
    was_stopped = rep.stopped;
    logged = λ q e. (
      record {
        log = conclude-log limit s r p h untried rep;
        tallied = rep.tallied h.tallied;
        all_hold = rep.all h.all_hold;
        unresolved = rep.same_boundary ∙ h.unresolved;
        no_greatest = rep.same_greatest ∙ h.no_greatest;
      },
      rw (verdict-cons, (==_iff limit limit).1 refl) e,
    );
  }

  -- Every call of `test` keeps the log.
  pub test-After :
      (limit : ℕ) (s : Progress F)
      → IsLogged s
      → After limit s (test run cancelled cfg limit s).1 (test run cancelled cfg limit s).0
  test-After limit s h = elim (Option-cases (verdict limit s.tested)) [
    | inl untried ↦
        rw (test_untried limit s untried)
          (conclude-After limit s _ _ h untried (repeat-Repeated _ limit 1 true s.report))
    | inr (p, known) ↦ rw (test_known limit s p known) (known-After limit s p h known)
  ]
