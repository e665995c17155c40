-- ===== src/Command/Deltas.antt =====
-- What the reports of a memory sweep of cmd/loglab/main.go say of the baseline, and which there are.
use mathlib.Core.List.{map-append}
use logrotate_cache_lab.Base.{
  ◌≡◌, ◌≢◌, ◌↔◌, refl, sym, subst, ap, ◌∙◌, inl, inr, Bool, true, false, Bool-cases, Option, none,
  some, List, [], ◌∷◌, ◌++◌, map, append-nil, append_assoc, Bytes, codes, str_eq, str_eq_iff,
  if◌then◌else◌, All, All-append, arith,
}
use logrotate_cache_lab.Base.Int.{pos, ◌-ℤ◌}
use logrotate_cache_lab.Report.{SweepReport}
use logrotate_cache_lab.Sweep.Docker.{DockerConfig}
use logrotate_cache_lab.Sweep.Search.{SearchError, Outcome}
use logrotate_cache_lab.Command.Values.{sweep_defaults}
use logrotate_cache_lab.Command.Sweep.{
  SweepRun, baseline, copytruncate, rename_reopen, strategies_of, find_baseline, compare_with,
  fill_from, fill_deltas, or_stop, search_all, after_searches, with_flags, memory_sweep_command,
}

abbrev all_three : List Bytes
all_three = baseline ∷ copytruncate ∷ rename_reopen ∷ []

module _ {F : Type 0} where
  -- No search sets the fields of the comparison.
  abbrev pub IsUncompared : SweepReport F → Type 0
  IsUncompared r =
      (r.baseline_minimum_mib ≡ 0) × (r.delta_minimum_mib ≡ pos 0) × (r.delta_resolved ≡ false)

  abbrev pub IsCompared : SweepReport F → SweepReport F → Type 0
  IsCompared base r =
      ((r.delta_resolved ≡ true) ↔ (
        (r.strategy ≢ baseline) × (base.boundary_resolved ≡ true) × (r.boundary_resolved ≡ true)))
      × (r.delta_minimum_mib ≡ (
          if r.delta_resolved then pos r.minimum_pass_mib -ℤ pos base.minimum_pass_mib else pos 0))
      × (r.baseline_minimum_mib ≡ (if str_eq r.strategy baseline then 0 else base.minimum_pass_mib))

  compare_with-IsCompared :
      (base r : SweepReport F) → IsUncompared r → IsCompared base (compare_with base r)
  unfolding compare_with
  compare_with-IsCompared base r (minimum, delta, unresolved) =
      ground (arith, str_eq_iff r.strategy baseline)

  fill_deltas-base :
      (base : SweepReport F) (reports : List (SweepReport F))
      → find_baseline reports ≡ some base
      → fill_deltas reports ≡ map (compare_with base) reports
  unfolding fill_deltas
  fill_deltas-base base reports e = ap (λ o. fill_from o reports) e

  map-IsCompared :
      (base : SweepReport F) (reports : List (SweepReport F))
      → All IsUncompared reports
      → All (IsCompared base) (map (compare_with base) reports)
  map-IsCompared base [] h = tt
  map-IsCompared base (r ∷ reports) (h, hs) =
      (compare_with-IsCompared base r h, map-IsCompared base reports hs)

  abbrev strategies : List (SweepReport F) → List Bytes
  strategies reports = map SweepReport.strategy reports

  compare_with-strategy : (base r : SweepReport F) → (compare_with base r).strategy ≡ r.strategy
  unfolding compare_with
  compare_with-strategy base r = ground arith

  map-strategy :
      (base : SweepReport F) (reports : List (SweepReport F))
      → strategies (map (compare_with base) reports) ≡ strategies reports
  map-strategy base [] = refl
  map-strategy base (r ∷ reports) =
      λ i. compare_with-strategy base r i ∷ map-strategy base reports i

  fill_deltas-strategies :
      (reports : List (SweepReport F)) → strategies (fill_deltas reports) ≡ strategies reports
  unfolding fill_deltas
  fill_deltas-strategies reports = by_base (find_baseline reports)
    where
      by_base : (o : Option (SweepReport F)) → strategies (fill_from o reports) ≡ strategies reports
      by_base none = refl
      by_base (some base) = map-strategy base reports

  compare_with-same :
      (base : SweepReport F) → base.strategy ≡ baseline → compare_with base base ≡ base
  unfolding compare_with
  compare_with-same base e = rw ((str_eq_iff base.strategy baseline).1 e) refl

  find_baseline-here :
      (base : SweepReport F) (reports : List (SweepReport F))
      → base.strategy ≡ baseline
      → find_baseline (base ∷ reports) ≡ some base
  unfolding find_baseline
  find_baseline-here base reports e = rw ((str_eq_iff base.strategy baseline).1 e) refl

  -- The reports of the three strategies, compared with the first.
  abbrev pub IsReport : SweepRun F → Type 0
  IsReport o =
      (o.written ≡ true)
      × (strategies o.reports ≡ all_three)
      × (base : SweepReport F) × (rest : List (SweepReport F)) × (o.reports ≡ base ∷ rest)
      × All (IsCompared base) o.reports

module _ {F : Type 0} (search : List (SweepReport F) → DockerConfig → Bytes → Outcome F)
    (write_fails : Bool)
    (asked : (h : List (SweepReport F)) (cfg : DockerConfig) (s : Bytes)
      → (search h cfg s).0.strategy ≡ s)
    (plain : (h : List (SweepReport F)) (cfg : DockerConfig) (s : Bytes)
      → IsUncompared ((search h cfg s).0)) where
  -- The reports of a loop that ends without an error.
  abbrev Searched :
      List (SweepReport F) → List Bytes → List (SweepReport F) × Option SearchError → Type 0
  Searched before todo (reports, none) =
      (strategies reports ≡ strategies before ++ todo)
      × (All IsUncompared before → All IsUncompared reports)
  Searched before todo (reports, some e) = Unit

  search_all-Searched :
      (cfg : DockerConfig) (todo : List Bytes) (before : List (SweepReport F))
      → Searched before todo (search_all search write_fails cfg todo before)
  unfolding search_all
  search_all-Searched cfg [] before = (sym (append-nil _), λ h. h)
  search_all-Searched cfg (s ∷ todo) before =
      let (r, e) = search before cfg s in
      let added : strategies (before ++ r ∷ []) ++ todo ≡ strategies before ++ s ∷ todo =
        ap (λ names. names ++ todo) (map-append SweepReport.strategy before (r ∷ []))
        ∙ append_assoc (strategies before) (r.strategy ∷ []) todo
        ∙ ap (λ name. strategies before ++ name ∷ todo) (asked before cfg s) in
      after e _ (search_all search write_fails cfg todo (before ++ r ∷ [])) added
        (λ h. All-append IsUncompared before (r ∷ []) h (plain before cfg s, tt))
        (search_all-Searched cfg todo (before ++ r ∷ []))
    where
      after :
          (e : Option SearchError) (here : List (SweepReport F))
          (rest : List (SweepReport F) × Option SearchError)
          → strategies here ++ todo ≡ strategies before ++ s ∷ todo
          → (All IsUncompared before → All IsUncompared here)
          → Searched here todo rest
          → Searched before (s ∷ todo) (or_stop e here rest)
      after (some x) here rest same keeps h = tt
      after none here (reports, none) same keeps (names, all) = (names ∙ same, λ h. all (keeps h))
      after none here (reports, some x) same keeps h = tt

  compared-IsReport :
      (reports : List (SweepReport F))
      → strategies reports ≡ all_three
      → All IsUncompared reports
      → IsReport (record { reports = fill_deltas reports; written = true; error = none })
  compared-IsReport [] names all = absurd cc
  compared-IsReport (base ∷ reports) names (first, others) =
      let is_base : base.strategy ≡ baseline = cc in
      let filled =
        fill_deltas-base base (base ∷ reports) (find_baseline-here base reports is_base) in
      (
        refl,
        fill_deltas-strategies (base ∷ reports) ∙ names,
        base,
        map (compare_with base) reports,
        filled ∙ ap (λ b. b ∷ map (compare_with base) reports) (compare_with-same base is_base),
        subst (All (IsCompared base)) (sym filled)
            (map-IsCompared base (base ∷ reports) (first, others)),
      )

  after_searches-IsReport :
      (r : List (SweepReport F) × Option SearchError)
      → Searched [] all_three r
      → (after_searches search write_fails r).error ≡ none
      → IsReport (after_searches search write_fails r)
  after_searches-IsReport (reports, some e) h = λ clean. absurd cc
  after_searches-IsReport (reports, none) (names, all) = elim (Bool-cases write_fails) [
    | inl fails ↦ rw fails (λ clean. absurd cc)
    | inr works ↦ rw works (λ clean. compared-IsReport reports names (all tt))
  ]

  -- A memory sweep over both strategies and the baseline that ends without an error has written one
  -- report for each, the baseline first. In each, the difference of the minima is marked as resolved
  -- exactly if the report is not the baseline's and both boundaries are resolved, and is then the
  -- difference to the baseline's minimum, else 0; all but the baseline's name that minimum. The search
  -- returns a report for the strategy that it is asked for, in which nothing is compared yet.
  pub memory_sweep_command-IsReport :
      (parse : DockerConfig → Bytes → List Bytes → Option (DockerConfig × Bytes))
      (root_fails : Bool) (args : List Bytes) (cfg : DockerConfig)
      → parse sweep_defaults (codes "both") args ≡ some (cfg, codes "both")
      → (memory_sweep_command search write_fails parse root_fails args).error ≡ none
      → IsReport (memory_sweep_command search write_fails parse root_fails args)
  unfolding memory_sweep_command strategies_of str_eq
  memory_sweep_command-IsReport parse root_fails args cfg parsed =
      let run = with_flags search write_fails root_fails in
      subst (λ p. (run p).error ≡ none → IsReport (run p)) (sym parsed) (by_root root_fails)
    where
      by_root :
          (fails : Bool)
          → (with_flags search write_fails fails (some (cfg, codes "both"))).error ≡ none
          → IsReport (with_flags search write_fails fails (some (cfg, codes "both")))
      by_root true clean = absurd cc
      by_root false clean = after_searches-IsReport _ (search_all-Searched cfg all_three []) clean
