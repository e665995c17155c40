-- ===== src/Command/Sweep.antt =====
-- `memorySweepCommand` of cmd/loglab/main.go: one search for each strategy, and the differences to the
-- baseline.
use logrotate_cache_lab.Base.{
  Bool, true, false, not, ◌&&◌, ◌||◌, Option, none, some, List, [], ◌∷◌, ◌++◌, map, Bytes, codes,
  str_eq, if◌then◌else◌,
}
use logrotate_cache_lab.Base.Int.{pos, ◌-ℤ◌}
use logrotate_cache_lab.Report.{SweepReport}
use logrotate_cache_lab.Sweep.Docker.{DockerConfig}
use logrotate_cache_lab.Sweep.Search.{SearchError, Outcome}
use logrotate_cache_lab.Command.{
  CommandError, bad_flags, cannot_make_root, unknown_strategy, sweep_failed, cannot_write_report,
}
use logrotate_cache_lab.Command.Values.{sweep_defaults}

abbrev pub baseline : Bytes
baseline = codes "baseline"

abbrev pub copytruncate : Bytes
copytruncate = codes "copytruncate"

abbrev pub rename_reopen : Bytes
rename_reopen = codes "rename-reopen"

unfoldable pub strategies_of : Bytes → Option (List Bytes)
strategies_of name =
    if str_eq name (codes "both")
    then some (baseline ∷ copytruncate ∷ rename_reopen ∷ [])
    else if str_eq name baseline || (str_eq name copytruncate || str_eq name rename_reopen)
    then some (name ∷ [])
    else none

-- What is returned, and whether the reports were written.
pub record SweepRun (F : Type 0) : Type 0 where
  pub reports : List (SweepReport F)
  pub written : Bool
  pub error : Option CommandError

module _ {F : Type 0} where
  -- The first report of the baseline.
  unfoldable pub find_baseline : List (SweepReport F) → Option (SweepReport F)
  find_baseline [] = none
  find_baseline (r ∷ reports) =
      let rest = find_baseline reports in if str_eq r.strategy baseline then some r else rest

  -- A report of another strategy gets the minimum of the baseline, and the difference if both
  -- boundaries are resolved.
  unfoldable pub compare_with : SweepReport F → SweepReport F → SweepReport F
  compare_with base r =
      let compared = record r { baseline_minimum_mib = base.minimum_pass_mib } in
      if str_eq r.strategy baseline
      then r
      else if base.boundary_resolved && r.boundary_resolved
      then record compared {
        delta_minimum_mib = pos r.minimum_pass_mib -ℤ pos base.minimum_pass_mib;
        delta_resolved = true;
      }
      else compared

  abbrev pub fill_from : Option (SweepReport F) → List (SweepReport F) → List (SweepReport F)
  fill_from none reports = reports
  fill_from (some base) reports = map (compare_with base) reports

  unfoldable pub fill_deltas : List (SweepReport F) → List (SweepReport F)
  fill_deltas reports = fill_from (find_baseline reports) reports

  -- The first error ends the loop.
  abbrev pub or_stop :
      Option SearchError
      → List (SweepReport F)
      → List (SweepReport F) × Option SearchError
      → List (SweepReport F) × Option SearchError
  or_stop none reports rest = rest
  or_stop (some e) reports rest = (reports, some e)

  -- `DockerSearch`, after the searches that came before; `write_fails` is `WriteJSONAtomic`.
  module _ (search : List (SweepReport F) → DockerConfig → Bytes → Outcome F)
      (write_fails : Bool) where
    -- The reports so far, and the error that ended the loop.
    unfoldable pub search_all :
        DockerConfig → List Bytes → List (SweepReport F) → List (SweepReport F) × Option SearchError
    search_all cfg [] reports = (reports, none)
    search_all cfg (strategy ∷ strategies) reports =
        let (r, e) = search reports cfg strategy in
        let rest = search_all cfg strategies (reports ++ r ∷ []) in
        or_stop e (reports ++ r ∷ []) rest

    abbrev pub not_run : CommandError → SweepRun F
    not_run e = record { reports = []; written = false; error = some e }

    -- After an error of a search what there is gets written, and the error of the write is dropped.
    abbrev pub after_searches : List (SweepReport F) × Option SearchError → SweepRun F
    after_searches (reports, some e) = record {
      reports = reports;
      written = not write_fails;
      error = some (sweep_failed e);
    }
    after_searches (reports, none) = record {
      reports = fill_deltas reports;
      written = not write_fails;
      error = if write_fails then some cannot_write_report else none;
    }

    abbrev pub with_strategies : DockerConfig → Bytes → Option (List Bytes) → SweepRun F
    with_strategies cfg name none = not_run (unknown_strategy name)
    with_strategies cfg name (some strategies) = after_searches (search_all cfg strategies [])

    abbrev pub with_flags : Bool → Option (DockerConfig × Bytes) → SweepRun F
    with_flags root_fails none = not_run bad_flags
    with_flags root_fails (some (cfg, strategy)) =
        if root_fails
        then not_run cannot_make_root
        else with_strategies cfg strategy (strategies_of strategy)

    -- `parse` gives the configuration and the strategy, `both` where it is not set.
    unfoldable pub memory_sweep_command :
        (DockerConfig → Bytes → List Bytes → Option (DockerConfig × Bytes))
        → Bool
        → List Bytes
        → SweepRun F
    memory_sweep_command parse root_fails args =
        with_flags root_fails (parse sweep_defaults (codes "both") args)
