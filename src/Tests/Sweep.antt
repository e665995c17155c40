-- ===== src/Tests/Sweep.antt =====
-- Searches as in `search_test.go`: 64 to 128 MiB in steps of 4, where 92 MiB is enough.
use logrotate_cache_lab.Base.{
  ℕ, ◌≡◌, refl, none, some, true, false, Bool, Option, List, codes, arith, leb, str_eq, length,
}
use logrotate_cache_lab.Base.Int.{pos}
use logrotate_cache_lab.Report.{SweepAttempt, SweepReport}
use logrotate_cache_lab.Sweep.Search.{
  Config, Outcome, SearchError, upper_did_not_pass, search, repeat, test, verdict, record_attempt,
  narrow, middle, after_upper, after_lower, scaled, align_up, align_down,
}
use logrotate_cache_lab.Sweep.Search.Boundary.{Ends, IsNear, search-Ends}
use logrotate_cache_lab.Sweep.Search.Least.{IsLeast, search-IsLeast}

abbrev cfg : Config
cfg = record {
  lower_mib = pos 64;
  upper_mib = pos 128;
  step_mib = pos 4;
  repetitions = pos 3;
  strategy = codes "rename-reopen";
}

abbrev runner : List (SweepAttempt ℕ) → SweepAttempt ℕ → SweepAttempt ℕ
runner h a = record a { passed = leb 92 a.limit_mib }

abbrev live : List (SweepAttempt ℕ) → Bool
live h = false

search-IsLeast_example :
    (r : SweepReport ℕ) × (search runner live cfg ≡ some (r, none))
    × IsLeast runner live cfg (λ h a. refl) 92 (λ h a. refl) refl r.minimum_pass_mib
    × IsNear cfg
unfolding align_up scaled align_down
search-IsLeast_example =
    search-IsLeast runner live cfg (λ h a. refl) 92 (λ h a. refl) refl (omega arith) (λ h. refl)
      (omega arith) (omega arith)

search-Ends_example :
    (o : Outcome ℕ) × (search runner live cfg ≡ some o)
    × Ends runner live cfg (λ h a. refl) (λ a. Unit {0}) (λ h a. tt) o
    × IsNear cfg
search-Ends_example =
    search-Ends runner live cfg (λ h a. refl) (λ a. Unit {0}) (λ h a. tt) (omega arith)

-- `TestSearchFindsAlignedBoundaryWithThreePasses`
abbrev boundary : Option (Outcome ℕ) → ℕ × ℕ × Bool × ℕ
boundary none = (0, 0, false, 0)
boundary (some (r, e)) =
    (r.minimum_pass_mib, r.greatest_fail_mib, r.boundary_resolved, length r.attempts)

found : boundary (search runner live cfg) ≡ (92, 88, true, 18)
unfolding search repeat test verdict record_attempt narrow middle after_upper after_lower align_up
    scaled align_down str_eq
found = refl

-- A step near the greatest int: the lower limit wraps around, and the search begins at 0.
abbrev wide : Config
wide = record cfg { lower_mib = pos 16; upper_mib = pos 512; step_mib = pos 9223372036854775807 }

abbrev error_of : Option (Outcome ℕ) → Option SearchError
error_of none = none
error_of (some (r, e)) = e

wraps : error_of (search runner live wide) ≡ some (upper_did_not_pass 0)
unfolding search repeat test verdict record_attempt narrow middle after_upper after_lower align_up
    scaled align_down str_eq
wraps = refl
