-- ===== src/Tests/Swept.antt =====
-- A memory sweep whose attempts all pass, so that every search ends at its lower bound.
use logrotate_cache_lab.Base.{ℕ, ◌≡◌, refl, false, none, some, Option, List, [], Bytes, str_eq}
use logrotate_cache_lab.Base.Int.{pos}
use logrotate_cache_lab.Report.{SweepReport, SweepAttempt}
use logrotate_cache_lab.Sweep.Docker.{
  DockerConfig, Answers, docker_search, docker_attempt, prepare_result_dir, classify_summary,
  functional, integral,
}
use logrotate_cache_lab.Sweep.Docker.Driver.{docker_search_returns}
use logrotate_cache_lab.Sweep.Search.{
  Outcome, context_done, new_report, search, test, repeat, record_attempt, verdict, after_upper,
  after_lower, scaled, align_up, align_down,
}
use logrotate_cache_lab.Tests.Docker.{docker_cfg, always_good, live}
use logrotate_cache_lab.Command.Sweep.{memory_sweep_command, search_all, strategies_of}
use logrotate_cache_lab.Command.Deltas.{IsReport}
use logrotate_cache_lab.Command.Swept.{memory_sweep_command_docker}

abbrev world : List (SweepReport ℕ) → List (SweepAttempt ℕ) → SweepAttempt ℕ → Answers ℕ
world reports = always_good

-- The outcome of a search that returns.
abbrev outcome : Outcome ℕ → Option (Outcome ℕ) → Outcome ℕ
outcome other none = other
outcome other (some o) = o

abbrev never : Bytes → Outcome ℕ
never s = (
  new_report (record {
    lower_mib = pos 0;
    upper_mib = pos 0;
    step_mib = pos 0;
    repetitions = pos 0;
    strategy = s;
  }),
  some context_done,
)

abbrev search_one : List (SweepReport ℕ) → DockerConfig → Bytes → Outcome ℕ
search_one reports cfg s = outcome (never s) (docker_search always_good live cfg s)

outcome-some :
    (other o : Outcome ℕ) (x : Option (Outcome ℕ)) → x ≡ some o → x ≡ some (outcome other x)
outcome-some other o x e = rw e refl

searches :
    (h : List (SweepReport ℕ)) (cfg : DockerConfig) (s : Bytes)
    → docker_search always_good live cfg s ≡ some (search_one h cfg s)
searches h cfg s =
    let (o, returns, ends) = docker_search_returns always_good live cfg s in
    outcome-some (never s) _ (docker_search always_good live cfg s) returns

abbrev parse_flags : DockerConfig → Bytes → List Bytes → Option (DockerConfig × Bytes)
parse_flags defaults strategy args = some (docker_cfg, strategy)

ends_well : (memory_sweep_command search_one false parse_flags false []).error ≡ none
unfolding memory_sweep_command search_all strategies_of str_eq docker_search search after_upper
    after_lower test repeat record_attempt verdict align_up scaled align_down docker_attempt
    prepare_result_dir classify_summary functional integral
ends_well = refl

memory_sweep_command_docker_example :
    IsReport (memory_sweep_command search_one false parse_flags false [])
memory_sweep_command_docker_example =
    memory_sweep_command_docker world (λ h. live) search_one searches false parse_flags false []
      docker_cfg refl ends_well
