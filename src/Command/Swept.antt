-- ===== src/Command/Swept.antt =====
-- `memorySweepCommand` of cmd/loglab/main.go over `DockerSearch` of internal/sweep/docker.go.
use logrotate_cache_lab.Base.{◌≡◌, subst, Bool, Option, none, some, List, Bytes, codes}
use mathlib.Core.Option
use logrotate_cache_lab.Report.{SweepAttempt, SweepReport}
use logrotate_cache_lab.Sweep.Docker.{Answers, DockerConfig, docker_search, search_config}
use logrotate_cache_lab.Sweep.Docker.Driver.{runner}
use logrotate_cache_lab.Sweep.Search.{Outcome}
use logrotate_cache_lab.Sweep.Search.Plain.{IsPlain, Returns, search-Returns}
use logrotate_cache_lab.Command.Values.{sweep_defaults}
use logrotate_cache_lab.Command.Sweep.{memory_sweep_command}
use logrotate_cache_lab.Command.Deltas.{IsReport, memory_sweep_command-IsReport}

-- The answers of the world to a search depend on the reports before it.
module _ {F : Type 0}
    (world : List (SweepReport F) → List (SweepAttempt F) → SweepAttempt F → Answers F)
    (cancelled : List (SweepReport F) → List (SweepAttempt F) → Bool) where
  -- A function that is the Docker search, which always returns.
  abbrev pub IsDockerSearch : (List (SweepReport F) → DockerConfig → Bytes → Outcome F) → Type 0
  IsDockerSearch search_one =
      (h : List (SweepReport F)) (cfg : DockerConfig) (s : Bytes)
      → docker_search (world h) (cancelled h) cfg s ≡ some (search_one h cfg s)

  map-Returns :
      (s : Bytes) (f : Outcome F → Outcome F)
      → ((o : Outcome F) → IsPlain s (o.0) → IsPlain s ((f o).0))
      → (o : Option (Outcome F)) → Returns s o
      → Returns s (Option.map f o)
  map-Returns s f keeps none h = tt
  map-Returns s f keeps (some o) h = keeps o h

  docker_search-Returns :
      (h : List (SweepReport F)) (cfg : DockerConfig) (s : Bytes)
      → Returns s (docker_search (world h) (cancelled h) cfg s)
  unfolding docker_search
  docker_search-Returns h cfg s =
      map-Returns s _ (λ o k. k) _
        (search-Returns (runner (world h) (cancelled h) cfg s) (cancelled h) (search_config cfg s))

  module _ (search_one : List (SweepReport F) → DockerConfig → Bytes → Outcome F)
      (searches : IsDockerSearch search_one) where
    search_one-IsPlain :
        (h : List (SweepReport F)) (cfg : DockerConfig) (s : Bytes)
        → IsPlain s ((search_one h cfg s).0)
    search_one-IsPlain h cfg s =
        subst (Returns s) (searches h cfg s) (docker_search-Returns h cfg s)

    -- A memory sweep over both strategies and the baseline with Docker attempts, whatever the world answers
    -- to them, that ends without an error has written one report for each, the baseline first. In each,
    -- the difference of the minima is marked as resolved exactly if the report is not the baseline's and
    -- both boundaries are resolved, and is then the difference to the baseline's minimum, else 0; all but
    -- the baseline's name that minimum.
    pub memory_sweep_command_docker :
        (write_fails : Bool)
        (parse : DockerConfig → Bytes → List Bytes → Option (DockerConfig × Bytes))
        (root_fails : Bool) (args : List Bytes) (cfg : DockerConfig)
        → parse sweep_defaults (codes "both") args ≡ some (cfg, codes "both")
        → (memory_sweep_command search_one write_fails parse root_fails args).error ≡ none
        → IsReport (memory_sweep_command search_one write_fails parse root_fails args)
    memory_sweep_command_docker write_fails =
        memory_sweep_command-IsReport search_one write_fails (λ h c s. (search_one-IsPlain h c s).0)
          (λ h c s.
            let (asked, base, delta, unresolved) = search_one-IsPlain h c s in
            (base, delta, unresolved))
