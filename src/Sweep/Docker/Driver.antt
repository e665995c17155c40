-- ===== src/Sweep/Docker/Driver.antt =====
-- `DockerSearch` of internal/sweep/docker.go: the search over Docker attempts.
use logrotate_cache_lab.Base.{◌≡◌, Bool, some, List, Bytes}
use logrotate_cache_lab.Report.{SweepAttempt}
use logrotate_cache_lab.Sweep.Search.{Outcome}
use logrotate_cache_lab.Sweep.Search.Boundary.{Ends, search_returns}
use logrotate_cache_lab.Sweep.Docker.{
  Answers, DockerConfig, docker_workload, docker_attempt, docker_search, search_config,
}
use logrotate_cache_lab.Sweep.Docker.Attempt.{docker_attempt-KeepsRequest}

module _ {F : Type 0} (world : List (SweepAttempt F) → SweepAttempt F → Answers F)
    (cancelled : List (SweepAttempt F) → Bool) (cfg : DockerConfig) (strategy : Bytes) where
  abbrev pub runner : List (SweepAttempt F) → SweepAttempt F → SweepAttempt F
  runner h a = docker_attempt strategy (world h a) a

  pub runner-keeps :
      (h : List (SweepAttempt F)) (a : SweepAttempt F) → (runner h a).limit_mib ≡ a.limit_mib
  runner-keeps h a = (docker_attempt-KeepsRequest strategy (world h a) a).0

  -- The search over Docker attempts is a search, with the workload and the timeout of the configuration.
  pub docker_search_returns :
      (o : Outcome F) × (docker_search world cancelled cfg strategy
        ≡ some (
          record (o.0) { attempt_timeout_ns = cfg.attempt_timeout; workload = docker_workload cfg },
          o.1,
        ))
      × Ends runner cancelled
          (search_config cfg strategy)
          runner-keeps
          (λ a. Unit {0})
          (λ h a. tt)
          o
  unfolding docker_search
  docker_search_returns =
      let (o, returns, ends) =
        search_returns runner cancelled (search_config cfg strategy) runner-keeps (λ a. Unit {0})
          (λ h a. tt) in
      (o, rw returns, ends)
