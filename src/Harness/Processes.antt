-- ===== src/Harness/Processes.antt =====
-- No path through `Run` of internal/harness/run.go leaves a child running.
use logrotate_cache_lab.Base.{
  ◌≡◌, refl, Bool, true, false, Bool-cases, inl, inr, Option, none, some, List, [], ◌∷◌, ◌++◌, ◌||◌,
  Bytes, str_eq, Result, ok, err, if◌then◌else◌,
}
use logrotate_cache_lab.Report.{RunSummary}
use logrotate_cache_lab.Metrics.{Floats}
use logrotate_cache_lab.Harness.{
  Config, is_invalid, rename_reopen, WaitError, wait_http, ChildError,
}
use logrotate_cache_lab.Harness.Driver.{
  start_fails, can_listen, Child, writer_child, monitor_child, rotator_child, Call, started,
  stopped, waited, polled, Answers, Outcome, HarnessError, stops, poll_if, first_failure, collect,
  gather, concluded, after_rotator, with_monitor, with_writer, run,
}

-- Whether a child runs after some calls, of which none starts a child that runs.
abbrev same_child : Child → Child → Bool
same_child writer_child writer_child = true
same_child monitor_child monitor_child = true
same_child rotator_child rotator_child = true
same_child c d = false

unfoldable pub runs_after : Child → Bool → List Call → Bool
runs_after c r [] = r
runs_after c r (started d ∷ calls) = runs_after c (if same_child c d then true else r) calls
runs_after c r (stopped d ∷ calls) = runs_after c (if same_child c d then false else r) calls
runs_after c r (waited d ∷ calls) = runs_after c (if same_child c d then false else r) calls
runs_after c r (polled e ∷ calls) = runs_after c r calls

-- The children that run beside the rotator.
abbrev begun : Bool → List Call
begun enabled = started writer_child ∷ (if enabled then started monitor_child ∷ [] else [])

stops-Ends :
    (c : Child) (enabled : Bool) → runs_after c false (begun enabled ++ stops enabled) ≡ false
unfolding runs_after
stops-Ends writer_child true = refl
stops-Ends writer_child false = refl
stops-Ends monitor_child true = refl
stops-Ends monitor_child false = refl
stops-Ends rotator_child true = refl
stops-Ends rotator_child false = refl

-- With the calls of a wait for the reopens or without.
rotated-Ends :
    (c : Child) (enabled : Bool) (poll : Option WaitError)
    → let rotated = begun enabled ++ started rotator_child ∷ [] in
      (runs_after c false (rotated ++ waited rotator_child ∷ stops enabled) ≡ false)
      × (runs_after c false (rotated ++ waited rotator_child ∷ polled poll ∷ stops enabled) ≡ false)
unfolding runs_after
rotated-Ends writer_child true poll = (refl, refl)
rotated-Ends writer_child false poll = (refl, refl)
rotated-Ends monitor_child true poll = (refl, refl)
rotated-Ends monitor_child false poll = (refl, refl)
rotated-Ends rotator_child true poll = (refl, refl)
rotated-Ends rotator_child false poll = (refl, refl)

module _ (c : Child) (enabled : Bool) (poll : Option WaitError) where
  abbrev rotated : List Call
  rotated = begun enabled ++ started rotator_child ∷ []

  polled-Ends :
      (renames : Bool) (failure : Option ChildError)
      → runs_after c false (
          rotated
          ++ waited rotator_child ∷ (poll_if renames failure (polled poll) ++ stops enabled))
        ≡ false
  polled-Ends true none = (rotated-Ends c enabled poll).1
  polled-Ends false none = (rotated-Ends c enabled poll).0
  polled-Ends renames (some e) = (rotated-Ends c enabled poll).0

module _ {F : Type 0} (float : Floats F) (join : Bytes → Bytes → Bytes) where
  concluded-calls :
      (calls : List Call) (w : Answers) (r : Result HarnessError (RunSummary F))
      (failure : Option HarnessError)
      → (concluded float join calls w r failure).calls ≡ calls
  concluded-calls calls w r (some e) = refl
  concluded-calls calls w (ok s) none = refl
  concluded-calls calls w (err e) none = refl

module _ {F : Type 0} (float : Floats F) (join : Bytes → Bytes → Bytes) (cfg : Config) (w : Answers)
    (c : Child) where
  abbrev Ends : Outcome F → Type 0
  Ends o = runs_after c false (o.calls) ≡ false

  with_monitor-Ends : Ends (with_monitor float join cfg w (begun cfg.enable_monitor))
  unfolding with_monitor after_rotator
  with_monitor-Ends = elim (Bool-cases (start_fails w rotator_child)) [
    | inl failed ↦ rw failed (stops-Ends c cfg.enable_monitor)
    | inr fine ↦ rw fine (
        rw
          (concluded-calls float join _ w (gather float join cfg w (collect float join cfg w))
            (first_failure cfg w))
          (polled-Ends c cfg.enable_monitor _ (str_eq cfg.strategy rename_reopen) _))
  ]

  with_writer-Ends : (failure : Option WaitError) → Ends (with_writer float join cfg w failure)
  with_writer-Ends (some e) = stops-Ends c false
  with_writer-Ends none = elim (Bool-cases cfg.enable_monitor) [
    | inr off ↦ rw off (rw off at with_monitor-Ends)
    | inl on ↦ elim (Bool-cases (start_fails w monitor_child)) [
      | inl failed ↦ rw (on, failed) (stops-Ends c false)
      | inr fine ↦ rw (on, fine) (rw on at with_monitor-Ends)
    ]
  ]

  -- Whatever the configuration and whatever the world answers, no child runs any more when `Run`
  -- returns: each one that was started was stopped or waited for afterwards.
  pub run-calls : runs_after c false ((run float join cfg w).calls) ≡ false
  unfolding run runs_after
  run-calls = elim (Bool-cases (is_invalid cfg)) [
    | inl e ↦ rw e refl
    | inr a ↦ elim (Bool-cases (w.log_dir_fails || w.result_dir_fails)) [
      | inl e ↦ rw (a, e) refl
      | inr b ↦ elim (Bool-cases (can_listen w)) [
        | inr e ↦ rw (a, b, e) refl
        | inl l ↦ elim (Bool-cases (start_fails w writer_child)) [
          | inl e ↦ rw (a, b, l, e) refl
          | inr s ↦ rw (a, b, l, s) (with_writer-Ends (wait_http w.healthz))
        ]
      ]
    ]
  ]
