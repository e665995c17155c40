-- ===== src/Command/Exit.antt =====
-- The exit code of `loglab run` of cmd/loglab/main.go.
use logrotate_cache_lab.Base.{
  ◌≡◌, ◌≢◌, ◌⊎◌, refl, sym, ◌∙◌, Bool, true, false, Option, none, some, List, ◌∷◌, Bytes, codes,
  str_eq, if◌then◌else◌, arith,
}
use logrotate_cache_lab.Report.{RunSummary}
use logrotate_cache_lab.Metrics.{Floats}
use logrotate_cache_lab.Harness.{Config, rename_reopen, baseline}
use logrotate_cache_lab.Harness.Driver.{Answers, Outcome, HarnessError}
use logrotate_cache_lab.Harness.Driver
use logrotate_cache_lab.Harness.Verdict.{run_summary}
use logrotate_cache_lab.Command.{
  CommandError, Commands, exit_code, dispatch, main, ran, run_with, run_command,
}

exit_code_zero : (e : Option CommandError) → exit_code e ≡ 0 → e ≡ none
exit_code_zero none h = refl
exit_code_zero (some e) h = absurd (omega arith)

else_none :
    (b : Bool) (e : CommandError) (x : Option CommandError)
    → (if b then some e else x) ≡ none
    → x ≡ none
else_none true e x h = absurd cc
else_none false e x h = h

then_none : (b : Bool) (e : CommandError) → (if b then none else some e) ≡ none → b ≡ true
then_none true e h = refl
then_none false e h = absurd cc

main-run : (c : Commands) (args : List Bytes) → main c (codes "run" ∷ args) ≡ exit_code (c.run args)
unfolding main dispatch str_eq
main-run c args = refl

module _ {F : Type 0} (float : Floats F) (join : Bytes → Bytes → Bytes) (w : Answers) where
  abbrev harness : Config → Outcome F
  harness cfg = Driver.run float join cfg w

  -- The run of a configuration succeeded.
  abbrev pub Succeeded : Config → Type 0
  Succeeded cfg =
      (s : RunSummary F) × ((harness cfg).summary ≡ some s)
      × ((harness cfg).error ≡ none)
      × (s.writer.reopen_failures ≡ 0)
      × (((cfg.strategy ≢ rename_reopen) × (cfg.strategy ≢ baseline))
          ⊎ ((s.integrity.missing ≡ 0)
              × (s.integrity.duplicates ≡ 0)
              × (s.integrity.malformed ≡ 0)))

  module _ (parse : List Bytes → Option Config) (executable : Option Bytes)
      (print_fails : Bool) where
    ran-Succeeded :
        (cfg : Config) (e : Option HarnessError) (s : Option (RunSummary F))
        → (harness cfg).error ≡ e
        → (harness cfg).summary ≡ s
        → ran parse executable harness print_fails e s ≡ none
        → Succeeded cfg
    ran-Succeeded cfg (some e) s he hs clean = absurd cc
    ran-Succeeded cfg none none he hs clean = absurd (cc (else_none print_fails _ _ clean))
    ran-Succeeded cfg none (some s) he hs clean =
        let success = then_none s.success _ (else_none print_fails _ _ clean) in
        let (works, rest) = ((run_summary float join cfg w s hs).0).0 success in
        (s, hs, he, works, rest)

    run_with-Succeeded :
        (o : Option Config) (p : Option Bytes)
        → run_with parse executable harness print_fails o p ≡ none
        → (cfg : Config) × (path : Bytes) × (o ≡ some cfg)
          × (p ≡ some path)
          × Succeeded (record cfg { executable = path })
    run_with-Succeeded none p h = absurd cc
    run_with-Succeeded (some cfg) none h = absurd cc
    run_with-Succeeded (some cfg) (some path) h =
        (cfg, path, refl, refl, ran-Succeeded (record cfg { executable = path }) _ _ refl refl h)

    -- Where `loglab run` exits with 0, its flags were parsed, its own path was found, and the run of
    -- that configuration returned a summary and no error: no reopen failed and, for the strategies
    -- `rename-reopen` and `baseline`, nothing is missing, repeated or malformed.
    pub main-Succeeded :
        (c : Commands) (args : List Bytes)
        → c.run args ≡ run_command parse executable harness print_fails args
        → main c (codes "run" ∷ args) ≡ 0
        → (cfg : Config) × (path : Bytes) × (parse args ≡ some cfg)
          × (executable ≡ some path)
          × Succeeded (record cfg { executable = path })
    unfolding run_command
    main-Succeeded c args same zero =
        let clean = exit_code_zero (c.run args) (sym (main-run c args) ∙ zero) in
        run_with-Succeeded (parse args) executable (sym same ∙ clean)
