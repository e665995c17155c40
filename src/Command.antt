-- ===== src/Command.antt =====
-- cmd/loglab/main.go: the choice of the subcommand, the exit code, and the commands `writer` and `run`
-- over a parser of their flags, `parse`; the flags themselves are in Flags.
pub mod Sweep
pub mod Deltas
pub mod Exit
pub mod Values
pub mod Flags
pub mod Program
pub mod Started
pub mod Contained
pub mod Swept
use logrotate_cache_lab.Base.{
  ℕ, ◌*◌, Bool, true, false, not, Option, none, some, List, [], ◌∷◌, Bytes, codes, str_eq,
  if◌then◌else◌,
}
use logrotate_cache_lab.Base.Int.{ℤ, pos}
use logrotate_cache_lab.Report.{RunSummary}
use logrotate_cache_lab.Writer
use logrotate_cache_lab.Writer.Loop
use logrotate_cache_lab.Harness
use logrotate_cache_lab.Rotator.{RotateError}
use logrotate_cache_lab.Monitor.Readings.{RunError}
use logrotate_cache_lab.Harness.Driver.{HarnessError, Outcome}
use logrotate_cache_lab.Command.Values.{writer_defaults}
use logrotate_cache_lab.Sweep.Search.{SearchError}
use logrotate_cache_lab.Base.{Result, ok, err}

pub data CommandError : Type 0 where
  unknown_command : Bytes → CommandError
  bad_flags : CommandError
  cannot_make_root : CommandError
  unknown_strategy : Bytes → CommandError
  sweep_failed : SearchError → CommandError
  cannot_write_report : CommandError
  writer_failed : Writer.WriteError → CommandError
  rotate_failed : RotateError → CommandError
  monitor_failed : RunError → CommandError
  no_executable : CommandError
  run_failed : HarnessError → CommandError
  cannot_print : CommandError
  not_accepted : CommandError

-- The subcommands, by their arguments.
pub record Commands : Type 0 where
  pub writer : List Bytes → Option CommandError
  pub rotate : List Bytes → Option CommandError
  pub monitor : List Bytes → Option CommandError
  pub run : List Bytes → Option CommandError
  pub memory_sweep : List Bytes → Option CommandError

unfoldable pub dispatch : Commands → Bytes → List Bytes → Option CommandError
dispatch c name args =
    if str_eq name (codes "writer")
    then c.writer args
    else if str_eq name (codes "rotate")
    then c.rotate args
    else if str_eq name (codes "monitor")
    then c.monitor args
    else if str_eq name (codes "run")
    then c.run args
    else if str_eq name (codes "memory-sweep")
    then c.memory_sweep args
    else some (unknown_command name)

-- The exit code: `fatalf` exits with 1.
abbrev pub exit_code : Option CommandError → ℕ
exit_code none = 0
exit_code (some e) = 1

-- `os.Args` after the program's name.
unfoldable pub main : Commands → List Bytes → ℕ
main c [] = 1
main c (name ∷ args) = exit_code (dispatch c name args)

-- `writerCommand`: `New` and `Run`.
module _ (parse : Writer.Config → List Bytes → Option Writer.Config) where
  abbrev finished : Option Writer.WriteError → Option CommandError
  finished none = none
  finished (some e) = some (writer_failed e)

  abbrev pub made :
      (Writer.Config → Option Writer.WriteError)
      → Result Writer.WriteError Writer.Config
      → Option CommandError
  made run (err e) = some (writer_failed e)
  made run (ok cfg) = finished (run cfg)

  abbrev started :
      Bool → (Writer.Config → Option Writer.WriteError) → Option Writer.Config → Option CommandError
  started listens run none = some bad_flags
  started listens run (some cfg) = made run (Writer.new listens cfg)

  unfoldable pub writer_command :
      Bool → (Writer.Config → Option Writer.WriteError) → List Bytes → Option CommandError
  writer_command listens run args = started listens run (parse writer_defaults args)

-- `runCommand`, over the harness's `Run`; the executable is this program's.
module _ {F : Type 0} (parse : List Bytes → Option Harness.Config) (executable : Option Bytes)
    (run : Harness.Config → Outcome F) (print_fails : Bool) where
  abbrev pub accepted : Option (RunSummary F) → Option CommandError
  accepted none = some not_accepted
  accepted (some s) = if s.success then none else some not_accepted

  abbrev pub ran : Option HarnessError → Option (RunSummary F) → Option CommandError
  ran (some e) s = some (run_failed e)
  ran none s = if print_fails then some cannot_print else accepted s

  abbrev pub run_with : Option Harness.Config → Option Bytes → Option CommandError
  run_with none path = some bad_flags
  run_with (some cfg) none = some no_executable
  run_with (some cfg) (some path) =
      let o = run (record cfg { executable = path }) in ran o.error o.summary

  unfoldable pub run_command : List Bytes → Option CommandError
  run_command args = run_with (parse args) executable
