-- ===== src/Tests/Program.antt =====
-- The flags of the program, read from arguments as a shell gives them, and a program whose parts succeed.
-- A duration is printed as its nanoseconds here.
use logrotate_cache_lab.Base.{
  ◌≡◌, refl, ap, arith, true, false, none, some, Option, List, [], ◌∷◌, Bytes, codes, str_eq,
  Result, ok, err,
}
use logrotate_cache_lab.Base.Int.{ℤ, pos, IsInt64}
use logrotate_cache_lab.Strconv.{format_int, parse_int, parse_uint, parsed?}
use logrotate_cache_lab.Strconv.Signed.{parse_int-format_int}
use logrotate_cache_lab.Harness
use logrotate_cache_lab.Harness.Driver
use logrotate_cache_lab.Harness.Driver.{Outcome}
use logrotate_cache_lab.Tests.Harness.{cfg, w, join}
use logrotate_cache_lab.Tests.Metrics.{hundredths}
use logrotate_cache_lab.Tests.Command.{found}
use logrotate_cache_lab.Command.Values.{run_defaults, sweep_defaults}
use logrotate_cache_lab.Command.Flags.{
  Values, FlagError, bad_syntax, not_defined, help, bad_value, needs_argument, parse_flags,
  parse_from, take_turn, read_argument, split_value, find_flag, set_flag, parse_bool,
}
use logrotate_cache_lab.Command.Flags.Given.{IsExact}
use logrotate_cache_lab.Command.Flags.Tables.{run_flags}
use logrotate_cache_lab.Command.Program.{System}
use logrotate_cache_lab.Command.Started
use logrotate_cache_lab.Command.Started.{RunsChildren, program-RunsChildren}
use logrotate_cache_lab.Command.Contained
use logrotate_cache_lab.Command.Contained.{RunsAttempt, program-RunsAttempt}

abbrev decimal : Bytes → Option ℤ
decimal s = parsed? (parse_int s)

abbrev values : Values
values = record { whole_number = decimal; duration = decimal; print_duration = format_int }

decimal-format_int : (z : ℤ) → IsInt64 z → decimal (format_int z) ≡ some z
decimal-format_int z h = ap parsed? (parse_int-format_int z h)

values-IsExact : IsExact values
values-IsExact = record { number_exact = decimal-format_int; time_exact = decimal-format_int }

abbrev defaults : Harness.Config
defaults = run_defaults (codes "run-1") []

abbrev read_run : List Bytes → Result FlagError Harness.Config
read_run args = parse_flags values run_flags args defaults

-- One dash or two, a value after a `=`, a switch with no value; the flags end at the first argument that
-- is none.
read_run_forms :
    read_run (
      codes "-strategy=baseline"
      ∷ codes "--rotations"
      ∷ codes "7"
      ∷ codes "-monitor"
      ∷ codes "--monitor=F"
      ∷ codes "rest"
      ∷ codes "--unknown"
      ∷ [])
    ≡ ok
        (record defaults { strategy = codes "baseline"; rotations = pos 7; enable_monitor = false })
unfolding parse_from take_turn read_argument split_value find_flag set_flag parse_bool str_eq
    parse_int parse_uint
read_run_forms = refl

read_run_dashes : read_run (codes "--" ∷ codes "--unknown" ∷ []) ≡ ok defaults
unfolding parse_from take_turn read_argument
read_run_dashes = refl

read_run_not_defined : read_run (codes "--size=3" ∷ []) ≡ err (not_defined (codes "size"))
unfolding parse_from take_turn read_argument split_value find_flag str_eq
read_run_not_defined = refl

read_run_help : read_run (codes "-h" ∷ []) ≡ err help
unfolding parse_from take_turn read_argument split_value find_flag str_eq
read_run_help = refl

read_run_bad_syntax : read_run (codes "--=3" ∷ []) ≡ err bad_syntax
unfolding parse_from take_turn read_argument
read_run_bad_syntax = refl

read_run_bad_value : read_run (codes "--rotations" ∷ codes "x" ∷ []) ≡ err (bad_value (codes "x"))
unfolding parse_from take_turn read_argument split_value find_flag set_flag str_eq parse_int
    parse_uint
read_run_bad_value = refl

read_run_needs_argument : read_run (codes "--run-id" ∷ []) ≡ err needs_argument
unfolding parse_from take_turn read_argument split_value find_flag str_eq
read_run_needs_argument = refl

abbrev system : System ℤ
system = record {
  values = values;
  listens = true;
  run_writer = λ c. none;
  run_rotator = λ s. none;
  run_monitor = λ s. none;
  executable = some (codes "loglab");
  writer_variable = [];
  fresh_run_id = codes "run-1";
  run_harness = λ c. Driver.run hundredths join c w;
  print_fails = false;
  search_one = λ reports c strategy. (found c strategy, none);
  root_fails = false;
  report_fails = false;
}

abbrev free_address : Bytes
free_address = codes "127.0.0.1:4000"

defaults-IsMachine : Started.IsMachine cfg
defaults-IsMachine = record {
  max_file_bytes_bound = (omega arith, omega arith);
  rotations_bound = (omega arith, omega arith);
  max_backups_bound = (omega arith, omega arith);
  record_bytes_bound = (omega arith, omega arith);
  bytes_per_second_bound = (omega arith, omega arith);
  buffer_bytes_bound = (omega arith, omega arith);
  flush_interval_bound = (omega arith, omega arith);
  monitor_interval_bound = (omega arith, omega arith);
  resident_bytes_bound = (omega arith, omega arith);
}

program-RunsChildren_example : RunsChildren system join free_address (pos 5) cfg
program-RunsChildren_example =
    program-RunsChildren system join free_address (pos 5) values-IsExact (omega arith, omega arith)
      cfg defaults-IsMachine

sweep_defaults-IsMachine : Contained.IsMachine sweep_defaults
sweep_defaults-IsMachine = record {
  max_file_bytes_bound = (omega arith, omega arith);
  rotations_bound = (omega arith, omega arith);
  max_backups_bound = (omega arith, omega arith);
  record_bytes_bound = (omega arith, omega arith);
  bytes_per_second_bound = (omega arith, omega arith);
  buffer_bytes_bound = (omega arith, omega arith);
  flush_interval_bound = (omega arith, omega arith);
  monitor_interval_bound = (omega arith, omega arith);
  resident_bytes_bound = (omega arith, omega arith);
}

program-RunsAttempt_example :
    RunsAttempt system (codes "copytruncate") (pos 32) (pos 1) sweep_defaults
program-RunsAttempt_example =
    program-RunsAttempt system (codes "copytruncate") (pos 32) (pos 1) sweep_defaults values-IsExact
      sweep_defaults-IsMachine
