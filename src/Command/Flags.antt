-- ===== src/Command/Flags.antt =====
-- What cmd/loglab/main.go uses of Go's `flag` package: a set of named flags, and `Parse` over the
-- arguments, with the error it returns. A value of a flag is given as `-name value` or `-name=value`,
-- with one dash or two.
pub mod Given
pub mod Tables
use logrotate_cache_lab.Base.{
  ℕ, Bool, true, false, ◌||◌, Option, none, some, List, [], ◌∷◌, Bytes, codes, str_eq, ◌==◌,
  if◌then◌else◌, Result, ok, err,
}
use logrotate_cache_lab.Base.Int.{ℤ}

-- What the flags use of `strconv` and of `time`: `ParseInt` with base 0, `ParseDuration`, and the print
-- of a duration, in nanoseconds.
pub record Values : Type 0 where
  pub whole_number : Bytes → Option ℤ
  pub duration : Bytes → Option ℤ
  pub print_duration : ℤ → Bytes

-- `StringVar`, `IntVar` or `Int64Var`, `DurationVar` and `BoolVar`, by what they set.
pub data Flag (C : Type 0) : Type 0 where
  text : (Bytes → C → C) → Flag C
  number : (ℤ → C → C) → Flag C
  time : (ℤ → C → C) → Flag C
  switch : (Bool → C → C) → Flag C

pub data FlagError : Type 0 where
  bad_syntax : FlagError
  not_defined : Bytes → FlagError
  help : FlagError
  bad_value : Bytes → FlagError
  needs_argument : FlagError

-- An argument: one that ends the flags, or a flag's name and, after a `=`, its value.
pub data Argument : Type 0 where
  ends_flags : Argument
  malformed : Argument
  named : Bytes → Option Bytes → Argument

abbrev prepend : ℕ → Bytes × Option Bytes → Bytes × Option Bytes
prepend c (name, value) = (c ∷ name, value)

unfoldable pub split_value : Bytes → Bytes × Option Bytes
split_value [] = ([], none)
split_value (c ∷ s) = let rest = split_value s in if c == b'=' then ([], some s) else prepend c rest

abbrev named_by : Bytes × Option Bytes → Argument
named_by (name, value) = named name value

-- A name starts with neither a dash nor a `=`; what ends it is looked for from its second byte.
abbrev read_name : Bytes → Argument
read_name [] = malformed
read_name (c ∷ s) =
    if c == b'-' || c == b'=' then malformed else named_by (prepend c (split_value s))

abbrev after_dashes : Bytes → Argument
after_dashes [] = ends_flags
after_dashes (c ∷ s) = read_name (c ∷ s)

unfoldable pub read_argument : Bytes → Argument
unfolding split_value
read_argument [] = ends_flags
read_argument (c ∷ []) = ends_flags
read_argument (c ∷ d ∷ s) =
    if c == b'-' then if d == b'-' then after_dashes s else read_name (d ∷ s) else ends_flags

-- `ParseBool`
unfoldable pub parse_bool : Bytes → Option Bool
parse_bool s =
    if str_eq s (codes "1")
      || str_eq s (codes "t")
      || str_eq s (codes "T")
      || str_eq s (codes "TRUE")
      || str_eq s (codes "true")
      || str_eq s (codes "True")
    then some true
    else if str_eq s (codes "0")
        || str_eq s (codes "f")
        || str_eq s (codes "F")
        || str_eq s (codes "FALSE")
        || str_eq s (codes "false")
        || str_eq s (codes "False")
    then some false
    else none

abbrev pub Flags : Type 0 → Type 0
Flags C = List (Bytes × Flag C)

-- After an argument: an end, or what was set, with the flag that waits for its value.
pub data Turn (C : Type 0) : Type 0 where
  quits : Turn C
  fails : FlagError → Turn C
  goes : Option (Flag C) → C → Turn C

module _ {C : Type 0} where
  unfoldable pub find_flag : Bytes → Flags C → Option (Flag C)
  find_flag name [] = none
  find_flag name ((n, flag) ∷ flags) =
      let rest = find_flag name flags in if str_eq name n then some flag else rest

  abbrev given {ℓ} : {A : Type ℓ} → (A → C → C) → Bytes → Option A → C → Turn C
  given set value none c = fails (bad_value value)
  given set value (some a) c = goes none (set a c)

  -- `Value.Set`
  unfoldable pub set_flag : Values → Flag C → Bytes → C → Turn C
  set_flag values (text set) value c = goes none (set value c)
  set_flag values (number set) value c = given set value (values.whole_number value) c
  set_flag values (time set) value c = given set value (values.duration value) c
  set_flag values (switch set) value c = given set value (parse_bool value) c

  -- A flag that is a switch is set where no value follows.
  abbrev meets : Values → Flag C → Option Bytes → C → Turn C
  meets values flag (some value) c = set_flag values flag value c
  meets values (text set) none c = goes (some (text set)) c
  meets values (number set) none c = goes (some (number set)) c
  meets values (time set) none c = goes (some (time set)) c
  meets values (switch set) none c = goes none (set true c)

  abbrev meets_found : Values → Bytes → Option (Flag C) → Option Bytes → C → Turn C
  meets_found values name none value c =
      fails
        (if str_eq name (codes "help") || str_eq name (codes "h") then help else not_defined name)
  meets_found values name (some flag) value c = meets values flag value c

  abbrev turn_on : Values → Flags C → Argument → C → Turn C
  turn_on values flags ends_flags c = quits
  turn_on values flags malformed c = fails bad_syntax
  turn_on values flags (named name value) c = meets_found values name (find_flag name flags) value c

  -- `parseOne`, an argument at a time.
  unfoldable pub take_turn : Values → Flags C → Option (Flag C) → Bytes → C → Turn C
  unfolding read_argument find_flag set_flag
  take_turn values flags (some flag) argument c = set_flag values flag argument c
  take_turn values flags none argument c = turn_on values flags (read_argument argument) c

  abbrev ended : Option (Flag C) → C → Result FlagError C
  ended none c = ok c
  ended (some flag) c = err needs_argument

  unfoldable pub parse_from :
      Values → Flags C → Option (Flag C) → List Bytes → C → Result FlagError C
  unfolding take_turn
  parse_from values flags waiting [] c = ended waiting c
  parse_from values flags waiting (argument ∷ arguments) c =
      elim (take_turn values flags waiting argument c) [
        | quits ↦ ok c
        | fails e ↦ err e
        | goes waiting' c' ↦ parse_from values flags waiting' arguments c'
      ]

  -- `Parse`: the flags' values, which start from those in `c`.
  abbrev pub parse_flags : Values → Flags C → List Bytes → C → Result FlagError C
  parse_flags values flags arguments c = parse_from values flags none arguments c
