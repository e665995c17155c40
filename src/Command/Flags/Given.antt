-- ===== src/Command/Flags/Given.antt =====
-- Flags that are given with their values, as `--name value`.
use logrotate_cache_lab.Base.{◌≡◌, refl, none, some, List, [], ◌∷◌, Bytes, ok}
use logrotate_cache_lab.Base.Int.{ℤ, IsInt64}
use logrotate_cache_lab.Strconv.{format_int}
use logrotate_cache_lab.Command.Flags.{
  Values, text, number, time, Flags, goes, take_turn, set_flag, parse_from,
}

-- The print of an `int64` and of a duration is read back.
pub record IsExact (values : Values) : Type 0 where
  pub number_exact : (z : ℤ) → IsInt64 z → values.whole_number (format_int z) ≡ some z
  pub time_exact : (z : ℤ) → IsInt64 z → values.duration (values.print_duration z) ≡ some z

module _ {C : Type 0} (values : Values) (flags : Flags C) where
  pub parse_from-nil : (c : C) → parse_from values flags none [] c ≡ ok c
  unfolding parse_from
  parse_from-nil c = refl

  -- A flag of each kind sets its value, and the rest is parsed.
  module _ (argument : Bytes) (rest : List Bytes) (c : C) where
    pub given_text :
        (v : Bytes) (set : Bytes → C → C)
        → take_turn values flags none argument c ≡ goes (some (text set)) c
        → parse_from values flags none (argument ∷ v ∷ rest) c
          ≡ parse_from values flags none rest (set v c)
    unfolding parse_from take_turn set_flag
    given_text v set h = rw (parse_from, h) refl

    module _ (exact : IsExact values) (z : ℤ) (bound : IsInt64 z) (set : ℤ → C → C) where
      pub given_number :
          take_turn values flags none argument c ≡ goes (some (number set)) c
          → parse_from values flags none (argument ∷ format_int z ∷ rest) c
            ≡ parse_from values flags none rest (set z c)
      unfolding parse_from take_turn set_flag
      given_number h = rw (parse_from, h, exact.number_exact z bound) refl

      pub given_time :
          take_turn values flags none argument c ≡ goes (some (time set)) c
          → parse_from values flags none (argument ∷ values.print_duration z ∷ rest) c
            ≡ parse_from values flags none rest (set z c)
      unfolding parse_from take_turn set_flag
      given_time h = rw (parse_from, h, exact.time_exact z bound) refl
