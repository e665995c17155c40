-- ===== src/Tests/Served.antt =====
-- A flush after some records, and a reopen that is asked for while one is asked for already.
use logrotate_cache_lab.Base.{◌≡◌, refl, true, false, Option, none, some, List, [], ◌∷◌, arith}
use logrotate_cache_lab.Base.Int.{◌+ℤ◌, ◌-ℤ◌}
use logrotate_cache_lab.Strconv.{zero_pad}
use logrotate_cache_lab.Record.{encode, prefix, has_space}
use logrotate_cache_lab.Writer.{
  Writer, WriteAnswer, fresh, flush, after_write, write_all, generate_tick, add_credit, generate,
}
use logrotate_cache_lab.Writer.Loop.{Event, request, generated, step, reopen_logs}
use logrotate_cache_lab.Writer.Running.{running}
use logrotate_cache_lab.Writer.Served.{Flushed, Reopened, loop_served}
use logrotate_cache_lab.Tests.Writer.{cfg, text, second, quiet}

abbrev before : List Event
before = generated second [] ∷ request true ∷ []

abbrev or_fresh : Option Writer → Writer
or_fresh none = fresh
or_fresh (some w) = w

abbrev so_far : Writer
so_far = or_fresh (running text cfg before fresh)

runs : running text cfg before fresh ≡ some so_far
unfolding running step reopen_logs generate_tick add_credit generate flush after_write write_all
    encode prefix has_space zero_pad ◌+ℤ◌ ◌-ℤ◌
runs = refl

-- The first write takes ten bytes.
abbrev answers : List WriteAnswer
answers = record { count = 10; fails = false } ∷ []

loop_served_example :
    Flushed text cfg (omega arith) answers [] quiet before so_far
    × Reopened text cfg (omega arith) answers [] quiet before so_far
loop_served_example =
    loop_served text cfg (omega arith) answers [] quiet ((refl, λ e. absurd (omega arith)), tt)
      before so_far runs
