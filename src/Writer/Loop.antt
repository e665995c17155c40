-- ===== src/Writer/Loop.antt =====
-- `Run` of internal/writer/writer.go: the cases of its `select`, the HTTP handler that queues a reopen,
-- and what is done at the end.
use logrotate_cache_lab.Base.{
  ℕ, Bool, true, false, not, Option, none, some, List, [], ◌∷◌, Bytes, ◌==◌, if◌then◌else◌, length,
}
use logrotate_cache_lab.Base.Int.{pos_part}
use logrotate_cache_lab.Report.{WriterState}
use logrotate_cache_lab.Writer.{
  Config, Writer, WriteError, start_failed, close_failed, serve_failed, state_failed, WriteAnswer,
  fresh, set_state, flush, generate_tick, reopen_tick,
}

-- `request` is an HTTP request for /reopen-logs, by whether its method is POST; the others are the
-- cases of the loop. `elapsed` is the time since the last generation, in nanoseconds.
pub data Event : Type 0 where
  request : Bool → Event
  generated : ℕ → List WriteAnswer → Event
  flushed : List WriteAnswer → Event
  reopened : Bool → Bool → List WriteAnswer → Event

-- The calls of `finish`.
pub record Ending : Type 0 where
  pub answers : List WriteAnswer
  pub close_fails : Bool
  pub serve_fails : Bool
  pub state_fails : Bool

pub record Finished : Type 0 where
  pub writer : Writer
  pub saved : Option WriterState
  pub error : Option WriteError

-- The handler of /reopen-logs: the status of the response. A request that finds the channel full is
-- turned away.
unfoldable pub reopen_logs : Bool → Writer → ℕ × Writer
reopen_logs post w =
    if not post then (405, w) else if w.queued then (503, w) else (200, record w { queued = true })

-- `if runErr == nil { runErr = err }`
abbrev pub or_else : Option WriteError → Option WriteError → Option WriteError
or_else none e = e
or_else (some x) e = some x

abbrev pub failing : Bool → WriteError → Option WriteError
failing fails e = if fails then some e else none

abbrev pub note_error : (WriteError → Bytes) → Option WriteError → WriterState → WriterState
note_error text none s = s
note_error text (some e) s = record s { last_error = text e }

module _ (text : WriteError → Bytes) (cfg : Config) where
  abbrev pub size : ℕ
  size = pos_part cfg.record_bytes

  -- The state is written to its file with whatever error there was.
  unfoldable pub save : Ending → Option WriteError → Writer → Finished
  save end e w =
      let w' = set_state (note_error text e w.state) w in
      if length cfg.state_path == 0
      then record { writer = w'; saved = none; error = e }
      else record {
        writer = w';
        saved = if end.state_fails then none else some w'.state;
        error = or_else e (failing end.state_fails state_failed);
      }

  -- A file that is not open cannot be closed.
  abbrev pub close_error : Ending → Writer → Option WriteError
  close_error end w = if w.is_open then failing end.close_fails close_failed else some close_failed

  unfoldable pub finish : Ending → Option WriteError → Writer → Finished
  finish end e w =
      let (w', f) = flush size end.answers w in
      save end
        (or_else (or_else (or_else e f) (close_error end w'))
          (failing end.serve_fails serve_failed))
        (record w' { is_open = false })

  unfoldable pub step : Event → Writer → Writer × Option WriteError
  step (request post) w = ((reopen_logs post w).1, none)
  step (generated elapsed answers) w =
      generate_tick cfg.run_id size (pos_part cfg.buffer_bytes) (pos_part cfg.bytes_per_second)
        elapsed answers w
  step (flushed answers) w = flush size answers w
  step (reopened close_fails open_fails answers) w =
      reopen_tick size text close_fails open_fails answers w

  -- The events before the context is done. The first error ends the loop.
  unfoldable pub loop : List Event → Ending → Writer → Finished
  loop [] end w = finish end none w
  loop (event ∷ events) end w =
      let (w', e) = step event w in
      elim e [ none ↦ loop events end w' | some x ↦ finish end (some x) w' ]

  -- A log that cannot be opened ends the run before anything is set up.
  unfoldable pub run : Bool → List Event → Ending → Finished
  run starts events end = if starts then loop events end fresh else record {
    writer = record fresh { is_open = false };
    saved = none;
    error = some start_failed;
  }
