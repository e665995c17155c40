-- ===== src/Writer/Reopens.antt =====
-- The reopens of internal/writer/writer.go that fail: each one ends the run with an error.
use logrotate_cache_lab.Base.{
  ℕ, ◌<◌, ◌≡◌, refl, ap, ◌∙◌, inl, inr, Bool, true, false, Bool-cases, Option, none, some, List, [],
  ◌∷◌, Bytes, ◌==◌, length, if◌then◌else◌,
}
use logrotate_cache_lab.Base.Int.{pos_part}
use logrotate_cache_lab.Report.{WriterState}
use logrotate_cache_lab.Writer.{
  Config, Writer, WriteError, WriteAnswer, fresh, flush, take_request, try_reopen, reopen_tick,
}
use logrotate_cache_lab.Writer.Essence.{flush-essence, generate_tick-essence}
use logrotate_cache_lab.Writer.Loop.{
  Event, request, generated, flushed, reopened, Ending, Finished, reopen_logs, note_error, save,
  finish, step, loop, run,
}
use logrotate_cache_lab.Writer.Complete.{finish-failed}

abbrev failures : Writer → ℕ
failures w = w.state.reopen_failures

flush-failures :
    (size : ℕ) (answers : List WriteAnswer) (w : Writer)
    → failures ((flush size answers w).0) ≡ failures w
flush-failures size answers w = ap (λ e. e.3) (flush-essence size answers w)

try_reopen-failures :
    (size : ℕ) (text : WriteError → Bytes) (close_fails open_fails : Bool)
    (answers : List WriteAnswer) (w : Writer)
    → (try_reopen size text close_fails open_fails answers w).1 ≡ none
    → failures ((try_reopen size text close_fails open_fails answers w).0) ≡ failures w
try_reopen-failures size text true open_fails answers w h = refl
try_reopen-failures size text false true answers w h = absurd cc
try_reopen-failures size text false false answers w h = flush-failures size answers _

reopen_tick-failures :
    (size : ℕ) (text : WriteError → Bytes) (close_fails open_fails : Bool)
    (answers : List WriteAnswer) (w : Writer)
    → (reopen_tick size text close_fails open_fails answers w).1 ≡ none
    → failures ((reopen_tick size text close_fails open_fails answers w).0) ≡ failures w
unfolding reopen_tick
reopen_tick-failures size text close_fails open_fails answers w = by_queue w.queued
  where
    rest : Writer × Option WriteError
    rest = try_reopen size text close_fails open_fails answers (take_request size w)

    by_queue :
        (q : Bool)
        → (if q then rest else (w, none)).1 ≡ none
        → failures ((if q then rest else (w, none)).0) ≡ failures w
    by_queue false h = refl
    by_queue true h =
        try_reopen-failures size text close_fails open_fails answers (take_request size w) h

module _ (text : WriteError → Bytes) (cfg : Config) where
  reopen_logs-failures : (post : Bool) (w : Writer) → failures ((reopen_logs post w).1) ≡ failures w
  unfolding reopen_logs
  reopen_logs-failures false w = refl
  reopen_logs-failures true w = elim (Bool-cases w.queued) [ inl e ↦ rw e refl | inr e ↦ rw e refl ]

  step-failures :
      (event : Event) (w : Writer)
      → (step text cfg event w).1 ≡ none
      → failures ((step text cfg event w).0) ≡ failures w
  unfolding step
  step-failures (request post) w h = reopen_logs-failures post w
  step-failures (generated elapsed answers) w h =
      ap (λ e. e.3) (generate_tick-essence cfg.run_id _ _ _ elapsed answers w)
  step-failures (flushed answers) w h = flush-failures _ answers w
  step-failures (reopened close_fails open_fails answers) w h =
      reopen_tick-failures _ text close_fails open_fails answers w h

  note_error-failures :
      (e : Option WriteError) (s : WriterState)
      → (note_error text e s).reopen_failures ≡ s.reopen_failures
  note_error-failures none s = refl
  note_error-failures (some x) s = refl

  save-failures :
      (end : Ending) (e : Option WriteError) (w : Writer)
      → failures ((save text cfg end e w).writer) ≡ failures w
  unfolding save
  save-failures end e w = elim (Bool-cases (length cfg.state_path == 0)) [
    | inl same ↦ rw same (note_error-failures e w.state)
    | inr same ↦ rw same (note_error-failures e w.state)
  ]

  finish-failures :
      (end : Ending) (e : Option WriteError) (w : Writer)
      → failures ((finish text cfg end e w).writer) ≡ failures w
  unfolding finish
  finish-failures end e w = save-failures end _ _ ∙ flush-failures _ end.answers w

  module _ (positive : 0 < pos_part cfg.record_bytes) where
    loop-failures :
        (events : List Event) (end : Ending) (w : Writer)
        → (loop text cfg events end w).error ≡ none
        → failures ((loop text cfg events end w).writer) ≡ failures w
    unfolding loop
    loop-failures [] end w = λ h. finish-failures end none w
    loop-failures (event ∷ events) end w =
        after (step text cfg event w) (step-failures event w)
          (loop-failures events end ((step text cfg event w).0))
      where
        finished : Writer × Option WriteError → Finished
        finished (v, none) = loop text cfg events end v
        finished (v, some x) = finish text cfg end (some x) v

        after :
            (r : Writer × Option WriteError)
            → (r.1 ≡ none → failures (r.0) ≡ failures w)
            → ((loop text cfg events end (r.0)).error ≡ none
                → failures ((loop text cfg events end (r.0)).writer) ≡ failures (r.0))
            → (finished r).error ≡ none
            → failures ((finished r).writer) ≡ failures w
        after (v, none) k rest h = rest h ∙ k refl
        after (v, some x) k rest h = absurd (finish-failed text cfg positive end x v h)

    -- A run that ends without an error counted no reopen that failed.
    pub run-failures :
        (starts : Bool) (events : List Event) (end : Ending)
        → (run text cfg starts events end).error ≡ none
        → (run text cfg starts events end).writer.state.reopen_failures ≡ 0
    unfolding run
    run-failures true events end h = loop-failures events end fresh h
    run-failures false events end h = absurd cc
