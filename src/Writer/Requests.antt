-- ===== src/Writer/Requests.antt =====
-- The requests for /reopen-logs of internal/writer/writer.go: the handler queues them, the loop counts
-- them.
use logrotate_cache_lab.Base.{
  ℕ, ◌+◌, ◌%◌, ◌^◌, ◌≡◌, refl, ap, ◌∙◌, Bool, true, false, Bool-cases, inl, inr, Option, none, some,
  List, [], ◌∷◌, Bytes, ◌==◌, if◌then◌else◌, length, arith,
}
use logrotate_cache_lab.Base.Int.{pos_part}
use logrotate_cache_lab.Report.{WriterState}
use logrotate_cache_lab.Writer.{
  Config, Writer, WriteError, WriteAnswer, flush, generate_tick, take_request, try_reopen,
  reopen_tick,
}
use logrotate_cache_lab.Writer.Essence.{flush-essence, generate_tick-essence}
use logrotate_cache_lab.Writer.Loop.{
  Event, request, generated, flushed, reopened, Ending, Finished, reopen_logs, note_error, save,
  finish, step, loop,
}

-- The requests that were counted, and the one that waits.
abbrev pub pending : Writer → ℕ
pending w = w.state.reopen_requests + (if w.queued then 1 else 0)

counted_and_queued : Bool × Bool × ℕ × ℕ → ℕ
counted_and_queued e = e.2 + (if e.0 then 1 else 0)

flush-pending :
    (size : ℕ) (answers : List WriteAnswer) (w : Writer)
    → pending ((flush size answers w).0) ≡ pending w
unfolding counted_and_queued
flush-pending size answers w = ap counted_and_queued (flush-essence size answers w)

generate_tick-pending :
    (run_id : Bytes) (size limit rate elapsed : ℕ) (answers : List WriteAnswer) (w : Writer)
    → pending ((generate_tick run_id size limit rate elapsed answers w).0) ≡ pending w
unfolding counted_and_queued
generate_tick-pending run_id size limit rate elapsed answers w =
    ap counted_and_queued (generate_tick-essence run_id size limit rate elapsed answers w)

try_reopen-pending :
    (size : ℕ) (text : WriteError → Bytes) (close_fails open_fails : Bool)
    (answers : List WriteAnswer) (w : Writer)
    → pending ((try_reopen size text close_fails open_fails answers w).0) ≡ pending w
try_reopen-pending size text true open_fails answers w = refl
try_reopen-pending size text false true answers w = refl
try_reopen-pending size text false false answers w = flush-pending size answers _

reopen_tick-pending :
    (size : ℕ) (text : WriteError → Bytes) (close_fails open_fails : Bool)
    (answers : List WriteAnswer) (w : Writer)
    → pending ((reopen_tick size text close_fails open_fails answers w).0) % 2 ^ 64
      ≡ pending w % 2 ^ 64
unfolding reopen_tick
reopen_tick-pending size text close_fails open_fails answers w = by_queue w.queued refl
  where
    rest : Writer × Option WriteError
    rest = try_reopen size text close_fails open_fails answers (take_request size w)

    by_queue :
        (q : Bool)
        → w.queued ≡ q
        → pending ((if q then rest else (w, none)).0) % 2 ^ 64 ≡ pending w % 2 ^ 64
    by_queue false e = refl
    by_queue true e =
        let same =
          try_reopen-pending size text close_fails open_fails answers (take_request size w) in
        rw same (rw e (omega arith))

module _ (text : WriteError → Bytes) (cfg : Config) where
  -- The requests that an event adds: one for a response of 200.
  unfoldable pub accepts : Event → Writer → ℕ
  accepts (request post) w = if (reopen_logs post w).0 == 200 then 1 else 0
  accepts (generated elapsed answers) w = 0
  accepts (flushed answers) w = 0
  accepts (reopened close_fails open_fails answers) w = 0

  reopen_logs-pending :
      (post : Bool) (w : Writer)
      → pending ((reopen_logs post w).1)
        ≡ pending w + (if (reopen_logs post w).0 == 200 then 1 else 0)
  unfolding reopen_logs
  reopen_logs-pending false w = omega arith
  reopen_logs-pending true w = by_queue w.queued refl
    where
      handled : Bool → ℕ × Writer
      handled q = if q then (503, w) else (200, record w { queued = true })

      by_queue :
          (q : Bool)
          → w.queued ≡ q
          → pending ((handled q).1) ≡ pending w + (if (handled q).0 == 200 then 1 else 0)
      by_queue true e = omega arith
      by_queue false e = rw e (omega arith)

  step-pending :
      (event : Event) (w : Writer)
      → pending ((step text cfg event w).0) % 2 ^ 64 ≡ (pending w + accepts event w) % 2 ^ 64
  unfolding step accepts
  step-pending (request post) w = rw (reopen_logs-pending post w) refl
  step-pending (generated elapsed answers) w =
      rw
        (generate_tick-pending cfg.run_id (pos_part cfg.record_bytes) (pos_part cfg.buffer_bytes)
          (pos_part cfg.bytes_per_second) elapsed answers w)
        (omega arith)
  step-pending (flushed answers) w =
      rw (flush-pending (pos_part cfg.record_bytes) answers w) (omega arith)
  step-pending (reopened close_fails open_fails answers) w =
      rw (reopen_tick-pending (pos_part cfg.record_bytes) text close_fails open_fails answers w)
        (omega arith)

  -- The requests that are accepted before the loop ends.
  unfoldable pub accepted : List Event → Writer → ℕ
  accepted [] w = 0
  accepted (event ∷ events) w =
      let rest = accepted events ((step text cfg event w).0) in
      accepts event w + (elim (step text cfg event w).1 [ none ↦ rest | some e ↦ 0 ])

  note_error-reopen_requests :
      (e : Option WriteError) (s : WriterState)
      → (note_error text e s).reopen_requests ≡ s.reopen_requests
  note_error-reopen_requests none s = refl
  note_error-reopen_requests (some x) s = refl

  save-pending :
      (end : Ending) (e : Option WriteError) (w : Writer)
      → pending ((save text cfg end e w).writer) ≡ pending w
  unfolding save
  save-pending end e w = elim (Bool-cases (length cfg.state_path == 0)) [
    | inl same ↦ rw same (ap counted (note_error-reopen_requests e w.state))
    | inr same ↦ rw same (ap counted (note_error-reopen_requests e w.state))
  ]
    where
      counted : ℕ → ℕ
      counted r = r + (if w.queued then 1 else 0)

  finish-pending :
      (end : Ending) (e : Option WriteError) (w : Writer)
      → pending ((finish text cfg end e w).writer) ≡ pending w
  unfolding finish
  finish-pending end e w =
      save-pending end _ _ ∙ flush-pending (pos_part cfg.record_bytes) end.answers w

  -- Every request that the handler answers with 200 is counted once or still waits in the channel when
  -- the loop has ended, whatever fails meanwhile: the count of reopen requests, as `uint64`, and the one
  -- that waits add up to those at the start and the accepted ones.
  pub loop-pending :
      (events : List Event) (end : Ending) (w : Writer)
      → pending ((loop text cfg events end w).writer) % 2 ^ 64
        ≡ (pending w + accepted events w) % 2 ^ 64
  unfolding loop accepted
  loop-pending [] end w = rw (finish-pending end none w) (omega arith)
  loop-pending (event ∷ events) end w =
      after (step text cfg event w) refl (loop-pending events end (step text cfg event w).0)
    where
      finished : Writer × Option WriteError → Finished
      finished (v, none) = loop text cfg events end v
      finished (v, some x) = finish text cfg end (some x) v

      more : Writer × Option WriteError → ℕ
      more (v, none) = accepted events v
      more (v, some x) = 0

      after :
          (r : Writer × Option WriteError)
          → step text cfg event w ≡ r
          → pending ((loop text cfg events end (r.0)).writer) % 2 ^ 64
            ≡ (pending (r.0) + accepted events (r.0)) % 2 ^ 64
          → pending ((finished r).writer) % 2 ^ 64
            ≡ (pending w + (accepts event w + more r)) % 2 ^ 64
      after (v, none) e rest = let same = rw e at (step-pending event w) in rw rest (omega arith)
      after (v, some x) e rest =
          let same = rw e at (step-pending event w) in
          rw (finish-pending end (some x) v) (omega arith)
