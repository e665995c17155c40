-- ===== src/Writer/Served.antt =====
-- How soon the loop of internal/writer/writer.go writes what it has generated, and serves a request.
use logrotate_cache_lab.Base.{
  ℕ, ◌+◌, ◌<◌, ◌≡◌, refl, ap, subst, ◌∙◌, Bool, true, false, ◌%◌, ◌^◌, none, some, List, [], ◌∷◌,
  ◌++◌, Bytes, if◌then◌else◌, All,
}
use logrotate_cache_lab.Base.Int.{pos_part}
use logrotate_cache_lab.Report.{WriterState}
use logrotate_cache_lab.Writer.{
  Config, Writer, WriteError, WriteAnswer, fresh, flush, take_request, try_reopen, reopen_tick,
}
use logrotate_cache_lab.Writer.Essence.{flush-essence}
use logrotate_cache_lab.Writer.Loop.{
  Event, request, flushed, reopened, Ending, reopen_logs, step, loop,
}
use logrotate_cache_lab.Writer.Steps.{step-Tracks, fresh-Tracks, RunTracks}
use logrotate_cache_lab.Writer.Complete.{WroteAll, flush-empties, flushed-WroteAll}
use logrotate_cache_lab.Writer.Running.{
  Takes, flush-none, try_reopen-none, running, loop-step, loop-running, running-Runs,
  flush_unchanged,
}

module _ (text : WriteError → Bytes) (cfg : Config) (positive : 0 < pos_part cfg.record_bytes)
    (answers : List WriteAnswer) (rest : List Event) (end : Ending) where
  -- The loop after a tick of the flush interval.
  abbrev pub Flushed : List Event → Writer → Type 0
  Flushed events w =
      (v : Writer) × (loop text cfg (events ++ flushed answers ∷ rest) end fresh
        ≡ loop text cfg rest end v)
      × WroteAll text cfg positive v
      × (v.state.generated ≡ w.state.generated)

  -- The loop after a request and the case that serves it.
  abbrev pub Reopened : List Event → Writer → Type 0
  Reopened events w =
      (v : Writer) × (loop text cfg (events ++ request true ∷ reopened false false answers ∷ rest)
          end fresh
        ≡ loop text cfg rest end v)
      × WroteAll text cfg positive v
      × (v.queued ≡ false)
      × (v.state.reopen_requests ≡ (w.state.reopen_requests + 1) % 2 ^ 64)
      × (v.closed ≡ w.closed ++ w.current ∷ [])

  module _ (takes : All Takes answers) where
    loop-Flushed :
        (events : List Event) (w : Writer)
        → running text cfg events fresh ≡ some w
        → Flushed events w
    unfolding step
    loop-Flushed events w h =
        let size = pos_part cfg.record_bytes in
        let (tracks, opens) =
          running-Runs text cfg positive events fresh w h (fresh-Tracks cfg.run_id size, refl) in
        let clean = flush-none size answers takes w opens in
        (
          (flush size answers w).0,
          loop-running text cfg events (flushed answers ∷ rest) end fresh w h
              ∙ loop-step text cfg (flushed answers) rest end w clean,
          flushed-WroteAll text cfg positive _
              (step-Tracks text cfg positive (flushed answers) w tracks clean)
              (flush-empties size answers w clean),
          (flush_unchanged size answers w).0,
        )

    -- The channel is full once a request was made, whether it was taken or turned away.
    Queued : Writer → Writer → Type 0
    Queued w u =
        (u.queued ≡ true)
        × (u.is_open ≡ w.is_open)
        × (u.state ≡ w.state)
        × (u.closed ≡ w.closed)
        × (u.current ≡ w.current)

    reopen_logs-Queued : (w : Writer) → Queued w ((reopen_logs true w).1)
    unfolding reopen_logs Queued
    reopen_logs-Queued w = by_queue w.queued refl
      where
        by_queue :
            (q : Bool)
            → w.queued ≡ q
            → Queued w
                ((if◌then◌else◌ {A = ℕ × Writer} q (503, w) (200, record w { queued = true })).1)
        by_queue true e = (e, refl, refl, refl, refl)
        by_queue false e = (refl, refl, refl, refl, refl)

    reopen_tick_queued :
        (u : Writer)
        → u.queued ≡ true
        → reopen_tick (pos_part cfg.record_bytes) text false false answers u
          ≡ try_reopen
              (pos_part cfg.record_bytes)
              text
              false
              false
              answers
              (take_request (pos_part cfg.record_bytes) u)
    unfolding reopen_tick
    reopen_tick_queued u full = rw full refl

    loop-Reopened :
        (events : List Event) (w : Writer)
        → running text cfg events fresh ≡ some w
        → Reopened events w
    unfolding step Queued
    loop-Reopened events w h =
        let size = pos_part cfg.record_bytes in
        let (tracks, opens) =
          running-Runs text cfg positive events fresh w h (fresh-Tracks cfg.run_id size, refl) in
        let u = (reopen_logs true w).1 in
        let (full, still, state, closed, current) = reopen_logs-Queued w in
        let tick = reopen_tick size text false false answers u in
        let tried = try_reopen size text false false answers (take_request size u) in
        let same : tick ≡ tried = reopen_tick_queued u full in
        let works = try_reopen-none size answers takes text (take_request size u) (still ∙ opens) in
        let clean : tick.1 ≡ none = ap (λ r. r.1) same ∙ works in
        let queue_tracks = step-Tracks text cfg positive (request true) w tracks refl in
        (
          tried.0,
          loop-running text cfg events (request true ∷ reopened false false answers ∷ rest) end
                fresh w h
              ∙ loop-step text cfg (request true) (reopened false false answers ∷ rest) end w refl
              ∙ loop-step text cfg (reopened false false answers) rest end u clean
              ∙ ap (λ r. loop text cfg rest end (r.0)) same,
          flushed-WroteAll text cfg positive (tried.0)
              (subst (λ r. RunTracks text cfg positive (r.0)) same
                (step-Tracks text cfg positive (reopened false false answers) u queue_tracks clean))
              (flush-empties size answers _ works),
          ap (λ e. e.0) (flush-essence size answers _),
          ap (λ e. e.2) (flush-essence size answers _)
              ∙ ap (λ s. (WriterState.reopen_requests s + 1) % 2 ^ 64) state,
          (flush_unchanged size answers _).1 ∙ (λ i. closed i ++ current i ∷ []),
        )

    -- While the loop runs, a tick of the flush interval whose writes take something and do not fail leaves
    -- all that was generated in the log's files, in order and whole, and the loop goes on. So does a
    -- request for a reopen followed by the case that serves it, if the log can be closed and opened: then
    -- the request is counted, none waits, and what stood in the log is a file of its own. The size of a
    -- record is positive.
    pub loop_served :
        (events : List Event) (w : Writer)
        → running text cfg events fresh ≡ some w
        → Flushed events w × Reopened events w
    loop_served events w h = (loop-Flushed events w h, loop-Reopened events w h)
