-- ===== src/Writer/Steps.antt =====
-- Every case of the loop of internal/writer/writer.go that fails nothing keeps `Tracks`.
use mathlib.Core.List.{map-append}
use logrotate_cache_lab.Base.{
  ℕ, ◌<◌, ◌≡◌, refl, ◌∙◌, inl, inr, Bool, true, false, Bool-cases, Option, none, some, List, [],
  ◌∷◌, ◌++◌, append-nil, Bytes, leb, if◌then◌else◌, length, arith,
}
use logrotate_cache_lab.Base.Int.{pos_part}
use logrotate_cache_lab.Writer.{
  Config, Writer, WriteError, WriteAnswer, fresh, flush, try_reopen, take_request, reopen_tick,
  and_then, add_credit, generate, generate_tick,
}
use logrotate_cache_lab.Writer.Stream.{Tracks, flush-Tracks, generate-Tracks, all_of-append}
use logrotate_cache_lab.Writer.Loop.{
  Event, request, generated, flushed, reopened, reopen_logs, size, step,
}

module _ (run_id : Bytes) (size : ℕ) (positive : 0 < size) where
  -- The credit, the channel and the other counters do not matter.
  pub same-Tracks :
      (w v : Writer)
      → v.buffer ≡ w.buffer
      → v.closed ≡ w.closed
      → v.current ≡ w.current
      → v.state.generated ≡ w.state.generated
      → v.state.written ≡ w.state.written
      → Tracks run_id size w
      → Tracks run_id size v
  same-Tracks w v b c k g n t = record {
    flushed = t.flushed;
    buffered = t.buffered;
    files = t.files;
    here = t.here;
    held = t.held;
    closed_logs = c ∙ t.closed_logs;
    current_log = k ∙ t.current_log;
    buffer_log = b ∙ t.buffer_log;
    order = t.order;
    length_held = t.length_held;
    length_buffer = rw b t.length_buffer;
    counts_generated = g ∙ t.counts_generated;
    counts_written = n ∙ t.counts_written;
  }

  generate_tick-Tracks :
      (limit rate elapsed : ℕ) (answers : List WriteAnswer) (w : Writer)
      → Tracks run_id size w
      → (generate_tick run_id size limit rate elapsed answers w).1 ≡ none
      → Tracks run_id size ((generate_tick run_id size limit rate elapsed answers w).0)
  unfolding generate_tick add_credit
  generate_tick-Tracks limit rate elapsed answers w t =
      let v = add_credit rate elapsed w in
      after (generate run_id size (pos_part v.credit) v) (
        generate-Tracks run_id size positive (pos_part v.credit) v
          (same-Tracks w v refl refl refl refl refl t))
    where
      finally : Writer → Writer × Option WriteError
      finally v = if leb limit (length v.buffer) then flush size answers v else (v, none)

      after :
          (r : Writer × Option WriteError)
          → (r.1 ≡ none → Tracks run_id size (r.0))
          → (and_then r finally).1 ≡ none
          → Tracks run_id size ((and_then r finally).0)
      after (v, some e) k = λ h. cc
      after (v, none) k = elim (Bool-cases (leb limit (length v.buffer))) [
        | inl e ↦ rw e (flush-Tracks run_id size positive answers v (k refl))
        | inr e ↦ rw e (λ h. k refl)
      ]

  -- The next file starts with nothing.
  next_file-Tracks :
      (w : Writer)
      → Tracks run_id size w
      → Tracks run_id size (record w { closed = w.closed ++ w.current ∷ []; current = [] })
  next_file-Tracks w t = record {
    flushed = t.flushed;
    buffered = t.buffered;
    files = t.files ++ t.here ∷ [];
    here = [];
    held = t.held;
    closed_logs = rw (map-append, t.closed_logs, t.current_log) refl;
    current_log = refl;
    buffer_log = t.buffer_log;
    order = simp (all_of-append, append-nil) t.order;
    length_held = t.length_held;
    length_buffer = t.length_buffer;
    counts_generated = t.counts_generated;
    counts_written = t.counts_written;
  }

  try_reopen-Tracks :
      (text : WriteError → Bytes) (close_fails open_fails : Bool) (answers : List WriteAnswer)
      (w : Writer)
      → Tracks run_id size w
      → (try_reopen size text close_fails open_fails answers w).1 ≡ none
      → Tracks run_id size ((try_reopen size text close_fails open_fails answers w).0)
  try_reopen-Tracks text true open_fails answers w t h = cc
  try_reopen-Tracks text false true answers w t h = cc
  try_reopen-Tracks text false false answers w t h =
      flush-Tracks run_id size positive answers _ (next_file-Tracks w t) h

  reopen_tick-Tracks :
      (text : WriteError → Bytes) (close_fails open_fails : Bool) (answers : List WriteAnswer)
      (w : Writer)
      → Tracks run_id size w
      → (reopen_tick size text close_fails open_fails answers w).1 ≡ none
      → Tracks run_id size ((reopen_tick size text close_fails open_fails answers w).0)
  unfolding reopen_tick
  reopen_tick-Tracks text close_fails open_fails answers w t =
      let rest = try_reopen size text close_fails open_fails answers (take_request size w) in
      elim w.queued
        as (λ q.
          (if q then rest else (w, none)).1 ≡ none
          → Tracks run_id size ((if q then rest else (w, none)).0)) [
            | false ↦ λ h. t
            | true ↦
                try_reopen-Tracks text close_fails open_fails answers (take_request size w)
                  (same-Tracks w (take_request size w) refl refl refl refl refl t)
          ]

pub fresh-Tracks : (run_id : Bytes) (size : ℕ) → Tracks run_id size fresh
fresh-Tracks run_id size = record {
  flushed = 0;
  buffered = 0;
  files = [];
  here = [];
  held = [];
  closed_logs = refl;
  current_log = refl;
  buffer_log = refl;
  order = refl;
  length_held = refl;
  length_buffer = omega arith;
  counts_generated = refl;
  counts_written = refl;
}

module _ (text : WriteError → Bytes) (cfg : Config) (positive : 0 < pos_part cfg.record_bytes) where
  abbrev pub RunTracks : Writer → Type 0
  RunTracks = Tracks cfg.run_id (pos_part cfg.record_bytes)

  pub step-Tracks :
      (event : Event) (w : Writer)
      → RunTracks w
      → (step text cfg event w).1 ≡ none
      → RunTracks ((step text cfg event w).0)
  unfolding step reopen_logs
  step-Tracks (request true) w t h =
      elim w.queued
        as (λ q.
          RunTracks
            ((if◌then◌else◌ {A = ℕ × Writer} q (503, w) (200, record w { queued = true })).1)) [
              | true ↦ t
              | false ↦
                  same-Tracks cfg.run_id _ positive w (record w { queued = true }) refl refl refl
                    refl refl t
            ]
  step-Tracks (request false) w t h = t
  step-Tracks (generated elapsed answers) w t h =
      generate_tick-Tracks cfg.run_id _ positive _ _ elapsed answers w t h
  step-Tracks (flushed answers) w t h = flush-Tracks cfg.run_id _ positive answers w t h
  step-Tracks (reopened close_fails open_fails answers) w t h =
      reopen_tick-Tracks cfg.run_id _ positive text close_fails open_fails answers w t h
