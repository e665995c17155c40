-- ===== src/Writer/Running.antt =====
-- The loop of internal/writer/writer.go while nothing has ended it.
use mathlib.Core.Option.{some-injective}
use logrotate_cache_lab.Base.{
  ℕ, ◌<◌, ◌≡◌, ◌≢◌, refl, ap, subst, ◌∙◌, inl, inr, Bool, true, false, Bool-cases, Option, none,
  some, List, [], ◌∷◌, ◌++◌, Bytes, ◌==◌, if◌then◌else◌, length, drop, All, arith,
}
use logrotate_cache_lab.Base.Int.{pos_part}
use logrotate_cache_lab.Writer.{
  Config, Writer, WriteError, WriteAnswer, write_all, write_file, after_write, flush, take_request,
  try_reopen, reopen_tick,
}
use logrotate_cache_lab.Writer.Essence.{flush-essence, generate_tick-essence}
use logrotate_cache_lab.Writer.Loop.{
  Event, request, generated, flushed, reopened, Ending, Finished, reopen_logs, finish, step, loop,
}
use logrotate_cache_lab.Writer.Steps.{step-Tracks, RunTracks}

-- A write that takes at least a byte and does not fail.
abbrev pub Takes : WriteAnswer → Type 0
Takes a = (a.fails ≡ false) × (a.count ≢ 0)

write_all-none :
    (answers : List WriteAnswer) (bytes : Bytes)
    → All Takes answers
    → (write_all answers bytes).1 ≡ none
unfolding write_all
write_all-none answers [] h = refl
write_all-none [] (c ∷ s) h = refl
write_all-none (a ∷ answers) (c ∷ s) ((works, some_bytes), h) =
    let positive : (a.count == 0) ≡ false = ground arith in
    rw (works, positive) (write_all-none answers (drop a.count (c ∷ s)) h)

module _ (size : ℕ) (answers : List WriteAnswer) (takes : All Takes answers) where
  pub flush-none : (w : Writer) → w.is_open ≡ true → (flush size answers w).1 ≡ none
  unfolding flush after_write
  flush-none w opens = elim (Bool-cases (length w.buffer == 0)) [
    | inl e ↦ rw e refl
    | inr e ↦ rw e (
        after (write_file w.is_open answers w.buffer)
          (rw opens (write_all-none answers w.buffer takes)))
  ]
    where
      after : (r : Bytes × Option WriteError) → r.1 ≡ none → (after_write size w r).1 ≡ none
      after (bytes, none) h = refl
      after (bytes, some e) h = absurd cc

  pub try_reopen-none :
      (text : WriteError → Bytes) (w : Writer)
      → w.is_open ≡ true
      → (try_reopen size text false false answers w).1 ≡ none
  try_reopen-none text w opens = flush-none _ opens

-- Whether the file is open.
opened_of : Bool × Bool × ℕ × ℕ → Bool
opened_of e = e.1

module _ (text : WriteError → Bytes) (cfg : Config) where
  reopen_tick-is_open :
      (close_fails open_fails : Bool) (answers : List WriteAnswer) (w : Writer)
      → (reopen_tick (pos_part cfg.record_bytes) text close_fails open_fails answers w).1 ≡ none
      → (reopen_tick (pos_part cfg.record_bytes) text close_fails open_fails answers w).0.is_open
        ≡ w.is_open
  unfolding reopen_tick opened_of
  reopen_tick-is_open close_fails open_fails answers w = by_queue w.queued
    where
      size : ℕ
      size = pos_part cfg.record_bytes

      tried :
          (c o : Bool)
          → (try_reopen size text c o answers (take_request size w)).1 ≡ none
          → (try_reopen size text c o answers (take_request size w)).0.is_open ≡ w.is_open
      tried true o h = absurd cc
      tried false true h = absurd cc
      tried false false h = ap opened_of (flush-essence size answers _)

      by_queue :
          (q : Bool)
          → (if q
              then try_reopen size text close_fails open_fails answers (take_request size w)
              else (w, none)).1
            ≡ none
          → (if q
              then try_reopen size text close_fails open_fails answers (take_request size w)
              else (w, none)).0.is_open
            ≡ w.is_open
      by_queue true h = tried close_fails open_fails h
      by_queue false h = refl

  reopen_logs-is_open : (post : Bool) (w : Writer) → (reopen_logs post w).1.is_open ≡ w.is_open
  unfolding reopen_logs
  reopen_logs-is_open false w = refl
  reopen_logs-is_open true w = by_queue w.queued
    where
      by_queue :
          (q : Bool)
          → (if◌then◌else◌ {A = ℕ × Writer} q (503, w) (200, record w { queued = true })).1.is_open
            ≡ w.is_open
      by_queue true = refl
      by_queue false = refl

  step-is_open :
      (event : Event) (w : Writer)
      → (step text cfg event w).1 ≡ none
      → (step text cfg event w).0.is_open ≡ w.is_open
  unfolding step opened_of
  step-is_open (request post) w h = reopen_logs-is_open post w
  step-is_open (generated elapsed answers) w h =
      ap opened_of (generate_tick-essence cfg.run_id _ _ _ elapsed answers w)
  step-is_open (flushed answers) w h = ap opened_of (flush-essence _ answers w)
  step-is_open (reopened close_fails open_fails answers) w h =
      reopen_tick-is_open close_fails open_fails answers w h

  abbrev pub next : (Writer → Option Writer) → Writer × Option WriteError → Option Writer
  next f (w, none) = f w
  next f (w, some e) = none

  -- The writer after the events, where none of them ended the loop.
  unfoldable pub running : List Event → Writer → Option Writer
  running [] w = some w
  running (event ∷ events) w = next (running events) (step text cfg event w)

  pub loop-step :
      (event : Event) (rest : List Event) (end : Ending) (w : Writer)
      → (step text cfg event w).1 ≡ none
      → loop text cfg (event ∷ rest) end w ≡ loop text cfg rest end ((step text cfg event w).0)
  unfolding loop
  loop-step event rest end w h = rw (loop, h) refl

  pub loop-running :
      (events rest : List Event) (end : Ending) (w v : Writer)
      → running events w ≡ some v
      → loop text cfg (events ++ rest) end w ≡ loop text cfg rest end v
  unfolding running loop
  loop-running [] rest end w v h = ap (loop text cfg rest end) (some-injective w v h)
  loop-running (event ∷ events) rest end w v h =
      after (step text cfg event w) h (λ u. loop-running events rest end u v)
    where
      finished : Writer × Option WriteError → Finished
      finished (u, none) = loop text cfg (events ++ rest) end u
      finished (u, some x) = finish text cfg end (some x) u

      after :
          (r : Writer × Option WriteError)
          → next (running events) r ≡ some v
          → ((u : Writer)
              → running events u ≡ some v
              → loop text cfg (events ++ rest) end u ≡ loop text cfg rest end v)
          → finished r ≡ loop text cfg rest end v
      after (u, none) h k = k u h
      after (u, some x) h k = absurd cc

  -- The log is open, and its files are the records in order.
  abbrev pub Runs : (0 < pos_part cfg.record_bytes) → Writer → Type 0
  Runs positive w = RunTracks text cfg positive w × (w.is_open ≡ true)

  module _ (positive : 0 < pos_part cfg.record_bytes) where
    pub running-Runs :
        (events : List Event) (w v : Writer)
        → running events w ≡ some v
        → Runs positive w
        → Runs positive v
    unfolding running
    running-Runs [] w v h r = subst (Runs positive) (some-injective w v h) r
    running-Runs (event ∷ events) w v h (tracks, opens) =
        after (step text cfg event w) h (step-Tracks text cfg positive event w tracks)
          (step-is_open event w) (λ u. running-Runs events u v)
      where
        after :
            (r : Writer × Option WriteError)
            → next (running events) r ≡ some v
            → (r.1 ≡ none → RunTracks text cfg positive (r.0))
            → (r.1 ≡ none → r.0.is_open ≡ w.is_open)
            → ((u : Writer) → running events u ≡ some v → Runs positive u → Runs positive v)
            → Runs positive v
        after (u, none) h t o k = k u h (t refl, o refl ∙ opens)
        after (u, some e) h t o k = absurd cc

pub flush_unchanged :
    (size : ℕ) (answers : List WriteAnswer) (w : Writer)
    → ((flush size answers w).0.state.generated ≡ w.state.generated)
      × ((flush size answers w).0.closed ≡ w.closed)
unfolding flush after_write
flush_unchanged size answers w = elim (Bool-cases (length w.buffer == 0)) [
  | inl e ↦ rw e (refl, refl)
  | inr e ↦ rw e (after (write_file w.is_open answers w.buffer))
]
  where
    after :
        (r : Bytes × Option WriteError)
        → ((after_write size w r).0.state.generated ≡ w.state.generated)
          × ((after_write size w r).0.closed ≡ w.closed)
    after (bytes, none) = (refl, refl)
    after (bytes, some e) = (refl, refl)
