-- ===== src/Writer/Complete.antt =====
-- A run of the writer that ends without an error has written all that it generated.
use mathlib.Core.List.{map-append}
use logrotate_cache_lab.Base.{
  ℕ, ◌+◌, ◌*◌, ◌%◌, ◌^◌, ◌<◌, ◌≡◌, refl, sym, ap, subst, ◌∙◌, inl, inr, Bool, true, false,
  Bool-cases, Option, none, some, List, [], ◌∷◌, ◌++◌, append-nil, map, Bytes, ◌==◌, ==_iff, length,
  arith,
}
use logrotate_cache_lab.Base.Int.{pos_part}
use logrotate_cache_lab.Integrity.Intact.{log_of}
use logrotate_cache_lab.Writer.{
  Config, Writer, WriteError, serve_failed, WriteAnswer, fresh, flush, after_write, write_file,
}
use logrotate_cache_lab.Writer.Stream.{flush-Tracks, numbers, all_of, all_of-append}
use logrotate_cache_lab.Writer.Loop.{
  Event, Ending, Finished, or_else, failing, close_error, size, save, finish, step, loop, run,
}
use logrotate_cache_lab.Writer.Steps.{same-Tracks, fresh-Tracks, step-Tracks, RunTracks}

zero_of_mul : (n m : ℕ) → 0 < m → n * m ≡ 0 → n ≡ 0
zero_of_mul n m h e = grind arith

nil_of_length {ℓ} : {A : Type ℓ} (xs : List A) → length xs ≡ 0 → xs ≡ []
nil_of_length [] e = refl
nil_of_length (x ∷ xs) e = absurd (omega arith)

module _ (size : ℕ) where
  pub flush-empties :
      (answers : List WriteAnswer) (w : Writer)
      → (flush size answers w).1 ≡ none
      → length (flush size answers w).0.buffer ≡ 0
  unfolding flush after_write
  flush-empties answers w = elim (Bool-cases (length w.buffer == 0)) [
    | inl e ↦ rw e (λ h. (==_iff _ 0).0 e)
    | inr e ↦ rw e (after (write_file w.is_open answers w.buffer))
  ]
    where
      after :
          (r : Bytes × Option WriteError)
          → (after_write size w r).1 ≡ none
          → length (after_write size w r).0.buffer ≡ 0
      after (bytes, none) h = refl
      after (bytes, some e) h = cc

module _ (text : WriteError → Bytes) (cfg : Config) (positive : 0 < pos_part cfg.record_bytes) where
  -- `Written = Generated`, and all the records stand in the files, in order and whole.
  pub record WroteAll (w : Writer) : Type 0 where
    pub total : ℕ
    pub files : List (List ℕ)
    pub logs :
        w.closed ++ w.current ∷ [] ≡ map (log_of cfg.run_id (pos_part cfg.record_bytes)) files
    pub order : all_of files ≡ numbers total
    pub counts_generated : w.state.generated ≡ total % 2 ^ 64
    pub counts_written : w.state.written ≡ w.state.generated

  pub flushed-WroteAll :
      (w : Writer) → RunTracks text cfg positive w → length w.buffer ≡ 0 → WroteAll w
  flushed-WroteAll w t empty =
      let none_left : t.buffered ≡ 0 = zero_of_mul _ _ positive (sym t.length_buffer ∙ empty) in
      let nothing_held : t.held ≡ [] = nil_of_length _ (t.length_held ∙ none_left) in
      let same : t.flushed + t.buffered ≡ t.flushed = omega arith in
      record {
        total = t.flushed;
        files = t.files ++ t.here ∷ [];
        logs = rw (map-append, t.closed_logs, t.current_log) refl;
        order =
            all_of-append t.files (t.here ∷ [])
            ∙ ap (λ xs. all_of t.files ++ xs) (append-nil t.here)
            ∙ sym (append-nil _)
            ∙ ap (λ xs. (all_of t.files ++ t.here) ++ xs) (sym nothing_held)
            ∙ t.order
            ∙ ap numbers same;
        counts_generated = rw t.counts_generated (omega arith);
        counts_written = rw (t.counts_generated, t.counts_written) (omega arith);
      }

  or_else-left : (a b : Option WriteError) → or_else a b ≡ none → a ≡ none
  or_else-left none b h = refl
  or_else-left (some x) b h = cc

  save-error :
      (end : Ending) (e : Option WriteError) (w : Writer)
      → (save text cfg end e w).error ≡ none
      → e ≡ none
  unfolding save
  save-error end e w = elim (Bool-cases (length cfg.state_path == 0)) [
    | inl p ↦ rw p (λ h. h)
    | inr p ↦ rw p (λ h. or_else-left e _ h)
  ]

  save-writer : (end : Ending) (w : Writer) → (save text cfg end none w).writer ≡ w
  unfolding save
  save-writer end w = elim (Bool-cases (length cfg.state_path == 0)) [
    | inl p ↦ rw p refl
    | inr p ↦ rw p refl
  ]

  finish-WroteAll :
      (end : Ending) (w : Writer)
      → RunTracks text cfg positive w
      → (finish text cfg end none w).error ≡ none
      → WroteAll ((finish text cfg end none w).writer)
  unfolding finish
  finish-WroteAll end w t =
      after (flush (size text cfg) end.answers w)
        (flush-Tracks cfg.run_id _ positive end.answers w t) (flush-empties _ end.answers w)
    where
      problems : Writer × Option WriteError → Option WriteError
      problems (v, f) =
          or_else (or_else (or_else none f) (close_error text cfg end v))
            (failing end.serve_fails serve_failed)

      after :
          (r : Writer × Option WriteError)
          → (r.1 ≡ none → RunTracks text cfg positive (r.0))
          → (r.1 ≡ none → length (r.0.buffer) ≡ 0)
          → (save text cfg end (problems r) (record (r.0) { is_open = false })).error ≡ none
          → WroteAll ((save text cfg end (problems r) (record (r.0) { is_open = false })).writer)
      after (v, some e) k l h = absurd (cc (save-error end (some e) _ h))
      after (v, none) k l h =
          let w' = record v { is_open = false } in
          let fine = save-error end _ w' h in
          subst (λ e. WroteAll ((save text cfg end e w').writer)) (sym fine)
            (rw (save-writer end w') (
              flushed-WroteAll w'
                (same-Tracks cfg.run_id _ positive v w' refl refl refl refl refl (k refl))
                (l refl)))

  pub finish-failed :
      (end : Ending) (e : WriteError) (w : Writer)
      → ¬ ((finish text cfg end (some e) w).error ≡ none)
  unfolding finish
  finish-failed end e w h = absurd (cc (save-error end (some e) _ h))

  loop-WroteAll :
      (events : List Event) (end : Ending) (w : Writer)
      → RunTracks text cfg positive w
      → (loop text cfg events end w).error ≡ none
      → WroteAll ((loop text cfg events end w).writer)
  unfolding loop
  loop-WroteAll [] end w t = finish-WroteAll end w t
  loop-WroteAll (event ∷ events) end w t =
      after (step text cfg event w) (step-Tracks text cfg positive event w t)
        (loop-WroteAll events end)
    where
      after :
          (r : Writer × Option WriteError)
          → (r.1 ≡ none → RunTracks text cfg positive (r.0))
          → ((v : Writer)
              → RunTracks text cfg positive v
              → (loop text cfg events end v).error ≡ none
              → WroteAll ((loop text cfg events end v).writer))
          → (elim r.1 as (λ x. Finished) [
            | none ↦ loop text cfg events end (r.0)
            | some x ↦ finish text cfg end (some x) (r.0)
          ]).error
            ≡ none
          → WroteAll (
              (elim r.1 as (λ x. Finished) [
                | none ↦ loop text cfg events end (r.0)
                | some x ↦ finish text cfg end (some x) (r.0)
              ]).writer)
      after (v, none) k rest = rest v (k refl)
      after (v, some x) k rest = λ h. absurd (finish-failed end x v h)

  -- A run of the writer that ends without an error, whatever ticks and requests came in whatever
  -- order, has written every record it generated: the state counts as many written as generated, and
  -- the files hold the records numbered from 1, in order, each once and whole, if the record size is
  -- positive.
  pub run-WroteAll :
      (starts : Bool) (events : List Event) (end : Ending)
      → (run text cfg starts events end).error ≡ none
      → WroteAll ((run text cfg starts events end).writer)
  unfolding run
  run-WroteAll true events end h = loop-WroteAll events end fresh (fresh-Tracks _ _) h
  run-WroteAll false events end h = cc
