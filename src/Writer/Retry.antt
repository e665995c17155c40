-- ===== src/Writer/Retry.antt =====
-- A flush that fails in the loop of internal/writer/writer.go is tried once more by `finish`.
use logrotate_cache_lab.Base.{
  ℕ, ◌+◌, ◌/◌, ◌%◌, ◌^◌, ◌≡◌, refl, ap, ◌∙◌, true, false, Option, none, some, List, [], ◌∷◌, ◌++◌,
  Bytes, ◌==◌, length, inl, inr, Bool-cases,
}
use logrotate_cache_lab.Writer.{
  Config, Writer, WriteError, WriteAnswer, write_all, write_file, after_write, flush,
}
use logrotate_cache_lab.Writer.Loop.{
  Event, flushed, Ending, size, note_error, save, finish, Finished, step, loop,
}

whole_write : (bytes : Bytes) → write_all [] bytes ≡ (bytes, none)
unfolding write_all
whole_write [] = refl
whole_write (c ∷ s) = refl

module _ (size : ℕ) (answers : List WriteAnswer) (w : Writer) (is_open : w.is_open ≡ true)
    (full : (length w.buffer == 0) ≡ false) where
  flush-writes : flush size answers w ≡ after_write size w (write_all answers w.buffer)
  unfolding flush
  flush-writes =
      let now : flush size answers w ≡ after_write size w (write_file w.is_open answers w.buffer) =
        rw full refl in
      now ∙ ap (λ o. after_write size w (write_file o answers w.buffer)) is_open

  flush-failed :
      (e : WriteError)
      → (write_all answers w.buffer).1 ≡ some e
      → flush size answers w
        ≡ (record w { current = w.current ++ (write_all answers w.buffer).0 }, some e)
  flush-failed e h = flush-writes ∙ after (write_all answers w.buffer) h
    where
      after :
          (r : Bytes × Option WriteError)
          → r.1 ≡ some e
          → after_write size w r ≡ (record w { current = w.current ++ r.0 }, some e)
      after (bytes, none) h = cc
      after (bytes, some x) h =
          unfold after_write in ap (λ o. (record w { current = w.current ++ bytes }, o)) h

module _ (text : WriteError → Bytes) (cfg : Config) where
  save-keeps :
      (end : Ending) (e : Option WriteError) (w : Writer)
      → ((save text cfg end e w).writer.current ≡ w.current)
        × ((save text cfg end e w).writer.state.written ≡ w.state.written)
  unfolding save
  save-keeps end e w = elim (Bool-cases (length cfg.state_path == 0)) [
    | inl p ↦ rw p (kept e)
    | inr p ↦ rw p (kept e)
  ]
    where
      kept :
          (e : Option WriteError)
          → (w.current ≡ w.current) × ((note_error text e w.state).written ≡ w.state.written)
      kept none = (refl, refl)
      kept (some x) = (refl, refl)

  finish-keeps :
      (end : Ending) (e : Option WriteError) (w : Writer)
      → ((finish text cfg end e w).writer.current ≡ (flush (size text cfg) end.answers w).0.current)
        × ((finish text cfg end e w).writer.state.written
            ≡ (flush (size text cfg) end.answers w).0.state.written)
  unfolding finish
  finish-keeps end e w =
      save-keeps end _ (record ((flush (size text cfg) end.answers w).0) { is_open = false })

  -- Where a flush of the loop fails after some bytes reached the file, and the writes of `finish` then
  -- succeed, the whole buffer follows those bytes in the file: they are there twice. Its records are
  -- counted as written once.
  pub loop-flush_twice :
      (answers : List WriteAnswer) (events : List Event) (end : Ending) (w : Writer)
      (e : WriteError)
      → w.is_open ≡ true
      → (length w.buffer == 0) ≡ false
      → (write_all answers w.buffer).1 ≡ some e
      → end.answers ≡ []
      → let f = loop text cfg (flushed answers ∷ events) end w in
        (f.writer.current ≡ (w.current ++ (write_all answers w.buffer).0) ++ w.buffer)
        × (f.writer.state.written ≡ (w.state.written + length w.buffer / size text cfg) % 2 ^ 64)
  unfolding loop step finish after_write
  loop-flush_twice answers events end w e is_open full failed quiet =
      let p = (write_all answers w.buffer).0 in
      let torn = record w { current = w.current ++ p } in
      let first : loop text cfg (flushed answers ∷ events) end w
          ≡ finish text cfg end (some e) torn =
        ap
          (λ r. elim r.1 as (λ x. Finished) [
            | none ↦ loop text cfg events end (r.0)
            | some x ↦ finish text cfg end (some x) (r.0)
          ])
          (flush-failed (size text cfg) answers w is_open full e failed) in
      let again =
        flush-writes (size text cfg) [] torn is_open full
        ∙ ap (after_write (size text cfg) torn) (whole_write w.buffer) in
      let second = ap (λ a. flush (size text cfg) a torn) quiet ∙ again in
      let (here, counted) = finish-keeps end (some e) torn in
      (
        ap (λ (f : Finished). f.writer.current) first
            ∙ here
            ∙ ap (λ (r : Writer × Option WriteError). r.0.current) second,
        ap (λ (f : Finished). f.writer.state.written) first
            ∙ counted
            ∙ ap (λ (r : Writer × Option WriteError). r.0.state.written) second,
      )
