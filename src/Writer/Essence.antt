-- ===== src/Writer/Essence.antt =====
-- What writing and generating in internal/writer/writer.go leave as they are: the channel, whether the file
-- is open, and the counters of reopens.
use logrotate_cache_lab.Base.{
  ℕ, zero, suc, ◌≡◌, refl, ◌∙◌, inl, inr, Bool, Bool-cases, Option, none, some, List, Bytes, ◌==◌,
  leb, length, if◌then◌else◌, Result, ok, err,
}
use logrotate_cache_lab.Base.Int.{pos, pos_part, leb_ℤ}
use logrotate_cache_lab.Record.{RecordError, encode}
use logrotate_cache_lab.Writer.{
  Writer, WriteError, WriteAnswer, write_file, after_write, flush, add_credit, count_record,
  add_record, round, generate, generate_tick, and_then,
}

abbrev pub essence : Writer → Bool × Bool × ℕ × ℕ
essence w = (w.queued, w.is_open, w.state.reopen_requests, w.state.reopen_failures)

after_write-essence :
    (size : ℕ) (w : Writer) (r : Bytes × Option WriteError)
    → essence ((after_write size w r).0) ≡ essence w
unfolding after_write
after_write-essence size w (bytes, none) = refl
after_write-essence size w (bytes, some e) = refl

pub flush-essence :
    (size : ℕ) (answers : List WriteAnswer) (w : Writer)
    → essence ((flush size answers w).0) ≡ essence w
unfolding flush
flush-essence size answers w = elim (Bool-cases (length w.buffer == 0)) [
  | inl e ↦ rw e refl
  | inr e ↦ rw e (after_write-essence size w (write_file w.is_open answers w.buffer))
]

module _ (run_id : Bytes) (size : ℕ) where
  generate-essence : (fuel : ℕ) (w : Writer) → essence ((generate run_id size fuel w).0) ≡ essence w
  unfolding generate
  generate-essence zero w = refl
  generate-essence (suc fuel) w = elim (Bool-cases (leb_ℤ (pos size) w.credit)) [
    | inr e ↦ rw e refl
    | inl e ↦ rw e (
        after (encode run_id (count_record w).state.generated size)
          (λ bytes. generate-essence fuel (add_record size bytes (count_record w))))
  ]
    where
      after :
          (r : Result RecordError Bytes)
          → ((bytes : Bytes)
              → essence ((generate run_id size fuel (add_record size bytes (count_record w))).0)
                ≡ essence w)
          → essence ((round run_id size (generate run_id size fuel) w r).0) ≡ essence w
      after (ok bytes) k = k bytes
      after (err x) k = refl

  pub generate_tick-essence :
      (limit rate elapsed : ℕ) (answers : List WriteAnswer) (w : Writer)
      → essence ((generate_tick run_id size limit rate elapsed answers w).0) ≡ essence w
  unfolding generate_tick add_credit
  generate_tick-essence limit rate elapsed answers w =
      let v = add_credit rate elapsed w in
      after (generate run_id size (pos_part v.credit) v) (generate-essence (pos_part v.credit) v)
    where
      finally : Writer → Writer × Option WriteError
      finally v = if leb limit (length v.buffer) then flush size answers v else (v, none)

      after :
          (r : Writer × Option WriteError)
          → essence (r.0) ≡ essence w
          → essence ((and_then r finally).0) ≡ essence w
      after (v, some e) k = k
      after (v, none) k = elim (Bool-cases (leb limit (length v.buffer))) [
        | inl e ↦ rw e (flush-essence size answers v ∙ k)
        | inr e ↦ rw e k
      ]
