-- ===== src/Writer/Credit.antt =====
-- The loop over the credit of internal/writer/writer.go ends by its own test.
use logrotate_cache_lab.Base.{
  ℕ, zero, suc, ◌≤◌, ◌<◌, ◌≡◌, refl, true, false, ◌⊎◌, inl, inr, Bool-cases, Option, some, Bytes,
  Result, ok, err, arith,
}
use logrotate_cache_lab.Base.Int.{ℤ, pos, pos_part, leb_ℤ, ◌-ℤ◌}
use logrotate_cache_lab.Record.{RecordError, encode}
use logrotate_cache_lab.Writer.{
  Writer, WriteError, encode_failed, count_record, add_record, round, generate,
}

spent :
    (size : ℕ) (credit : ℤ)
    → 0 < size
    → leb_ℤ (pos size) credit ≡ true
    → pos_part (credit -ℤ pos size) < pos_part credit
unfolding ◌-ℤ◌
spent size credit h e = ground arith

no_credit :
    (size : ℕ) (credit : ℤ) → 0 < size → pos_part credit ≤ 0 → leb_ℤ (pos size) credit ≡ false
no_credit size credit h e = ground arith

module _ (run_id : Bytes) (size : ℕ) (positive : 0 < size) where
  abbrev Ends : Writer × Option WriteError → Type 0
  Ends (w, e) =
      (leb_ℤ (pos size) w.credit ≡ false) ⊎ ((x : RecordError) × (e ≡ some (encode_failed x)))

  generate-Ends :
      (fuel : ℕ) (w : Writer) → pos_part w.credit ≤ fuel → Ends (generate run_id size fuel w)
  unfolding generate
  generate-Ends zero w low = inl (no_credit size w.credit positive low)
  generate-Ends (suc fuel) w low = elim (Bool-cases (leb_ℤ (pos size) w.credit)) [
    | inr e ↦ rw e (inl e)
    | inl e ↦ rw e (
        after (encode run_id (count_record w).state.generated size) (λ bytes.
          let less = spent size w.credit positive e in
          generate-Ends fuel (add_record size bytes (count_record w)) (omega arith)))
  ]
    where
      after :
          (r : Result RecordError Bytes)
          → ((bytes : Bytes)
              → Ends (generate run_id size fuel (add_record size bytes (count_record w))))
          → Ends (round run_id size (generate run_id size fuel) w r)
      after (ok bytes) k = k bytes
      after (err x) k = inr (x, refl)

  -- The loop over the credit, with the credit itself for fuel, ends because less than a record is left
  -- of it, or with the error of a record that cannot be encoded, if the record size is positive.
  pub generate_ends :
      (w : Writer)
      → let (v, e) = generate run_id size (pos_part w.credit) w in
        (leb_ℤ (pos size) v.credit ≡ false) ⊎ ((x : RecordError) × (e ≡ some (encode_failed x)))
  generate_ends w = generate-Ends (pos_part w.credit) w (omega arith)
