-- ===== src/Strconv/Range.antt =====
-- What `ParseUint` reads is a value of `uint64`.
use logrotate_cache_lab.Base.{
  ℕ, ◌+◌, ◌-◌, ◌*◌, ◌≤◌, Bool-cases, inl, inr, [], ◌∷◌, Bytes, ltb, arith,
}
use logrotate_cache_lab.Strconv.{
  Parsed, valid, syntax_error, range_error, max_uint64, is_digit, scan, parse_uint,
}

abbrev pub Bounded : Parsed ℕ → Type 0
Bounded (valid n) = n ≤ max_uint64
Bounded syntax_error = Unit
Bounded (range_error n) = n ≤ max_uint64

scan-Bounded : (s : Bytes) (n : ℕ) → n ≤ max_uint64 → Bounded (scan s n)
unfolding scan
scan-Bounded [] n h = h
scan-Bounded (c ∷ s) n h = elim (Bool-cases (is_digit c)) [
  | inr e ↦ rw e tt
  | inl e ↦ elim (Bool-cases (ltb max_uint64 (n * 10 + (c - b'0')))) [
    | inl large ↦ rw (e, large) (omega arith)
    | inr small ↦ rw (e, small) (scan-Bounded s _ (ground arith))
  ]
]

pub parse_uint-Bounded : (s : Bytes) → Bounded (parse_uint s)
unfolding parse_uint
parse_uint-Bounded [] = tt
parse_uint-Bounded (c ∷ s) = scan-Bounded (c ∷ s) 0 (omega arith)
