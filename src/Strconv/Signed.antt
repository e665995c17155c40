-- ===== src/Strconv/Signed.antt =====
-- `FormatInt` and `ParseInt`.
use logrotate_cache_lab.Base.{ℕ, suc, ◌≤◌, ◌≡◌, ◌≢◌, refl, [], ◌∷◌, Bytes, arith}
use logrotate_cache_lab.Base.Int.{ℤ, pos, negsuc, IsInt64}
use logrotate_cache_lab.Strconv.{
  max_int64, valid, parse_uint, parse_int, positive, negative, format_int,
}
use logrotate_cache_lab.Strconv.Parse.{IsDigits}
use logrotate_cache_lab.Strconv.Format.{
  format_uint-IsDigits, format_uint-ne-nil, parse_uint-format_uint,
}

-- Digits are read with no sign.
pub parse_int-digits : (s : Bytes) → s ≢ [] → IsDigits s → parse_int s ≡ positive (parse_uint s)
unfolding parse_int
parse_int-digits [] h _ = absurd (h refl)
parse_int-digits (c ∷ s) _ (hc, _) = ground arith

positive_in_range : (n : ℕ) → n ≤ max_int64 → positive (valid n) ≡ valid (pos n)
unfolding positive
positive_in_range n h = ground arith

negative_in_range : (n : ℕ) → n ≤ max_int64 → negative (valid (suc n)) ≡ valid (negsuc n)
unfolding negative
negative_in_range n h = ground arith

parse_int_minus : (s : Bytes) → parse_int (b'-' ∷ s) ≡ negative (parse_uint s)
unfolding parse_int
parse_int_minus s = refl

-- The print of an int64 is read back, the least one included.
pub parse_int-format_int : (z : ℤ) → IsInt64 z → parse_int (format_int z) ≡ valid z
unfolding format_int
parse_int-format_int (pos n) (h, _) =
    rw
      (
        parse_int-digits _ (format_uint-ne-nil n) (format_uint-IsDigits n),
        parse_uint-format_uint n (omega arith),
      )
      (positive_in_range n (omega arith))
parse_int-format_int (negsuc n) (_, h) =
    rw (parse_int_minus, parse_uint-format_uint (suc n) (omega arith))
      (negative_in_range n (omega arith))
