-- ===== src/Strconv/Format.antt =====
-- What `FormatUint` and `%0wd` print, and that `ParseUint` reads it back.
use mathlib.Core.List.{concat-ne-nil, append-eq-nil_iff}
use native.Mathlib.Decide.{dec_lt}
use native.Mathlib.Nat.{pow-suc}
use logrotate_cache_lab.Base.{
  ap, ℕ, zero, suc, ◌+◌, ◌/◌, ◌%◌, ◌^◌, ◌≤◌, ◌<◌, ◌≡◌, ◌≢◌, refl, ◌∙◌, sym, [], ◌∷◌, ◌++◌,
  All-append, All-replicate, arith, length, replicate, length-append, length-replicate,
}
use logrotate_cache_lab.Strconv.{max_uint64, valid, digits, format_uint, zero_pad, parse_uint}
use logrotate_cache_lab.Strconv.Parse.{IsDigits, spelled, spelled-append, parse_uint-spelled}

digits_small : (fuel n : ℕ) → n < 10 → digits (suc fuel) n ≡ (b'0' + n) ∷ []
unfolding digits
digits_small fuel n h = ground arith

digits_large :
    (fuel n : ℕ) → 10 ≤ n → digits (suc fuel) n ≡ digits fuel (n / 10) ++ (b'0' + n % 10) ∷ []
unfolding digits
digits_large fuel n h = ground arith

digits-IsDigits : (fuel n : ℕ) → IsDigits (digits fuel n)
digits-IsDigits zero n = unfold digits in tt
digits-IsDigits (suc fuel) n = elim (dec_lt n 10) [
  | yes Small ↦ rw (digits_small fuel n Small) (ground arith)
  | no large ↦
      rw (digits_large fuel n (omega arith))
        (All-append _ _ _ (digits-IsDigits fuel (n / 10)) (ground arith))
]

spelled-digits : (fuel n : ℕ) → n < fuel → spelled 0 (digits fuel n) ≡ n
spelled-digits zero n h = absurd (omega arith)
spelled-digits (suc fuel) n h = elim (dec_lt n 10) [
  | yes Small ↦ rw (digits_small fuel n Small) (omega arith)
  | no large ↦
      rw (digits_large fuel n (omega arith), spelled-append)
        (rw (spelled-digits fuel (n / 10) (omega arith)) (omega arith))
]

digits-ne-nil : (fuel n : ℕ) → digits (suc fuel) n ≢ []
digits-ne-nil fuel n e = elim (dec_lt n 10) [
  | yes Small ↦ cc (digits_small fuel n Small)
  | no large ↦ concat-ne-nil _ _ (sym (digits_large fuel n (omega arith)) ∙ e)
]

-- A number below a power of ten has no more digits than the exponent.
length-digits : (k fuel n : ℕ) → n < 10 ^ suc k → n < fuel → length (digits fuel n) ≤ suc k
length-digits k zero n Small h = absurd (omega arith)
length-digits zero (suc fuel) n Small h = rw (digits_small fuel n Small) (omega arith)
length-digits (suc k) (suc fuel) n Small h = elim (dec_lt n 10) [
  | yes digit ↦ rw (digits_small fuel n digit) (omega arith)
  | no large ↦
      let below : n / 10 < 10 ^ suc k = omega (arith, pow-suc 10 (suc k)) in
      rw (digits_large fuel n (omega arith), length-append)
        (omega (arith, length-digits k fuel (n / 10) below (omega arith)))
]

module _ (n : ℕ) where
  pub format_uint-IsDigits : IsDigits (format_uint n)
  unfolding format_uint
  format_uint-IsDigits = digits-IsDigits (suc n) n

  pub format_uint-ne-nil : format_uint n ≢ []
  unfolding format_uint
  format_uint-ne-nil = digits-ne-nil n n

  pub spelled-format_uint : spelled 0 (format_uint n) ≡ n
  unfolding format_uint
  spelled-format_uint = spelled-digits (suc n) n (omega arith)

  -- The print of a uint64 is read back.
  pub parse_uint-format_uint : n ≤ max_uint64 → parse_uint (format_uint n) ≡ valid n
  parse_uint-format_uint h =
      parse_uint-spelled (format_uint n) format_uint-ne-nil format_uint-IsDigits
        (rw spelled-format_uint h)
      ∙ ap valid spelled-format_uint

spelled-zeros : (k : ℕ) → spelled 0 (replicate k b'0') ≡ 0
spelled-zeros zero = refl
spelled-zeros (suc k) = spelled-zeros k

module _ (width n : ℕ) where
  pub zero_pad-IsDigits : IsDigits (zero_pad width n)
  unfolding zero_pad
  zero_pad-IsDigits = All-append _ _ _ (All-replicate _ _ b'0' refl) (format_uint-IsDigits n)

  pub spelled-zero_pad : spelled 0 (zero_pad width n) ≡ n
  unfolding zero_pad
  spelled-zero_pad = rw (spelled-append, spelled-zeros) (spelled-format_uint n)

  pub zero_pad-ne-nil : zero_pad width n ≢ []
  unfolding zero_pad
  zero_pad-ne-nil e = format_uint-ne-nil n (append-eq-nil_iff.0 e).1

  -- Padding does not change what is read back.
  pub parse_uint-zero_pad : n ≤ max_uint64 → parse_uint (zero_pad width n) ≡ valid n
  parse_uint-zero_pad h =
      parse_uint-spelled (zero_pad width n) zero_pad-ne-nil zero_pad-IsDigits
        (rw spelled-zero_pad h)
      ∙ ap valid spelled-zero_pad

-- A number below a power of ten fills a field of that width exactly.
pub length-zero_pad : (k n : ℕ) → n < 10 ^ suc k → length (zero_pad (suc k) n) ≡ suc k
unfolding zero_pad format_uint
length-zero_pad k n h =
    rw (length-append, length-replicate) (omega (arith, length-digits k (suc n) n h (omega arith)))
