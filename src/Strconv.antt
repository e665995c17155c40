-- ===== src/Strconv.antt =====
-- What the code uses of Go's `strconv` and of the verbs `%d`, `%06d` and `%020d` of `fmt`: decimal
-- print and parse of `uint64`, `int64` and `int` (64 bits). The proofs are in the children.
pub mod Parse
pub mod Format
pub mod Signed
pub mod Range
use logrotate_cache_lab.Base.{
  ℕ, zero, suc, ◌+◌, ◌-◌, ◌*◌, ◌/◌, ◌%◌, ◌^◌, ◌≡◌, refl, Bool, true, false, ◌&&◌, Option, none,
  some, [], ◌∷◌, ◌++◌, Bytes, codes, ltb, leb, ◌==◌, if◌then◌else◌, length, replicate,
}
use logrotate_cache_lab.Base.Int.{ℤ, pos, negsuc, sub_ℕ}

abbrev pub max_uint64 : ℕ
max_uint64 = 2 ^ 64 - 1

abbrev pub max_int64 : ℕ
max_int64 = 2 ^ 63 - 1

abbrev pub is_digit : ℕ → Bool
is_digit c = leb b'0' c && leb c b'9'

-- The digits of `n`, most significant first, `fuel` of them at most.
digits : ℕ → ℕ → Bytes
digits zero n = []
digits (suc fuel) n = elim (ltb n 10) [
  | true ↦ (b'0' + n) ∷ []
  | false ↦ digits fuel (n / 10) ++ (b'0' + n % 10) ∷ []
]

-- `FormatUint(n, 10)`
unfoldable pub format_uint : ℕ → Bytes
unfolding digits
format_uint n = digits (suc n) n

-- `FormatInt(z, 10)` and `Itoa(z)`
unfoldable pub format_int : ℤ → Bytes
unfolding format_uint
format_int (pos n) = format_uint n
format_int (negsuc n) = b'-' ∷ format_uint (suc n)

-- `%0wd` of a number that is not negative: zeros in front, up to the width.
unfoldable pub zero_pad : ℕ → ℕ → Bytes
unfolding format_uint
zero_pad width n = let s = format_uint n in replicate (width - length s) b'0' ++ s

-- A number, or one of the two errors of `NumError`; the range error comes with the nearest value
-- that is in range, which Go returns beside it.
pub data Parsed {ℓ} (A : Type ℓ) : Type ℓ where
  valid : A → Parsed A
  syntax_error : Parsed A
  range_error : A → Parsed A

-- The loop of `ParseUint`: a digit that does not fit ends it with the range error.
scan : Bytes → ℕ → Parsed ℕ
scan [] n = valid n
scan (c ∷ s) n =
    let m = n * 10 + (c - b'0') in
    let rest = scan s m in
    if is_digit c then if ltb max_uint64 m then range_error max_uint64 else rest else syntax_error

-- `ParseUint(s, 10, 64)`
unfoldable pub parse_uint : Bytes → Parsed ℕ
unfolding scan
parse_uint [] = syntax_error
parse_uint (c ∷ s) = scan (c ∷ s) 0

-- The limits of `ParseInt` are tested after the magnitude was read.
pub positive : Parsed ℕ → Parsed ℤ
positive (valid n) = if ltb max_int64 n then range_error (pos max_int64) else valid (pos n)
positive syntax_error = syntax_error
positive (range_error n) = range_error (pos max_int64)

negative : Parsed ℕ → Parsed ℤ
negative (valid n) =
    if ltb (suc max_int64) n then range_error (negsuc max_int64) else valid (sub_ℕ 0 n)
negative syntax_error = syntax_error
negative (range_error n) = range_error (negsuc max_int64)

-- `ParseInt(s, 10, 64)` and `Atoi(s)`: one sign may stand in front.
unfoldable pub parse_int : Bytes → Parsed ℤ
unfolding parse_uint positive negative
parse_int [] = syntax_error
parse_int (c ∷ s) =
    if c == b'-'
    then negative (parse_uint s)
    else if c == b'+'
    then positive (parse_uint s)
    else positive (parse_uint (c ∷ s))

-- `v, _ := Parse...(...)`: the value when the error is dropped.
abbrev pub value_or {ℓ} : {A : Type ℓ} → A → Parsed A → A
value_or zero_value (valid a) = a
value_or zero_value syntax_error = zero_value
value_or zero_value (range_error a) = a

-- `v, err := Parse...(...)` where the value is read only if `err == nil`.
abbrev pub parsed? {ℓ} : {A : Type ℓ} → Parsed A → Option A
parsed? (valid a) = some a
parsed? syntax_error = none
parsed? (range_error a) = none
