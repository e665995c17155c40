-- ===== src/Strconv/Parse.antt =====
-- What `ParseUint` accepts and returns.
use logrotate_cache_lab.Base.{
  ℕ, ◌+◌, ◌-◌, ◌*◌, ◌≤◌, ◌≡◌, ◌≢◌, refl, true, [], ◌∷◌, ◌++◌, Bytes, All, arith,
}
use logrotate_cache_lab.Strconv.{max_uint64, is_digit, valid, scan, parse_uint}

abbrev pub IsDigits : Bytes → Type 0
IsDigits = All (λ c. is_digit c ≡ true)

-- The number that digits spell behind `n`, with no bound.
abbrev pub spelled : ℕ → Bytes → ℕ
spelled n [] = n
spelled n (c ∷ s) = spelled (n * 10 + (c - b'0')) s

pub spelled-append : (s t : Bytes) (n : ℕ) → spelled n (s ++ t) ≡ spelled (spelled n s) t
spelled-append [] t n = refl
spelled-append (c ∷ s) t n = spelled-append s t (n * 10 + (c - b'0'))

le-spelled : (s : Bytes) (n : ℕ) → n ≤ spelled n s
le-spelled [] n = omega arith
le-spelled (c ∷ s) n = omega (arith, le-spelled s (n * 10 + (c - b'0')))

scan-spelled :
    (s : Bytes) (n : ℕ) → IsDigits s → spelled n s ≤ max_uint64 → scan s n ≡ valid (spelled n s)
unfolding scan
scan-spelled [] n h fits = refl
scan-spelled (c ∷ s) n (hc, h) fits =
    let m = n * 10 + (c - b'0') in ground (arith, scan-spelled s m h fits, le-spelled s m)

-- One or more digits whose value fits are accepted, with that value.
pub parse_uint-spelled :
    (s : Bytes)
    → s ≢ []
    → IsDigits s
    → spelled 0 s ≤ max_uint64
    → parse_uint s ≡ valid (spelled 0 s)
unfolding parse_uint
parse_uint-spelled [] h _ _ = absurd (h refl)
parse_uint-spelled (c ∷ s) _ h fits = scan-spelled (c ∷ s) 0 h fits

scan_sound :
    (s : Bytes) (n : ℕ) {r : ℕ}
    → n ≤ max_uint64
    → scan s n ≡ valid r
    → IsDigits s × (r ≡ spelled n s) × (r ≤ max_uint64)
unfolding scan
scan_sound [] n fits h = ground arith
scan_sound (c ∷ s) n {r} fits h = ground (arith, scan_sound s (n * 10 + (c - b'0')) {r = r})

-- What is accepted is one or more digits, and the result is their value, which fits.
pub parse_uint_sound :
    (s : Bytes) {r : ℕ}
    → parse_uint s ≡ valid r
    → (s ≢ []) × IsDigits s × (r ≡ spelled 0 s) × (r ≤ max_uint64)
unfolding parse_uint
parse_uint_sound [] h = cc
parse_uint_sound (c ∷ s) h =
    let (all, exact, fits) = scan_sound (c ∷ s) 0 (omega arith) h in (λ e. cc, all, exact, fits)
