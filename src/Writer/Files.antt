-- ===== src/Writer/Files.antt =====
-- What the writer of internal/writer/writer.go left in its files, for the audit of
-- internal/integrity/analyze.go.
use logrotate_cache_lab.Base.{
  ℕ, zero, suc, ◌+◌, ◌*◌, ◌%◌, ◌^◌, ◌<◌, ◌≤◌, ◌≡◌, refl, ap, inr, false, ◌&&◌, Option, some, List,
  [], ◌∷◌, ◌++◌, map, Bytes, leb, if◌then◌else◌, length, length-append, All, All-append, All-mono,
  arith,
}
use logrotate_cache_lab.Strconv.{max_uint64}
use logrotate_cache_lab.Record.RoundTrip.{IsRunId, encode-ok, length-encode, length-prefix}
use logrotate_cache_lab.Integrity.Lines.{OpenFile}
use logrotate_cache_lab.Integrity.Counts.{times, times-append}
use logrotate_cache_lab.Integrity.Order.{Ascends}
use logrotate_cache_lab.Integrity.Intact.{log_of}
use logrotate_cache_lab.Integrity.Rotated.{Logs, paths_of, all_sequences, HoldsLog}
use logrotate_cache_lab.Writer.Stream.{numbers, all_of}

pub times-numbers :
    (n k : ℕ) → n ≤ max_uint64 → times k (numbers n) ≡ (if leb 1 k && leb k n then 1 else 0)
times-numbers zero k h = ground arith
times-numbers (suc n) k h =
    let fits : suc n % 2 ^ 64 ≡ suc n = omega arith in
    rw (times-append, fits) (ground (arith, times-numbers n k))

numbers-le : (n : ℕ) → n ≤ max_uint64 → All (λ k. k ≤ n) (numbers n)
numbers-le zero h = tt
numbers-le (suc n) h =
    All-append _ (numbers n) (suc n % 2 ^ 64 ∷ [])
      (All-mono (λ k. k ≤ n) _ (λ k low. omega arith) (numbers n) (numbers-le n (omega arith)))
      (omega arith, tt)

Ascends-snoc : (xs : List ℕ) (x : ℕ) → All (λ k. k ≤ x) xs → Ascends xs → Ascends (xs ++ x ∷ [])
Ascends-snoc [] x h a = tt
Ascends-snoc (y ∷ []) x (h, _) a = (inr h, tt)
Ascends-snoc (y ∷ z ∷ xs) x (_, h) (o, a) = (o, Ascends-snoc (z ∷ xs) x h a)

Ascends-append : (xs ys : List ℕ) → Ascends (xs ++ ys) → Ascends xs × Ascends ys
Ascends-append [] ys a = (tt, a)
Ascends-append (x ∷ []) [] a = (tt, tt)
Ascends-append (x ∷ []) (y ∷ ys) (o, a) = (tt, a)
Ascends-append (x ∷ z ∷ xs) ys (o, a) = let (l, r) = Ascends-append (z ∷ xs) ys a in ((o, l), r)

pub Ascends-all_of : (files : List (List ℕ)) → Ascends (all_of files) → All Ascends files
Ascends-all_of [] a = tt
Ascends-all_of (xs ∷ files) a =
    let (l, r) = Ascends-append xs (all_of files) a in (l, Ascends-all_of files r)

pub Ascends-numbers : (n : ℕ) → n ≤ max_uint64 → Ascends (numbers n)
Ascends-numbers zero h = tt
Ascends-numbers (suc n) h =
    Ascends-snoc (numbers n) (suc n % 2 ^ 64)
      (All-mono (λ k. k ≤ n) _ (λ k low. omega arith) (numbers n) (numbers-le n (omega arith)))
      (Ascends-numbers n (omega arith))

-- Every sequence fits a `uint64`.
pub numbers-small : (n : ℕ) → All (λ k. k ≤ max_uint64) (numbers n)
numbers-small zero = tt
numbers-small (suc n) = All-append _ (numbers n) _ (numbers-small n) (omega arith, tt)

pub length-numbers : (n : ℕ) → length (numbers n) ≡ n
length-numbers zero = refl
length-numbers (suc n) =
    omega (arith, length-append (numbers n) (suc n % 2 ^ 64 ∷ []), length-numbers n)

abbrev pub total_length : List Bytes → ℕ
total_length [] = 0
total_length (c ∷ contents) = length c + total_length contents

-- The file of each path is readable and holds what the writer put there.
abbrev pub Stored : (Bytes → Option OpenFile) → List Bytes → List Bytes → Type 0
Stored open_file [] [] = Unit
Stored open_file [] (c ∷ contents) = ⊥
Stored open_file (path ∷ paths) [] = ⊥
Stored open_file (path ∷ paths) (c ∷ contents) =
    (open_file path ≡ some (record { content = c; read_fails = false }))
    × Stored open_file paths contents

abbrev pub zip : List Bytes → List (List ℕ) → Logs
zip [] files = []
zip (path ∷ paths) [] = []
zip (path ∷ paths) (xs ∷ files) = (path, xs) ∷ zip paths files

module _ (run_id : Bytes) (size : ℕ) (named : IsRunId run_id)
    (room : length run_id + 22 < size) where
  pub length-log_of :
      (xs : List ℕ)
      → All (λ k. k ≤ max_uint64) xs
      → length (log_of run_id size xs) ≡ length xs * size
  length-log_of [] h = omega arith
  length-log_of (x ∷ xs) (small, h) =
      let encoded = encode-ok run_id x size named (omega (arith, length-prefix run_id x small)) in
      rw encoded (
        grind (
          arith,
          length-append _ (log_of run_id size xs),
          length-encode run_id x size encoded,
          length-log_of xs h,
        ))

  All-left :
      (xs ys : List ℕ)
      → All (λ k. k ≤ max_uint64) (xs ++ ys)
      → All (λ k. k ≤ max_uint64) xs × All (λ k. k ≤ max_uint64) ys
  All-left [] ys h = (tt, h)
  All-left (x ∷ xs) ys (p, h) = let (l, r) = All-left xs ys h in ((p, l), r)

  pub total_length-logs :
      (files : List (List ℕ))
      → All (λ k. k ≤ max_uint64) (all_of files)
      → total_length (map (log_of run_id size) files) ≡ length (all_of files) * size
  total_length-logs [] h = omega arith
  total_length-logs (xs ∷ files) h =
      let (l, r) = All-left xs (all_of files) h in
      grind (arith, length-append xs (all_of files), length-log_of xs l, total_length-logs files r)

  module _ (open_file : Bytes → Option OpenFile) where
    pub paths_of-zip :
        (paths : List Bytes) (files : List (List ℕ))
        → Stored open_file paths (map (log_of run_id size) files)
        → paths_of (zip paths files) ≡ paths
    paths_of-zip [] files h = refl
    paths_of-zip (path ∷ paths) [] h = absurd h
    paths_of-zip (path ∷ paths) (xs ∷ files) (e, h) =
        ap (λ ps. path ∷ ps) (paths_of-zip paths files h)

    pub all_sequences-zip :
        (paths : List Bytes) (files : List (List ℕ))
        → Stored open_file paths (map (log_of run_id size) files)
        → all_sequences (zip paths files) ≡ all_of files
    all_sequences-zip [] [] h = refl
    all_sequences-zip [] (xs ∷ files) h = absurd h
    all_sequences-zip (path ∷ paths) [] h = absurd h
    all_sequences-zip (path ∷ paths) (xs ∷ files) (e, h) =
        ap (λ ys. xs ++ ys) (all_sequences-zip paths files h)

    pub zip-HoldsLog :
        (paths : List Bytes) (files : List (List ℕ))
        → Stored open_file paths (map (log_of run_id size) files)
        → All (HoldsLog open_file run_id size) (zip paths files)
    zip-HoldsLog [] files h = tt
    zip-HoldsLog (path ∷ paths) [] h = absurd h
    zip-HoldsLog (path ∷ paths) (xs ∷ files) (e, h) = (e, zip-HoldsLog paths files h)

pub zip-Ascends :
    (paths : List Bytes) (files : List (List ℕ))
    → All Ascends files
    → All (λ (path, xs). Ascends xs) (zip paths files)
zip-Ascends [] files a = tt
zip-Ascends (path ∷ paths) [] a = tt
zip-Ascends (path ∷ paths) (xs ∷ files) (up, a) = (up, zip-Ascends paths files a)
