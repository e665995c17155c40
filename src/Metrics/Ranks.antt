-- ===== src/Metrics/Ranks.antt =====
-- The order statistics of internal/metrics/analyze.go.
use logrotate_cache_lab.Base.{
  ℕ, zero, suc, ◌+◌, ◌/◌, ◌≤◌, ◌<◌, ◌≡◌, refl, subst, ◌⊎◌, inl, inr, Bool, true, Bool-cases, List,
  [], ◌∷◌, map, ltb, leb, if◌then◌else◌, length, length-map, All, All-mono, arith,
}
use logrotate_cache_lab.Report.{Sample, RotationEvent}
use logrotate_cache_lab.Base.Sort.{insert_by, sort_by}
use logrotate_cache_lab.Metrics.{Floats, value_at, max_cache, nearest_rank, analyze}

abbrev pub count : (ℕ → Bool) → List ℕ → ℕ
count p [] = 0
count p (x ∷ xs) = (if p x then 1 else 0) + count p xs

-- `v` is the element of rank `i` from 0, if the elements were in order.
abbrev pub IsRank : List ℕ → ℕ → ℕ → Type 0
IsRank xs i v = (count (λ x. ltb x v) xs ≤ i) × (i < count (λ x. leb x v) xs)

abbrev Sorted : List ℕ → Type 0
Sorted [] = Unit
Sorted (x ∷ xs) = All (λ y. x ≤ y) xs × Sorted xs

count-insert_by :
    (p : ℕ → Bool) (x : ℕ) (xs : List ℕ) → count p (insert_by ltb x xs) ≡ count p (x ∷ xs)
unfolding insert_by
count-insert_by p x [] = refl
count-insert_by p x (y ∷ ys) = elim (Bool-cases (ltb y x)) [
  | inl e ↦ rw e (rw (count-insert_by p x ys) (omega arith))
  | inr e ↦ rw e refl
]

count-sort_by : (p : ℕ → Bool) (xs : List ℕ) → count p (sort_by ltb xs) ≡ count p xs
unfolding sort_by
count-sort_by p [] = refl
count-sort_by p (x ∷ xs) = rw (count-insert_by p x (sort_by ltb xs), count-sort_by p xs) refl

insert_by-All : (P : ℕ → Type 0) (x : ℕ) (xs : List ℕ) → P x → All P xs → All P (insert_by ltb x xs)
unfolding insert_by
insert_by-All P x [] h t = (h, tt)
insert_by-All P x (y ∷ ys) h (hy, t) = elim (Bool-cases (ltb y x)) [
  | inl e ↦ rw e (hy, insert_by-All P x ys h t)
  | inr e ↦ rw e (h, (hy, t))
]

insert_by-Sorted : (x : ℕ) (xs : List ℕ) → Sorted xs → Sorted (insert_by ltb x xs)
unfolding insert_by
insert_by-Sorted x [] t = (tt, tt)
insert_by-Sorted x (y ∷ ys) (low, t) = elim (Bool-cases (ltb y x)) [
  | inl e ↦ rw e (insert_by-All (λ z. y ≤ z) x ys (ground arith) low, insert_by-Sorted x ys t)
  | inr e ↦
      let first : x ≤ y = ground arith in
      rw e ((first, All-mono (λ z. y ≤ z) (λ z. x ≤ z) (λ z h. omega arith) ys low), (low, t))
]

sort_by-Sorted : (xs : List ℕ) → Sorted (sort_by ltb xs)
unfolding sort_by
sort_by-Sorted [] = tt
sort_by-Sorted (x ∷ xs) = insert_by-Sorted x (sort_by ltb xs) (sort_by-Sorted xs)

count_all : (xs : List ℕ) → count (λ x. true) xs ≡ length xs
count_all [] = refl
count_all (x ∷ xs) = omega (arith, count_all xs)

length-sort_by : (xs : List ℕ) → length (sort_by ltb xs) ≡ length xs
length-sort_by xs =
    omega (arith, count_all xs, count_all (sort_by ltb xs), count-sort_by (λ x. true) xs)

none_below : (v : ℕ) (xs : List ℕ) → All (λ y. v ≤ y) xs → count (λ x. ltb x v) xs ≡ 0
none_below v [] h = refl
none_below v (x ∷ xs) (h, hs) = let rest = none_below v xs hs in ground arith

value_at-low : (x i : ℕ) (xs : List ℕ) → i < length xs → All (λ y. x ≤ y) xs → x ≤ value_at xs i
value_at-low x i [] h t = absurd (omega arith)
value_at-low x zero (y ∷ ys) h (hy, t) = hy
value_at-low x (suc i) (y ∷ ys) h (hy, t) = value_at-low x i ys (omega arith) t

step_below : (x v c i : ℕ) → c ≤ i → (if ltb x v then 1 else 0) + c ≤ suc i
step_below x v c i h = ground arith

step_up : (x v c i : ℕ) → x ≤ v → i < c → suc i < (if leb x v then 1 else 0) + c
step_up x v c i low h = ground arith

same_below : (x c : ℕ) → c ≡ 0 → (if ltb x x then 1 else 0) + c ≤ 0
same_below x c h = ground arith

same_up : (x c : ℕ) → 0 < (if leb x x then 1 else 0) + c
same_up x c = ground arith

value_at-IsRank : (i : ℕ) (xs : List ℕ) → Sorted xs → i < length xs → IsRank xs i (value_at xs i)
value_at-IsRank i [] t h = absurd (omega arith)
value_at-IsRank zero (x ∷ xs) (low, t) h = (same_below x _ (none_below x xs low), same_up x _)
value_at-IsRank (suc i) (x ∷ xs) (low, t) h =
    let (below, up) = value_at-IsRank i xs t (omega arith) in
    let first = value_at-low x i xs (omega arith) low in
    (step_below x _ _ i below, step_up x _ _ i first up)

pub nearest_rank-lt :
    {F : Type 0} (float : Floats F) (n : ℕ) (p : F) → 0 < n → nearest_rank float n p < n
unfolding nearest_rank
nearest_rank-lt float n p h = ground arith

count_le : (p : ℕ → Bool) (xs : List ℕ) → count p xs ≤ length xs
count_le p [] = omega arith
count_le p (x ∷ xs) = let rest = count_le p xs in ground arith

-- The maximum is at least all of the list and, unless it is the start, one of it.
max_cache-ge : (m : ℕ) (samples : List Sample) → m ≤ max_cache m samples
unfolding max_cache
max_cache-ge m [] = omega arith
max_cache-ge m (s ∷ samples) =
    let rest = max_cache-ge (if ltb m s.cache then s.cache else m) samples in ground arith

raise_up :
    (m c M n k : ℕ)
    → (if ltb m c then c else m) ≤ M
    → k ≡ n
    → (if leb c M then 1 else 0) + k ≡ suc n
raise_up m c M n k h e = ground arith

raise_below : (c M k n : ℕ) → k < n → (if ltb c M then 1 else 0) + k < suc n
raise_below c M k n h = ground arith

raise_same :
    (m c M k n : ℕ)
    → k ≤ n
    → M ≡ (if ltb m c then c else m)
    → ((if ltb c M then 1 else 0) + k < suc n) ⊎ (M ≡ m)
raise_same m c M k n h = elim (Bool-cases (ltb m c)) [
  | inl e ↦ rw e (λ same. inl (ground arith))
  | inr e ↦ rw e (λ same. inr same)
]

max_cache-up :
    (m : ℕ) (samples : List Sample)
    → count (λ x. leb x (max_cache m samples)) (map Sample.cache samples) ≡ length samples
unfolding max_cache
max_cache-up m [] = refl
max_cache-up m (s ∷ samples) =
    let m' = if ltb m s.cache then s.cache else m in
    let rest = max_cache-up m' samples in
    let top = max_cache-ge m' samples in raise_up m s.cache _ _ _ top rest

max_cache-below :
    (m : ℕ) (samples : List Sample)
    → (count (λ x. ltb x (max_cache m samples)) (map Sample.cache samples) < length samples)
      ⊎ (max_cache m samples ≡ m)
unfolding max_cache
max_cache-below m [] = inr refl
max_cache-below m (s ∷ samples) =
    let m' = if ltb m s.cache then s.cache else m in
    let fewer = count_le (λ x. ltb x (max_cache m' samples)) (map Sample.cache samples) in
    elim (max_cache-below m' samples) [
      | inl less ↦ inl (raise_below s.cache _ _ _ less)
      | inr same ↦
          raise_same m s.cache _ _ _ (omega (arith, fewer, length-map Sample.cache samples)) same
    ]

sorted_at-IsRank : (xs : List ℕ) (i : ℕ) → i < length xs → IsRank xs i (value_at (sort_by ltb xs) i)
sorted_at-IsRank xs i h =
    let v = value_at (sort_by ltb xs) i in
    let (below, up) =
      value_at-IsRank i (sort_by ltb xs) (sort_by-Sorted xs)
        (omega (arith, h, length-sort_by xs)) in
    (
      subst (λ k. k ≤ i) (count-sort_by (λ x. ltb x v) xs) below,
      subst (λ k. i < k) (count-sort_by (λ x. leb x v) xs) up,
    )

not_below : (c M k n : ℕ) → M ≡ c → k ≤ n → (if ltb c M then 1 else 0) + k ≤ n
not_below c M k n e h = ground arith

max_cache-IsRank :
    (s : Sample) (samples : List Sample)
    → IsRank (map Sample.cache (s ∷ samples)) (length samples) (max_cache s.cache (s ∷ samples))
max_cache-IsRank s samples =
    let m = max_cache s.cache (s ∷ samples) in
    let fewer = count_le (λ x. ltb x m) (map Sample.cache samples) in
    let counted = length-map Sample.cache samples in
    let up = max_cache-up s.cache (s ∷ samples) in
    (
      elim (max_cache-below s.cache (s ∷ samples)) [
        | inl less ↦ omega (arith, less)
        | inr same ↦ not_below s.cache m _ _ same (omega (arith, fewer, counted))
      ],
      omega (arith, up),
    )

-- The ranks that the metrics of the cache stand at, among the caches of the samples: the maximum at
-- the last, the median at half their number, and the 95th percentile at the one that `nearestRank`
-- gives, which is in range whatever the floats are.
pub analyze-IsRank :
    {F : Type 0} (float : Floats F) (s : Sample) (samples : List Sample)
    (events : List RotationEvent)
    → let caches = map Sample.cache (s ∷ samples) in
      let n = length (s ∷ samples) in
      let r = analyze float (s ∷ samples) events in
      let rank = nearest_rank float n float.p95 in
      IsRank caches (length samples) r.max_bytes
      × IsRank caches (n / 2) r.median_bytes
      × IsRank caches rank r.p95_bytes
      × (rank < n)
unfolding analyze
analyze-IsRank float s samples events =
    let caches = map Sample.cache (s ∷ samples) in
    let counted = length-map Sample.cache (s ∷ samples) in
    let n = length (s ∷ samples) in
    let in_range = nearest_rank-lt float n float.p95 (omega arith) in
    (
      max_cache-IsRank s samples,
      sorted_at-IsRank caches (n / 2) (omega arith),
      sorted_at-IsRank caches (nearest_rank float n float.p95) (omega arith),
      in_range,
    )
