-- ===== src/Sweep/Search/Attempts.antt =====
-- The attempts that internal/sweep/search.go records: `test` runs each limit the full number of
-- repetitions and at most once, and the failure counters count the recorded attempts.
use logrotate_cache_lab.Base.{
  ℕ, ◌+◌, ◌≡◌, refl, Bool, true, false, ◌&&◌, List, [], ◌∷◌, ◌++◌, Bytes, arith, codes, ◌==◌,
  if◌then◌else◌, str_eq, str_eq_iff,
}
use logrotate_cache_lab.Report.{SweepAttempt, SweepReport}
use logrotate_cache_lab.Sweep.Search.{record_attempt}

exclusive : (k s t : Bytes) → str_eq s t ≡ false → str_eq k s ≡ true → str_eq k t ≡ false
exclusive k s t differ e = rw ((str_eq_iff k s).0 e) differ

-- A failure kind is one of the four at most.
abbrev IsOneKind : Bytes → Type 0
IsOneKind k =
    (str_eq k (codes "oom") ≡ true → str_eq k (codes "functional") ≡ false)
    × (str_eq k (codes "oom") ≡ true → str_eq k (codes "integrity") ≡ false)
    × (str_eq k (codes "oom") ≡ true → str_eq k (codes "timeout") ≡ false)
    × (str_eq k (codes "functional") ≡ true → str_eq k (codes "integrity") ≡ false)
    × (str_eq k (codes "functional") ≡ true → str_eq k (codes "timeout") ≡ false)
    × (str_eq k (codes "integrity") ≡ true → str_eq k (codes "timeout") ≡ false)

one_kind : (k : Bytes) → IsOneKind k
unfolding str_eq
one_kind k = (
  exclusive k (codes "oom") (codes "functional") refl,
  exclusive k (codes "oom") (codes "integrity") refl,
  exclusive k (codes "oom") (codes "timeout") refl,
  exclusive k (codes "functional") (codes "integrity") refl,
  exclusive k (codes "functional") (codes "timeout") refl,
  exclusive k (codes "integrity") (codes "timeout") refl,
)

module _ {F : Type 0} where
  -- The attempts that were made at a limit.
  abbrev pub attempts_at : ℕ → List (SweepAttempt F) → List (SweepAttempt F)
  attempts_at limit [] = []
  attempts_at limit (a ∷ xs) =
      let rest = attempts_at limit xs in if a.limit_mib == limit then a ∷ rest else rest

  abbrev pub all_passed : List (SweepAttempt F) → Bool
  all_passed [] = true
  all_passed (a ∷ xs) = a.passed && all_passed xs

  -- How many attempts failed in a way.
  abbrev pub kinds : Bytes → List (SweepAttempt F) → ℕ
  kinds kind [] = 0
  kinds kind (a ∷ xs) =
      let rest = kinds kind xs in if str_eq a.failure_kind kind then rest + 1 else rest

  pub attempts_at-snoc :
      (limit : ℕ) (xs : List (SweepAttempt F)) (a : SweepAttempt F)
      → attempts_at limit (xs ++ a ∷ [])
        ≡ attempts_at limit xs ++ (if a.limit_mib == limit then a ∷ [] else [])
  attempts_at-snoc limit [] a = refl
  attempts_at-snoc limit (x ∷ xs) a = ground (arith, attempts_at-snoc limit xs a)

  pub all_passed-snoc :
      (xs : List (SweepAttempt F)) (a : SweepAttempt F)
      → all_passed (xs ++ a ∷ []) ≡ (all_passed xs && a.passed)
  all_passed-snoc [] a = ground arith
  all_passed-snoc (x ∷ xs) a = ground (arith, all_passed-snoc xs a)

  kinds-snoc :
      (kind : Bytes) (xs : List (SweepAttempt F)) (a : SweepAttempt F)
      → kinds kind (xs ++ a ∷ [])
        ≡ (if str_eq a.failure_kind kind then kinds kind xs + 1 else kinds kind xs)
  kinds-snoc kind [] a = ground arith
  kinds-snoc kind (x ∷ xs) a = ground (arith, kinds-snoc kind xs a)

  pub attempts-record_attempt :
      (a : SweepAttempt F) (r : SweepReport F)
      → (record_attempt a r).attempts ≡ r.attempts ++ a ∷ []
  unfolding record_attempt
  attempts-record_attempt a r = ground arith

  -- The counters of a report are those of its attempts.
  pub record IsTallied (r : SweepReport F) : Type 0 where
    pub oom : r.oom_failures ≡ kinds (codes "oom") r.attempts
    pub functional : r.functional_failures ≡ kinds (codes "functional") r.attempts
    pub integrity : r.integrity_failures ≡ kinds (codes "integrity") r.attempts
    pub timeout : r.timeout_failures ≡ kinds (codes "timeout") r.attempts

  pub record_attempt-IsTallied :
      (a : SweepAttempt F) (r : SweepReport F) → IsTallied r → IsTallied (record_attempt a r)
  unfolding record_attempt
  record_attempt-IsTallied a r h = ground (
    arith,
    one_kind a.failure_kind,
    kinds-snoc (codes "oom") r.attempts a,
    kinds-snoc (codes "functional") r.attempts a,
    kinds-snoc (codes "integrity") r.attempts a,
    kinds-snoc (codes "timeout") r.attempts a,
  )
