-- ===== src/Rotator/Backups.antt =====
-- The backups that `EnforceRetention` of internal/rotator/rotator.go finds, by their names, and their
-- order.
use logrotate_cache_lab.Base.{
  ◌≡◌, ◌≢◌, refl, ap, ◌∙◌, ◌⊎◌, inl, inr, Bool, true, false, ◌||◌, ◌&&◌, Bool-cases, Option, none,
  some, List, [], ◌∷◌, ◌++◌, Bytes, str_eq, str_eq_refl, str_eq_of_ne, All, All-mono, arith,
}
use logrotate_cache_lab.Base.Int.{ℤ, ◌≤ℤ◌, ltb_ℤ}
use logrotate_cache_lab.Strconv.{parse_int, parsed?}
use logrotate_cache_lab.FileSystem.{Names, lookup}
use logrotate_cache_lab.FileSystem.Kept.{name-cases}
use logrotate_cache_lab.Rotator.Driver.{
  suffix_of, trim_prefix, Backup, backup_of, with_found, find_backups, insert_backup, sort_backups,
}

unfoldable pub is_path : Bytes → List Backup → Bool
is_path n [] = false
is_path n (b ∷ bs) = str_eq n b.path || is_path n bs

abbrev pub is_some {ℓ} : {A : Type ℓ} → Option A → Bool
is_some none = false
is_some (some a) = true

-- The name is the log's with a dot and something behind it.
abbrev pub begins : Bytes → Bytes → Bool
begins active n = is_some (suffix_of (active ++ b'.' ∷ []) n)

abbrev pub is_numbered : Bytes → Bytes → Bool
is_numbered active n = is_some (backup_of n (trim_prefix (active ++ b'.' ∷ []) n))

-- The name is the log's with a dot and a number behind it.
unfoldable pub is_backup : Bytes → Bytes → Bool
is_backup active n = begins active n && is_numbered active n

unfoldable pub listed : Bytes → List Bytes → Bool
listed n [] = false
listed n (m ∷ ms) = str_eq n m || listed n ms

-- The directory has the name.
abbrev pub exists : Bytes → Names → Bool
exists n names = is_some (lookup n names)

-- The sort by the ordinals.
abbrev pub Older : Backup → List Backup → Type 0
Older b bs = All (λ c. b.ordinal ≤ℤ c.ordinal) bs

abbrev pub Sorted : List Backup → Type 0
Sorted [] = Unit
Sorted (b ∷ bs) = Older b bs × Sorted bs

insert_backup-Older :
    (a b : Backup) (bs : List Backup)
    → a.ordinal ≤ℤ b.ordinal
    → Older a bs
    → Older a (insert_backup b bs)
unfolding insert_backup
insert_backup-Older a b [] h t = (h, tt)
insert_backup-Older a b (c ∷ cs) h (hc, t) = elim (Bool-cases (ltb_ℤ c.ordinal b.ordinal)) [
  | inl e ↦ rw e (hc, insert_backup-Older a b cs h t)
  | inr e ↦ rw e (h, (hc, t))
]

insert_backup-Sorted : (b : Backup) (bs : List Backup) → Sorted bs → Sorted (insert_backup b bs)
unfolding insert_backup
insert_backup-Sorted b [] t = (tt, tt)
insert_backup-Sorted b (c ∷ cs) (low, t) = elim (Bool-cases (ltb_ℤ c.ordinal b.ordinal)) [
  | inl e ↦ rw e (insert_backup-Older c b cs (ground arith) low, insert_backup-Sorted b cs t)
  | inr e ↦
      let first : b.ordinal ≤ℤ c.ordinal = ground arith in
      rw e (
        (
          first,
          All-mono (λ d. c.ordinal ≤ℤ d.ordinal) (λ d. b.ordinal ≤ℤ d.ordinal) (λ d h. omega arith)
              cs low,
        ),
        (low, t),
      )
]

pub sort_backups-Sorted : (bs : List Backup) → Sorted (sort_backups bs)
unfolding sort_backups
sort_backups-Sorted [] = tt
sort_backups-Sorted (b ∷ bs) = insert_backup-Sorted b (sort_backups bs) (sort_backups-Sorted bs)

or_swap : (a b c : Bool) → (a || (b || c)) ≡ (b || (a || c))
or_swap true true c = refl
or_swap true false c = refl
or_swap false b c = refl

is_path-insert_backup :
    (n : Bytes) (b : Backup) (bs : List Backup)
    → is_path n (insert_backup b bs) ≡ is_path n (b ∷ bs)
unfolding is_path insert_backup
is_path-insert_backup n b [] = refl
is_path-insert_backup n b (c ∷ cs) = elim (Bool-cases (ltb_ℤ c.ordinal b.ordinal)) [
  | inl e ↦
      rw (e, is_path-insert_backup n b cs)
        (or_swap (str_eq n c.path) (str_eq n b.path) (is_path n cs))
  | inr e ↦ rw e refl
]

pub is_path-sort_backups :
    (n : Bytes) (bs : List Backup) → is_path n (sort_backups bs) ≡ is_path n bs
unfolding is_path sort_backups
is_path-sort_backups n [] = refl
is_path-sort_backups n (b ∷ bs) =
    is_path-insert_backup n b (sort_backups bs)
    ∙ ap (λ x. str_eq n b.path || x) (is_path-sort_backups n bs)

-- Of a sorted list, what stands first is older than what follows.
Older-rest : (b : Backup) (gone rest : List Backup) → Older b (gone ++ rest) → Older b rest
Older-rest b [] rest h = h
Older-rest b (c ∷ gone) rest (_, h) = Older-rest b gone rest h

pub Sorted-split : (gone rest : List Backup) → Sorted (gone ++ rest) → All (λ b. Older b rest) gone
Sorted-split [] rest h = tt
Sorted-split (b ∷ gone) rest (low, h) = (Older-rest b gone rest low, Sorted-split gone rest h)

-- The backups that are found, by their names.
is_path-with_found :
    (n m suffix : Bytes) (rest : List Backup)
    → is_path n (with_found (backup_of m suffix) rest)
      ≡ (is_some (backup_of m suffix) && str_eq n m || is_path n rest)
unfolding is_path
is_path-with_found n m suffix rest = by_number (parsed? (parse_int suffix))
  where
    by_number :
        (k : Option ℤ)
        → is_path n (
            with_found
              (elim k [ none ↦ none | some z ↦ some record { path = m; ordinal = z } ])
              rest)
          ≡ (is_some {A = Backup}
                  (elim k [ none ↦ none | some z ↦ some record { path = m; ordinal = z } ])
                && str_eq n m
              || is_path n rest)
    by_number none = refl
    by_number (some k) = refl

true_or : (a b : Bool) → (a && true || b && a) ≡ a
true_or true b = refl
true_or false true = refl
true_or false false = refl

or_false : (a b : Bool) → (a && false || b) ≡ b
or_false true b = refl
or_false false b = refl

is_path-find_backups :
    (active n : Bytes) (ms : List Bytes)
    → is_path n (find_backups active ms) ≡ (listed n ms && is_numbered active n)
unfolding is_path find_backups listed
is_path-find_backups active n [] = refl
is_path-find_backups active n (m ∷ ms) =
    is_path-with_found n m (trim_prefix (active ++ b'.' ∷ []) m) (find_backups active ms)
    ∙ ap (λ x. is_numbered active m && str_eq n m || x) (is_path-find_backups active n ms)
    ∙ step (name-cases n m)
  where
    step :
        (n ≡ m) ⊎ (n ≢ m)
        → (is_numbered active m && str_eq n m || listed n ms && is_numbered active n)
          ≡ ((str_eq n m || listed n ms) && is_numbered active n)
    step (inl e) = rw (e, str_eq_refl m) (true_or (is_numbered active m) (listed m ms))
    step (inr d) = rw (str_eq_of_ne n m d) (or_false (is_numbered active m) _)

and_assoc : (a b c : Bool) → ((a && b) && c) ≡ (a && (b && c))
and_assoc true b c = refl
and_assoc false b c = refl

-- What `Glob` answers to the path of the log with `.*` behind it, where the path holds none of the
-- characters of a pattern: the names that begin with the path and a dot.
abbrev pub IsMatched : Bytes → Names → List Bytes → Type 0
IsMatched active names ms = (n : Bytes) → listed n ms ≡ (exists n names && begins active n)

pub is_path-matched :
    (active n : Bytes) (names : Names) (ms : List Bytes)
    → IsMatched active names ms
    → is_path n (find_backups active ms) ≡ (exists n names && is_backup active n)
unfolding is_backup
is_path-matched active n names ms h =
    is_path-find_backups active n ms
    ∙ ap (λ x. x && is_numbered active n) (h n)
    ∙ and_assoc (exists n names) (begins active n) (is_numbered active n)
