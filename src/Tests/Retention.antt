-- ===== src/Tests/Retention.antt =====
-- Retention in a directory with four backups, to which the writer adds its log meanwhile.
use logrotate_cache_lab.Base.{
  ◌∷◌, inl, inr, str_eq_refl, str_eq_of_ne, ◌≡◌, refl, true, none, Bytes, All, some, List, [], ◌∷◌,
  codes, str_eq, ok, err,
}
use logrotate_cache_lab.Base.Int.{pos}
use logrotate_cache_lab.FileSystem.{
  Names, fault, reopen, Slot, quiet, World, lookup, unlink, act, acts, enter_with, guarded, remove,
  ◌>>=◌, label, finished,
}
use logrotate_cache_lab.Strconv.{parse_int, parse_uint}
use logrotate_cache_lab.Rotator.{at, bad_pattern, retention}
use logrotate_cache_lab.Rotator.Driver.{
  Glob, suffix_of, trim_prefix, find_backups, insert_backup, sort_backups, remove_oldest,
  enforce_retention,
}
use logrotate_cache_lab.Rotator.Retention.{Retained, enforce_retention-Retained}
use logrotate_cache_lab.Rotator.Backups.{IsMatched, listed, begins}
use logrotate_cache_lab.FileSystem.Kept.{name-cases}

abbrev reopens : Slot
reopens = record quiet { moves = reopen ∷ [] }

abbrev fails : Slot
fails = record quiet { fails = true }

abbrev backups : List Slot → World
backups schedule = record {
  names =
      (codes "l.000003", 3)
      ∷ (codes "l.10", 4)
      ∷ (codes "l.000001", 1)
      ∷ (codes "l.old", 5)
      ∷ (codes "l.000002", 2)
      ∷ [];
  store = λ i. [];
  next = 6;
  fd = 3;
  log_path = codes "l";
  events = [];
  schedule = schedule;
}

abbrev paths : Names → List Bytes
paths [] = []
paths ((m, i) ∷ names) = m ∷ paths names

-- A `Glob` that finds the names, or whose pattern is malformed.
abbrev finds : Glob
finds pattern names = some (paths names)

abbrev refuses : Glob
refuses pattern names = none

-- The names of a directory that all begin with the path and a dot are the ones that match.
paths-IsMatched :
    (names : Names)
    → All (λ (m, i). begins (codes "l") m ≡ true) names
    → IsMatched (codes "l") names (paths names)
unfolding listed lookup
paths-IsMatched [] h n = refl
paths-IsMatched ((m, i) ∷ names) (e, h) n = elim (name-cases n m) [
  | inl same ↦ rw (same, str_eq_refl m, e) refl
  | inr other ↦ rw (str_eq_of_ne n m other) (paths-IsMatched names h n)
]

backups-IsMatched : IsMatched (codes "l") (backups []).names (paths (backups []).names)
unfolding suffix_of
backups-IsMatched = paths-IsMatched (backups []).names (refl, (refl, (refl, (refl, (refl, tt)))))

enforce_retention-Retained_example :
    Retained
      (codes "l")
      2
      (backups (reopens ∷ []))
      (enforce_retention finds (codes "l") (pos 2) (backups (reopens ∷ [])))
enforce_retention-Retained_example =
    enforce_retention-Retained finds (codes "l") 1 (backups (reopens ∷ []))
      (paths (backups (reopens ∷ [])).names) refl backups-IsMatched

-- The error of a malformed pattern is returned, and nothing is removed.
nothing_found :
    enforce_retention refuses (codes "l[") (pos 2) (backups []) ≡ (err bad_pattern, backups [])
unfolding enforce_retention finished
nothing_found = refl

-- The two with the least numbers are gone, and the name that is no backup stays.
two_left :
    let (r, w) = enforce_retention finds (codes "l") (pos 2) (backups (reopens ∷ [])) in
    (r ≡ ok tt)
    × (w.names
        ≡ (codes "l", 6) ∷ (codes "l.000003", 3) ∷ (codes "l.10", 4) ∷ (codes "l.old", 5) ∷ [])
unfolding enforce_retention find_backups trim_prefix suffix_of sort_backups insert_backup
    remove_oldest remove guarded enter_with acts act lookup unlink str_eq ◌>>=◌ label finished
    parse_int parse_uint
two_left = (refl, refl)

-- The first removal fails, and nothing is removed.
none_removed :
    let (r, w) = enforce_retention finds (codes "l") (pos 2) (backups (fails ∷ [])) in
    (r ≡ err (at retention fault)) × (lookup (codes "l.000001") w.names ≡ some 1)
unfolding enforce_retention find_backups trim_prefix suffix_of sort_backups insert_backup
    remove_oldest remove guarded enter_with acts lookup str_eq ◌>>=◌ label finished parse_int
    parse_uint
none_removed = (refl, refl)
