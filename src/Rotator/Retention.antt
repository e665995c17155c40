-- ===== src/Rotator/Retention.antt =====
-- What `EnforceRetention` of internal/rotator/rotator.go removes and keeps.
use logrotate_cache_lab.Base.{
  ℕ, suc, some, codes, ◌≤◌, ◌≡◌, refl, sym, ap, subst, ◌∙◌, ◌⊎◌, false, ◌&&◌, List, [], ◌++◌, Bytes,
  length, Result, All, arith,
}
use logrotate_cache_lab.Base.Int.{pos, ◌≤ℤ◌, leb_ℤ}
use logrotate_cache_lab.FileSystem.{World, Done, lookup}
use logrotate_cache_lab.FileSystem.Held.{Good}
use logrotate_cache_lab.Rotator.{RotateError}
use logrotate_cache_lab.Rotator.Driver.{
  Glob, Backup, find_backups, sort_backups, remove_oldest, enforce_retention,
}
use logrotate_cache_lab.Rotator.Backups.{
  is_path, is_backup, exists, Sorted, sort_backups-Sorted, is_path-sort_backups, Sorted-split,
  IsMatched, is_path-matched,
}
use logrotate_cache_lab.Rotator.Trimmed.{unless_gone, remove_oldest-Trimmed}

-- What there is after a call that keeps `keep` backups: `gone` are the oldest ones, which no name leads to
-- any more, and every other name but the log's leads to what it led to.
pub record Retained (active : Bytes) (keep : ℕ) (w : World) (r : Result RotateError Done × World)
    : Type 0 where
  pub gone : List Backup
  pub rest : List Backup
  pub backups : (n : Bytes) → is_path n (gone ++ rest) ≡ (exists n w.names && is_backup active n)
  pub oldest : All (λ g. All (λ b. g.ordinal ≤ℤ b.ordinal) rest) gone
  pub names :
      (n : Bytes)
      → (n ≡ w.log_path) ⊎ (lookup n (r.1.names) ≡ unless_gone (is_path n gone) (lookup n w.names))
  pub enough : (gone ≡ []) ⊎ (keep ≤ length rest)
  pub complete : Good (λ done v. length rest ≤ keep) r

is_positive : (k : ℕ) → leb_ℤ (pos (suc k)) (pos 0) ≡ false
is_positive k = ground arith

enforce_retention_positive :
    (glob : Glob) (active : Bytes) (k : ℕ) (w : World) (ms : List Bytes)
    → glob (active ++ codes ".*") w.names ≡ some ms
    → remove_oldest (suc k) (sort_backups (find_backups active ms)) w
      ≡ enforce_retention glob active (pos (suc k)) w
unfolding enforce_retention
enforce_retention_positive glob active k w ms e = rw (is_positive k, e) refl

-- EnforceRetention, whatever the writer does and whichever call fails, removes none but backups of the
-- log, the ones with the least ordinals first, and only while more than the maximum are left; if it
-- succeeds, no more than the maximum are. No other name but the writer's log changes. The maximum is
-- positive, and Glob answers with the names that begin with the path of the log and a dot, as it does
-- where that path holds no character of a pattern.
pub enforce_retention-Retained :
    (glob : Glob) (active : Bytes) (k : ℕ) (w : World) (ms : List Bytes)
    → glob (active ++ codes ".*") w.names ≡ some ms
    → IsMatched active w.names ms
    → Retained active (suc k) w (enforce_retention glob active (pos (suc k)) w)
enforce_retention-Retained glob active k w ms answered matched =
    subst (Retained active (suc k) w) (enforce_retention_positive glob active k w ms answered) (
      let bs = sort_backups (find_backups active ms) in
      let t = remove_oldest-Trimmed (suc k) bs w in
      record {
        gone = t.gone;
        rest = t.rest;
        backups = λ n.
            ap (is_path n) (sym t.split)
            ∙ is_path-sort_backups n (find_backups active ms)
            ∙ is_path-matched active n w.names ms matched;
        oldest =
            Sorted-split t.gone t.rest
              (subst Sorted t.split (sort_backups-Sorted (find_backups active ms)));
        names = t.names;
        enough = t.enough;
        complete = t.complete;
      })
