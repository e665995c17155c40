-- ===== src/Rotator/Driver.antt =====
-- `EnforceRetention`, `RotateOnce` and `Run` of internal/rotator/rotator.go.
use logrotate_cache_lab.Base.{
  ℕ, zero, suc, ◌+◌, ◌*◌, Bool, ◌||◌, Option, none, some, List, [], ◌∷◌, ◌++◌, Bytes, codes, ltb,
  ◌==◌, length, if◌then◌else◌, Result, ok, err,
}
use logrotate_cache_lab.Base.Int.{ℤ, pos, pos_part, leb_ℤ, ltb_ℤ, eq_ℤ, wrap_int64, quotient}
use logrotate_cache_lab.Strconv.{parse_int, parsed?}
use logrotate_cache_lab.Report.{RotationEvent}
use logrotate_cache_lab.FileSystem.{
  World, Done, ◌>>=◌, finished, label, continue, FileError, not_exist, exist, fault, Names, stat,
  remove,
}
use logrotate_cache_lab.Rotator.{
  Strategy, baseline, copy_truncate, rename_reopen, unknown, Config, at, stat_active, retention,
  poll, RotateError, unknown_strategy, rotation, bad_pattern, not_positive, target_overflows,
  context_done, Rotation, append_event, event, rotate_copy_truncate, rotate_rename_reopen,
}

-- What follows the prefix, where the prefix is there.
unfoldable pub suffix_of : Bytes → Bytes → Option Bytes
suffix_of [] name = some name
suffix_of (c ∷ prefix) [] = none
suffix_of (c ∷ prefix) (d ∷ name) =
    let rest = suffix_of prefix name in if c == d then rest else none

-- `strings.TrimPrefix`
unfoldable pub trim_prefix : Bytes → Bytes → Bytes
trim_prefix prefix name = elim (suffix_of prefix name) [ none ↦ name | some rest ↦ rest ]

pub record Backup : Type 0 where
  pub path : Bytes
  pub ordinal : ℤ

abbrev pub backup_of : Bytes → Bytes → Option Backup
backup_of name suffix = elim (parsed? (parse_int suffix)) [
  | none ↦ none
  | some n ↦ some record { path = name; ordinal = n }
]

abbrev pub with_found : Option Backup → List Backup → List Backup
with_found none rest = rest
with_found (some b) rest = b ∷ rest

unfoldable pub find_backups : Bytes → List Bytes → List Backup
unfolding trim_prefix
find_backups active [] = []
find_backups active (match ∷ matches) =
    let rest = find_backups active matches in
    with_found (backup_of match (trim_prefix (active ++ b'.' ∷ []) match)) rest

-- `sort.Slice` by the ordinal.
unfoldable pub insert_backup : Backup → List Backup → List Backup
insert_backup b [] = b ∷ []
insert_backup b (c ∷ cs) =
    let rest = insert_backup b cs in if ltb_ℤ c.ordinal b.ordinal then c ∷ rest else b ∷ c ∷ cs

unfoldable pub sort_backups : List Backup → List Backup
sort_backups [] = []
sort_backups (b ∷ bs) = insert_backup b (sort_backups bs)

-- `for len(backups) > maxBackups`: the oldest go.
unfoldable pub remove_oldest : ℕ → List Backup → Rotation Done
remove_oldest keep [] = finished (ok tt)
remove_oldest keep (b ∷ bs) =
    if ltb keep (length (b ∷ bs))
    then label (at retention) (remove b.path) >>= (λ removed. remove_oldest keep bs)
    else finished (ok tt)

abbrev after_glob : Bytes → ℤ → Option (List Bytes) → Rotation Done
after_glob active max_backups none = finished (err bad_pattern)
after_glob active max_backups (some matches) =
    remove_oldest (pos_part max_backups) (sort_backups (find_backups active matches))

-- `filepath.Glob`: the names of the directory that match a pattern, none if the pattern is malformed.
abbrev pub Glob : Type 0
Glob = Bytes → Names → Option (List Bytes)

unfoldable pub enforce_retention : Glob → Bytes → ℤ → Rotation Done
enforce_retention glob active max_backups w =
    if leb_ℤ max_backups (pos 0)
    then (ok tt, w)
    else after_glob active max_backups (glob (active ++ codes ".*") w.names) w

-- The error is wrapped with the strategy and the ordinal.
abbrev rotated : Strategy → ℕ → RotateError → RotateError
rotated strategy ordinal e = rotation strategy ordinal e

module _ (valid_url : Bytes → Bool) (glob : Glob) where
  unfoldable pub rotate_by : Strategy → Config → ℕ → ℕ → Rotation Done
  rotate_by copy_truncate cfg ordinal size = rotate_copy_truncate cfg ordinal
  rotate_by rename_reopen cfg ordinal size = rotate_rename_reopen valid_url cfg ordinal size
  rotate_by baseline cfg ordinal size = finished (err (unknown_strategy (codes "baseline")))
  rotate_by (unknown name) cfg ordinal size = finished (err (unknown_strategy name))

  unfoldable pub rotate_once : Config → ℕ → Rotation Done
  rotate_once cfg ordinal = do
    size ← label (at stat_active) (stat cfg.active_path)
    noted ← append_event cfg (event ordinal (codes "threshold") size)
    done ← label (rotated cfg.strategy ordinal) (rotate_by cfg.strategy cfg ordinal size)
    kept ← enforce_retention glob cfg.active_path cfg.max_backups
    append_event cfg (event ordinal (codes "retention-complete") size)

  -- The text of an error, which the event of a failed rotation carries.
  module _ (error_text : RotateError → Bytes) where
    abbrev failed_event : ℕ → ℕ → RotateError → RotationEvent
    failed_event ordinal size e = record (event ordinal (codes "rotation-failed") size) {
      error = error_text e;
    }

    -- The error of the rotation is returned, whether or not the event can be written.
    abbrev pub after_rotation :
        Config
        → ℕ
        → ℕ
        → Rotation Done
        → Result RotateError Done × World
        → Result RotateError Done × World
    after_rotation cfg ordinal size next_tick (ok done, w) =
        if ltb_ℤ cfg.rotations (pos (ordinal + 1)) then (ok tt, w) else next_tick w
    after_rotation cfg ordinal size next_tick (err e, w) =
        let (noted, w') = append_event cfg (failed_event ordinal size e) w in (err e, w')

    abbrev pub on_size :
        (ℕ → Rotation Done)
        → Rotation Done
        → Result FileError ℕ × World
        → Result RotateError Done × World
    on_size on wait (ok size, w) = on size w
    on_size on wait (err not_exist, w) = wait w
    on_size on wait (err exist, w) = (err (at poll exist), w)
    on_size on wait (err fault, w) = (err (at poll fault), w)

    -- The loop of `Run`, by the ticks that come before the context is done.
    unfoldable pub watch : Config → ℕ → ℕ → Rotation Done
    watch cfg zero ordinal w = (err context_done, w)
    watch cfg (suc ticks) ordinal w =
        on_size
          (λ size w.
            if ltb_ℤ (pos size) cfg.max_file_bytes
            then watch cfg ticks ordinal w
            else after_rotation cfg ordinal size (watch cfg ticks (ordinal + 1))
                (rotate_once cfg ordinal w))
          (watch cfg ticks ordinal) (stat cfg.active_path w)

    -- The loop of the baseline, which moves nothing.
    unfoldable pub watch_baseline : Config → ℤ → ℕ → Rotation Done
    watch_baseline cfg target zero w = (err context_done, w)
    watch_baseline cfg target (suc ticks) w =
        on_size
          (λ size w.
            if ltb_ℤ (pos size) target
            then watch_baseline cfg target ticks w
            else continue (append_event cfg (event 1 (codes "threshold") size) w)
                (λ noted. append_event cfg (event 1 (codes "baseline-complete") size)))
          (watch_baseline cfg target ticks) (stat cfg.active_path w)

    -- The product of two `int64`, with its wrap-around, and its quotient, rounded to zero.
    abbrev pub baseline_target : Config → ℤ
    baseline_target cfg = wrap_int64 (pos_part cfg.max_file_bytes * pos_part cfg.rotations)

    abbrev run_strategy : Strategy → Config → ℕ → Rotation Done
    run_strategy baseline cfg ticks =
        if eq_ℤ (quotient (baseline_target cfg) (pos_part cfg.rotations)) cfg.max_file_bytes
        then watch_baseline cfg (baseline_target cfg) ticks
        else finished (err target_overflows)
    run_strategy copy_truncate cfg ticks = watch cfg ticks 1
    run_strategy rename_reopen cfg ticks = watch cfg ticks 1
    run_strategy (unknown name) cfg ticks = watch cfg ticks 1

    unfoldable pub run : Config → ℕ → Rotation Done
    run cfg ticks =
        if leb_ℤ cfg.max_file_bytes (pos 0) || leb_ℤ cfg.rotations (pos 0)
        then finished (err not_positive)
        else run_strategy cfg.strategy cfg ticks
