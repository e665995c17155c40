-- ===== src/Rotator.antt =====
-- internal/rotator: rotator.go, copytruncate.go and renamereopen.go over the system calls of
-- FileSystem. What the source asks of `net/http` for a URL is the parameter `valid_url`.
pub mod Safe
pub mod Failed
pub mod Copied
pub mod Counted
pub mod Lost
pub mod Events
pub mod Driver
pub mod Backups
pub mod Trimmed
pub mod Retention
use logrotate_cache_lab.Base.{
  ℕ, zero, suc, ◌+◌, ◌-◌, ◌*◌, ◌/◌, ◌%◌, ◌^◌, Bool, true, false, not, ◌&&◌, ◌||◌, Option, none,
  some, List, [], ◌∷◌, ◌++◌, Bytes, codes, ltb, ◌==◌, length, if◌then◌else◌, Result, ok, err,
}
use logrotate_cache_lab.Base.Int.{ℤ, pos, negsuc, pos_part, leb_ℤ, ltb_ℤ, eq_ℤ}
use logrotate_cache_lab.Strconv.{format_int, zero_pad, parse_int, parsed?, value_or}
use logrotate_cache_lab.Report.{RotationEvent}
use logrotate_cache_lab.Csv.{Piece}
use logrotate_cache_lab.FileSystem.{
  World, Slot, write_rows, Program, Done, ◌>>=◌, finished, label, relabel, FileError, not_exist,
  exist, fault, Names, guarded, call, stat, open_file, create, rename, truncate, remove, copy,
}

pub data Strategy : Type 0 where
  baseline : Strategy
  copy_truncate : Strategy
  rename_reopen : Strategy
  unknown : Bytes → Strategy

-- `PollInterval` and `StartTime` are times of the clock.
pub record Config : Type 0 where
  pub strategy : Strategy
  pub active_path : Bytes
  pub reopen_url : Bytes
  pub event_path : Bytes
  pub max_file_bytes : ℤ
  pub rotations : ℤ
  pub max_backups : ℤ

-- The call that failed, as the error's text says.
pub data Stage : Type 0 where
  stat_active : Stage
  append_event_stage : Stage
  open_source : Stage
  create_backup : Stage
  copy_stage : Stage
  sync_backup : Stage
  close_backup : Stage
  truncate_active : Stage
  rename_active : Stage
  create_replacement : Stage
  close_replacement : Stage
  chown_replacement : Stage
  chmod_replacement : Stage
  request_reopen : Stage
  retention : Stage
  poll : Stage

pub data RotateError : Type 0 where
  at : Stage → FileError → RotateError
  reopen_url_required : RotateError
  bad_request : RotateError
  reopen_status : ℕ → RotateError
  unknown_strategy : Bytes → RotateError
  rotation : Strategy → ℕ → RotateError → RotateError
  bad_pattern : RotateError
  not_positive : RotateError
  target_overflows : RotateError
  context_done : RotateError

abbrev pub Rotation : Type 0 → Type 0
Rotation A = Program RotateError A

abbrev pub event_header : List Bytes
event_header =
    codes "elapsed_ns"
    ∷ codes "timestamp"
    ∷ codes "ordinal"
    ∷ codes "phase"
    ∷ codes "bytes"
    ∷ codes "error"
    ∷ []

abbrev is_empty : List Piece → Bool
is_empty [] = true
is_empty (piece ∷ pieces) = false

unfoldable pub event_row : RotationEvent → List Bytes
event_row e =
    format_int e.elapsed_ns
    ∷ e.timestamp
    ∷ format_int e.ordinal
    ∷ e.phase
    ∷ format_int e.bytes
    ∷ e.error
    ∷ []

-- An event with its time. The header goes before it where the size of the file is known to be 0.
abbrev pub rows_of_event : RotationEvent → Slot → List Piece → List (List Bytes)
rows_of_event e s events =
    let row = event_row (record e { elapsed_ns = s.elapsed; timestamp = s.timestamp }) in
    if not s.stat_fails && is_empty events then event_header ∷ row ∷ [] else row ∷ []

unfoldable pub append_event : Config → RotationEvent → Rotation Done
append_event cfg e =
    if length cfg.event_path == 0
    then finished (ok tt)
    else label (at append_event_stage) (write_rows (rows_of_event e))

unfoldable pub read_event : List Bytes → Option RotationEvent
read_event (a ∷ b ∷ c ∷ d ∷ e ∷ f ∷ more) = some record {
  elapsed_ns = value_or (pos 0) (parse_int a);
  timestamp = b;
  ordinal = value_or (pos 0) (parse_int c);
  phase = d;
  bytes = value_or (pos 0) (parse_int e);
  error = f;
}
read_event row = none

unfoldable pub collect_events : List (List Bytes) → List RotationEvent
collect_events [] = []
collect_events (row ∷ rows) =
    let rest = collect_events rows in elim (read_event row) [ none ↦ rest | some e ↦ e ∷ rest ]

-- `ReadEvents` of the rows that the CSV reader finds in a file.
unfoldable pub read_events : List (List Bytes) → List RotationEvent
read_events [] = []
read_events (first ∷ rows) = collect_events rows

unfoldable pub backup_path : Bytes → ℕ → Bytes
backup_path active ordinal = active ++ b'.' ∷ zero_pad 6 ordinal

abbrev pub event : ℕ → Bytes → ℕ → RotationEvent
event ordinal phase bytes = record {
  elapsed_ns = pos 0;
  timestamp = [];
  ordinal = pos ordinal;
  phase = phase;
  bytes = pos bytes;
  error = [];
}

abbrev pub require : Bool → RotateError → Rotation Done
require holds e = finished (if holds then ok tt else err e)

-- What comes before the truncation; the inode that was open at the start is the one that is copied.
unfoldable pub copy_log : Config → ℕ → Rotation ℕ
copy_log cfg ordinal = do
  started ← append_event cfg (event ordinal (codes "copy-start") 0)
  source ← label (at open_source) (open_file cfg.active_path)
  out ← label (at create_backup) (create (backup_path cfg.active_path ordinal))
  written ← label (at copy_stage) (copy source out)
  synced ← label (at sync_backup) call
  closed ← label (at close_backup) call
  copied ← append_event cfg (event ordinal (codes "copy-synced") written)
  finished (ok written)

-- The truncation takes the path.
unfoldable pub cut_log : Config → ℕ → ℕ → Rotation Done
cut_log cfg ordinal written = do
  truncated ← label (at truncate_active) (truncate cfg.active_path)
  append_event cfg (event ordinal (codes "truncate") written)

unfoldable pub rotate_copy_truncate : Config → ℕ → Rotation Done
rotate_copy_truncate cfg ordinal = copy_log cfg ordinal >>= cut_log cfg ordinal

-- `client.Do`, by the status of the response. The writer may open the log again meanwhile.
unfoldable pub request : Program FileError ℕ
request = guarded (λ s. finished (ok s.status))

module _ (valid_url : Bytes → Bool) where
  -- What follows the rename. Modes and owners are not in the directory: `chown` and `chmod` only succeed
  -- or fail, and every stat is taken to know an owner.
  unfoldable pub after_rename : Config → ℕ → ℕ → Rotation Done
  after_rename cfg ordinal size = do
    noted ← append_event cfg (event ordinal (codes "rename") size)
    made ← label (at create_replacement) (create cfg.active_path)
    closed ← label (at close_replacement) call
    owned ← label (at chown_replacement) call
    permitted ← label (at chmod_replacement) call
    created ← append_event cfg (event ordinal (codes "replacement-created") 0)
    named ← require (not (length cfg.reopen_url == 0)) reopen_url_required
    valid ← require (valid_url (cfg.reopen_url ++ codes "/reopen-logs")) bad_request
    status ← label (at request_reopen) request
    accepted ← require (status == 200) (reopen_status status)
    append_event cfg (event ordinal (codes "reopen-requested") 0)

  unfoldable pub rotate_rename_reopen : Config → ℕ → ℕ → Rotation Done
  rotate_rename_reopen cfg ordinal size = do
    renamed ←
        label (at rename_active) (rename cfg.active_path (backup_path cfg.active_path ordinal))
    after_rename cfg ordinal size
