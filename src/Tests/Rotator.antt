-- ===== src/Tests/Rotator.antt =====
-- The rotations at concrete directories.
use logrotate_cache_lab.Base.{
  ◌≡◌, refl, true, none, some, List, [], ◌∷◌, Bytes, codes, str_eq, ok, err, arith,
}
use logrotate_cache_lab.Base.Int.{pos}
use logrotate_cache_lab.FileSystem.{
  write_rows, fault, Move, append, reopen, Slot, quiet, World, lookup, set_store, unlink, act, acts,
  enter_with, guarded, call, create, rename, open_file, copy, truncate, ◌>>=◌, label, finished,
}
use logrotate_cache_lab.FileSystem.Kept.{Sound, KeepsFiles}
use logrotate_cache_lab.Rotator.{
  Config, event, event_row, event_header, rename_reopen, at, truncate_active, rotate_rename_reopen,
  after_rename, request, append_event, backup_path, rotate_copy_truncate, copy_log, cut_log,
}
use logrotate_cache_lab.Report.{RotationEvent}
use logrotate_cache_lab.Rotator.Events
use logrotate_cache_lab.Rotator.Events.{timed, Recorded, read_events-append_event}
use logrotate_cache_lab.Csv.{torn, IsPlain, IsPlain-of, has_return, any_return}
use logrotate_cache_lab.Tests.Csv.{whole_rows, whole_rows-ReadsBack}
use logrotate_cache_lab.Strconv.{format_int, format_uint}
use logrotate_cache_lab.Rotator.Failed.{rotate_copy_truncate-Kept}
use logrotate_cache_lab.Rotator.Safe.{rotate_rename_reopen-Kept}
use logrotate_cache_lab.Strconv.{zero_pad}

abbrev log_path : Bytes
log_path = codes "l"

abbrev cfg : Config
cfg = record {
  strategy = rename_reopen;
  active_path = log_path;
  reopen_url = codes "http://w";
  event_path = [];
  max_file_bytes = pos 2;
  rotations = pos 1;
  max_backups = pos 3;
}

abbrev at_call : List Move → Slot
at_call moves = record quiet { moves = moves }

-- The writer appends before the rename, between the calls, and after it opened the log again.
abbrev busy : List Slot
busy =
    at_call (append (codes "c") ∷ [])
    ∷ at_call (append (codes "d") ∷ [])
    ∷ at_call (append (codes "e") ∷ [])
    ∷ quiet
    ∷ at_call (append (codes "f") ∷ [])
    ∷ at_call (reopen ∷ append (codes "g") ∷ [])
    ∷ []

abbrev one_log : List Slot → World
one_log schedule = record {
  names = (log_path, 0) ∷ [];
  store = set_store 0 (codes "ab") (λ i. []);
  next = 1;
  fd = 0;
  log_path = log_path;
  events = [];
  schedule = schedule;
}

one_log-Sound : (schedule : List Slot) → Sound (one_log schedule)
unfolding lookup str_eq
one_log-Sound schedule = record {
  allocated = λ n i h. ground (arith, h);
  attached = (log_path, refl);
}

no_backup : lookup (backup_path log_path 1) ((one_log busy).names) ≡ none
unfolding lookup backup_path str_eq
no_backup = refl

rotate_rename_reopen-Kept_example :
    Sound ((rotate_rename_reopen (λ url. true) cfg 1 2 (one_log busy)).1)
    × KeepsFiles (one_log busy) ((rotate_rename_reopen (λ url. true) cfg 1 2 (one_log busy)).1)
rotate_rename_reopen-Kept_example =
    rotate_rename_reopen-Kept (λ url. true) cfg 1 2 (one_log busy) refl no_backup
      (one_log-Sound busy)

-- The backup holds what was appended until the log was opened again, the new log what came after.
rotated :
    let (r, w) = rotate_rename_reopen (λ url. true) cfg 1 2 (one_log busy) in
    (r ≡ ok tt)
    × (lookup (codes "l.000001") w.names ≡ some 0)
    × (w.store 0 ≡ codes "abcdef")
    × (lookup log_path w.names ≡ some 1)
    × (w.store 1 ≡ codes "g")
unfolding rotate_rename_reopen after_rename request append_event backup_path rename create call
    guarded enter_with acts act lookup unlink str_eq ◌>>=◌ label finished zero_pad
rotated = (refl, refl, refl, refl, refl)

-- What is appended between the copy and the truncation is in neither file.
truncated :
    let schedule =
      at_call []
      ∷ at_call []
      ∷ at_call (append (codes "c") ∷ [])
      ∷ at_call (append (codes "d") ∷ [])
      ∷ quiet
      ∷ at_call (append (codes "e") ∷ [])
      ∷ [] in
    let (r, w) = rotate_copy_truncate cfg 1 (one_log schedule) in
    (r ≡ ok tt) × (w.store 0 ≡ []) × (w.store 1 ≡ codes "abc")
unfolding rotate_copy_truncate copy_log cut_log append_event backup_path create call guarded
    enter_with acts act lookup str_eq open_file copy truncate ◌>>=◌ label finished
truncated = (refl, refl, refl)

-- The truncation is refused.
abbrev refused : World
refused = one_log (
    at_call []
    ∷ at_call []
    ∷ at_call (append (codes "c") ∷ [])
    ∷ quiet
    ∷ quiet
    ∷ record quiet { fails = true }
    ∷ [])

refused_error : (rotate_copy_truncate cfg 1 refused).0 ≡ err (at truncate_active fault)
unfolding rotate_copy_truncate copy_log cut_log append_event backup_path create call guarded
    enter_with acts act lookup str_eq open_file copy truncate ◌>>=◌ label finished
refused_error = refl

rotate_copy_truncate-Kept_example :
    Sound ((rotate_copy_truncate cfg 1 refused).1)
    × KeepsFiles refused ((rotate_copy_truncate cfg 1 refused).1)
rotate_copy_truncate-Kept_example =
    rotate_copy_truncate-Kept cfg 1 refused (at truncate_active fault) refused_error (λ h. cc)
      (one_log-Sound (refused.schedule))

abbrev recording : Config
recording = record cfg { event_path = codes "e" }

abbrev threshold : RotationEvent
threshold = event 1 (codes "threshold") 2

threshold-InRange : Events.InRange (timed (one_log busy) threshold)
unfolding enter_with
threshold-InRange =
    ((omega arith, omega arith), (omega arith, omega arith), (omega arith, omega arith))

threshold-IsPlain : IsPlain 6 (event_row (timed (one_log busy) threshold))
unfolding event_row format_int format_uint enter_with has_return any_return
threshold-IsPlain = IsPlain-of (event_row (timed (one_log busy) threshold)) refl

read_events-append_event_example :
    Recorded whole_rows []
      (one_log busy)
      threshold
      (append_event recording threshold (one_log busy))
unfolding enter_with
read_events-append_event_example =
    read_events-append_event whole_rows (whole_rows-ReadsBack 6) recording threshold (one_log busy)
      [] (λ h. cc) refl tt refl threshold-InRange threshold-IsPlain

-- A write that fails after four bytes leaves them.
abbrev disk_full : World
disk_full = one_log (record quiet { fails = true; amount = 4 } ∷ [])

torn_header :
    (append_event recording threshold disk_full).1.events
    ≡ torn (event_header ∷ event_row threshold ∷ []) 4 ∷ []
unfolding append_event write_rows enter_with acts label
torn_header = refl
