-- ===== src/Tests/Lost.antt =====
-- A copy and truncation while the writer appends before the copy, between the copy and the truncation, and
-- behind it.
use logrotate_cache_lab.Base.{◌≡◌, refl, [], ◌∷◌, List, Bytes, codes, str_eq, ok, arith}
use logrotate_cache_lab.Base.Int.{pos}
use logrotate_cache_lab.FileSystem.{
  write_rows, append, Slot, quiet, World, lookup, set_store, act, acts, enter_with, guarded, call,
  create, open_file, copy, truncate, ◌>>=◌, label, finished,
}
use logrotate_cache_lab.FileSystem.Exact.{Snapshot, appended, moved_bytes}
use logrotate_cache_lab.FileSystem.Held.{Good}
use logrotate_cache_lab.Rotator.{
  Config, copy_truncate, append_event, backup_path, rotate_copy_truncate, copy_log, cut_log,
}
use logrotate_cache_lab.Rotator.Lost.{Accounted, lost, rotate_copy_truncate-Accounted}

abbrev cfg : Config
cfg = record {
  strategy = copy_truncate;
  active_path = codes "l";
  reopen_url = [];
  event_path = codes "e";
  max_file_bytes = pos 2;
  rotations = pos 1;
  max_backups = pos 3;
}

abbrev appends : Bytes → Slot
appends bytes = record quiet { moves = append bytes ∷ [] }

-- The event, the three calls of the copy, then `Sync`, `Close`, the event, the truncation and an event.
abbrev schedule : List Slot
schedule =
    quiet
    ∷ appends (codes "b")
    ∷ quiet
    ∷ appends (codes "c")
    ∷ quiet
    ∷ appends (codes "d")
    ∷ quiet
    ∷ appends (codes "e")
    ∷ appends (codes "f")
    ∷ []

abbrev world : World
world = record {
  names = (codes "l", 0) ∷ [];
  store = set_store 0 (codes "a") (λ i. []);
  next = 1;
  fd = 0;
  log_path = codes "l";
  events = [];
  schedule = schedule;
}

world-Snapshot : Snapshot (codes "l") 0 schedule (codes "a") world
unfolding lookup str_eq
world-Snapshot = record {
  here = refl;
  at_log = refl;
  open_at = refl;
  allocated = omega arith;
  left = refl;
  holds = refl;
}

rotate_copy_truncate-Accounted_example :
    Good (λ done. Accounted cfg 1 0 schedule (codes "a")) (rotate_copy_truncate cfg 1 world)
rotate_copy_truncate-Accounted_example =
    rotate_copy_truncate-Accounted cfg 1 0 schedule (codes "a") world world-Snapshot

lost_here : lost cfg 1 0 schedule (codes "a") ≡ codes "de"
unfolding appended moved_bytes
lost_here = refl

truncated :
    let (r, w) = rotate_copy_truncate cfg 1 world in
    (r ≡ ok tt) × (w.store 1 ≡ codes "abc") × (w.store 0 ≡ codes "f")
unfolding rotate_copy_truncate copy_log cut_log append_event write_rows backup_path create call
    guarded enter_with acts act lookup str_eq open_file copy truncate ◌>>=◌ label finished
truncated = (refl, refl, refl)
