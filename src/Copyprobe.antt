-- ===== src/Copyprobe.antt =====
-- tools/copyprobe/main.go: the copy whose system calls are traced, over the directory of FileSystem. The
-- deferred `Close` of the source changes nothing. Nobody else is taken to write to the destination.
pub mod Calm
pub mod Copies
use logrotate_cache_lab.Base.{ℕ, Option, none, some, List, [], ◌∷◌, Bytes, Result, ok, err}
use logrotate_cache_lab.FileSystem.{
  World, lookup, set_store, add_file, Done, Program, ◌>>=◌, finished, FileError, guarded, call,
  open_file, copy,
}

abbrev pub cut_or_make : Bytes → Option ℕ → Program FileError ℕ
cut_or_make path none w = (ok w.next, add_file path w)
cut_or_make path (some i) w = (ok i, record w { store = set_store i [] w.store })

-- `os.Create`: a file that is there is cut to nothing.
unfoldable pub create_empty : Bytes → Program FileError ℕ
create_empty path = guarded (λ s w. cut_or_make path (lookup path w.names) w)

unfoldable pub copy_file : Bytes → Bytes → Program FileError Done
copy_file source destination = do
  from ← open_file source
  out ← create_empty destination
  written ← copy from out
  synced ← call
  closed ← call
  finished (ok tt)

-- How the program ends: a usage message and an error both give exit code 2.
pub data Status : Type 0 where
  succeeded : Status
  usage : Status
  panicked : FileError → Status

abbrev pub status_of : Result FileError Done × World → Status × World
status_of (ok done, w) = (succeeded, w)
status_of (err e, w) = (panicked e, w)

-- The first argument is the name of the program.
unfoldable pub copyprobe : List Bytes → World → Status × World
copyprobe (program ∷ source ∷ destination ∷ []) w = status_of (copy_file source destination w)
copyprobe arguments w = (usage, w)
