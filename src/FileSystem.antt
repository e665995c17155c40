-- ===== src/FileSystem.antt =====
-- The system calls that the rotator makes, over one directory that it shares with the writer of the
-- log: a name leads to an inode, and the writer keeps the inode it opened, whatever its name becomes.
-- Between any two calls the writer takes the moves that a schedule gives it, and each call may fail.
pub mod Kept
pub mod Calls
pub mod Files
pub mod Held
pub mod Exact
use logrotate_cache_lab.Base.{
  ℕ, ◌+◌, ◌≡◌, Bool, true, false, Option, none, some, List, [], ◌∷◌, ◌++◌, Bytes, str_eq, ◌==◌,
  length, take, map, if◌then◌else◌, Result, ok, err,
}
use logrotate_cache_lab.Base.Int.{ℤ, pos}
use logrotate_cache_lab.Csv.{Piece, whole, first_bytes}

-- The writer appends to the file it has open, or it opens the path of the log again.
pub data Move : Type 0 where
  append : Bytes → Move
  reopen : Move

-- What happens at one call: the moves of the writer before it, whether it fails, how many bytes a
-- copy or a write that fails has written, whether the size of an open file can be had, the status of an HTTP response, and the time.
pub record Slot : Type 0 where
  pub moves : List Move
  pub fails : Bool
  pub stat_fails : Bool
  pub amount : ℕ
  pub status : ℕ
  pub elapsed : ℤ
  pub timestamp : Bytes

abbrev pub Names : Type 0
Names = List (Bytes × ℕ)

pub record World : Type 0 where
  pub names : Names
  pub store : ℕ → Bytes
  pub next : ℕ
  pub fd : ℕ
  pub log_path : Bytes
  pub events : List Piece
  pub schedule : List Slot

unfoldable pub lookup : Bytes → Names → Option ℕ
lookup name [] = none
lookup name ((n, i) ∷ names) = if str_eq name n then some i else lookup name names

unfoldable pub unlink : Bytes → Names → Names
unlink name [] = []
unlink name ((n, i) ∷ names) =
    let rest = unlink name names in if str_eq name n then rest else (n, i) ∷ rest

abbrev pub set_store : ℕ → Bytes → (ℕ → Bytes) → ℕ → Bytes
set_store i bytes store j = if j == i then bytes else store j

-- A new file, empty.
abbrev pub add_file : Bytes → World → World
add_file path w = record w {
  names = (path, w.next) ∷ w.names;
  store = set_store w.next [] w.store;
  next = w.next + 1;
}

abbrev pub open_log : Option ℕ → World → World
open_log none w = record (add_file w.log_path w) { fd = w.next }
open_log (some i) w = record w { fd = i }

-- The log is opened with `O_CREATE|O_APPEND`.
unfoldable pub act : Move → World → World
act (append bytes) w = record w { store = set_store w.fd (w.store w.fd ++ bytes) w.store }
act reopen w = open_log (lookup w.log_path w.names) w

unfoldable pub acts : List Move → World → World
acts [] w = w
acts (m ∷ moves) w = acts moves (act m w)

-- After the schedule the writer is quiet and no call fails.
abbrev pub quiet : Slot
quiet = record {
  moves = [];
  fails = false;
  stat_fails = false;
  amount = 0;
  status = 200;
  elapsed = pos 0;
  timestamp = [];
}

unfoldable pub enter_with : List Slot → World → Slot × World
enter_with [] w = (quiet, w)
enter_with (s ∷ rest) w = (s, acts s.moves (record w { schedule = rest }))

abbrev pub enter : World → Slot × World
enter w = enter_with w.schedule w

-- The value of a call that only succeeds or fails.
abbrev pub Done : Type 0
Done = Unit {0}

-- A program returns a value or an error, and the world it leaves behind.
abbrev pub Program {ℓ κ} : Type ℓ → Type κ → Type (ℓ ⊔ κ)
Program E A = World → Result E A × World

abbrev pub continue {ℓ κ μ} :
    {E : Type ℓ} {A : Type κ} {B : Type μ}
    → Result E A × World
    → (A → Program E B)
    → Result E B × World
continue (ok a, w) f = f a w
continue (err e, w) f = (err e, w)

infixl 5 ◌>>=◌
unfoldable pub ◌>>=◌ {ℓ κ μ} :
    {E : Type ℓ} {A : Type κ} {B : Type μ} → Program E A → (A → Program E B) → Program E B
m >>= f = λ w. continue (m w) f

unfoldable pub finished {ℓ κ} : {E : Type ℓ} {A : Type κ} → Result E A → Program E A
finished r w = (r, w)

abbrev pub relabel {ℓ κ μ} :
    {E : Type ℓ} {E' : Type κ} {A : Type μ} → (E → E') → Result E A × World → Result E' A × World
relabel f (ok a, w) = (ok a, w)
relabel f (err e, w) = (err (f e), w)

unfoldable pub label {ℓ κ μ} :
    {E : Type ℓ} {E' : Type κ} {A : Type μ} → (E → E') → Program E A → Program E' A
label f m w = relabel f (m w)

pub data FileError : Type 0 where
  not_exist : FileError
  exist : FileError
  fault : FileError

-- A call that fails leaves the directory as it is.
unfoldable pub guarded {ℓ} : {A : Type ℓ} → (Slot → Program FileError A) → Program FileError A
guarded f w = let (s, w') = enter w in if s.fails then (err fault, w') else f s w'

-- `Sync`, `Close`, `Chown`, `Chmod`.
unfoldable pub call : Program FileError Done
call = guarded (λ s. finished (ok tt))

-- The calls that add rows to the file of the events, which nobody else writes: the directory, the opened
-- file, its size and the write. Where one but the size fails, the first bytes of the rows may be there.
unfoldable pub write_rows : (Slot → List Piece → List (List Bytes)) → Program FileError Done
write_rows rows w =
    let (s, w') = enter w in
    let added = rows s w'.events in
    (
      if s.fails then err fault else ok tt,
      record w' {
        events = w'.events ++ (if s.fails then first_bytes s.amount added else map whole added);
      },
    )

abbrev pub on_inode {ℓ} : {A : Type ℓ} → (ℕ → Program FileError A) → Option ℕ → Program FileError A
on_inode f none = finished (err not_exist)
on_inode f (some i) = f i

-- `os.Stat`: the size.
unfoldable pub stat : Bytes → Program FileError ℕ
stat path = guarded (λ s w. on_inode (λ i w. (ok (length (w.store i)), w)) (lookup path w.names) w)

-- `os.Open`
unfoldable pub open_file : Bytes → Program FileError ℕ
open_file path = guarded (λ s w. on_inode (λ i w. (ok i, w)) (lookup path w.names) w)

abbrev pub make_file : Bytes → Option ℕ → Program FileError ℕ
make_file path none w = (ok w.next, add_file path w)
make_file path (some i) w = (err exist, w)

-- `os.OpenFile` with `O_CREATE|O_EXCL`
unfoldable pub create : Bytes → Program FileError ℕ
create path = guarded (λ s w. make_file path (lookup path w.names) w)

abbrev pub move_name : Bytes → Bytes → ℕ → World → World
move_name from to i w = record w { names = (to, i) ∷ unlink to (unlink from w.names) }

-- `os.Rename`: what the new name led to is gone.
unfoldable pub rename : Bytes → Bytes → Program FileError Done
rename from to =
    guarded (λ s w. on_inode (λ i w. (ok tt, move_name from to i w)) (lookup from w.names) w)

-- `os.Truncate` to 0
unfoldable pub truncate : Bytes → Program FileError Done
truncate path = guarded (λ s w.
    on_inode (λ i w. (ok tt, record w { store = set_store i [] w.store })) (lookup path w.names) w)

-- `os.Remove`
unfoldable pub remove : Bytes → Program FileError Done
remove path = guarded (λ s w.
    on_inode (λ i w. (ok tt, record w { names = unlink path w.names })) (lookup path w.names) w)

-- `io.Copy` from one open file to the end of another. The source only grows meanwhile, so what it
-- holds at the last read is copied; a copy that fails has copied the first bytes.
unfoldable pub copy : ℕ → ℕ → Program FileError ℕ
copy from to w =
    let (s, w') = enter w in
    let bytes = if s.fails then take s.amount (w'.store from) else w'.store from in
    (
      if s.fails then err fault else ok (length bytes),
      record w' { store = set_store to (w'.store to ++ bytes) w'.store },
    )
