-- ===== src/Writer.antt =====
-- internal/writer/writer.go: the generator of records, its buffer, and the loop that flushes it and
-- opens the log again. One event of the loop is one case of its `select`; what the operating system
-- answers to the calls of the case comes with the event.
pub mod Stream
pub mod Loop
pub mod Steps
pub mod Complete
pub mod Files
pub mod Shuffle
pub mod Audit
pub mod Essence
pub mod Running
pub mod Served
pub mod Retry
pub mod Credit
pub mod Requests
pub mod Reopens
use logrotate_cache_lab.Base.{
  ℕ, zero, suc, ◌+◌, ◌*◌, ◌/◌, ◌%◌, ◌^◌, Bool, true, false, ◌||◌, Option, none, some, List, [], ◌∷◌,
  ◌++◌, Bytes, codes, leb, ◌==◌, if◌then◌else◌, length, take, drop, Result, ok, err,
}
use logrotate_cache_lab.Base.Int.{
  ℤ, pos, pos_part, leb_ℤ, ◌+ℤ◌, ◌-ℤ◌, wrap_int64, to_int64, quotient,
}
use logrotate_cache_lab.Report.{WriterState}
use logrotate_cache_lab.Record.{RecordError, encode}

pub record Config : Type 0 where
  pub run_id : Bytes
  pub path : Bytes
  pub listen_address : Bytes
  pub state_path : Bytes
  pub record_bytes : ℤ
  pub buffer_bytes : ℤ
  pub bytes_per_second : ℤ
  pub flush_interval : ℤ
  pub resident_bytes : ℤ

pub data WriteError : Type 0 where
  invalid_configuration : WriteError
  listen_failed : WriteError
  start_failed : WriteError
  encode_failed : RecordError → WriteError
  write_failed : WriteError
  zero_write : WriteError
  close_failed : WriteError
  reopen_failed : WriteError
  serve_failed : WriteError
  state_failed : WriteError

-- `current` is what was written since the log was last opened, `closed` what was written between the
-- openings before it, in order;
-- `queued` is the channel of one place that asks for the log to be opened again.
pub record Writer : Type 0 where
  pub buffer : Bytes
  pub credit : ℤ
  pub queued : Bool
  pub is_open : Bool
  pub closed : List Bytes
  pub current : Bytes
  pub state : WriterState

-- One answer of `file.Write`: how many of the bytes it took, and whether it failed.
pub record WriteAnswer : Type 0 where
  pub count : ℕ
  pub fails : Bool

abbrev with_defaults : Config → Config
with_defaults cfg = record cfg {
  flush_interval = if leb_ℤ cfg.flush_interval (pos 0) then pos 100000000 else cfg.flush_interval;
  listen_address =
      if length cfg.listen_address == 0 then codes "127.0.0.1:0" else cfg.listen_address;
}

-- `New`: the configuration that the writer runs with.
unfoldable pub new : Bool → Config → Result WriteError Config
new listens cfg =
    if length cfg.run_id == 0
      || length cfg.path == 0
      || leb_ℤ cfg.record_bytes (pos 0)
      || leb_ℤ cfg.buffer_bytes (pos 0)
      || leb_ℤ cfg.bytes_per_second (pos 0)
    then err invalid_configuration
    else if listens
    then ok (with_defaults cfg)
    else err listen_failed

abbrev pub fresh : Writer
fresh = record {
  buffer = [];
  credit = pos 0;
  queued = false;
  is_open = true;
  closed = [];
  current = [];
  state = record {
    generated = 0;
    written = 0;
    reopen_requests = 0;
    reopen_failures = 0;
    last_error = [];
  };
}

-- The loop of `flush`: the bytes that reached the file, and the error. After the answers every write
-- takes all that it is given.
unfoldable pub write_all : List WriteAnswer → Bytes → Bytes × Option WriteError
write_all answers [] = ([], none)
write_all [] (c ∷ s) = (c ∷ s, none)
write_all (a ∷ answers) (c ∷ s) =
    let (rest, e) = write_all answers (drop a.count (c ∷ s)) in
    let taken = take a.count (c ∷ s) in
    if a.fails
    then (taken, some write_failed)
    else if a.count == 0
    then ([], some zero_write)
    else (taken ++ rest, e)

-- A file that is closed, or was never opened, takes nothing.
abbrev pub write_file : Bool → List WriteAnswer → Bytes → Bytes × Option WriteError
write_file true answers bytes = write_all answers bytes
write_file false answers bytes = ([], some write_failed)

abbrev pub set_state : WriterState → Writer → Writer
set_state s w = record w { state = s }

-- The case goes on only if there was no error.
abbrev pub and_then :
    Writer × Option WriteError → (Writer → Writer × Option WriteError) → Writer × Option WriteError
and_then (w, none) f = f w
and_then (w, some e) f = (w, some e)

-- `byteCredit += BytesPerSecond * elapsed / time.Second`
unfoldable pub add_credit : ℕ → ℕ → Writer → Writer
add_credit rate elapsed w = record w {
  credit = to_int64 (w.credit +ℤ quotient (wrap_int64 (rate * elapsed)) 1000000000);
}

abbrev pub count_record : Writer → Writer
count_record w =
    let s = w.state in set_state (record s { generated = (s.generated + 1) % 2 ^ 64 }) w

module _ (size : ℕ) where
  -- A buffer that was not written whole stays as it was.
  unfoldable pub after_write : Writer → Bytes × Option WriteError → Writer × Option WriteError
  after_write w (bytes, none) =
      let s = w.state in
      (
        record w {
          current = w.current ++ bytes;
          buffer = [];
          state = record s { written = (s.written + length w.buffer / size) % 2 ^ 64 };
        },
        none,
      )
  after_write w (bytes, some e) = (record w { current = w.current ++ bytes }, some e)

  unfoldable pub flush : List WriteAnswer → Writer → Writer × Option WriteError
  flush answers w =
      if length w.buffer == 0
      then (w, none)
      else after_write w (write_file w.is_open answers w.buffer)

  abbrev pub add_record : Bytes → Writer → Writer
  add_record bytes w = record w { buffer = w.buffer ++ bytes; credit = w.credit -ℤ pos size }

  abbrev pub opened : List WriteAnswer → Writer → Writer × Option WriteError
  opened answers w = flush answers (record w { closed = w.closed ++ w.current ∷ []; current = [] })

  -- The request is taken from the channel and counted.
  abbrev pub take_request : Writer → Writer
  take_request w =
      let s = w.state in
      record w {
        queued = false;
        state = record s { reopen_requests = (s.reopen_requests + 1) % 2 ^ 64 };
      }

  abbrev pub note_failure : Bytes → WriterState → WriterState
  note_failure text s = record s {
    reopen_failures = (s.reopen_failures + 1) % 2 ^ 64;
    last_error = text;
  }

  -- By whether `Close` and `OpenFile` fail. After either there is no open file.
  abbrev pub try_reopen :
      (WriteError → Bytes) → Bool → Bool → List WriteAnswer → Writer → Writer × Option WriteError
  try_reopen text true open_fails answers w = (record w { is_open = false }, some close_failed)
  try_reopen text false true answers w = (
    record w { is_open = false; state = note_failure (text reopen_failed) w.state },
    some reopen_failed,
  )
  try_reopen text false false answers w = opened answers w

  -- The case of the channel is there only if something is queued.
  unfoldable pub reopen_tick :
      (WriteError → Bytes) → Bool → Bool → List WriteAnswer → Writer → Writer × Option WriteError
  reopen_tick text close_fails open_fails answers w =
      let rest = try_reopen text close_fails open_fails answers (take_request w) in
      if w.queued then rest else (w, none)

module _ (run_id : Bytes) (size : ℕ) where
  -- The rest of a round, once the record is encoded.
  abbrev pub round :
      (Writer → Writer × Option WriteError)
      → Writer
      → Result RecordError Bytes
      → Writer × Option WriteError
  round rest w (err e) = (count_record w, some (encode_failed e))
  round rest w (ok bytes) = rest (add_record size bytes (count_record w))

  -- The loop over the credit. A round takes at least one byte of it, so the credit is fuel enough.
  unfoldable pub generate : ℕ → Writer → Writer × Option WriteError
  generate zero w = (w, none)
  generate (suc fuel) w =
      let rest = round (generate fuel) w (encode run_id (count_record w).state.generated size) in
      if leb_ℤ (pos size) w.credit then rest else (w, none)

  unfoldable pub generate_tick : ℕ → ℕ → ℕ → List WriteAnswer → Writer → Writer × Option WriteError
  generate_tick limit rate elapsed answers w =
      let credited = add_credit rate elapsed w in
      and_then (generate (pos_part credited.credit) credited)
        (λ w. if leb limit (length w.buffer) then flush size answers w else (w, none))
