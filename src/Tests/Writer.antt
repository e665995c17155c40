-- ===== src/Tests/Writer.antt =====
-- Runs of the writer over a few ticks, with records of 32 bytes and a buffer of two.
use mathlib.Core.List.{Permᴰ}
use logrotate_cache_lab.Base.{
  ℕ, ◌+◌, ◌<◌, ◌≡◌, refl, true, false, Option, none, some, List, [], ◌∷◌, ◌++◌, Bytes, codes, ◌%◌,
  ◌^◌, ◌/◌, ◌⊎◌, arith, length, str_eq, if◌then◌else◌,
}
use logrotate_cache_lab.Base.Int.{◌+ℤ◌, ◌-ℤ◌, pos, pos_part, leb_ℤ}
use logrotate_cache_lab.Strconv.{zero_pad}
use logrotate_cache_lab.Record.{RecordError, encode, prefix, has_space}
use logrotate_cache_lab.Integrity.{analyze}
use logrotate_cache_lab.Integrity.Lines.{OpenFile}
use logrotate_cache_lab.Integrity.Intact.{log_of}
use logrotate_cache_lab.Tests.Integrity.{run_id, run_id-IsRunId, active, backup}
use logrotate_cache_lab.Writer.{
  Config, Writer, WriteError, WriteAnswer, encode_failed, write_failed, fresh, flush, write_all,
  generate, add_credit, generate_tick, reopen_tick, after_write,
}
use logrotate_cache_lab.Writer.Loop.{
  Event, request, generated, flushed, reopened, Ending, Finished, run, loop, step, finish, save,
  reopen_logs,
}
use logrotate_cache_lab.Writer.Complete.{WroteAll, run-WroteAll}
use logrotate_cache_lab.Writer.Files.{Stored, total_length}
use logrotate_cache_lab.Writer.Audit.{IsIntact, analyze-run}
use logrotate_cache_lab.Writer.Retry.{loop-flush_twice}
use logrotate_cache_lab.Writer.Credit.{generate_ends}
use logrotate_cache_lab.Writer.Requests.{pending, accepts, accepted, loop-pending}

abbrev pub cfg : Config
cfg = record {
  run_id = run_id;
  path = active;
  listen_address = codes "127.0.0.1:0";
  state_path = codes "state";
  record_bytes = pos 32;
  buffer_bytes = pos 64;
  bytes_per_second = pos 64;
  flush_interval = pos 100000000;
  resident_bytes = pos 0;
}

abbrev pub text : WriteError → Bytes
text e = codes "error"

abbrev pub second : ℕ
second = 1000000000

abbrev pub quiet : Ending
quiet = record { answers = []; close_fails = false; serve_fails = false; state_fails = false }

-- The first write of the second tick takes 10 bytes, and the next the rest.
abbrev pub events : List Event
events =
    generated second []
    ∷ request true
    ∷ request true
    ∷ reopened false false []
    ∷ generated second (record { count = 10; fails = false } ∷ [])
    ∷ flushed []
    ∷ []

abbrev pub ended : Finished
ended = run text cfg true events quiet

pub clean : ended.error ≡ none
unfolding run loop step finish save reopen_logs generate_tick add_credit generate reopen_tick flush
    after_write write_all encode prefix has_space zero_pad ◌+ℤ◌ ◌-ℤ◌
clean = refl

run-WroteAll_example : WroteAll text cfg (omega arith) ended.writer
run-WroteAll_example = run-WroteAll text cfg (omega arith) true events quiet clean

-- The two files of that run, under the names that a rotation gives them.
opens : Bytes → Option OpenFile
opens path =
    if str_eq path backup
    then some (record { content = log_of run_id 32 (1 ∷ 2 ∷ []); read_fails = false })
    else if str_eq path active
    then some (record { content = log_of run_id 32 (3 ∷ 4 ∷ []); read_fails = false })
    else none

unfoldable pub logs : List Bytes
logs = ended.writer.closed ++ ended.writer.current ∷ []

pub few : total_length logs < 2 ^ 64
unfolding logs run loop step finish save reopen_logs generate_tick add_credit generate reopen_tick
    flush after_write write_all encode prefix has_space zero_pad ◌+ℤ◌ ◌-ℤ◌
few = omega arith

stored : Stored opens (backup ∷ active ∷ []) logs
unfolding opens logs run loop step finish save reopen_logs generate_tick add_credit generate
    reopen_tick flush after_write write_all encode prefix has_space zero_pad ◌+ℤ◌ ◌-ℤ◌ str_eq
stored = (refl, (refl, tt))

analyze-run_example :
    IsIntact (analyze opens run_id ended.writer.state.generated (active ∷ backup ∷ []))
unfolding logs
analyze-run_example =
    analyze-run text cfg true events quiet opens (backup ∷ active ∷ []) (active ∷ backup ∷ [])
      run_id-IsRunId (omega arith) (omega arith) clean few stored (Permᴰ.swap refl refl)

-- A writer with one record in its buffer.
one : Writer
one = record fresh { buffer = log_of run_id 32 (1 ∷ []) }

-- Ten bytes reach the file before the write fails.
torn : List WriteAnswer
torn = record { count = 10; fails = true } ∷ []

torn_error : (write_all torn one.buffer).1 ≡ some write_failed
unfolding torn one write_all log_of encode prefix has_space zero_pad
torn_error = refl

loop-flush_twice_example :
    let f = loop text cfg (flushed torn ∷ []) quiet one in
    (f.writer.current ≡ (one.current ++ (write_all torn one.buffer).0) ++ one.buffer)
    × (f.writer.state.written ≡ (one.state.written + length one.buffer / 32) % 2 ^ 64)
loop-flush_twice_example =
    loop-flush_twice text cfg torn [] quiet one write_failed (unfold one in refl)
      (unfold one log_of encode prefix has_space zero_pad in refl) torn_error refl

generate_ends_example :
    let w = add_credit 64 second fresh in
    let (v, e) = generate run_id 32 (pos_part w.credit) w in
    (leb_ℤ (pos 32) v.credit ≡ false) ⊎ ((x : RecordError) × (e ≡ some (encode_failed x)))
generate_ends_example = generate_ends run_id 32 (omega arith) (add_credit 64 second fresh)

-- Of the two requests of `events` the second is turned away.
loop-pending_example :
    pending ((loop text cfg events quiet fresh).writer) % 2 ^ 64
    ≡ (pending fresh + accepted text cfg events fresh) % 2 ^ 64
loop-pending_example = loop-pending text cfg events quiet fresh

one_accepted : accepted text cfg events fresh ≡ 1
unfolding accepted accepts run loop step finish save reopen_logs generate_tick add_credit generate
    reopen_tick flush after_write write_all encode prefix has_space zero_pad ◌+ℤ◌ ◌-ℤ◌
one_accepted = refl
