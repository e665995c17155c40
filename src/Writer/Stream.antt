-- ===== src/Writer/Stream.antt =====
-- What the writer has generated, as sequences, and where their records stand: in the files before, in
-- the open file, or in the buffer.
use logrotate_cache_lab.Base.{
  ℕ, zero, suc, ◌+◌, ◌*◌, ◌/◌, ◌%◌, ◌^◌, ◌<◌, ◌≡◌, refl, sym, ap, ◌∙◌, inl, inr, Bool, true, false,
  Bool-cases, Option, none, some, List, [], ◌∷◌, ◌++◌, append-nil, append_assoc, map, Bytes, ◌==◌,
  length, length-append, take, drop, Result, ok, err, arith,
}
use logrotate_cache_lab.Integrity.Intact.{log_of, written}
use logrotate_cache_lab.Base.Int.{pos, leb_ℤ}
use logrotate_cache_lab.Record.{RecordError, encode}
use logrotate_cache_lab.Record.RoundTrip.{length-encode}
use logrotate_cache_lab.Writer.{
  Writer, WriteError, WriteAnswer, write_all, write_file, after_write, flush, count_record,
  add_record, round, generate,
}

-- The numbers that `n` records get, one after the other, as a `uint64` counts.
abbrev pub numbers : ℕ → List ℕ
numbers zero = []
numbers (suc n) = numbers n ++ (suc n % 2 ^ 64) ∷ []

abbrev pub all_of : List (List ℕ) → List ℕ
all_of [] = []
all_of (xs ∷ xss) = xs ++ all_of xss

pub all_of-append : (xss yss : List (List ℕ)) → all_of (xss ++ yss) ≡ all_of xss ++ all_of yss
all_of-append [] yss = refl
all_of-append (xs ∷ xss) yss = simp (all_of-append xss yss, append_assoc)

pub log_of-append :
    (run_id : Bytes) (size : ℕ) (xs ys : List ℕ)
    → log_of run_id size (xs ++ ys) ≡ log_of run_id size xs ++ log_of run_id size ys
log_of-append run_id size [] ys = refl
log_of-append run_id size (x ∷ xs) ys = simp (log_of-append run_id size xs ys, append_assoc)

pub take-append-drop {ℓ} : {A : Type ℓ} (n : ℕ) (xs : List A) → take n xs ++ drop n xs ≡ xs
take-append-drop zero xs = refl
take-append-drop (suc n) [] = refl
take-append-drop (suc n) (x ∷ xs) = ap (λ ys. x ∷ ys) (take-append-drop n xs)

-- A write without an error took all the bytes.
pub write_all_complete :
    (answers : List WriteAnswer) (bytes : Bytes)
    → (write_all answers bytes).1 ≡ none
    → (write_all answers bytes).0 ≡ bytes
unfolding write_all
write_all_complete answers [] h = refl
write_all_complete [] (c ∷ s) h = refl
write_all_complete (a ∷ answers) (c ∷ s) h =
    ground
      (arith, write_all_complete answers (drop a.count (c ∷ s)), take-append-drop a.count (c ∷ s))

pub write_file_complete :
    (is_open : Bool) (answers : List WriteAnswer) (bytes : Bytes)
    → (write_file is_open answers bytes).1 ≡ none
    → (write_file is_open answers bytes).0 ≡ bytes
write_file_complete true answers bytes h = write_all_complete answers bytes h
write_file_complete false answers bytes h = cc

module _ (run_id : Bytes) (size : ℕ) where
  -- `files` and `here` are the sequences of the records in the closed files and in the open one,
  -- `held` those in the buffer.
  pub record Tracks (w : Writer) : Type 0 where
    pub flushed : ℕ
    pub buffered : ℕ
    pub files : List (List ℕ)
    pub here : List ℕ
    pub held : List ℕ
    pub closed_logs : w.closed ≡ map (log_of run_id size) files
    pub current_log : w.current ≡ log_of run_id size here
    pub buffer_log : w.buffer ≡ log_of run_id size held
    pub order : (all_of files ++ here) ++ held ≡ numbers (flushed + buffered)
    pub length_held : length held ≡ buffered
    pub length_buffer : length w.buffer ≡ buffered * size
    pub counts_generated : w.state.generated ≡ (flushed + buffered) % 2 ^ 64
    pub counts_written : w.state.written ≡ flushed % 2 ^ 64

same_numbers : (n m : ℕ) → n ≡ m → numbers n ≡ numbers m
same_numbers n m e = ap numbers e

mul-div_cancel : (n size : ℕ) → 0 < size → n * size / size ≡ n
mul-div_cancel n size h = grind arith

count_written :
    (written flushed buffered len size : ℕ)
    → 0 < size
    → written ≡ flushed % 2 ^ 64
    → len ≡ buffered * size
    → (written + len / size) % 2 ^ 64 ≡ (flushed + buffered) % 2 ^ 64
count_written written flushed buffered len size h e l =
    rw (e, l, mul-div_cancel buffered size h) (omega arith)

module _ (run_id : Bytes) (size : ℕ) (positive : 0 < size) where
  after_write-Tracks :
      (w : Writer) (r : Bytes × Option WriteError)
      → (r.1 ≡ none → r.0 ≡ w.buffer)
      → Tracks run_id size w
      → (after_write size w r).1 ≡ none
      → Tracks run_id size ((after_write size w r).0)
  unfolding after_write
  after_write-Tracks w (bytes, none) same t h = record {
    flushed = t.flushed + t.buffered;
    buffered = 0;
    files = t.files;
    here = t.here ++ t.held;
    held = [];
    closed_logs = t.closed_logs;
    current_log =
        rw (same refl, t.buffer_log, t.current_log, log_of-append run_id size t.here t.held);
    buffer_log = refl;
    order =
        append-nil _
        ∙ sym (append_assoc _ t.here t.held)
        ∙ t.order
        ∙ same_numbers (t.flushed + t.buffered) (t.flushed + t.buffered + 0) (omega arith);
    length_held = refl;
    length_buffer = omega arith;
    counts_generated = rw t.counts_generated (omega arith);
    counts_written =
        count_written _ _ _ _ size positive t.counts_written t.length_buffer ∙ omega arith;
  }
  after_write-Tracks w (bytes, some e) same t h = cc

  pub flush-Tracks :
      (answers : List WriteAnswer) (w : Writer)
      → Tracks run_id size w
      → (flush size answers w).1 ≡ none
      → Tracks run_id size ((flush size answers w).0)
  unfolding flush
  flush-Tracks answers w t = elim (Bool-cases (length w.buffer == 0)) [
    | inl e ↦ rw e (λ h. t)
    | inr e ↦ rw e (
        after_write-Tracks w (write_file w.is_open answers w.buffer)
          (write_file_complete w.is_open answers w.buffer) t)
  ]

  add-Tracks :
      (w : Writer) (bytes : Bytes)
      → encode run_id (count_record w).state.generated size ≡ ok bytes
      → Tracks run_id size w
      → Tracks run_id size (add_record size bytes (count_record w))
  add-Tracks w bytes e t =
      let k = suc (t.flushed + t.buffered) % 2 ^ 64 in
      let next : (w.state.generated + 1) % 2 ^ 64 ≡ k = rw t.counts_generated (omega arith) in
      let encoded : encode run_id k size ≡ ok bytes = rw next at e in
      record {
        flushed = t.flushed;
        buffered = suc t.buffered;
        files = t.files;
        here = t.here;
        held = t.held ++ k ∷ [];
        closed_logs = t.closed_logs;
        current_log = t.current_log;
        buffer_log =
            rw (log_of-append run_id size t.held (k ∷ []), encoded, append-nil, t.buffer_log) refl;
        order =
            sym (append_assoc (all_of t.files ++ t.here) t.held (k ∷ []))
            ∙ ap (λ xs. xs ++ k ∷ []) t.order
            ∙ same_numbers (suc (t.flushed + t.buffered)) (t.flushed + suc t.buffered)
                (omega arith);
        length_held = omega (arith, length-append t.held (k ∷ []), t.length_held);
        length_buffer = grind (
          arith,
          length-append w.buffer bytes,
          length-encode run_id k size encoded,
          t.length_buffer,
        );
        counts_generated = rw t.counts_generated (omega arith);
        counts_written = t.counts_written;
      }

  pub generate-Tracks :
      (fuel : ℕ) (w : Writer)
      → Tracks run_id size w
      → (generate run_id size fuel w).1 ≡ none
      → Tracks run_id size ((generate run_id size fuel w).0)
  unfolding generate
  generate-Tracks zero w t = λ h. t
  generate-Tracks (suc fuel) w t = elim (Bool-cases (leb_ℤ (pos size) w.credit)) [
    | inr e ↦ rw e (λ h. t)
    | inl e ↦ rw e (
        after (encode run_id (count_record w).state.generated size)
          (λ bytes k. add-Tracks w bytes k t)
          (λ bytes. generate-Tracks fuel (add_record size bytes (count_record w))))
  ]
    where
      after :
          (r : Result RecordError Bytes)
          → ((bytes : Bytes)
              → r ≡ ok bytes
              → Tracks run_id size (add_record size bytes (count_record w)))
          → ((bytes : Bytes)
              → Tracks run_id size (add_record size bytes (count_record w))
              → (generate run_id size fuel (add_record size bytes (count_record w))).1 ≡ none
              → Tracks run_id size
                  ((generate run_id size fuel (add_record size bytes (count_record w))).0))
          → (round run_id size (generate run_id size fuel) w r).1 ≡ none
          → Tracks run_id size ((round run_id size (generate run_id size fuel) w r).0)
      after (ok bytes) add rest h = rest bytes (add bytes refl) h
      after (err x) add rest h = cc
