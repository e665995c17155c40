-- ===== src/Monitor/Written.antt =====
-- The file that the loop of internal/monitor/monitor.go leaves, as rows of `encoding/csv`.
use logrotate_cache_lab.Base.{
  ℕ, suc, if◌then◌else◌, ◌≡◌, ◌≢◌, refl, sym, ap, ◌∙◌, Bool, true, false, Option, none, some, List,
  [], ◌∷◌, ◌++◌, map, Bytes, append_assoc, append-nil, Result, ok, err, All, arith,
}
use mathlib.Core.List.{map-append}
use logrotate_cache_lab.Base.Int.{ℤ, pos, negsuc}
use logrotate_cache_lab.Csv.{Piece, whole, first_bytes, IsPlain}
use logrotate_cache_lab.Report.{Sample}
use logrotate_cache_lab.Strconv.{format_uint, format_int}
use logrotate_cache_lab.Strconv.Parse.{IsDigits}
use logrotate_cache_lab.Strconv.Format.{format_uint-IsDigits}
use logrotate_cache_lab.Monitor.{ptr_string, sample_row}
use logrotate_cache_lab.Monitor.Files.{
  Config, Flush, Tick, MonitorError, write_failed, sample_of, sample_rows, samples_before,
  flush_pieces,
}

-- No carriage return.
abbrev pub IsClean : Bytes → Type 0
IsClean s = All (λ c. c ≢ 13) s

IsDigits-IsClean : (s : Bytes) → IsDigits s → IsClean s
IsDigits-IsClean [] h = tt
IsDigits-IsClean (c ∷ s) (hc, h) = ground (arith, IsDigits-IsClean s h)

format_uint-IsClean : (n : ℕ) → IsClean (format_uint n)
format_uint-IsClean n = IsDigits-IsClean (format_uint n) (format_uint-IsDigits n)

format_int-IsClean : (z : ℤ) → IsClean (format_int z)
unfolding format_int
format_int-IsClean (pos n) = format_uint-IsClean n
format_int-IsClean (negsuc n) = (λ e. omega arith, format_uint-IsClean (suc n))

ptr_string-IsClean : (o : Option ℕ) → IsClean (ptr_string o)
unfolding ptr_string
ptr_string-IsClean none = tt
ptr_string-IsClean (some n) = format_uint-IsClean n

-- The three texts of a row decide whether it is read back.
pub sample_row-IsPlain :
    (s : Sample)
    → IsClean s.timestamp
    → IsClean s.strategy
    → IsClean s.run_id
    → IsPlain 16 (sample_row s)
unfolding sample_row
sample_row-IsPlain s t g r = (
  refl,
  (
    format_int-IsClean s.elapsed_ns,
    (
      t,
      (
        g,
        (
          r,
          (
            format_uint-IsClean s.memory_current,
            (
              format_uint-IsClean s.cache,
              (
                format_uint-IsClean s.rss,
                (
                  ptr_string-IsClean s.anon,
                  (
                    ptr_string-IsClean s.inactive_file,
                    (
                      ptr_string-IsClean s.active_file,
                      (
                        ptr_string-IsClean s.dirty,
                        (
                          ptr_string-IsClean s.writeback,
                          (
                            ptr_string-IsClean s.shmem,
                            (
                              format_uint-IsClean s.active_bytes,
                              (
                                format_uint-IsClean s.backup_bytes,
                                (format_int-IsClean s.backup_count, tt),
                              ),
                            ),
                          ),
                        ),
                      ),
                    ),
                  ),
                ),
              ),
            ),
          ),
        ),
      ),
    ),
  ),
)

module _ (cfg : Config) (end : Flush) (flushes : end.fails ≡ false) where
  abbrev rows_of : List (List Bytes) → List Tick → List (List Bytes)
  rows_of pending ticks = pending ++ map sample_row (samples_before cfg ticks)

  -- A loop of which no write fails has written the rows of the samples before the first failure.
  pub sample_rows-whole :
      (pending : List (List Bytes)) (ticks : List Tick)
      → (sample_rows cfg end pending ticks).1 ≢ some write_failed
      → (sample_rows cfg end pending ticks).0 ≡ map whole (rows_of pending ticks)
  unfolding sample_rows samples_before
  sample_rows-whole pending [] d = rw (flushes, append-nil pending) refl
  sample_rows-whole pending (t ∷ ticks) d =
      by_sample (sample_of cfg t) t.writes (sample_rows-whole [] ticks) d
    where
      rest : List Piece × Option MonitorError
      rest = sample_rows cfg end [] ticks

      samples : List Sample
      samples = samples_before cfg ticks

      loop : Result MonitorError Sample → Bool → List Piece × Option MonitorError
      loop r writes = elim r [
        | err x ↦ (flush_pieces end pending, some x)
        | ok s ↦
            let rows = pending ++ sample_row s ∷ [] in
            if writes
            then (map whole rows ++ rest.0, rest.1)
            else (first_bytes t.amount rows, some write_failed)
      ]

      before : Result MonitorError Sample → Bool → List Sample
      before r writes = elim r [ err x ↦ [] | ok s ↦ if writes then s ∷ samples else [] ]

      by_sample :
          (r : Result MonitorError Sample) (writes : Bool)
          → (rest.1 ≢ some write_failed → rest.0 ≡ map whole (map sample_row samples))
          → (loop r writes).1 ≢ some write_failed
          → (loop r writes).0 ≡ map whole (pending ++ map sample_row (before r writes))
      by_sample (err x) writes h d = rw (flushes, append-nil pending) refl
      by_sample (ok s) true h d =
          let rows = map sample_row samples in
          ap (λ pieces. map whole (pending ++ sample_row s ∷ []) ++ pieces) (h d)
          ∙ sym (map-append whole (pending ++ sample_row s ∷ []) rows)
          ∙ ap (map whole) (append_assoc pending (sample_row s ∷ []) rows)
      by_sample (ok s) false h d = absurd (d refl)
