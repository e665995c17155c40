-- ===== src/Rotator/Events.antt =====
-- `appendEvent` and `ReadEvents` of internal/rotator/rotator.go.
use mathlib.Core.List.{map-append}
use logrotate_cache_lab.Base.{
  ℕ, ◌≡◌, ◌≢◌, refl, ap, ◌∙◌, inl, inr, Bool-cases, true, none, some, Option, List, [], ◌∷◌, ◌++◌,
  Bytes, length, ◌==◌, map, All, All-append, false, Result, ok, err, arith,
}
use logrotate_cache_lab.Base.Int.{IsInt64}
use logrotate_cache_lab.Strconv.Signed.{parse_int-format_int}
use logrotate_cache_lab.Csv.{
  whole, first_bytes, Reader, IsPlain, ReadsBack, has_return, any_return, IsPlain-of,
}
use logrotate_cache_lab.Report.{RotationEvent}
use logrotate_cache_lab.FileSystem.{
  Move, append, reopen, Slot, World, lookup, open_log, act, acts, enter_with, enter, label,
  write_rows, Done,
}
use logrotate_cache_lab.Rotator.{
  Config, event_row, read_event, collect_events, read_events, append_event, event_header,
  rows_of_event, RotateError,
}

-- What the Go types of the fields say.
abbrev pub InRange : RotationEvent → Type 0
InRange e = IsInt64 e.elapsed_ns × IsInt64 e.ordinal × IsInt64 e.bytes

read_event-event_row : (e : RotationEvent) → InRange e → read_event (event_row e) ≡ some e
unfolding read_event event_row
read_event-event_row e (h, k, l) =
    rw
      (
        parse_int-format_int e.elapsed_ns h,
        parse_int-format_int e.ordinal k,
        parse_int-format_int e.bytes l,
      )
      refl

collect_events-one : (e : RotationEvent) → InRange e → collect_events (event_row e ∷ []) ≡ e ∷ []
unfolding collect_events
collect_events-one e h =
    ap (λ o. elim o as (λ x. List RotationEvent) [ none ↦ [] | some x ↦ x ∷ [] ])
      (read_event-event_row e h)

collect_events-append :
    (rows : List (List Bytes)) (e : RotationEvent)
    → InRange e
    → collect_events (rows ++ event_row e ∷ []) ≡ collect_events rows ++ e ∷ []
unfolding collect_events
collect_events-append [] e h = collect_events-one e h
collect_events-append (row ∷ rows) e h = after (read_event row) (collect_events-append rows e h)
  where
    after :
        (o : Option RotationEvent)
        → collect_events (rows ++ event_row e ∷ []) ≡ collect_events rows ++ e ∷ []
        → elim o as (λ x. List RotationEvent) [
          | none ↦ collect_events (rows ++ event_row e ∷ [])
          | some x ↦ x ∷ collect_events (rows ++ event_row e ∷ [])
        ]
          ≡ elim o as (λ x. List RotationEvent) [
            | none ↦ collect_events rows
            | some x ↦ x ∷ collect_events rows
          ]
            ++ e ∷ []
    after none h = h
    after (some x) h = ap (λ l. x ∷ l) h

-- The writer does not touch the events.
act-events : (m : Move) (w : World) → (act m w).events ≡ w.events
unfolding act
act-events (append bytes) w = refl
act-events reopen w = after (lookup w.log_path w.names)
  where
    after : (o : Option ℕ) → (open_log o w).events ≡ w.events
    after none = refl
    after (some i) = refl

acts-events : (moves : List Move) (w : World) → (acts moves w).events ≡ w.events
unfolding acts
acts-events [] w = refl
acts-events (m ∷ moves) w = acts-events moves (act m w) ∙ act-events m w

enter_with-events : (schedule : List Slot) (w : World) → (enter_with schedule w).1.events ≡ w.events
unfolding enter_with
enter_with-events [] w = refl
enter_with-events (s ∷ rest) w = acts-events s.moves _

nil_of_length : (s : Bytes) → (length s == 0) ≡ true → s ≡ []
nil_of_length [] h = refl
nil_of_length (c ∷ s) h = ground (arith, h)

-- The event with the time of its call.
abbrev pub timed : World → RotationEvent → RotationEvent
timed w e = record e { elapsed_ns = (enter w).0.elapsed; timestamp = (enter w).0.timestamp }

-- The rows that an event adds where the size of the file is known.
abbrev rows_with : List (List Bytes) → RotationEvent → List (List Bytes)
rows_with [] e = event_header ∷ event_row e ∷ []
rows_with (row ∷ rows) e = event_row e ∷ []

rows_of_event-rows_with :
    (e : RotationEvent) (s : Slot) (rows : List (List Bytes))
    → s.stat_fails ≡ false
    → rows_of_event e s (map whole rows)
      ≡ rows_with rows (record e { elapsed_ns = s.elapsed; timestamp = s.timestamp })
rows_of_event-rows_with e s [] h = rw h refl
rows_of_event-rows_with e s (row ∷ rows) h = rw h refl

read_events-rows_with :
    (rows : List (List Bytes)) (e : RotationEvent)
    → InRange e
    → read_events (rows ++ rows_with rows e) ≡ read_events rows ++ e ∷ []
unfolding read_events
read_events-rows_with [] e h = collect_events-one e h
read_events-rows_with (first ∷ rows) e h = collect_events-append rows e h

event_header-IsPlain : IsPlain 6 event_header
unfolding has_return any_return
event_header-IsPlain = IsPlain-of event_header refl

rows_with-IsPlain :
    (rows : List (List Bytes)) (e : RotationEvent)
    → All (IsPlain 6) rows
    → IsPlain 6 (event_row e)
    → All (IsPlain 6) (rows ++ rows_with rows e)
rows_with-IsPlain [] e h p = (event_header-IsPlain, (p, tt))
rows_with-IsPlain (row ∷ rows) e h p = All-append _ (row ∷ rows) _ h (p, tt)

-- A CSV reader finds the events of `rows` in the file, and the new event as the last one; or some first
-- bytes of what was to be written stand behind what was there.
abbrev pub Recorded :
    Reader → List (List Bytes) → World → RotationEvent → Result RotateError Done × World → Type 0
Recorded read rows w e (ok done, v) =
    (found : List (List Bytes)) × (read v.events ≡ some found)
    × (read_events found ≡ read_events rows ++ timed w e ∷ [])
Recorded read rows w e (err x, v) =
    v.events ≡ w.events ++ first_bytes (enter w).0.amount (rows_with rows (timed w e))

-- With a path for the events, and a file of the events that holds whole rows, appendEvent either adds its
-- event, with the time of the call, as the last one that ReadEvents returns, or fails and leaves behind
-- the rows no more than the first bytes of what it was to write. The size of the file can be had, the
-- numbers of the event are in the range of their types, no field has a carriage return, and the CSV
-- reader reads back rows of six such fields.
pub read_events-append_event :
    (read : Reader)
    → ReadsBack read 6
    → (cfg : Config) (e : RotationEvent) (w : World) (rows : List (List Bytes))
    → cfg.event_path ≢ []
    → w.events ≡ map whole rows
    → All (IsPlain 6) rows
    → (enter w).0.stat_fails ≡ false
    → InRange (timed w e)
    → IsPlain 6 (event_row (timed w e))
    → Recorded read rows w e (append_event cfg e w)
unfolding append_event write_rows label
read_events-append_event read back cfg e w rows path held plain known range fields =
    elim (Bool-cases (length cfg.event_path == 0)) [
      | inl p ↦ absurd (path (nil_of_length _ p))
      | inr p ↦
          let same = enter_with-events w.schedule w ∙ held in
          let added = rows_of_event-rows_with e (enter w).0 rows known in
          rw (p, same, added)
            (elim (Bool-cases ((enter w).0.fails)) [
              | inl f ↦ rw (f, held) refl
              | inr f ↦ rw f (
                rows ++ rows_with rows (timed w e),
                rw⁻¹ (map-append whole rows (rows_with rows (timed w e)))
                    (back _ (rows_with-IsPlain rows (timed w e) plain fields)),
                read_events-rows_with rows (timed w e) range,
              )
            ])
    ]
