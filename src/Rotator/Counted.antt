-- ===== src/Rotator/Counted.antt =====
-- The calls of internal/rotator/copytruncate.go, by a snapshot of the log that follows them.
use logrotate_cache_lab.Base.{
  ℕ, ◌+◌, ◌<◌, ◌≡◌, ◌≢◌, refl, sym, ap, ◌∙◌, inl, inr, Bool-cases, false, Option, none, some, List,
  [], ◌∷◌, ◌++◌, Bytes, length, ◌==◌, ==_iff, take, drop, if◌then◌else◌, ok, arith,
}
use logrotate_cache_lab.Report.{RotationEvent}
use logrotate_cache_lab.Csv.{Piece}
use logrotate_cache_lab.FileSystem.{
  write_rows, Slot, World, lookup, enter, Done, finished, call, open_file, create, copy, truncate,
  set_store, on_inode, make_file,
}
use logrotate_cache_lab.FileSystem.Kept.{lookup-here, lookup-there}
use logrotate_cache_lab.FileSystem.Exact.{After, appended, enter-After}
use logrotate_cache_lab.FileSystem.Held.{
  write_rows-Good, Good, label-Good, guarded-Good, enter-Stable, Apart, Holding, Holding-Stable,
}
use logrotate_cache_lab.Rotator.{Config, at, append_event_stage, append_event}

-- The calls that the event of a phase takes.
abbrev pub noted : Config → ℕ
noted cfg = if length cfg.event_path == 0 then 0 else 1

-- A property of the world after a number of calls.
pub record Counted (Q : ℕ → World → Type 0) : Type 0 where
  pub enters : (n : ℕ) (w : World) → Q n w → Q (n + 1) ((enter w).1)
  pub aside : (n : ℕ) (w : World) (events : List Piece) → Q n w → Q n (record w { events = events })

not_equal : (a b : ℕ) → a < b → (a == b) ≡ false
not_equal a b h = ground arith

distinct : (a b : ℕ) → a ≢ b → (a == b) ≡ false
distinct a b h = ground arith

add_zero : (n : ℕ) → n + 0 ≡ n
add_zero n = omega arith

module _ (Q : ℕ → World → Type 0) (counted : Counted Q) where
  pub call-Counted : (n : ℕ) (w : World) → Q n w → Good (λ d. Q (n + 1)) (call w)
  unfolding call finished
  call-Counted n w q =
      guarded-Good (λ d. Q (n + 1)) (λ s. finished (ok tt)) w (counted.enters n w q)

  pub append_event-Counted :
      (cfg : Config) (v : RotationEvent) (n : ℕ) (w : World)
      → Q n w
      → Good (λ d. Q (n + noted cfg)) (append_event cfg v w)
  unfolding append_event finished
  append_event-Counted cfg v n w q = elim (Bool-cases (length cfg.event_path == 0)) [
    | inl p ↦ rw (p, add_zero n) q
    | inr p ↦ rw p (
        label-Good (λ d. Q (n + 1)) (at append_event_stage) (write_rows _) w
          (write_rows-Good (λ d. Q (n + 1)) _ w
            (λ events. counted.aside (n + 1) ((enter w).1) events (counted.enters n w q))))
  ]

module _ (log : Bytes) (i : ℕ) (slots : List Slot) (content : Bytes) where
  abbrev pub Logs : ℕ → World → Type 0
  Logs = After log i slots content

  pub Logs-Counted : Counted Logs
  Logs-Counted = record {
    enters = enter-After log i slots content;
    aside = λ n w events s. record {
      here = s.here;
      at_log = s.at_log;
      open_at = s.open_at;
      allocated = s.allocated;
      left = s.left;
      holds = s.holds;
    };
  }

  abbrev pub Both : Bytes → ℕ → Bytes → ℕ → World → Type 0
  Both path j bytes n w = Logs n w × Holding log path j bytes w

  pub Both-Counted : (path : Bytes) (j : ℕ) (bytes : Bytes) → Counted (Both path j bytes)
  Both-Counted path j bytes = record {
    enters = λ n w (s, h). (
      enter-After log i slots content n w s,
      enter-Stable _ (Holding-Stable log path j bytes) w h,
    );
    aside = λ n w events (s, h). (
      Logs-Counted.aside n w events s,
      (Holding-Stable log path j bytes).aside w events w.schedule h,
    );
  }

  pub open_file-Logs :
      (n : ℕ) (w : World) → Logs n w → Good (λ k v. (k ≡ i) × Logs (n + 1) v) (open_file log w)
  unfolding open_file
  open_file-Logs n w h =
      guarded-Good (λ k v. (k ≡ i) × Logs (n + 1) v) _ w
        (after ((enter w).1) (enter-After log i slots content n w h))
    where
      after :
          (v : World)
          → Logs (n + 1) v
          → Good
              (λ k u. (k ≡ i) × Logs (n + 1) u)
              (on_inode (λ k u. (ok k, u)) (lookup log v.names) v)
      after v q = rw (q.at_log) (refl, q)

  pub create-Both :
      (path : Bytes) (n : ℕ) (w : World)
      → path ≢ log
      → Logs n w
      → Good (λ j v. Both path j [] (n + 1) v) (create path w)
  unfolding create
  create-Both path n w d h =
      guarded-Good (λ j v. Both path j [] (n + 1) v) _ w
        (after ((enter w).1) (lookup path ((enter w).1.names))
          (enter-After log i slots content n w h))
    where
      after :
          (v : World) (o : Option ℕ)
          → Logs (n + 1) v
          → Good (λ j u. Both path j [] (n + 1) u) (make_file path o v)
      after v (some k) q = tt
      after v none q =
          let b = q.allocated in
          let kept : lookup log ((path, v.next) ∷ v.names) ≡ some i =
            lookup-there log path v.next v.names (λ e. d (sym e)) ∙ q.at_log in
          (
            record {
              here = q.here;
              at_log = kept;
              open_at = q.open_at;
              allocated = omega arith;
              left = q.left;
              holds = rw (not_equal i v.next (omega arith)) (q.holds);
            },
            (
              record {
                here = q.here;
                other = λ e. d (e ∙ q.here);
                at_path = lookup-here path v.next v.names;
                not_log = λ e.
                    let same : Path (Option ℕ) (some i) (some v.next) =
                      sym (ap (λ p. lookup p ((path, v.next) ∷ v.names)) q.here ∙ kept) ∙ e in
                    ground (arith, same, b);
                not_writer = λ e. omega (arith, q.open_at);
                allocated = omega arith;
              },
              rw ((==_iff v.next v.next).1 refl) refl,
            ),
          )

  not_backup : (n j : ℕ) (path : Bytes) (v : World) → Logs n v → Apart log path j v → i ≢ j
  not_backup n j path v s a e =
      a.not_log (ap (λ p. lookup p v.names) (s.here) ∙ s.at_log ∙ ap some e)

  -- The whole of the log is copied.
  pub copy-Both :
      (path : Bytes) (j n : ℕ) (w : World)
      → Both path j [] n w
      → Good (λ k. Both path j (content ++ appended (take (n + 1) slots)) (n + 1)) (copy i j w)
  unfolding copy
  copy-Both path j n w q =
      let (s, (a, empty)) = (Both-Counted path j []).enters n w q in
      elim (Bool-cases ((enter w).0.fails)) [
        | inl e ↦ rw e tt
        | inr e ↦ rw e (
          record {
            here = s.here;
            at_log = s.at_log;
            open_at = s.open_at;
            allocated = s.allocated;
            left = s.left;
            holds = rw (distinct i j (not_backup (n + 1) j path ((enter w).1) s a)) (s.holds);
          },
          (
            record {
              here = a.here;
              other = a.other;
              at_path = a.at_path;
              not_log = a.not_log;
              not_writer = a.not_writer;
              allocated = a.allocated;
            },
            rw ((==_iff j j).1 refl, empty) s.holds,
          ),
        )
      ]

  -- The log is empty then, and the backup is what it was.
  pub truncate-Both :
      (path : Bytes) (j n : ℕ) (bytes : Bytes) (w : World)
      → Both path j bytes n w
      → Good
          (λ d v. After log i (drop (n + 1) slots) [] 0 v × Holding log path j bytes v)
          (truncate log w)
  unfolding truncate finished appended
  truncate-Both path j n bytes w q =
      guarded-Good (λ d. Cut) _ w (after ((enter w).1) ((Both-Counted path j bytes).enters n w q))
    where
      Cut : World → Type 0
      Cut v = After log i (drop (n + 1) slots) [] 0 v × Holding log path j bytes v

      after :
          (v : World)
          → Both path j bytes (n + 1) v
          → Good
              (λ d u. After log i (drop (n + 1) slots) [] 0 u × Holding log path j bytes u)
              (on_inode {A = Done}
                (λ k u. (ok tt, record u { store = set_store k [] u.store }))
                (lookup log v.names)
                v)
      after v (s, (a, same)) = rw (s.at_log) (
        record {
          here = s.here;
          at_log = s.at_log;
          open_at = s.open_at;
          allocated = s.allocated;
          left = s.left;
          holds = rw ((==_iff i i).1 refl) refl;
        },
        (
          record {
            here = a.here;
            other = a.other;
            at_path = a.at_path;
            not_log = a.not_log;
            not_writer = a.not_writer;
            allocated = a.allocated;
          },
          rw (distinct j i (λ e. not_backup (n + 1) j path v s a (sym e))) same,
        ),
      )
