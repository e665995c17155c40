-- ===== src/Rotator/Copied.antt =====
-- `rotateCopyTruncate` where it succeeds: what the log held at the start is in the backup.
use logrotate_cache_lab.Base.{
  ℕ, ◌≡◌, ◌≢◌, refl, sym, ap, subst, ◌∙◌, inl, inr, Bool-cases, [], ◌∷◌, none, some, Option, Bytes,
  length, ◌==◌, ==_iff, ok, arith,
}
use logrotate_cache_lab.Report.{RotationEvent}
use logrotate_cache_lab.FileSystem.{
  write_rows, World, lookup, enter, Done, finished, open_file, create, copy, truncate, set_store,
  on_inode, make_file,
}
use logrotate_cache_lab.FileSystem.Kept.{Prefix, Prefix-trans, lookup-here, lookup-there}
use logrotate_cache_lab.FileSystem.Calls.{fresh_store}
use logrotate_cache_lab.FileSystem.Held.{
  write_rows-Good, Good, bind-Good, label-Good, guarded-Good, Stable, enter-Stable, call-Stable,
  InLog, InLog-Stable, Holding, Holding-Stable,
}
use logrotate_cache_lab.Rotator.{
  Config, at, append_event_stage, append_event, backup_path, copy_log, cut_log,
  rotate_copy_truncate,
}
use logrotate_cache_lab.Rotator.Safe.{backup_path_ne}

append_event-Good :
    (P : World → Type 0)
    → Stable P
    → (cfg : Config) (v : RotationEvent) (w : World) → P w
    → Good (λ done. P) (append_event cfg v w)
unfolding append_event finished
append_event-Good P stable cfg v w h = elim (Bool-cases (length cfg.event_path == 0)) [
  | inl p ↦ rw p h
  | inr p ↦ rw p (
      label-Good (λ done. P) (at append_event_stage) (write_rows _) w
        (write_rows-Good (λ done. P) _ w
          (λ events.
            stable.aside ((enter w).1) events ((enter w).1.schedule) (enter-Stable P stable w h))))
]

module _ (log : Bytes) (i : ℕ) (bytes : Bytes) where
  open_file-Good :
      (w : World)
      → InLog log i bytes w
      → Good (λ k v. (k ≡ i) × InLog log i bytes v) (open_file log w)
  unfolding open_file
  open_file-Good w h =
      guarded-Good (λ k v. (k ≡ i) × InLog log i bytes v) _ w
        (after ((enter w).1) (enter-Stable _ (InLog-Stable log i bytes) w h))
    where
      after :
          (v : World)
          → InLog log i bytes v
          → Good
              (λ k u. (k ≡ i) × InLog log i bytes u)
              (on_inode (λ k u. (ok k, u)) (lookup log v.names) v)
      after v q = rw (sym (ap (λ p. lookup p v.names) q.here) ∙ q.at_log) (refl, q)

  create-Good :
      (path : Bytes) (w : World)
      → path ≢ log
      → InLog log i bytes w
      → Good (λ j v. InLog log i bytes v × Holding log path j [] v) (create path w)
  unfolding create
  create-Good path w d h =
      guarded-Good (λ j v. InLog log i bytes v × Holding log path j [] v) _ w
        (after ((enter w).1) (lookup path ((enter w).1.names))
          (enter-Stable _ (InLog-Stable log i bytes) w h))
    where
      after :
          (v : World) (o : Option ℕ)
          → InLog log i bytes v
          → Good (λ j u. InLog log i bytes u × Holding log path j [] u) (make_file path o v)
      after v none q =
          let b = q.allocated in
          let f = q.writer_allocated in
          let kept : lookup v.log_path ((path, v.next) ∷ v.names) ≡ some i =
            lookup-there v.log_path path v.next v.names (λ e. d (sym e ∙ q.here)) ∙ q.at_log in
          (
            record {
              here = q.here;
              at_log = kept;
              held = Prefix-trans _ _ _ q.held (fresh_store v i b);
              allocated = omega arith;
              writer_allocated = omega arith;
            },
            (
              record {
                here = q.here;
                other = λ e. d (e ∙ q.here);
                at_path = lookup-here path v.next v.names;
                not_log = λ e.
                    let same : Path (Option ℕ) (some i) (some v.next) = sym kept ∙ e in
                    ground (arith, same, b);
                not_writer = λ e. omega arith;
                allocated = omega arith;
              },
              ground arith,
            ),
          )
      after v (some k) q = tt

  -- The file under `path` holds `bytes`, and nothing of it changes any more.
  abbrev pub Copied : Bytes → ℕ → World → Type 0
  Copied path j w = (content : Bytes) × Prefix bytes content × Holding log path j content w

  Copied-Stable : (path : Bytes) (j : ℕ) → Stable (Copied path j)
  Copied-Stable path j = record {
    move = λ m w (c, p, h). (c, p, (Holding-Stable log path j c).move m w h);
    aside = λ w events schedule (c, p, h).
        (c, p, (Holding-Stable log path j c).aside w events schedule h);
  }

  copy-Good :
      (path : Bytes) (j : ℕ) (w : World)
      → InLog log i bytes w × Holding log path j [] w
      → Good (λ n. Copied path j) (copy i j w)
  unfolding copy
  copy-Good path j w (h, k) =
      let v = (enter w).1 in
      let q = enter-Stable _ (InLog-Stable log i bytes) w h in
      let (a, empty) = enter-Stable _ (Holding-Stable log path j []) w k in
      elim (Bool-cases ((enter w).0.fails)) [
        | inl e ↦ rw e tt
        | inr e ↦ rw e (
          v.store i,
          q.held,
          (
            record {
              here = a.here;
              other = a.other;
              at_path = a.at_path;
              not_log = a.not_log;
              not_writer = a.not_writer;
              allocated = a.allocated;
            },
            rw ((==_iff j j).1 refl, empty) refl,
          ),
        )
      ]

  truncate-Good :
      (path : Bytes) (j : ℕ) (w : World)
      → Copied path j w
      → Good (λ done. Copied path j) (truncate log w)
  unfolding truncate finished
  truncate-Good path j w h =
      guarded-Good (λ done. Copied path j) _ w
        (after ((enter w).1) (lookup log ((enter w).1.names)) refl
          (enter-Stable _ (Copied-Stable path j) w h))
    where
      after :
          (v : World) (o : Option ℕ)
          → lookup log v.names ≡ o
          → Copied path j v
          → Good
              (λ done. Copied path j)
              (on_inode {A = Done}
                (λ k u. (ok tt, record u { store = set_store k [] u.store }))
                o
                v)
      after v none e c = tt
      after v (some k) e (c, p, (a, same)) =
          let n = a.not_log in
          let differs : j ≢ k = λ q. n (ap (λ p. lookup p v.names) a.here ∙ e ∙ ap some (sym q)) in
          (
            c,
            p,
            (
              record {
                here = a.here;
                other = a.other;
                at_path = a.at_path;
                not_log = a.not_log;
                not_writer = a.not_writer;
                allocated = a.allocated;
              },
              ground (arith, differs, same),
            ),
          )

module _ (cfg : Config) (ordinal i : ℕ) (bytes : Bytes) where
  abbrev backup : Bytes
  backup = backup_path cfg.active_path ordinal

  abbrev Backed : ℕ → World → Type 0
  Backed j = Copied cfg.active_path i bytes backup j

  Backed-Stable : (j : ℕ) → Stable (Backed j)
  Backed-Stable j = Copied-Stable cfg.active_path i bytes backup j

  SomeBacked-Stable : Stable (λ v. (j : ℕ) × Backed j v)
  SomeBacked-Stable = record {
    move = λ m w (j, q). (j, (Backed-Stable j).move m w q);
    aside = λ w events schedule (j, q). (j, (Backed-Stable j).aside w events schedule q);
  }

  -- From the copy on, the backup holds what it should.
  copied-Good :
      (j k : ℕ) (w : World)
      → k ≡ i
      → InLog cfg.active_path i bytes w × Holding cfg.active_path backup j [] w
      → Good (λ n. Backed j) (copy k j w)
  copied-Good j k w same h =
      subst (λ x. Good (λ n. Backed j) (copy x j w)) (sym same)
        (copy-Good cfg.active_path i bytes backup j w h)

  copy_log-Good :
      (w : World)
      → InLog cfg.active_path i bytes w
      → Good (λ n v. (j : ℕ) × Backed j v) (copy_log cfg ordinal w)
  unfolding copy_log finished
  copy_log-Good w h =
      let R : ℕ → World → Type 0 = λ n v. (j : ℕ) × Backed j v in
      let In : World → Type 0 = InLog cfg.active_path i bytes in
      bind-Good (λ d. In) R _ _ w (append_event-Good In (InLog-Stable _ i bytes) cfg _ w h)
        (λ d v q.
          bind-Good (λ k u. (k ≡ i) × In u) R _ _ v
            (label-Good (λ k u. (k ≡ i) × In u) _ _ v (open_file-Good _ i bytes v q))
            (λ k u (same, q).
              bind-Good (λ j x. In x × Holding cfg.active_path backup j [] x) R _ _ u
                (label-Good (λ j x. In x × Holding cfg.active_path backup j [] x) _ _ u
                  (create-Good _ i bytes backup u (backup_path_ne _ ordinal) q))
                (λ j x q.
                  bind-Good (λ n. Backed j) R _ _ x
                    (label-Good (λ n. Backed j) _ _ x (copied-Good j k x same q))
                    (λ n y q.
                      bind-Good (λ d. Backed j) R _ _ y
                        (label-Good (λ d. Backed j) _ _ y
                          (call-Stable (Backed j) (Backed-Stable j) y q))
                        (λ d y q.
                          bind-Good (λ d. Backed j) R _ _ y
                            (label-Good (λ d. Backed j) _ _ y
                              (call-Stable (Backed j) (Backed-Stable j) y q))
                            (λ d y q.
                              bind-Good (λ d. Backed j) R _ _ y
                                (append_event-Good (Backed j) (Backed-Stable j) cfg _ y q)
                                (λ d z q. (j, q))))))))

  -- rotateCopyTruncate that succeeds leaves under the backup's name a file, no longer the log's nor the
  -- writer's, that begins with all that the log held at the start, whatever the writer appends
  -- meanwhile or opens again, if the path of the log is the writer's and the writer's file exists.
  pub rotate_copy_truncate-Good :
      (w : World)
      → InLog cfg.active_path i bytes w
      → Good
          (λ done v.
            (j : ℕ) × Copied cfg.active_path i bytes (backup_path cfg.active_path ordinal) j v)
          (rotate_copy_truncate cfg ordinal w)
  unfolding rotate_copy_truncate cut_log
  rotate_copy_truncate-Good w h =
      let R : Done → World → Type 0 = λ d v. (j : ℕ) × Backed j v in
      bind-Good (λ n v. (j : ℕ) × Backed j v) R _ _ w (copy_log-Good w h)
        (λ n v (j, q).
          bind-Good (λ d. Backed j) R _ _ v
            (label-Good (λ d. Backed j) _ _ v (truncate-Good _ i bytes backup j v q))
            (λ d u q.
              append_event-Good (λ v. (j : ℕ) × Backed j v) SomeBacked-Stable cfg _ u (j, q)))
