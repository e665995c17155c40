-- ===== src/Rotator/Failed.antt =====
-- `rotateCopyTruncate` where it fails: only the truncation takes bytes away, and it is the last call
-- but for an event.
use logrotate_cache_lab.Base.{
  ℕ, ◌≡◌, ◌≢◌, refl, inl, inr, Bool-cases, [], none, some, Option, Bytes, codes, length, ◌==◌,
  Result, ok, err,
}
use logrotate_cache_lab.Report.{RotationEvent}
use logrotate_cache_lab.FileSystem.{
  write_rows, World, lookup, enter, label, relabel, guarded, Done, finished, fault, FileError,
  truncate, ◌>>=◌, continue, set_store, on_inode,
}
use logrotate_cache_lab.FileSystem.Kept.{Kept, Kept-trans, KeepsFiles, Sound}
use logrotate_cache_lab.FileSystem.Calls.{
  Careful, enter-Kept, finished-Careful, bind-Careful, label-Careful, call-Careful,
}
use logrotate_cache_lab.FileSystem.Files.{open_file-Careful, create-Careful, copy-Careful}
use logrotate_cache_lab.Rotator.{
  Config, RotateError, Rotation, at, append_event_stage, truncate_active, append_event, event,
  copy_log, cut_log, rotate_copy_truncate,
}
use logrotate_cache_lab.Rotator.Safe.{append_event-Careful}

pub copy_log-Careful : (cfg : Config) (ordinal : ℕ) → Careful (copy_log cfg ordinal)
unfolding copy_log
copy_log-Careful cfg ordinal = bind-Careful _ _ (append_event-Careful cfg _) (λ started.
    bind-Careful _ _ (label-Careful _ _ (open_file-Careful _)) (λ source.
      bind-Careful _ _ (label-Careful _ _ (create-Careful _)) (λ out.
        bind-Careful _ _ (label-Careful _ _ (copy-Careful source out)) (λ written.
          bind-Careful _ _ (label-Careful _ _ call-Careful) (λ synced.
            bind-Careful _ _ (label-Careful _ _ call-Careful) (λ closed.
              bind-Careful _ _ (append_event-Careful cfg _) (λ copied. finished-Careful _)))))))

copy_log-Kept : (cfg : Config) (ordinal : ℕ) (w : World) → Kept w ((copy_log cfg ordinal w).1)
unfolding Careful
copy_log-Kept cfg ordinal = copy_log-Careful cfg ordinal

-- A truncation that fails takes nothing.
truncate-Kept :
    (path : Bytes) (w : World) (e : FileError)
    → (truncate path w).0 ≡ err e
    → Kept w ((truncate path w).1)
unfolding truncate guarded finished
truncate-Kept path w e = elim (Bool-cases ((enter w).0.fails)) [
  | inl h ↦ rw h (λ _. enter-Kept w)
  | inr h ↦ rw h (after (lookup path ((enter w).1.names)))
]
  where
    after :
        (o : Option ℕ)
        → (on_inode {A = Done}
            (λ i w. (ok tt, record w { store = set_store i [] w.store }))
            o
            ((enter w).1)).0
          ≡ err e
        → Kept w (
            (on_inode {A = Done}
              (λ i w. (ok tt, record w { store = set_store i [] w.store }))
              o
              ((enter w).1)).1)
    after none _ = enter-Kept w
    after (some i) h = cc

append_event-error :
    (cfg : Config) (v : RotationEvent) (w : World) (e : RotateError)
    → (append_event cfg v w).0 ≡ err e
    → e ≡ at append_event_stage fault
unfolding append_event write_rows finished label
append_event-error cfg v w e = elim (Bool-cases (length cfg.event_path == 0)) [
  | inl p ↦ rw p (λ h. cc)
  | inr p ↦
      rw p
        (elim (Bool-cases ((enter w).0.fails)) [ inl h ↦ rw h (λ q. cc) | inr h ↦ rw h (λ q. cc) ])
]

module _ (cfg : Config) (ordinal : ℕ) where
  abbrev note_truncate : ℕ → Rotation Done
  note_truncate written = append_event cfg (event ordinal (codes "truncate") written)

  cut_log-Kept :
      (written : ℕ) (v : World) (e : RotateError)
      → (cut_log cfg ordinal written v).0 ≡ err e
      → e ≢ at append_event_stage fault
      → Kept v ((cut_log cfg ordinal written v).1)
  unfolding cut_log ◌>>=◌ label
  cut_log-Kept written v e = after (truncate cfg.active_path v) (truncate-Kept cfg.active_path v)
    where
      after :
          (t : Result FileError Done × World)
          → ((x : FileError) → t.0 ≡ err x → Kept v (t.1))
          → (continue (relabel (at truncate_active) t) (λ truncated. note_truncate written)).0
            ≡ err e
          → e ≢ at append_event_stage fault
          → Kept v
              ((continue (relabel (at truncate_active) t) (λ truncated. note_truncate written)).1)
      after (ok done, u) k h d = absurd (d (append_event-error cfg _ u e h))
      after (err x, u) k h d = k x refl

  -- rotateCopyTruncate that fails with any error but the one of writing an event leaves every file
  -- under some name with all that it held, and the writer's open file under a name, whatever the
  -- writer does between its calls, if every name led to a file and the writer's open file had a name.
  pub rotate_copy_truncate-Kept :
      (w : World) (e : RotateError)
      → (rotate_copy_truncate cfg ordinal w).0 ≡ err e
      → e ≢ at append_event_stage fault
      → Sound w
      → Sound ((rotate_copy_truncate cfg ordinal w).1)
        × KeepsFiles w ((rotate_copy_truncate cfg ordinal w).1)
  unfolding rotate_copy_truncate ◌>>=◌
  rotate_copy_truncate-Kept w e = after (copy_log cfg ordinal w) (copy_log-Kept cfg ordinal w)
    where
      after :
          (r : Result RotateError ℕ × World)
          → Kept w (r.1)
          → (continue r (cut_log cfg ordinal)).0 ≡ err e
          → e ≢ at append_event_stage fault
          → Kept w ((continue r (cut_log cfg ordinal)).1)
      after (err x, v) k h d = k
      after (ok n, v) k h d = Kept-trans w v _ k (cut_log-Kept n v e h d)
