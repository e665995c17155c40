-- ===== src/Rotator/Safe.antt =====
-- `rotateRenameReopen` takes no byte of the log away, at whatever call it ends.
use logrotate_cache_lab.Base.{
  ℕ, ◌≡◌, ◌≢◌, Bool, none, ◌∷◌, ◌++◌, Bytes, length, ◌==◌, ok, arith, length-append, inl, inr,
  Bool-cases, sym, ap, ◌∙◌,
}
use logrotate_cache_lab.Report.{RotationEvent}
use logrotate_cache_lab.FileSystem.{write_rows, World, lookup, label, finished, rename}
use logrotate_cache_lab.FileSystem.Kept.{Kept-refl, KeepsFiles, Sound}
use logrotate_cache_lab.FileSystem.Calls.{
  write_rows-Careful, Careful, finished-Careful, bind-Kept, bind-Careful, label-Kept, label-Careful,
  guarded-Kept, call-Careful,
}
use logrotate_cache_lab.FileSystem.Files.{create-Careful, rename-Kept}
use logrotate_cache_lab.Rotator.{
  Config, append_event, backup_path, request, at, rename_active, append_event_stage, after_rename,
  rotate_rename_reopen,
}

pub append_event-Careful : (cfg : Config) (e : RotationEvent) → Careful (append_event cfg e)
unfolding append_event Careful finished
append_event-Careful cfg e w = elim (Bool-cases (length cfg.event_path == 0)) [
  | inl h ↦ rw h (Kept-refl w)
  | inr h ↦ rw h (label-Kept (at append_event_stage) (write_rows _) w (write_rows-Careful _ w))
]

longer_ne : (s : Bytes) (c : ℕ) (t : Bytes) → s ++ c ∷ t ≢ s
longer_ne s c t h = let same = ap length h in omega (arith, length-append s (c ∷ t))

pub backup_path_ne : (active : Bytes) (ordinal : ℕ) → backup_path active ordinal ≢ active
unfolding backup_path
backup_path_ne active ordinal = longer_ne active _ _

request-Careful : Careful request
unfolding Careful request finished
request-Careful w = guarded-Kept (λ s. finished (ok s.status)) w (Kept-refl _)

module _ (valid_url : Bytes → Bool) (cfg : Config) (ordinal size : ℕ) where
  after_rename-Careful : Careful (after_rename valid_url cfg ordinal size)
  unfolding after_rename
  after_rename-Careful = bind-Careful _ _ (append_event-Careful cfg _) (λ noted.
      bind-Careful _ _ (label-Careful _ _ (create-Careful _)) (λ made.
        bind-Careful _ _ (label-Careful _ _ call-Careful) (λ closed.
          bind-Careful _ _ (label-Careful _ _ call-Careful) (λ owned.
            bind-Careful _ _ (label-Careful _ _ call-Careful) (λ permitted.
              bind-Careful _ _ (append_event-Careful cfg _) (λ created.
                bind-Careful _ _ (finished-Careful _) (λ named.
                  bind-Careful _ _ (finished-Careful _) (λ valid.
                    bind-Careful _ _ (label-Careful _ _ request-Careful) (λ status.
                      bind-Careful _ _ (finished-Careful _)
                        (λ accepted. append_event-Careful cfg _))))))))))

  -- rotateRenameReopen, whether it succeeds or fails at any of its calls, and whatever the writer
  -- appends or reopens between them, leaves every file under some name with all that it held, and
  -- leaves the writer's open file under a name, if the path of the log is the writer's, the name of
  -- the backup was free, every name led to a file and the writer's open file had a name.
  pub rotate_rename_reopen-Kept :
      (w : World)
      → cfg.active_path ≡ w.log_path
      → lookup (backup_path cfg.active_path ordinal) w.names ≡ none
      → Sound w
      → Sound ((rotate_rename_reopen valid_url cfg ordinal size w).1)
        × KeepsFiles w ((rotate_rename_reopen valid_url cfg ordinal size w).1)
  unfolding rotate_rename_reopen
  rotate_rename_reopen-Kept w here free =
      bind-Kept
        (label (at rename_active) (rename cfg.active_path (backup_path cfg.active_path ordinal)))
        (λ renamed. after_rename valid_url cfg ordinal size) w
        (label-Kept (at rename_active)
          (rename cfg.active_path (backup_path cfg.active_path ordinal)) w
          (rename-Kept _ _ w (λ e. backup_path_ne _ ordinal (e ∙ sym here)) free))
        (λ renamed. after_rename-Careful)
