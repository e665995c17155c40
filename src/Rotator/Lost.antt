-- ===== src/Rotator/Lost.antt =====
-- What `rotateCopyTruncate` of internal/rotator/copytruncate.go loses.
use logrotate_cache_lab.Base.{
  ℕ, ◌+◌, ◌≡◌, refl, sym, ap, subst, ◌∙◌, some, List, [], ◌++◌, append-nil, append_assoc, Bytes,
  take, drop, Result, ok, err, arith,
}
use logrotate_cache_lab.FileSystem.{Slot, World, Done, lookup, finished, copy}
use logrotate_cache_lab.FileSystem.Exact.{Snapshot, appended, appended-append, take-drop}
use logrotate_cache_lab.FileSystem.Held.{Good, bind-Good, label-Good}
use logrotate_cache_lab.Rotator.{Config, backup_path, copy_log, cut_log, rotate_copy_truncate}
use logrotate_cache_lab.Rotator.Safe.{backup_path_ne}
use logrotate_cache_lab.Rotator.Counted.{
  noted, Counted, call-Counted, append_event-Counted, Logs, Logs-Counted, Both, Both-Counted,
  open_file-Logs, create-Both, copy-Both, truncate-Both,
}

zero_add : (n : ℕ) → 0 + n ≡ n
zero_add n = omega arith

mono-Good {ℓ κ} :
    {E : Type ℓ} {A : Type κ} (Q R : A → World → Type 0) (r : Result E A × World)
    → ((a : A) (v : World) → Q a v → R a v)
    → Good Q r
    → Good R r
mono-Good Q R (ok a, v) k h = k a v h
mono-Good Q R (err e, v) k h = tt

module _ (cfg : Config) (ordinal i : ℕ) (slots : List Slot) (content : Bytes) where
  abbrev e : ℕ
  e = noted cfg

  -- The calls up to the copy, and those behind it up to the truncation.
  abbrev pub copying : ℕ
  copying = e + 3

  abbrev pub cutting : ℕ
  cutting = e + 3

  abbrev backup : Bytes
  backup = backup_path cfg.active_path ordinal

  abbrev copied : Bytes
  copied = content ++ appended (take (0 + e + 1 + 1 + 1) slots)

  abbrev In : ℕ → World → Type 0
  In = Logs cfg.active_path i slots content

  abbrev With : ℕ → ℕ → World → Type 0
  With j = Both cfg.active_path i slots content backup j copied

  With-Counted : (j : ℕ) → Counted (With j)
  With-Counted j = Both-Counted cfg.active_path i slots content backup j copied

  abbrev last : ℕ
  last = 0 + e + 1 + 1 + 1 + 1 + 1 + e

  copied-With :
      (j k : ℕ) (w : World)
      → k ≡ i
      → Both cfg.active_path i slots content backup j [] (0 + e + 1 + 1) w
      → Good (λ m. With j (0 + e + 1 + 1 + 1)) (copy k j w)
  copied-With j k w same h =
      subst (λ x. Good (λ m. With j (0 + e + 1 + 1 + 1)) (copy x j w)) (sym same)
        (copy-Both cfg.active_path i slots content backup j (0 + e + 1 + 1) w h)

  copy_log-With :
      (w : World) → In 0 w → Good (λ n v. (j : ℕ) × With j last v) (copy_log cfg ordinal w)
  unfolding copy_log finished
  copy_log-With w h =
      let R : ℕ → World → Type 0 = λ n v. (j : ℕ) × With j last v in
      let logs = Logs-Counted cfg.active_path i slots content in
      bind-Good (λ d. In (0 + e)) R _ _ w (append_event-Counted In logs cfg _ 0 w h)
        (λ d v q.
          bind-Good (λ k u. (k ≡ i) × In (0 + e + 1) u) R _ _ v
            (label-Good (λ k u. (k ≡ i) × In (0 + e + 1) u) _ _ v
              (open_file-Logs cfg.active_path i slots content (0 + e) v q))
            (λ k u (same, q).
              let M : ℕ → World → Type 0 =
                λ j. Both cfg.active_path i slots content backup j [] (0 + e + 1 + 1) in
              bind-Good M R _ _ u
                (label-Good M _ _ u (
                  create-Both cfg.active_path i slots content backup (0 + e + 1) u
                    (backup_path_ne _ ordinal) q))
                (λ j x q.
                  bind-Good (λ n. With j (0 + e + 1 + 1 + 1)) R _ _ x
                    (label-Good (λ n. With j (0 + e + 1 + 1 + 1)) _ _ x (copied-With j k x same q))
                    (λ n y q.
                      bind-Good (λ d. With j (0 + e + 1 + 1 + 1 + 1)) R _ _ y
                        (label-Good (λ d. With j (0 + e + 1 + 1 + 1 + 1)) _ _ y
                          (call-Counted (With j) (With-Counted j) _ y q))
                        (λ d y q.
                          bind-Good (λ d. With j (0 + e + 1 + 1 + 1 + 1 + 1)) R _ _ y
                            (label-Good (λ d. With j (0 + e + 1 + 1 + 1 + 1 + 1)) _ _ y
                              (call-Counted (With j) (With-Counted j) _ y q))
                            (λ d y q.
                              bind-Good (λ d. With j last) R _ _ y
                                (append_event-Counted (With j) (With-Counted j) cfg _ _ y q)
                                (λ d z q. (j, q))))))))

  -- What the writer appends between the last read of the copy and the truncation.
  abbrev pub lost : Bytes
  lost = appended (take cutting (drop copying slots))

  -- What it appends behind the truncation.
  abbrev pub later : Bytes
  later = appended (take e (drop (copying + cutting) slots))

  -- Where the bytes are that the log held or got until the last call.
  pub record Accounted (v : World) : Type 0 where
    pub inode : ℕ
    pub at_backup : lookup (backup_path cfg.active_path ordinal) v.names ≡ some inode
    pub at_log : lookup cfg.active_path v.names ≡ some i
    pub in_backup : v.store inode ≡ content ++ appended (take copying slots)
    pub in_log : v.store i ≡ later
    pub total :
        content ++ appended (take (copying + cutting + e) slots)
        ≡ v.store inode ++ lost ++ v.store i

  copying_calls : 0 + e + 1 + 1 + 1 ≡ copying
  copying_calls = omega arith

  cutting_calls : last + 1 ≡ copying + cutting
  cutting_calls = omega arith

  appended-take :
      (m n : ℕ)
      → appended (take (m + n) slots) ≡ appended (take m slots) ++ appended (take n (drop m slots))
  appended-take m n =
      ap appended (take-drop m n slots) ∙ appended-append (take m slots) (take n (drop m slots))

  whole :
      content ++ appended (take (copying + cutting + e) slots)
      ≡ (content ++ appended (take copying slots)) ++ lost ++ later
  whole =
      rw (appended-take (copying + cutting) e, appended-take copying cutting)
        (simp append_assoc refl)

  abbrev Emptied : ℕ → ℕ → World → Type 0
  Emptied j = Both cfg.active_path i (drop (last + 1) slots) [] backup j copied

  Emptied-Accounted : (j : ℕ) (v : World) → Emptied j (0 + e) v → Accounted v
  Emptied-Accounted j v (s, (a, same)) =
      let kept : v.store j ≡ content ++ appended (take copying slots) =
        same ∙ ap (λ n. content ++ appended (take n slots)) copying_calls in
      let now : v.store i ≡ later =
        s.holds ∙ (λ k. appended (take (zero_add e k) (drop (cutting_calls k) slots))) in
      record {
        inode = j;
        at_backup = a.at_path;
        at_log = s.at_log;
        in_backup = kept;
        in_log = now;
        total = whole ∙ (λ k. sym kept k ++ lost ++ sym now k);
      }

  at_start : (w : World) → Snapshot cfg.active_path i slots content w → In 0 w
  unfolding appended
  at_start w h = rw (append-nil content) h

  -- rotateCopyTruncate that succeeds leaves in the backup what the log held and all that the writer appended
  -- up to the copy, and in the log what the writer appended behind the truncation. What the writer
  -- appended between the two, and nothing else, is in neither. The path of the log is the writer's, who
  -- has that file open.
  pub rotate_copy_truncate-Accounted :
      (w : World)
      → Snapshot cfg.active_path i slots content w
      → Good (λ done. Accounted) (rotate_copy_truncate cfg ordinal w)
  unfolding rotate_copy_truncate cut_log
  rotate_copy_truncate-Accounted w h =
      let R : Done → World → Type 0 = λ d. Accounted in
      bind-Good (λ n v. (j : ℕ) × With j last v) R _ _ w (copy_log-With w (at_start w h))
        (λ n v (j, q).
          bind-Good (λ d. Emptied j 0) R _ _ v
            (label-Good (λ d. Emptied j 0) _ _ v
              (truncate-Both cfg.active_path i slots content backup j last copied v q))
            (λ d u q.
              mono-Good (λ d. Emptied j (0 + e)) R _ (λ d. Emptied-Accounted j)
                (append_event-Counted (Emptied j)
                  (Both-Counted cfg.active_path i _ [] backup j copied) cfg _ 0 u q)))
