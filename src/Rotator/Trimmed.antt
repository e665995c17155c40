-- ===== src/Rotator/Trimmed.antt =====
-- The loop of `EnforceRetention` of internal/rotator/rotator.go over `os.Remove`, while the writer goes
-- on.
use logrotate_cache_lab.Base.{
  ℕ, ◌≤◌, ◌≡◌, refl, ap, ◌∙◌, ◌⊎◌, inl, inr, Bool, true, false, ◌||◌, Bool-cases, Option, none,
  some, List, [], ◌∷◌, ◌++◌, Bytes, str_eq, str_eq_refl, str_eq_of_ne, ltb, if◌then◌else◌, length,
  Result, ok, err, arith,
}
use logrotate_cache_lab.FileSystem.{
  Move, append, reopen, Slot, Names, World, Done, lookup, unlink, act, acts, open_log, enter_with,
  enter, continue, ◌>>=◌, label, relabel, FileError, fault, guarded, on_inode, remove, finished,
}
use logrotate_cache_lab.FileSystem.Kept.{name-cases, lookup-unlink, lookup-unlink_self}
use logrotate_cache_lab.FileSystem.Files.{enter-lookup}
use logrotate_cache_lab.FileSystem.Held.{Good}
use logrotate_cache_lab.Rotator.{at, retention, RotateError}
use logrotate_cache_lab.Rotator.Driver.{Backup, remove_oldest}
use logrotate_cache_lab.Rotator.Backups.{is_path}

abbrev pub unless_gone : Bool → Option ℕ → Option ℕ
unless_gone gone i = if gone then none else i

-- The writer keeps the path of its log.
act-log_path : (m : Move) (w : World) → (act m w).log_path ≡ w.log_path
unfolding act
act-log_path (append bytes) w = refl
act-log_path reopen w = after (lookup w.log_path w.names)
  where
    after : (o : Option ℕ) → (open_log o w).log_path ≡ w.log_path
    after none = refl
    after (some i) = refl

acts-log_path : (moves : List Move) (w : World) → (acts moves w).log_path ≡ w.log_path
unfolding acts
acts-log_path [] w = refl
acts-log_path (m ∷ moves) w = acts-log_path moves (act m w) ∙ act-log_path m w

enter-log_path : (w : World) → (enter w).1.log_path ≡ w.log_path
unfolding enter_with
enter-log_path w = after w.schedule
  where
    after : (schedule : List Slot) → (enter_with schedule w).1.log_path ≡ w.log_path
    after [] = refl
    after (s ∷ rest) = acts-log_path s.moves _

-- What a call of `remove` on `p` does to a name.
abbrev left {ℓ} : {E : Type ℓ} → Result E Done → Bytes → Bytes → Option ℕ → Option ℕ
left (ok done) p n i = unless_gone (str_eq n p) i
left (err e) p n i = i

abbrev Drops {ℓ} : {E : Type ℓ} → Bytes → World → Result E Done × World → Type 0
Drops p w r =
    (r.1.log_path ≡ w.log_path)
    × ((n : Bytes) → (n ≡ w.log_path) ⊎ (lookup n (r.1.names) ≡ left (r.0) p n (lookup n w.names)))

unlink-unless_gone :
    (n p : Bytes) (names : Names)
    → lookup n (unlink p names) ≡ unless_gone (str_eq n p) (lookup n names)
unlink-unless_gone n p names = elim (name-cases n p) [
  | inl e ↦ rw (e, str_eq_refl p) (lookup-unlink_self p names)
  | inr d ↦ rw (str_eq_of_ne n p d) (lookup-unlink n p names d)
]

enter_names :
    (w : World) (n : Bytes) → (n ≡ w.log_path) ⊎ (lookup n ((enter w).1.names) ≡ lookup n w.names)
enter_names w n = elim (name-cases n w.log_path) [
  | inl e ↦ inl e
  | inr d ↦ inr (enter-lookup n w d)
]

remove-Drops : (p : Bytes) (w : World) → Drops p w (remove p w)
unfolding remove guarded finished
remove-Drops p w = by_fails ((enter w).0.fails)
  where
    removed :
        (o : Option ℕ)
        → Drops p w
            (on_inode (λ i u. (ok tt, record u { names = unlink p u.names })) o ((enter w).1))
    removed none = (enter-log_path w, enter_names w)
    removed (some i) = (
      enter-log_path w,
      λ n. elim (enter_names w n) [
        | inl e ↦ inl e
        | inr e ↦ inr (unlink-unless_gone n p ((enter w).1.names) ∙ ap (unless_gone (str_eq n p)) e)
      ],
    )

    by_fails :
        (b : Bool)
        → Drops p w (
            if b
            then (err fault, (enter w).1)
            else on_inode
                (λ i u. (ok tt, record u { names = unlink p u.names }))
                (lookup p ((enter w).1.names))
                ((enter w).1))
    by_fails true = (enter-log_path w, enter_names w)
    by_fails false = removed (lookup p ((enter w).1.names))

-- The first of the backups are gone, and what is left is few enough if nothing failed.
pub record Trimmed (keep : ℕ) (bs : List Backup) (w : World) (r : Result RotateError Done × World)
    : Type 0 where
  pub gone : List Backup
  pub rest : List Backup
  pub split : bs ≡ gone ++ rest
  pub names :
      (n : Bytes)
      → (n ≡ w.log_path) ⊎ (lookup n (r.1.names) ≡ unless_gone (is_path n gone) (lookup n w.names))
  pub enough : (gone ≡ []) ⊎ (keep ≤ length rest)
  pub complete : Good (λ done v. length rest ≤ keep) r

unless_gone_twice :
    (a b : Bool) (i : Option ℕ) → unless_gone b (unless_gone a i) ≡ unless_gone (a || b) i
unless_gone_twice true true i = refl
unless_gone_twice true false i = refl
unless_gone_twice false b i = refl

-- What is left is the whole list where nothing was removed.
none_gone :
    (keep : ℕ) (bs : List Backup) (w v : World) (r : Result RotateError Done)
    → ((n : Bytes) → (n ≡ w.log_path) ⊎ (lookup n v.names ≡ lookup n w.names))
    → Good (λ done u. length bs ≤ keep) (r, v)
    → Trimmed keep bs w (r, v)
unfolding is_path
none_gone keep bs w v r h c = record {
  gone = [];
  rest = bs;
  split = refl;
  names = h;
  enough = inl refl;
  complete = c;
}

module _ (keep : ℕ) (b : Backup) (bs : List Backup) (w : World) (more : keep ≤ length bs) where
  one_gone :
      (v : World) (r : Result RotateError Done × World)
      → v.log_path ≡ w.log_path
      → ((n : Bytes)
          → (n ≡ w.log_path)
            ⊎ (lookup n v.names ≡ unless_gone (str_eq n b.path) (lookup n w.names)))
      → Trimmed keep bs v r
      → Trimmed keep (b ∷ bs) w r
  unfolding is_path
  one_gone v r same dropped t = record {
    gone = b ∷ t.gone;
    rest = t.rest;
    split = ap (λ xs. b ∷ xs) t.split;
    names = λ n. names_of n (t.names n) (dropped n);
    enough = inr (rest_enough t.gone t.rest t.split t.enough);
    complete = t.complete;
  }
    where
      rest_enough :
          (gone rest : List Backup)
          → bs ≡ gone ++ rest
          → (gone ≡ []) ⊎ (keep ≤ length rest)
          → keep ≤ length rest
      rest_enough gone rest e (inr h) = h
      rest_enough gone rest e (inl h) =
          omega (arith, ap length e ∙ ap (λ xs. length (xs ++ rest)) h)

      names_of :
          (n : Bytes)
          → (n ≡ v.log_path)
            ⊎ (lookup n (r.1.names) ≡ unless_gone (is_path n t.gone) (lookup n v.names))
          → (n ≡ w.log_path) ⊎ (lookup n v.names ≡ unless_gone (str_eq n b.path) (lookup n w.names))
          → (n ≡ w.log_path)
            ⊎ (lookup n (r.1.names)
                ≡ unless_gone (str_eq n b.path || is_path n t.gone) (lookup n w.names))
      names_of n (inl e) h = inl (e ∙ same)
      names_of n (inr e) (inl h) = inl h
      names_of n (inr e) (inr h) = inr (
          e
          ∙ ap (unless_gone (is_path n t.gone)) h
          ∙ unless_gone_twice (str_eq n b.path) (is_path n t.gone) (lookup n w.names))

pub remove_oldest-Trimmed :
    (keep : ℕ) (bs : List Backup) (w : World) → Trimmed keep bs w (remove_oldest keep bs w)
unfolding remove_oldest finished ◌>>=◌ label
remove_oldest-Trimmed keep [] w = none_gone keep [] w w (ok tt) (λ n. inr refl) (omega arith)
remove_oldest-Trimmed keep (b ∷ bs) w = elim (Bool-cases (ltb keep (length (b ∷ bs)))) [
  | inl e ↦ rw e (
      after (remove b.path w) (ground arith) (remove-Drops b.path w)
        (λ v. remove_oldest-Trimmed keep bs v))
  | inr e ↦ rw e (none_gone keep (b ∷ bs) w w (ok tt) (λ n. inr refl) (ground arith))
]
  where
    after :
        (r : Result FileError Done × World)
        → keep ≤ length bs
        → Drops b.path w r
        → ((v : World) → Trimmed keep bs v (remove_oldest keep bs v))
        → Trimmed keep
            (b ∷ bs)
            w
            (continue (relabel (at retention) r) (λ removed. remove_oldest keep bs))
    after (ok done, v) more (same, dropped) trims =
        one_gone keep b bs w more v _ same dropped (trims v)
    after (err e, v) more (same, dropped) trims =
        none_gone keep (b ∷ bs) w v (err (at retention e)) dropped tt
