-- ===== src/FileSystem/Files.antt =====
-- The calls on files keep every file: `stat`, `open_file`, `create`, `copy`, and `rename` to a name
-- that is free.
use logrotate_cache_lab.Base.{
  ℕ, ◌≡◌, ◌≢◌, refl, sym, ap, ◌∙◌, inl, inr, Option, none, some, List, [], ◌∷◌, Bytes, ok, length,
}
use logrotate_cache_lab.FileSystem.{
  Move, append, reopen, Slot, Names, World, lookup, unlink, act, acts, open_log, enter_with, enter,
  stat, open_file, on_inode, make_file, create, copy, move_name, rename, finished, Done,
}
use logrotate_cache_lab.FileSystem.Kept.{
  Prefix-refl, Kept, Kept-refl, Kept-trans, extend-Kept, name-cases, lookup-here, lookup-there,
  lookup-unlink, lookup-unlink_self,
}
use logrotate_cache_lab.FileSystem.Calls.{
  add_file-Kept, enter-Kept, Careful, guarded-Kept, other_name,
}

pub stat-Careful : (path : Bytes) → Careful (stat path)
unfolding Careful stat finished
stat-Careful path w = guarded-Kept _ w (after (lookup path ((enter w).1.names)) ((enter w).1))
  where
    after :
        (o : Option ℕ) (v : World) → Kept v ((on_inode (λ i w. (ok (length (w.store i)), w)) o v).1)
    after none v = Kept-refl v
    after (some i) v = Kept-refl v

pub open_file-Careful : (path : Bytes) → Careful (open_file path)
unfolding Careful open_file finished
open_file-Careful path w = guarded-Kept _ w (after (lookup path ((enter w).1.names)) ((enter w).1))
  where
    after : (o : Option ℕ) (v : World) → Kept v ((on_inode (λ i w. (ok i, w)) o v).1)
    after none v = Kept-refl v
    after (some i) v = Kept-refl v

pub create-Careful : (path : Bytes) → Careful (create path)
unfolding Careful create
create-Careful path w =
    guarded-Kept _ w (after ((enter w).1) (lookup path ((enter w).1.names)) refl)
  where
    after : (v : World) (o : Option ℕ) → lookup path v.names ≡ o → Kept v ((make_file path o v).1)
    after v none free = add_file-Kept v path free
    after v (some i) found = Kept-refl v

pub copy-Careful : (from to : ℕ) → Careful (copy from to)
unfolding Careful copy
copy-Careful from to w =
    Kept-trans w ((enter w).1) _ (enter-Kept w) (extend-Kept ((enter w).1) to _)

-- The writer makes no name but that of the log.
module _ (p : Bytes) where
  act-lookup :
      (m : Move) (w : World)
      → p ≢ w.log_path
      → ((act m w).log_path ≡ w.log_path) × (lookup p ((act m w).names) ≡ lookup p w.names)
  unfolding act
  act-lookup (append bytes) w h = (refl, refl)
  act-lookup reopen w h = after (lookup w.log_path w.names)
    where
      after :
          (o : Option ℕ)
          → ((open_log o w).log_path ≡ w.log_path)
            × (lookup p ((open_log o w).names) ≡ lookup p w.names)
      after none = (refl, lookup-there p w.log_path w.next w.names h)
      after (some i) = (refl, refl)

  acts-lookup :
      (moves : List Move) (w : World)
      → p ≢ w.log_path
      → lookup p ((acts moves w).names) ≡ lookup p w.names
  unfolding acts
  acts-lookup [] w h = refl
  acts-lookup (m ∷ moves) w h =
      let (e, same) = act-lookup m w h in acts-lookup moves (act m w) (λ q. h (q ∙ e)) ∙ same

  enter_with-lookup :
      (schedule : List Slot) (w : World)
      → p ≢ w.log_path
      → lookup p ((enter_with schedule w).1.names) ≡ lookup p w.names
  unfolding enter_with
  enter_with-lookup [] w h = refl
  enter_with-lookup (s ∷ rest) w h = acts-lookup s.moves _ h

  pub enter-lookup : (w : World) → p ≢ w.log_path → lookup p ((enter w).1.names) ≡ lookup p w.names
  enter-lookup w h = enter_with-lookup w.schedule w h

module _ (from to : Bytes) (i : ℕ) (w : World) (found : lookup from w.names ≡ some i)
    (free : lookup to w.names ≡ none) where
  abbrev moved : Names
  moved = (to, i) ∷ unlink to (unlink from w.names)

  moved-other : (n : Bytes) → n ≢ from → n ≢ to → lookup n moved ≡ lookup n w.names
  moved-other n hf ht =
      lookup-there n to i _ ht ∙ lookup-unlink n to _ ht ∙ lookup-unlink n from w.names hf

  -- What is found after the move was there before it.
  moved-old :
      (n : Bytes) (k : ℕ) → lookup n moved ≡ some k → (n' : Bytes) × (lookup n' w.names ≡ some k)
  moved-old n k h = elim (name-cases n to) [
    | inl e ↦ (
      from,
      found
          ∙ sym (lookup-here n i _)
          ∙ ap (λ t. lookup n ((t, i) ∷ unlink to (unlink from w.names))) e
          ∙ h,
    )
    | inr ht ↦ elim (name-cases n from) [
      | inl e ↦ absurd (
          other_name n from k _ (lookup-unlink_self from w.names)
            (sym (lookup-unlink n to _ ht) ∙ sym (lookup-there n to i _ ht) ∙ h) e)
      | inr hf ↦ (n, sym (moved-other n hf ht) ∙ h)
    ]
  ]

  -- What was there before it is found after the move.
  moved-new :
      (n : Bytes) (k : ℕ) → lookup n w.names ≡ some k → (n' : Bytes) × (lookup n' moved ≡ some k)
  moved-new n k h = elim (name-cases n from) [
    | inl e ↦ (to, lookup-here to i _ ∙ sym found ∙ sym (ap (λ x. lookup x w.names) e) ∙ h)
    | inr hf ↦ (n, moved-other n hf (other_name n to k w.names free h) ∙ h)
  ]

  move_name-Kept : Kept w (move_name from to i w)
  move_name-Kept s =
      let (n, e) = s.attached in
      (
        record {
          allocated = λ m k h. let (m', h') = moved-old m k h in s.allocated m' k h';
          attached = moved-new n w.fd e;
        },
        λ m k h. let (m', h') = moved-new m k h in (m', h', Prefix-refl _),
      )

pub rename-Kept :
    (from to : Bytes) (w : World)
    → to ≢ w.log_path
    → lookup to w.names ≡ none
    → Kept w ((rename from to w).1)
unfolding rename finished
rename-Kept from to w other free =
    guarded-Kept _ w
      (after ((enter w).1) (enter-lookup to w other ∙ free) (lookup from ((enter w).1.names)) refl)
  where
    after :
        (v : World)
        → lookup to v.names ≡ none
        → (o : Option ℕ) → lookup from v.names ≡ o
        → Kept v ((on_inode {A = Done} (λ i w. (ok tt, move_name from to i w)) o v).1)
    after v free none missing = Kept-refl v
    after v free (some i) found = move_name-Kept from to i v found free
