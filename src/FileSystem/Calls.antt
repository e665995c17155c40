-- ===== src/FileSystem/Calls.antt =====
-- The system calls and the writer's moves keep every file, but for `truncate` and `remove`.
use logrotate_cache_lab.Base.{
  ℕ, ◌+◌, ◌<◌, ◌≡◌, ◌≢◌, refl, sym, ap, ◌∙◌, inl, inr, Option, none, some, List, [], ◌∷◌, Bytes,
  ◌==◌, ==_iff, Bool-cases, Result, ok, err, arith,
}
use logrotate_cache_lab.Csv.{Piece}
use logrotate_cache_lab.FileSystem.{
  Move, append, reopen, Slot, Names, World, lookup, set_store, add_file, open_log, act, acts,
  enter_with, enter, Program, continue, ◌>>=◌, label, relabel, FileError, guarded, call, finished,
  write_rows,
}
use logrotate_cache_lab.FileSystem.Kept.{
  Prefix, Prefix-refl, Sound, KeepsFiles, Kept, Kept-refl, Kept-trans, extend-Kept, name-cases,
  lookup-here, lookup-there,
}

pub other_name :
    (n p : Bytes) (i : ℕ) (names : Names) → lookup p names ≡ none → lookup n names ≡ some i → n ≢ p
other_name n p i names free h e = ground (arith, free, h, ap (λ x. lookup x names) e)

-- The names of the world that a new file makes lead to files there are.
add_file-allocated :
    (w : World) (path : Bytes)
    → Sound w
    → (n : Bytes) (i : ℕ) → lookup n ((path, w.next) ∷ w.names) ≡ some i
    → i < w.next + 1
add_file-allocated w path s n i h = elim (name-cases n path) [
  | inl e ↦
      let same : lookup n ((path, w.next) ∷ w.names) ≡ some w.next =
        ap (λ p. lookup n ((p, w.next) ∷ w.names)) (sym e) ∙ lookup-here n w.next w.names in
      let found : Path (Option ℕ) (some w.next) (some i) = sym same ∙ h in ground arith
  | inr d ↦
      let old = s.allocated n i (sym (lookup-there n path w.next w.names d) ∙ h) in omega arith
]

pub fresh_store :
    (w : World) (i : ℕ) → i < w.next → Prefix (w.store i) (set_store w.next [] w.store i)
fresh_store w i h = elim (Bool-cases (i == w.next)) [
  | inl e ↦ let same = (==_iff i w.next).0 e in absurd (omega arith)
  | inr e ↦ rw e (Prefix-refl _)
]

add_file-KeepsFiles :
    (w : World) (path : Bytes)
    → lookup path w.names ≡ none
    → Sound w
    → KeepsFiles w (add_file path w)
add_file-KeepsFiles w path free s n i h = (
  n,
  lookup-there n path w.next w.names (other_name n path i w.names free h) ∙ h,
  fresh_store w i (s.allocated n i h),
)

pub add_file-Kept :
    (w : World) (path : Bytes) → lookup path w.names ≡ none → Kept w (add_file path w)
add_file-Kept w path free s =
    let (n, e) = s.attached in
    (
      record {
        allocated = add_file-allocated w path s;
        attached =
            (n, lookup-there n path w.next w.names (other_name n path w.fd w.names free e) ∙ e);
      },
      add_file-KeepsFiles w path free s,
    )

-- The writer opens the log, which is made if it is not there.
open_log-Kept : (w : World) (o : Option ℕ) → lookup w.log_path w.names ≡ o → Kept w (open_log o w)
open_log-Kept w none free s = (
  record {
    allocated = add_file-allocated w w.log_path s;
    attached = (w.log_path, lookup-here w.log_path w.next w.names);
  },
  λ n i h. add_file-KeepsFiles w w.log_path free s n i h,
)
open_log-Kept w (some i) found s = (
  record { allocated = s.allocated; attached = (w.log_path, found) },
  λ n j h. (n, h, Prefix-refl _),
)

act-Kept : (m : Move) (w : World) → Kept w (act m w)
unfolding act
act-Kept (append bytes) w = extend-Kept w w.fd bytes
act-Kept reopen w = open_log-Kept w (lookup w.log_path w.names) refl

acts-Kept : (moves : List Move) (w : World) → Kept w (acts moves w)
unfolding acts
acts-Kept [] w = Kept-refl w
acts-Kept (m ∷ moves) w = Kept-trans w (act m w) _ (act-Kept m w) (acts-Kept moves (act m w))

-- Fields that are neither names, contents nor the writer's do not matter.
pub aside-Kept :
    (w : World) (events : List Piece) (schedule : List Slot)
    → Kept w (record w { events = events; schedule = schedule })
aside-Kept w events schedule s =
    (record { allocated = s.allocated; attached = s.attached }, λ n i h. (n, h, Prefix-refl _))

enter_with-Kept : (schedule : List Slot) (w : World) → Kept w ((enter_with schedule w).1)
unfolding enter_with
enter_with-Kept [] w = Kept-refl w
enter_with-Kept (s ∷ rest) w =
    Kept-trans w (record w { schedule = rest }) _ (aside-Kept w w.events rest) (acts-Kept s.moves _)

pub enter-Kept : (w : World) → Kept w ((enter w).1)
enter-Kept w = enter_with-Kept w.schedule w

-- A program that takes nothing away, however it ends.
unfoldable pub Careful {ℓ κ} : {E : Type ℓ} {A : Type κ} → Program E A → Type 0
Careful m = (w : World) → Kept w ((m w).1)

module _ {ℓ κ} {E : Type ℓ} {A : Type κ} where
  pub finished-Careful : (r : Result E A) → Careful (finished r)
  unfolding Careful finished
  finished-Careful r w = Kept-refl w

  pub bind-Kept {μ} :
      {B : Type μ} (m : Program E A) (f : A → Program E B) (w : World)
      → Kept w ((m w).1)
      → ((a : A) → Careful (f a))
      → Kept w (((m >>= f) w).1)
  unfolding Careful ◌>>=◌
  bind-Kept m f w hm hf = after (m w) hm
    where
      after : (r : Result E A × World) → Kept w (r.1) → Kept w ((continue r f).1)
      after (ok a, v) h = Kept-trans w v _ h (hf a v)
      after (err e, v) h = h

  pub bind-Careful {μ} :
      {B : Type μ} (m : Program E A) (f : A → Program E B)
      → Careful m
      → ((a : A) → Careful (f a))
      → Careful (m >>= f)
  unfolding Careful
  bind-Careful m f hm hf w = bind-Kept m f w (hm w) hf

  pub label-Kept {μ} :
      {E' : Type μ} (g : E → E') (m : Program E A) (w : World)
      → Kept w ((m w).1)
      → Kept w ((label g m w).1)
  unfolding label
  label-Kept g m w hm = after (m w) hm
    where
      after : (r : Result E A × World) → Kept w (r.1) → Kept w ((relabel g r).1)
      after (ok a, v) h = h
      after (err e, v) h = h

module _ {ℓ κ} {E : Type ℓ} {A : Type κ} where
  pub label-Careful {μ} :
      {E' : Type μ} (g : E → E') (m : Program E A) → Careful m → Careful (label g m)
  unfolding Careful
  label-Careful g m hm w = label-Kept g m w (hm w)

pub guarded-Kept {ℓ} :
    {A : Type ℓ} (f : Slot → Program FileError A) (w : World)
    → Kept ((enter w).1) ((f ((enter w).0) ((enter w).1)).1)
    → Kept w ((guarded f w).1)
unfolding guarded
guarded-Kept f w h = elim (Bool-cases ((enter w).0.fails)) [
  | inl e ↦ rw e (enter-Kept w)
  | inr e ↦ rw e (Kept-trans w ((enter w).1) _ (enter-Kept w) h)
]

pub call-Careful : Careful call
unfolding Careful call finished
call-Careful w = guarded-Kept (λ s. finished (ok tt)) w (Kept-refl _)

pub write_rows-Careful : (rows : Slot → List Piece → List (List Bytes)) → Careful (write_rows rows)
unfolding Careful write_rows
write_rows-Careful rows w =
    let v = (enter w).1 in
    Kept-trans w v _ (enter-Kept w) (aside-Kept v ((write_rows rows w).1.events) v.schedule)
