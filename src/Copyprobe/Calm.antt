-- ===== src/Copyprobe/Calm.antt =====
-- Calls of `copyprobe` while the writer of the log is quiet.
use logrotate_cache_lab.Base.{
  ℕ, ◌≡◌, refl, subst, inl, inr, Bool-cases, List, [], ◌∷◌, Bytes, Result, ok, err,
}
use logrotate_cache_lab.FileSystem.{
  Slot, Names, World, acts, enter_with, enter, Program, continue, ◌>>=◌, FileError, guarded,
}

-- No slot has a move of the writer; the calls may fail.
unfoldable pub Silent : List Slot → Type 0
Silent [] = Unit
Silent (s ∷ slots) = (s.moves ≡ []) × Silent slots

-- A property of the names, the contents and the number of files, while the writer is quiet.
abbrev pub State : Type 1
State = Names → (ℕ → Bytes) → ℕ → Type 0

abbrev pub Calm : State → World → Type 0
Calm P w = Silent w.schedule × P w.names w.store w.next

module _ (P : State) where
  enter_with-Calm :
      (slots : List Slot) (w : World)
      → w.schedule ≡ slots
      → Calm P w
      → Calm P ((enter_with slots w).1)
  unfolding enter_with acts Silent
  enter_with-Calm [] w e h = h
  enter_with-Calm (s ∷ slots) w e (silent, p) =
      let (still, rest) = subst Silent e silent in rw still (rest, p)

  pub enter-Calm : (w : World) → Calm P w → Calm P ((enter w).1)
  enter-Calm w h = enter_with-Calm w.schedule w refl h

-- `S` holds after an error, `Q` of the value and the world otherwise.
abbrev pub Ends :
    {A : Type 0} → (World → Type 0) → (A → World → Type 0) → Result FileError A × World → Type 0
Ends S Q (ok a, w) = Q a w
Ends S Q (err e, w) = S w

module _ (S : World → Type 0) {A : Type 0} (Q : A → World → Type 0) where
  pub bind-Ends :
      {B : Type 0} (R : B → World → Type 0) (m : Program FileError A) (f : A → Program FileError B)
      (w : World)
      → Ends S Q (m w)
      → ((a : A) (v : World) → Q a v → Ends S R (f a v))
      → Ends S R ((m >>= f) w)
  unfolding ◌>>=◌
  bind-Ends R m f w h k = after (m w) h
    where
      after : (r : Result FileError A × World) → Ends S Q r → Ends S R (continue r f)
      after (ok a, v) q = k a v q
      after (err e, v) q = q

  pub guarded-Ends :
      (f : Slot → Program FileError A) (w : World)
      → S ((enter w).1)
      → Ends S Q (f ((enter w).0) ((enter w).1))
      → Ends S Q (guarded f w)
  unfolding guarded
  guarded-Ends f w s h = elim (Bool-cases ((enter w).0.fails)) [ inl e ↦ rw e s | inr e ↦ rw e h ]
