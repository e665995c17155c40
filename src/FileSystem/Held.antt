-- ===== src/FileSystem/Held.antt =====
-- What a program that succeeds has established, and bytes that stay in a file while the writer moves.
use logrotate_cache_lab.Base.{
  ℕ, ◌<◌, ◌≡◌, ◌≢◌, refl, ap, ◌∙◌, inl, inr, Bool-cases, some, none, Option, List, [], ◌∷◌, Bytes,
  Result, ok, err, arith,
}
use logrotate_cache_lab.Csv.{Piece}
use logrotate_cache_lab.FileSystem.{
  Move, append, reopen, Slot, World, lookup, open_log, act, acts, enter_with, enter, Program,
  continue, ◌>>=◌, label, relabel, FileError, guarded, call, finished, Done, write_rows,
}
use logrotate_cache_lab.FileSystem.Kept.{
  Prefix, Prefix-trans, set_store-grows, lookup-here, lookup-there,
}

-- `Q` holds of the value and the world, if there is a value.
abbrev pub Good {ℓ κ} :
    {E : Type ℓ} {A : Type κ} → (A → World → Type 0) → Result E A × World → Type 0
Good Q (ok a, w) = Q a w
Good Q (err e, w) = Unit

module _ {ℓ κ} {E : Type ℓ} {A : Type κ} where
  pub bind-Good {μ} :
      {B : Type μ} (Q : A → World → Type 0) (R : B → World → Type 0) (m : Program E A)
      (f : A → Program E B) (w : World)
      → Good Q (m w)
      → ((a : A) (v : World) → Q a v → Good R (f a v))
      → Good R ((m >>= f) w)
  unfolding ◌>>=◌
  bind-Good Q R m f w h k = after (m w) h
    where
      after : (r : Result E A × World) → Good Q r → Good R (continue r f)
      after (ok a, v) q = k a v q
      after (err e, v) q = tt

  pub label-Good {μ} :
      {E' : Type μ} (Q : A → World → Type 0) (g : E → E') (m : Program E A) (w : World)
      → Good Q (m w)
      → Good Q (label g m w)
  unfolding label
  label-Good Q g m w h = after (m w) h
    where
      after : (r : Result E A × World) → Good Q r → Good Q (relabel g r)
      after (ok a, v) q = q
      after (err e, v) q = tt

pub guarded-Good {ℓ} :
    {A : Type ℓ} (Q : A → World → Type 0) (f : Slot → Program FileError A) (w : World)
    → Good Q (f ((enter w).0) ((enter w).1))
    → Good Q (guarded f w)
unfolding guarded
guarded-Good Q f w h = elim (Bool-cases ((enter w).0.fails)) [ inl e ↦ rw e tt | inr e ↦ rw e h ]

pub write_rows-Good :
    (Q : Done → World → Type 0) (rows : Slot → List Piece → List (List Bytes)) (w : World)
    → ((events : List Piece) → let v = (enter w).1 in Q tt (record v { events = events }))
    → Good Q (write_rows rows w)
unfolding write_rows
write_rows-Good Q rows w h = elim (Bool-cases ((enter w).0.fails)) [
  | inl e ↦ rw e tt
  | inr e ↦ rw e (h _)
]

-- A property of the names, the contents and the writer's file that the writer's moves keep.
pub record Stable (P : World → Type 0) : Type 0 where
  pub move : (m : Move) (w : World) → P w → P (act m w)
  pub aside :
      (w : World) (events : List Piece) (schedule : List Slot)
      → P w
      → P (record w { events = events; schedule = schedule })

module _ (P : World → Type 0) (stable : Stable P) where
  acts-Stable : (moves : List Move) (w : World) → P w → P (acts moves w)
  unfolding acts
  acts-Stable [] w h = h
  acts-Stable (m ∷ moves) w h = acts-Stable moves (act m w) (stable.move m w h)

  enter_with-Stable : (schedule : List Slot) (w : World) → P w → P ((enter_with schedule w).1)
  unfolding enter_with
  enter_with-Stable [] w h = h
  enter_with-Stable (s ∷ rest) w h = acts-Stable s.moves _ (stable.aside w w.events rest h)

  pub enter-Stable : (w : World) → P w → P ((enter w).1)
  enter-Stable w h = enter_with-Stable w.schedule w h

  pub call-Stable : (w : World) → P w → Good (λ done. P) (call w)
  unfolding call finished
  call-Stable w h = guarded-Good (λ done. P) (λ s. finished (ok tt)) w (enter-Stable w h)

-- The log holds `bytes`, with more behind them.
pub record InLog (log : Bytes) (i : ℕ) (bytes : Bytes) (w : World) : Type 0 where
  pub here : w.log_path ≡ log
  pub at_log : lookup w.log_path w.names ≡ some i
  pub held : Prefix bytes (w.store i)
  pub allocated : i < w.next
  pub writer_allocated : w.fd < w.next

InLog-open_log :
    (log : Bytes) (i : ℕ) (bytes : Bytes) (w : World) (o : Option ℕ)
    → lookup w.log_path w.names ≡ o
    → InLog log i bytes w
    → InLog log i bytes (open_log o w)
InLog-open_log log i bytes w none e h =
    let missing = h.at_log in absurd (ground (arith, e, missing))
InLog-open_log log i bytes w (some k) e h =
    let found = h.at_log in
    let a = h.allocated in
    record {
      here = h.here;
      at_log = h.at_log;
      held = h.held;
      allocated = h.allocated;
      writer_allocated = ground (arith, e, found, a);
    }

InLog-act :
    (log : Bytes) (i : ℕ) (bytes : Bytes) (m : Move) (w : World)
    → InLog log i bytes w
    → InLog log i bytes (act m w)
unfolding act
InLog-act log i bytes (append more) w h = record {
  here = h.here;
  at_log = h.at_log;
  held = Prefix-trans _ _ _ h.held (set_store-grows w.store w.fd more i);
  allocated = h.allocated;
  writer_allocated = h.writer_allocated;
}
InLog-act log i bytes reopen w h = InLog-open_log log i bytes w (lookup w.log_path w.names) refl h

pub InLog-Stable : (log : Bytes) (i : ℕ) (bytes : Bytes) → Stable (InLog log i bytes)
InLog-Stable log i bytes = record {
  move = InLog-act log i bytes;
  aside = λ w events schedule h. record {
    here = h.here;
    at_log = h.at_log;
    held = h.held;
    allocated = h.allocated;
    writer_allocated = h.writer_allocated;
  };
}

-- The file `inode` stands under `path`, which is neither the
-- log's nor the writer's.
pub record Apart (log path : Bytes) (inode : ℕ) (w : World) : Type 0 where
  pub here : w.log_path ≡ log
  pub other : path ≢ w.log_path
  pub at_path : lookup path w.names ≡ some inode
  pub not_log : lookup w.log_path w.names ≢ some inode
  pub not_writer : w.fd ≢ inode
  pub allocated : inode < w.next

Apart-open_log :
    (log path : Bytes) (j : ℕ) (w : World) (o : Option ℕ)
    → lookup w.log_path w.names ≡ o
    → Apart log path j w
    → Apart log path j (open_log o w) × ((open_log o w).store j ≡ w.store j)
Apart-open_log log path j w none e h =
    let a = h.allocated in
    (
      record {
        here = h.here;
        other = h.other;
        at_path = lookup-there path w.log_path w.next w.names h.other ∙ h.at_path;
        not_log =
            λ q. let here = lookup-here w.log_path w.next w.names in ground (arith, q, here, a);
        not_writer = λ q. omega arith;
        allocated = omega arith;
      },
      ground (arith, a),
    )
Apart-open_log log path j w (some i) e h =
    let n = h.not_log in
    (
      record {
        here = h.here;
        other = h.other;
        at_path = h.at_path;
        not_log = h.not_log;
        not_writer = λ q. n (e ∙ ap some q);
        allocated = h.allocated;
      },
      refl,
    )

-- The writer does not change the file.
Apart-act :
    (log path : Bytes) (j : ℕ) (m : Move) (w : World)
    → Apart log path j w
    → Apart log path j (act m w) × ((act m w).store j ≡ w.store j)
unfolding act
Apart-act log path j (append more) w h =
    let n = h.not_writer in
    (
      record {
        here = h.here;
        other = h.other;
        at_path = h.at_path;
        not_log = h.not_log;
        not_writer = h.not_writer;
        allocated = h.allocated;
      },
      ground (arith, n),
    )
Apart-act log path j reopen w h = Apart-open_log log path j w (lookup w.log_path w.names) refl h

-- The file holds exactly `bytes`.
abbrev pub Holding : Bytes → Bytes → ℕ → Bytes → World → Type 0
Holding log path j bytes w = Apart log path j w × (w.store j ≡ bytes)

pub Holding-Stable : (log path : Bytes) (j : ℕ) (bytes : Bytes) → Stable (Holding log path j bytes)
Holding-Stable log path j bytes = record {
  move = λ m w (h, e). let (h', e') = Apart-act log path j m w h in (h', e' ∙ e);
  aside = λ w events schedule (h, e). (
    record {
      here = h.here;
      other = h.other;
      at_path = h.at_path;
      not_log = h.not_log;
      not_writer = h.not_writer;
      allocated = h.allocated;
    },
    e,
  );
}
