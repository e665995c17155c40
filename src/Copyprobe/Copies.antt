-- ===== src/Copyprobe/Copies.antt =====
-- What `copyprobe` leaves in the two files, while the writer of the log is quiet.
use logrotate_cache_lab.Base.{
  ℕ, ◌<◌, ◌≡◌, ◌≢◌, refl, ap, ◌∙◌, inl, inr, Bool-cases, Option-cases, none, some, Option, [], ◌∷◌,
  Bytes, Result, ok, err, ==_iff, arith,
}
use logrotate_cache_lab.FileSystem.{
  Slot, Names, World, lookup, enter_with, enter, Program, ◌>>=◌, finished, FileError, Done, guarded,
  call, open_file, copy,
}
use logrotate_cache_lab.FileSystem.Kept.{lookup-here, lookup-there}
use logrotate_cache_lab.FileSystem.Calls.{other_name}
use logrotate_cache_lab.Copyprobe.{
  cut_or_make, create_empty, copy_file, Status, succeeded, usage, panicked, status_of, copyprobe,
}
use logrotate_cache_lab.Copyprobe.Calm.{State, Calm, Ends, enter-Calm, bind-Ends, guarded-Ends}

module _ (source destination : Bytes) (i : ℕ) (content : Bytes) where
  -- The source is there, with what it held.
  pub record SourceKept (names : Names) (store : ℕ → Bytes) (next : ℕ) : Type 0 where
    pub at_source : lookup source names ≡ some i
    pub holds : store i ≡ content
    pub allocated : i < next

  abbrev pub Unlinked : State
  Unlinked names store next = SourceKept names store next × (lookup destination names ≢ some i)

  -- The destination is another file, which holds `bytes`.
  abbrev Written : ℕ → Bytes → State
  Written j bytes names store next =
      SourceKept names store next
      × (lookup destination names ≡ some j)
      × (j ≢ i)
      × (store j ≡ bytes)

  abbrev CalmSource : World → Type 0
  CalmSource = Calm SourceKept

  kept_of :
      (P : State) (w : World)
      → ((n : Names) (s : ℕ → Bytes) (k : ℕ) → P n s k → SourceKept n s k)
      → Calm P w
      → CalmSource w
  kept_of P w f (silent, p) = (silent, f w.names w.store w.next p)

  module _ (P : State)
      (kept : (n : Names) (s : ℕ → Bytes) (k : ℕ) → P n s k → SourceKept n s k) where
    guarded-Calm :
        {A : Type 0} (Q : A → World → Type 0) (f : Slot → Program FileError A) (w : World)
        → Calm P w
        → ((s : Slot) (v : World) → Calm P v → Ends CalmSource Q (f s v))
        → Ends CalmSource Q (guarded f w)
    guarded-Calm Q f w h k =
        let h' = enter-Calm P w h in
        guarded-Ends CalmSource Q f w (kept_of P ((enter w).1) kept h')
          (k ((enter w).0) ((enter w).1) h')

    call-Calm : (w : World) → Calm P w → Ends CalmSource (λ done. Calm P) (call w)
    unfolding call finished
    call-Calm w h = guarded-Calm (λ done. Calm P) (λ s. finished (ok tt)) w h (λ s v h. h)

  open_file-Unlinked :
      (w : World)
      → Calm Unlinked w
      → Ends CalmSource (λ a v. (a ≡ i) × Calm Unlinked v) (open_file source w)
  unfolding open_file finished
  open_file-Unlinked w h =
      guarded-Calm Unlinked (λ n s k (kept, apart). kept) _ _ w h
        (λ s v (silent, (kept, apart)). rw kept.at_source (refl, (silent, (kept, apart))))

  cut_or_make-Written :
      (w : World) (o : Option ℕ)
      → lookup destination w.names ≡ o
      → Calm Unlinked w
      → Ends CalmSource (λ j. Calm (Written j [])) (cut_or_make destination o w)
  cut_or_make-Written w none e (silent, (kept, apart)) =
      let a = kept.allocated in
      (
        silent,
        (
          record {
            at_source =
                lookup-there source destination w.next w.names
                  (other_name source destination i w.names e kept.at_source)
                ∙ kept.at_source;
            holds = let h = kept.holds in ground (arith, a, h);
            allocated = omega arith;
          },
          lookup-here destination w.next w.names,
          (λ q. omega arith),
          ground arith,
        ),
      )
  cut_or_make-Written w (some j) e (silent, (kept, apart)) =
      let other : j ≢ i = λ q. apart (e ∙ ap some q) in
      (
        silent,
        (
          record {
            at_source = kept.at_source;
            holds = let h = kept.holds in ground (arith, other, h);
            allocated = kept.allocated;
          },
          e,
          other,
          ground arith,
        ),
      )

  create_empty-Written :
      (w : World)
      → Calm Unlinked w
      → Ends CalmSource (λ j. Calm (Written j [])) (create_empty destination w)
  unfolding create_empty
  create_empty-Written w h =
      guarded-Calm Unlinked (λ n s k (kept, apart). kept) _ _ w h
        (λ s v h. cut_or_make-Written v (lookup destination v.names) refl h)

  -- A copy that fails leaves the source, too.
  copy-Written :
      (j : ℕ) (w : World)
      → Calm (Written j []) w
      → Ends CalmSource (λ n. Calm (Written j content)) (copy i j w)
  unfolding copy
  copy-Written j w h =
      let (silent, (kept, at, other, empty)) = enter-Calm (Written j []) w h in
      let held = kept.holds in
      elim (Bool-cases ((enter w).0.fails)) [
        | inl e ↦ rw e (
          silent,
          record {
            at_source = kept.at_source;
            holds = ground (arith, other, held);
            allocated = kept.allocated;
          },
        )
        | inr e ↦ rw e (
          silent,
          (
            record {
              at_source = kept.at_source;
              holds = ground (arith, other, held);
              allocated = kept.allocated;
            },
            at,
            other,
            rw ((==_iff j j).1 refl, empty) held,
          ),
        )
      ]

  -- A copy that succeeds has found or made a destination, which holds what the source held.
  abbrev pub Copy : World → Type 0
  Copy w =
      Calm SourceKept w × ((j : ℕ) × (lookup destination w.names ≡ some j) × (w.store j ≡ content))

  written_kept :
      (j : ℕ) (bytes : Bytes) (n : Names) (s : ℕ → Bytes) (k : ℕ)
      → Written j bytes n s k
      → SourceKept n s k
  written_kept j bytes n s k (kept, at, other, holds) = kept

  copy_file-Copy :
      (w : World)
      → Calm Unlinked w
      → Ends CalmSource (λ done. Copy) (copy_file source destination w)
  unfolding copy_file finished
  copy_file-Copy w h =
      bind-Ends CalmSource (λ a v. (a ≡ i) × Calm Unlinked v) (λ done. Copy) (open_file source) _ w
        (open_file-Unlinked w h)
        (λ a v (e, h).
          bind-Ends CalmSource (λ j. Calm (Written j [])) (λ done. Copy) (create_empty destination)
            _ v (create_empty-Written v h)
            (λ j v h.
              bind-Ends CalmSource (λ n. Calm (Written j content)) (λ done. Copy) (copy a j) _ v
                (rw e (copy-Written j v h))
                (λ n v h.
                  bind-Ends CalmSource (λ done. Calm (Written j content)) (λ done. Copy) call _ v
                    (call-Calm (Written j content) (written_kept j content) v h)
                    (λ done v h.
                      bind-Ends CalmSource (λ done. Calm (Written j content)) (λ done. Copy) call _
                        v (call-Calm (Written j content) (written_kept j content) v h)
                        (λ done v (silent, (kept, at, other, holds)).
                          ((silent, kept), (j, at, holds)))))))

  abbrev pub Probed : Status × World → Type 0
  Probed (succeeded, w) = Copy w
  Probed (usage, w) = ⊥
  Probed (panicked e, w) = Calm SourceKept w

  status_of-Probed :
      (r : Result FileError Done × World) → Ends CalmSource (λ done. Copy) r → Probed (status_of r)
  status_of-Probed (ok done, w) h = h
  status_of-Probed (err e, w) h = h

  -- While the writer is quiet, copyprobe leaves the source as it is, whatever call fails, if the destination
  -- is not the same file. If it exits with 0, the destination holds what the source holds.
  pub copyprobe-Probed :
      (program : Bytes) (w : World)
      → Calm Unlinked w
      → Probed (copyprobe (program ∷ source ∷ destination ∷ []) w)
  unfolding copyprobe
  copyprobe-Probed program w h =
      status_of-Probed (copy_file source destination w) (copy_file-Copy w h)

-- It does exit with 0 if no call fails.
pub copyprobe-succeeded :
    (program source destination : Bytes) (i : ℕ) (w : World)
    → w.schedule ≡ []
    → lookup source w.names ≡ some i
    → (copyprobe (program ∷ source ∷ destination ∷ []) w).0 ≡ succeeded
unfolding copyprobe copy_file open_file create_empty copy call guarded enter_with finished ◌>>=◌
copyprobe-succeeded program source destination i w still at =
    let Q = lookup destination w.names in
    elim (Option-cases Q) [ inl e ↦ rw (still, at, e) refl | inr (j, e) ↦ rw (still, at, e) refl ]
