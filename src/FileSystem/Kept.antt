-- ===== src/FileSystem/Kept.antt =====
-- What a program over the directory keeps: the names, the contents and the writer's file.
use logrotate_cache_lab.Base.{
  ℕ, ◌<◌, ◌≡◌, ◌≢◌, refl, sym, ap, ◌∙◌, ◌⊎◌, inl, inr, none, some, List, [], ◌∷◌, ◌++◌, append-nil,
  append_assoc, Bytes, str_eq, str_eq_iff, str_eq_refl, str_eq_of_ne, ◌==◌, ==_iff, Bool-cases,
  arith,
}
use logrotate_cache_lab.FileSystem.{Names, World, lookup, unlink, set_store}

module _ {ℓ} {A : Type ℓ} where
  abbrev pub Prefix : List A → List A → Type ℓ
  Prefix xs ys = (zs : List A) × (xs ++ zs ≡ ys)

  pub Prefix-refl : (xs : List A) → Prefix xs xs
  Prefix-refl xs = ([], append-nil xs)

  pub Prefix-trans : (xs ys zs : List A) → Prefix xs ys → Prefix ys zs → Prefix xs zs
  Prefix-trans xs ys zs (us, hu) (vs, hv) =
      (us ++ vs, sym (append_assoc xs us vs) ∙ ap (λ s. s ++ vs) hu ∙ hv)

  pub Prefix-append : (xs ys : List A) → Prefix xs (xs ++ ys)
  Prefix-append xs ys = (ys, refl)

pub name-cases : (n m : Bytes) → (n ≡ m) ⊎ (n ≢ m)
name-cases n m = elim (Bool-cases (str_eq n m)) [
  | inl h ↦ inl ((str_eq_iff n m).0 h)
  | inr h ↦ inr (λ e. ground (arith, h, (str_eq_iff n m).1 e))
]

pub lookup-here : (n : Bytes) (i : ℕ) (names : Names) → lookup n ((n, i) ∷ names) ≡ some i
unfolding lookup
lookup-here n i names = rw (str_eq_refl n) refl

pub lookup-there :
    (n m : Bytes) (i : ℕ) (names : Names) → n ≢ m → lookup n ((m, i) ∷ names) ≡ lookup n names
unfolding lookup
lookup-there n m i names h = rw (str_eq_of_ne n m h) refl

pub lookup-unlink_self : (n : Bytes) (names : Names) → lookup n (unlink n names) ≡ none
unfolding lookup unlink
lookup-unlink_self n [] = refl
lookup-unlink_self n ((m, i) ∷ names) = ground (arith, lookup-unlink_self n names)

pub lookup-unlink :
    (n m : Bytes) (names : Names) → n ≢ m → lookup n (unlink m names) ≡ lookup n names
unfolding lookup unlink
lookup-unlink n m [] h = refl
lookup-unlink n m ((k, i) ∷ names) h = elim (name-cases m k) [
  | inl e ↦
      rw ((str_eq_iff m k).1 e, str_eq_of_ne n k (λ q. h (q ∙ sym e)), lookup-unlink n m names h)
        refl
  | inr d ↦ rw (str_eq_of_ne m k d, lookup-unlink n m names h) refl
]

-- Every name leads to a file there is, and the writer's file has a name.
pub record Sound (w : World) : Type 0 where
  pub allocated : (n : Bytes) (i : ℕ) → lookup n w.names ≡ some i → i < w.next
  pub attached : (n : Bytes) × (lookup n w.names ≡ some w.fd)

-- What stood under a name stands under one, with nothing taken from it.
abbrev pub KeepsFiles : World → World → Type 0
KeepsFiles w w' =
    (n : Bytes) (i : ℕ)
    → lookup n w.names ≡ some i
    → (n' : Bytes) × (lookup n' w'.names ≡ some i) × Prefix (w.store i) (w'.store i)

abbrev pub Kept : World → World → Type 0
Kept w w' = Sound w → Sound w' × KeepsFiles w w'

pub Kept-refl : (w : World) → Kept w w
Kept-refl w h = (h, λ n i e. (n, e, Prefix-refl _))

pub Kept-trans : (u v w : World) → Kept u v → Kept v w → Kept u w
Kept-trans u v w f g h =
    let (hv, kv) = f h in
    let (hw, kw) = g hv in
    (
      hw,
      λ n i e.
          let (n', e', p) = kv n i e in
          let (n'', e'', q) = kw n' i e' in (n'', e'', Prefix-trans _ _ _ p q),
    )

-- A change of the contents that takes nothing away.
pub grow-Kept :
    (w : World) (store : ℕ → Bytes)
    → ((i : ℕ) → Prefix (w.store i) (store i))
    → Kept w (record w { store = store })
grow-Kept w store h s =
    (record { allocated = s.allocated; attached = s.attached }, λ n i e. (n, e, h i))

pub set_store-grows :
    (store : ℕ → Bytes) (j : ℕ) (bytes : Bytes) (i : ℕ)
    → Prefix (store i) (set_store j (store j ++ bytes) store i)
set_store-grows store j bytes i = elim (Bool-cases (i == j)) [
  | inl h ↦ subst-store ((==_iff i j).0 h)
  | inr h ↦ rw h (Prefix-refl _)
]
  where
    subst-store : i ≡ j → Prefix (store i) (set_store j (store j ++ bytes) store i)
    subst-store e = rw (e, (==_iff j j).1 refl) (Prefix-append _ _)

-- Bytes are appended to a file.
pub extend-Kept :
    (w : World) (j : ℕ) (bytes : Bytes)
    → Kept w (record w { store = set_store j (w.store j ++ bytes) w.store })
extend-Kept w j bytes = grow-Kept w _ (set_store-grows w.store j bytes)
