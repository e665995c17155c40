-- ===== src/Report/Atomic.antt =====
-- `WriteJSONAtomic` of internal/report/report.go, over the two names that it writes: the report's and
-- that of the temporary file beside it. A value is given by its JSON text.
use logrotate_cache_lab.Base.{
  ℕ, ◌≡◌, ◌≢◌, ◌⊎◌, refl, inl, inr, Bool, true, false, Option, none, some, List, [], ◌∷◌, Bytes,
  if◌then◌else◌, take, All,
}

-- What stands under the two names.
pub record Place : Type 0 where
  pub target : Option Bytes
  pub temp : Option Bytes

pub data WriteStep : Type 0 where
  make_directory : WriteStep
  create_temp : WriteStep
  encode_value : WriteStep
  sync : WriteStep
  close : WriteStep
  rename : WriteStep

-- Which calls fail, and how many bytes an `Encode` that fails has written.
pub record WriteAnswers : Type 0 where
  pub fails : WriteStep → Bool
  pub encoded : ℕ
  pub remove_fails : Bool

-- The states in between, the last one, and the call that failed.
pub record Written : Type 0 where
  pub between : List Place
  pub last : Place
  pub error : Option WriteStep

-- The deferred function: without `ok` the temporary file is removed.
abbrev cleaned : WriteAnswers → List Place → Place → WriteStep → Written
cleaned w between p step = record {
  between = between;
  last = record p { temp = if w.remove_fails then p.temp else none };
  error = some step;
}

abbrev failed : Place → WriteStep → Written
failed p step = record { between = p ∷ []; last = p; error = some step }

-- The calls on the file, which `CreateTemp` has made empty; `Sync` and `Close` change no name.
unfoldable pub write_temp : WriteAnswers → Bytes → Place → Written
write_temp w json p =
    let made = record p { temp = some [] } in
    let partial = record p { temp = some (take w.encoded json) } in
    let full = record p { temp = some json } in
    if w.fails encode_value
    then cleaned w (p ∷ made ∷ []) partial encode_value
    else if w.fails sync
    then cleaned w (p ∷ made ∷ full ∷ []) full sync
    else if w.fails close
    then cleaned w (p ∷ made ∷ full ∷ []) full close
    else if w.fails rename
    then cleaned w (p ∷ made ∷ full ∷ []) full rename
    else record {
      between = p ∷ made ∷ full ∷ [];
      last = record { target = some json; temp = none };
      error = none;
    }

unfoldable pub write_json_atomic : WriteAnswers → Bytes → Place → Written
write_json_atomic w json p =
    if w.fails make_directory
    then failed p make_directory
    else if w.fails create_temp
    then failed p create_temp
    else write_temp w json p

module _ (w : WriteAnswers) (json : Bytes) (p : Place) where
  -- The report is the old one in every state but the last, and there it is the new one exactly if
  -- there is no error; the temporary file is then gone, or could not be removed.
  abbrev pub IsAtomic : Written → Type 0
  IsAtomic r =
      All (λ (q : Place). q.target ≡ p.target) r.between
      × (((r.error ≡ none) × (r.last.target ≡ some json))
          ⊎ ((r.error ≢ none) × (r.last.target ≡ p.target)))
      × ((r.last.temp ≡ none) ⊎ (w.remove_fails ≡ true))

  if-IsAtomic : (b : Bool) (x y : Written) → IsAtomic x → IsAtomic y → IsAtomic (if b then x else y)
  if-IsAtomic true x y hx hy = hx
  if-IsAtomic false x y hx hy = hy

  cleaned-IsAtomic :
      (between : List Place) (q : Place) (step : WriteStep)
      → All (λ (q : Place). q.target ≡ p.target) between
      → q.target ≡ p.target
      → IsAtomic (cleaned w between q step)
  cleaned-IsAtomic between q step all same = (all, inr ((λ h. cc), same), temp w.remove_fails refl)
    where
      temp :
          (b : Bool)
          → w.remove_fails ≡ b
          → ((if b then q.temp else none) ≡ none) ⊎ (w.remove_fails ≡ true)
      temp true e = inr e
      temp false e = inl refl

  write_temp-IsAtomic : IsAtomic (write_temp w json p)
  unfolding write_temp
  write_temp-IsAtomic =
      let made = record p { temp = some [] } in
      let states : List Place = p ∷ made ∷ record p { temp = some json } ∷ [] in
      let unchanged : All (λ (q : Place). q.target ≡ p.target) states =
        (refl, (refl, (refl, tt))) in
      if-IsAtomic (w.fails encode_value) _ _
        (cleaned-IsAtomic (p ∷ made ∷ []) _ encode_value (refl, (refl, tt)) refl)
        (if-IsAtomic (w.fails sync) _ _ (cleaned-IsAtomic states _ sync unchanged refl) (
          if-IsAtomic (w.fails close) _ _ (cleaned-IsAtomic states _ close unchanged refl) (
            if-IsAtomic (w.fails rename) _ _ (cleaned-IsAtomic states _ rename unchanged refl)
              (unchanged, inl (refl, refl), inl refl))))

  -- Whatever call of `WriteJSONAtomic` fails, the report's name holds what it held before in every
  -- state but the last. There it holds the new text if there is no error, and what it held before if
  -- there is one; the temporary file is gone then, or could not be removed. There is no temporary
  -- file at the start.
  pub write_json_atomic-IsAtomic : p.temp ≡ none → IsAtomic (write_json_atomic w json p)
  unfolding write_json_atomic
  write_json_atomic-IsAtomic fresh =
      if-IsAtomic (w.fails make_directory) _ _ (untouched make_directory)
        (if-IsAtomic (w.fails create_temp) _ _ (untouched create_temp) write_temp-IsAtomic)
    where
      untouched : (step : WriteStep) → IsAtomic (failed p step)
      untouched step = ((refl, tt), inr ((λ h. cc), refl), inl fresh)
