-- ===== src/Base/Sort.antt =====
-- `sort.Slice` and `sort.Strings` of Go, as insertion sorts: for the values that are sorted here, equal
-- ones cannot be told apart.
use mathlib.Core.Bool.{Bool, true, false, ◌&&◌, ◌||◌}
use mathlib.Core.List.{List, [], ◌∷◌}
use logrotate_cache_lab.Base.Tests.{ltb, ◌==◌, if◌then◌else◌}
use logrotate_cache_lab.Base.Text.{Bytes}

unfoldable pub insert_by {ℓ} : {A : Type ℓ} → (A → A → Bool) → A → List A → List A
insert_by less a [] = a ∷ []
insert_by less a (b ∷ bs) =
    let rest = insert_by less a bs in if less b a then b ∷ rest else a ∷ b ∷ bs

unfoldable pub sort_by {ℓ} : {A : Type ℓ} → (A → A → Bool) → List A → List A
sort_by less [] = []
sort_by less (a ∷ rest) = insert_by less a (sort_by less rest)

-- `s < t` on strings.
unfoldable pub ltb_bytes : Bytes → Bytes → Bool
ltb_bytes s [] = false
ltb_bytes [] (d ∷ t) = true
ltb_bytes (c ∷ s) (d ∷ t) = ltb c d || c == d && ltb_bytes s t
