-- ===== src/FilePath.antt =====
-- `filepath.Base` of Go, for `/` as the separator.
use logrotate_cache_lab.Base.{[], ◌∷◌, ◌++◌, Bytes, codes, ◌==◌, if◌then◌else◌, ◌≡◌, refl}

-- The path without the slashes at its end; `held` are slashes that something may still follow.
trim_slashes : Bytes → Bytes → Bytes
trim_slashes held [] = []
trim_slashes held (c ∷ s) =
    let slash = trim_slashes (held ++ c ∷ []) s in
    let other = held ++ c ∷ trim_slashes [] s in if c == b'/' then slash else other

-- What follows the last slash.
last_element : Bytes → Bytes → Bytes
last_element cur [] = cur
last_element cur (c ∷ s) = last_element (if c == b'/' then [] else cur ++ c ∷ []) s

or_slash : Bytes → Bytes
or_slash [] = codes "/"
or_slash (c ∷ s) = c ∷ s

unfoldable pub base : Bytes → Bytes
unfolding trim_slashes last_element or_slash
base [] = codes "."
base (c ∷ s) = or_slash (last_element [] (trim_slashes [] (c ∷ s)))

base_of_log : base (codes "/var/log/loglab/envoy.log.000001") ≡ codes "envoy.log.000001"
unfolding base
base_of_log = refl

base_of_slashes : base (codes "//") ≡ codes "/"
unfolding base
base_of_slashes = refl
