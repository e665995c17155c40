-- ===== src/Tests/Copyprobe.antt =====
-- copyprobe over a directory with a file `b` that is longer than the source `a`.
use logrotate_cache_lab.Base.{◌≡◌, refl, true, List, [], ◌∷◌, Bytes, codes, str_eq, arith}
use logrotate_cache_lab.FileSystem.{
  fault, Slot, quiet, World, lookup, set_store, acts, enter_with, guarded, call, open_file, copy,
  ◌>>=◌, finished,
}
use logrotate_cache_lab.Copyprobe.{create_empty, copy_file, copyprobe, usage, succeeded, panicked}
use logrotate_cache_lab.Copyprobe.Calm.{Silent, Calm}
use logrotate_cache_lab.Copyprobe.Copies.{Unlinked, Probed, copyprobe-Probed}

abbrev arguments : Bytes → List Bytes
arguments destination = codes "copyprobe" ∷ codes "a" ∷ destination ∷ []

abbrev fails : Slot
fails = record quiet { fails = true; amount = 1 }

abbrev world : List Slot → World
world schedule = record {
  names = (codes "a", 0) ∷ (codes "b", 1) ∷ [];
  store = set_store 0 (codes "xy") (λ i. codes "long");
  next = 2;
  fd = 0;
  log_path = codes "a";
  events = [];
  schedule = schedule;
}

world-Calm :
    Calm (Unlinked (codes "a") (codes "b") 0 (codes "xy")) (world (quiet ∷ quiet ∷ fails ∷ []))
unfolding Silent lookup str_eq
world-Calm = (
  (refl, (refl, (refl, tt))),
  (record { at_source = refl; holds = refl; allocated = omega arith }, λ e. ground (arith, e)),
)

-- The copy itself fails: the source is what it was.
copyprobe-Probed_example :
    Probed
      (codes "a")
      (codes "b")
      0
      (codes "xy")
      (copyprobe (arguments (codes "b")) (world (quiet ∷ quiet ∷ fails ∷ [])))
copyprobe-Probed_example =
    copyprobe-Probed (codes "a") (codes "b") 0 (codes "xy") (codes "copyprobe")
      (world (quiet ∷ quiet ∷ fails ∷ [])) world-Calm

-- Then the destination holds the first bytes.
copy_cut_short :
    let (status, w) = copyprobe (arguments (codes "b")) (world (quiet ∷ quiet ∷ fails ∷ [])) in
    (status ≡ panicked fault) × (w.store 1 ≡ codes "x")
unfolding copyprobe copy_file open_file create_empty copy call guarded enter_with acts finished
    ◌>>=◌ lookup str_eq
copy_cut_short = (refl, refl)

-- A file that is copied to itself is emptied.
copied_to_itself :
    let (status, w) = copyprobe (arguments (codes "a")) (world []) in
    (status ≡ succeeded) × (w.store 0 ≡ [])
unfolding copyprobe copy_file open_file create_empty copy call guarded enter_with acts finished
    ◌>>=◌ lookup str_eq
copied_to_itself = (refl, refl)

no_destination : (copyprobe (codes "copyprobe" ∷ codes "a" ∷ []) (world [])).0 ≡ usage
unfolding copyprobe
no_destination = refl
