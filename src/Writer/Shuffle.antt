-- ===== src/Writer/Shuffle.antt =====
-- The files of the writer, taken in another order.
use mathlib.Core.List.{Permᴰ}
use logrotate_cache_lab.Base.{
  ℕ, ◌≡◌, refl, sym, ap, ◌∙◌, Option, List, [], ◌∷◌, ◌++◌, map, Bytes, All, arith,
}
use logrotate_cache_lab.Integrity.Lines.{OpenFile}
use logrotate_cache_lab.Integrity.Counts.{times, times-append}
use logrotate_cache_lab.Integrity.Order.{Ascends}
use logrotate_cache_lab.Integrity.Intact.{log_of}
use logrotate_cache_lab.Writer.Stream.{all_of}
use logrotate_cache_lab.Writer.Files.{Stored}

module _ (open_file : Bytes → Option OpenFile) (run_id : Bytes) (size : ℕ) where
  -- What other paths hold, with the same sequences.
  pub record Shuffled (paths : List Bytes) (others : List (List ℕ)) : Type 0 where
    pub files : List (List ℕ)
    pub stored : Stored open_file paths (map (log_of run_id size) files)
    pub counts : (k : ℕ) → times k (all_of files) ≡ times k (all_of others)
    pub ascends : All Ascends others → All Ascends files

  pub permuted :
      {paths audited : List Bytes}
      → Permᴰ paths audited
      → (files : List (List ℕ)) → Stored open_file paths (map (log_of run_id size) files)
      → Shuffled audited files
  permuted Permᴰ.nil files h = record {
    files = files;
    stored = h;
    counts = λ k. refl;
    ascends = λ a. a;
  }
  permuted (Permᴰ.cons e p) [] h = absurd h
  permuted (Permᴰ.cons {b = b} e p) (xs ∷ files) (here, h) =
      let s = permuted p files h in
      record {
        files = xs ∷ s.files;
        stored = (sym (ap open_file e) ∙ here, s.stored);
        counts = λ k. rw (times-append, s.counts k) (sym (times-append k xs (all_of files)));
        ascends = λ (a, all). (a, s.ascends all);
      }
  permuted (Permᴰ.swap e f) [] h = absurd h
  permuted (Permᴰ.swap e f) (xs ∷ []) (here, h) = absurd h
  permuted (Permᴰ.swap e f) (xs ∷ ys ∷ files) (first, (second, h)) = record {
    files = ys ∷ xs ∷ files;
    stored = (sym (ap open_file f) ∙ second, (sym (ap open_file e) ∙ first, h));
    counts = λ k. omega (
      arith,
      times-append k ys (xs ++ all_of files),
      times-append k xs (all_of files),
      times-append k xs (ys ++ all_of files),
      times-append k ys (all_of files),
    );
    ascends = λ (a, (b, all)). (b, (a, all));
  }
  permuted (Permᴰ.trans p q) files h =
      let s = permuted p files h in
      let t = permuted q s.files s.stored in
      record {
        files = t.files;
        stored = t.stored;
        counts = λ k. t.counts k ∙ s.counts k;
        ascends = λ a. t.ascends (s.ascends a);
      }
