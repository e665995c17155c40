-- ===== src/FileSystem/Exact.antt =====
-- What the log holds after a number of calls, by the writer's moves before each of them.
use mathlib.Core.Option.{some-injective}
use logrotate_cache_lab.Base.{
  ℕ, zero, suc, ◌+◌, ◌<◌, ◌≡◌, refl, sym, ap, ◌∙◌, Option, none, some, List, [], ◌∷◌, ◌++◌,
  append-nil, append_assoc, Bytes, ==_iff, subst, take, drop, arith,
}
use logrotate_cache_lab.FileSystem.{
  Move, append, reopen, Slot, World, lookup, open_log, act, acts, enter_with, enter,
}

-- The bytes that moves append.
unfoldable pub moved_bytes : List Move → Bytes
moved_bytes [] = []
moved_bytes (append bytes ∷ moves) = bytes ++ moved_bytes moves
moved_bytes (reopen ∷ moves) = moved_bytes moves

unfoldable pub appended : List Slot → Bytes
unfolding moved_bytes
appended [] = []
appended (s ∷ slots) = moved_bytes s.moves ++ appended slots

zero_add : (n : ℕ) → zero + n ≡ n
zero_add n = omega arith

suc_add : (m n : ℕ) → suc m + n ≡ suc (m + n)
suc_add m n = omega arith

add_one : (n : ℕ) → suc n ≡ n + 1
add_one n = omega arith

module _ {ℓ} {A : Type ℓ} where
  take-nil : (n : ℕ) → take {A = A} n [] ≡ []
  take-nil zero = refl
  take-nil (suc n) = refl

  pub take-drop : (m n : ℕ) (xs : List A) → take (m + n) xs ≡ take m xs ++ take n (drop m xs)
  take-drop zero n xs = rw (zero_add n) refl
  take-drop (suc m) n [] = rw (suc_add m n) (sym (take-nil n))
  take-drop (suc m) n (x ∷ xs) = rw (suc_add m n) (ap (λ t. x ∷ t) (take-drop m n xs))

  drop-suc : (m : ℕ) (xs : List A) → drop (suc m) xs ≡ drop 1 (drop m xs)
  drop-suc zero xs = refl
  drop-suc (suc m) [] = refl
  drop-suc (suc m) (x ∷ xs) = drop-suc m xs

pub appended-append : (a b : List Slot) → appended (a ++ b) ≡ appended a ++ appended b
unfolding appended
appended-append [] b = refl
appended-append (s ∷ a) b =
    ap (λ t. moved_bytes s.moves ++ t) (appended-append a b)
    ∙ sym (append_assoc (moved_bytes s.moves) (appended a) (appended b))

-- The log is the file `i`, which the writer has open and which holds exactly `content`; `slots` are left
-- of the schedule.
pub record Snapshot (log : Bytes) (i : ℕ) (slots : List Slot) (content : Bytes) (w : World)
    : Type 0 where
  pub here : w.log_path ≡ log
  pub at_log : lookup log w.names ≡ some i
  pub open_at : w.fd ≡ i
  pub allocated : i < w.next
  pub left : w.schedule ≡ slots
  pub holds : w.store i ≡ content

module _ (log : Bytes) (i : ℕ) where
  open_log-Snapshot :
      (slots : List Slot) (content : Bytes) (w : World) (o : Option ℕ)
      → o ≡ some i
      → Snapshot log i slots content w
      → Snapshot log i slots content (open_log o w)
  open_log-Snapshot slots content w none e s = absurd cc
  open_log-Snapshot slots content w (some k) e s = record {
    here = s.here;
    at_log = s.at_log;
    open_at = some-injective k i e;
    allocated = s.allocated;
    left = s.left;
    holds = s.holds;
  }

  bytes_of : Move → Bytes
  bytes_of (append bytes) = bytes
  bytes_of reopen = []

  act-Snapshot :
      (m : Move) (slots : List Slot) (content : Bytes) (w : World)
      → Snapshot log i slots content w
      → Snapshot log i slots (content ++ bytes_of m) (act m w)
  unfolding act bytes_of
  act-Snapshot (append bytes) slots content w s = record {
    here = s.here;
    at_log = s.at_log;
    open_at = s.open_at;
    allocated = s.allocated;
    left = s.left;
    holds = rw (s.open_at, (==_iff i i).1 refl, s.holds) refl;
  }
  act-Snapshot reopen slots content w s = rw (append-nil content) (
      open_log-Snapshot slots content w (lookup w.log_path w.names)
        (ap (λ p. lookup p w.names) s.here ∙ s.at_log) s)

  moved_bytes-cons :
      (m : Move) (moves : List Move) → moved_bytes (m ∷ moves) ≡ bytes_of m ++ moved_bytes moves
  unfolding moved_bytes bytes_of
  moved_bytes-cons (append bytes) moves = refl
  moved_bytes-cons reopen moves = refl

  acts-Snapshot :
      (moves : List Move) (slots : List Slot) (content : Bytes) (w : World)
      → Snapshot log i slots content w
      → Snapshot log i slots (content ++ moved_bytes moves) (acts moves w)
  unfolding acts moved_bytes
  acts-Snapshot [] slots content w s = rw (append-nil content) s
  acts-Snapshot (m ∷ moves) slots content w s =
      subst (λ t. Snapshot log i slots t (acts moves (act m w)))
        (append_assoc content (bytes_of m) (moved_bytes moves)
          ∙ ap (λ t. content ++ t) (sym (moved_bytes-cons m moves)))
        (acts-Snapshot moves slots (content ++ bytes_of m) (act m w)
          (act-Snapshot m slots content w s))

  enter_with-Snapshot :
      (slots : List Slot) (content : Bytes) (w : World)
      → Snapshot log i slots content w
      → Snapshot log i (drop 1 slots) (content ++ appended (take 1 slots)) ((enter_with slots w).1)
  unfolding enter_with appended
  enter_with-Snapshot [] content w s = rw (append-nil content) s
  enter_with-Snapshot (x ∷ slots) content w s = rw (append-nil (moved_bytes x.moves)) (
      acts-Snapshot x.moves slots content (record w { schedule = slots })
        (record {
          here = s.here;
          at_log = s.at_log;
          open_at = s.open_at;
          allocated = s.allocated;
          left = refl;
          holds = s.holds;
        }))

  -- The log when `n` calls were entered.
  abbrev pub After : List Slot → Bytes → ℕ → World → Type 0
  After slots content n = Snapshot log i (drop n slots) (content ++ appended (take n slots))

  take_suc :
      (slots : List Slot) (content : Bytes) (n : ℕ)
      → (content ++ appended (take n slots)) ++ appended (take 1 (drop n slots))
        ≡ content ++ appended (take (n + 1) slots)
  take_suc slots content n =
      append_assoc content (appended (take n slots)) (appended (take 1 (drop n slots)))
      ∙ ap (λ t. content ++ t)
          (sym (appended-append (take n slots) (take 1 (drop n slots)))
            ∙ ap appended (sym (take-drop n 1 slots)))

  drop_suc : (n : ℕ) (slots : List Slot) → drop 1 (drop n slots) ≡ drop (n + 1) slots
  drop_suc n slots = sym (drop-suc n slots) ∙ ap (λ k. drop k slots) (add_one n)

  pub enter-After :
      (slots : List Slot) (content : Bytes) (n : ℕ) (w : World)
      → After slots content n w
      → After slots content (n + 1) ((enter w).1)
  enter-After slots content n w s =
      let entered =
        subst
          (λ q.
            Snapshot log i (drop 1 (drop n slots))
              ((content ++ appended (take n slots)) ++ appended (take 1 (drop n slots)))
              ((enter_with q w).1))
          (sym s.left)
          (enter_with-Snapshot (drop n slots) (content ++ appended (take n slots)) w s) in
      subst (λ d. Snapshot log i d (content ++ appended (take (n + 1) slots)) ((enter w).1))
        (drop_suc n slots)
        (subst (λ c. Snapshot log i (drop 1 (drop n slots)) c ((enter w).1))
          (take_suc slots content n) entered)
