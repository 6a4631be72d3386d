-- ===== src/Chardev/Seqlock/Torn/Mixed.antt =====
-- A read of day_04/ex10.c can mix two contents.
use mathlib.Core.Option.{some-injective}
use ldd3_examples.Common.{
  ℕ, zero, suc, ◌+◌, ◌≤◌, ◌<◌, ◌≡◌, refl, subst, sym, ap, false, inl, List, [], ◌∷◌, ◌++◌, Option,
  some, get_elem?, set, take, drop, length, length-append, length-take, length-drop, done, arith,
  Steps, here, also, join,
}
use ldd3_examples.Kernel.Uaccess.{Uaccess}
use ldd3_examples.Chardev.Defs.{
  clamp, sub64, down, up, read_seqbegin, read_seqretry, copy_to_user, copy_from_user,
}
use ldd3_examples.Chardev.Copy.{copy_out-done, copy_in-done}
use ldd3_examples.Chardev.Seqlock.{read, write}
use ldd3_examples.Chardev.Seqlock.Torn.{
  Machine, quiet, mix, Step, reads, writes, begins, shows, has_shown, accepts, locks, puts,
}

get-some : (xs : List ℕ) (i : ℕ) → i < length xs → (c : ℕ) × (get_elem? xs i ≡ some c)
get-some [] i h = elim h [ ]
get-some (x ∷ xs) zero h = (x, refl)
get-some (x ∷ xs) (suc i) h = get-some xs i (omega arith)

pub set-mix :
    (k c : ℕ) (new old : List ℕ)
    → get_elem? new k ≡ some c
    → k < length old
    → set (mix k new old) k c ≡ mix (suc k) new old
set-mix k c [] old e h = cc
set-mix k c (x ∷ xs) [] e h = elim h [ ]
set-mix zero c (x ∷ xs) (y ∷ ys) e h = ap (λ (v : ℕ). v ∷ ys) (sym (some-injective _ _ e))
set-mix (suc k) c (x ∷ xs) (y ∷ ys) e h = ap (◌∷◌ x) (set-mix k c xs ys e (omega arith))

pub take-suc :
    (i c : ℕ) (xs : List ℕ) → get_elem? xs i ≡ some c → take i xs ++ c ∷ [] ≡ take (suc i) xs
take-suc i c [] e = cc
take-suc zero c (x ∷ xs) e = ap (λ (v : ℕ). v ∷ []) (sym (some-injective _ _ e))
take-suc (suc i) c (x ∷ xs) e = ap (◌∷◌ x) (take-suc i c xs e)

pub length-mix :
    (k : ℕ) (new old : List ℕ)
    → k ≤ length new
    → k ≤ length old
    → length (mix k new old) ≡ length old
length-mix k new old h h' =
    omega (arith, length-append (take k new) (drop k old), length-take k new, length-drop k old)

module _ (u : Uaccess) (seq n : ℕ) (old new : List ℕ) (room : n ≤ length old)
    (given : n ≤ length new) where
  -- The writer has put `k` bytes.
  abbrev filling : ℕ → Machine
  filling k = record (quiet seq (mix k new old)) {
    writing = copy_from_user n ∷ up ∷ [];
    source = new;
    put = k;
  }

  fill : (i j k : ℕ) → j + i ≡ k → k ≤ n → Steps (Step u) (filling j) (filling k)
  fill zero j k e h = subst (λ (x : ℕ). Steps (Step u) (filling j) (filling x)) (omega arith) here
  fill (suc i) j k e h =
      let (c, is) = get-some new j (omega arith) in
      also (puts refl (omega arith) is)
        (rw (set-mix j c new old is (omega arith)) (fill i (suc j) k (omega arith) h))

  -- Then the reader has `i` bytes.
  abbrev showing : (k i : ℕ) → Machine
  showing k i = record (filling k) {
    reading = copy_to_user n ∷ read_seqretry ∷ [];
    shown = take i (mix k new old);
  }

  length-shown : (k i : ℕ) → k ≤ n → i ≤ n → length (take i (mix k new old)) ≡ i
  length-shown k i h h' =
      omega (arith, length-take i (mix k new old), length-mix k new old (omega arith) (omega arith))

  show_one :
      (k j c : ℕ)
      → k ≤ n
      → j < n
      → get_elem? (mix k new old) j ≡ some c
      → Step u (showing k j) (showing k (suc j))
  show_one k j c h l is =
      let size = length-shown k j h (omega arith) in
      rw (← take-suc j c (mix k new old) is) (shows {c = c} refl (rw size l) (rw size is))

  show : (k i j : ℕ) → k ≤ n → j + i ≡ n → Steps (Step u) (showing k j) (showing k n)
  show k zero j h e =
      subst (λ (x : ℕ). Steps (Step u) (showing k j) (showing k x)) (omega arith) here
  show k (suc i) j h e =
      let (c, is) =
        get-some (mix k new old) j
          (omega (arith, length-mix k new old (omega arith) (omega arith))) in
      also (show_one k j c h (omega arith) is) (show k i (suc j) h (omega arith))

write-called :
    (u : Uaccess) (b user : List ℕ) (count : ℕ)
    → clamp count ≤ length b
    → (r : Option (List ℕ) × ℕ) × (write u (some b) user count
        ≡ done (down ∷ copy_from_user (clamp count) ∷ up ∷ []) r)
unfolding write
write-called u b user count h = (
  (
    some (u.copy_from_user b user (clamp count)).0,
    sub64 (clamp count) (u.copy_from_user b user (clamp count)).1,
  ),
  rw (copy_in-done u b user (clamp count) h) refl,
)

read-called :
    (u : Uaccess) (b user : List ℕ) (count : ℕ)
    → clamp count ≤ length b
    → (r : Option (List ℕ × ℕ)) × (read u (false ∷ []) (some b) user count
        ≡ done (read_seqbegin ∷ copy_to_user (clamp count) ∷ read_seqretry ∷ []) r)
unfolding read
read-called u b user count h = (
  some (
    (u.copy_to_user user b (clamp count)).0,
    sub64 (clamp count) (u.copy_to_user user b (clamp count)).1,
  ),
  rw (copy_out-done u (some b) user (clamp count) h) refl,
)

-- One reader and one writer of ex10.c, of the same count, which is within the buffer and the writer's
-- bytes once it is clamped: for every number `k` of bytes up to it there are steps after which the read
-- is over, told not to retry, and has given its user the first `k` bytes of the write and the others as
-- they were before, while the write still copies.
pub read-torn :
    (u : Uaccess) (seq count k : ℕ) (old new buff : List ℕ)
    → clamp count ≤ length old
    → clamp count ≤ length new
    → k ≤ clamp count
    → (m : Machine) × Steps (Step u) (quiet seq old) m
      × (m.reading ≡ [])
      × (m.shown ≡ take (clamp count) (mix k new old))
      × (m.writing ≡ copy_from_user (clamp count) ∷ up ∷ [])
read-torn u seq count k old new buff room given h =
    let n = clamp count in
    let size = length-mix k new old (omega arith) (omega arith) in
    let (w, writes_so) = write-called u old new count room in
    let (r, reads_so) = read-called u (mix k new old) buff count (omega arith) in
    let all_shown = length-shown u seq n old new room given k n h (omega arith) in
    (
      record (filling u seq n old new room given k) { shown = take n (mix k new old) },
      also (writes new count refl writes_so) (
          also (locks refl (inl refl)) (
            join (fill u seq n old new room given k 0 k (omega arith) h) (
              also (reads buff count refl reads_so) (
                also (begins refl) (
                  join (show u seq n old new room given k n 0 h (omega arith))
                    (also (has_shown (rw all_shown refl)) (also (accepts refl refl) here))))))),
      refl,
      refl,
      refl,
    )
