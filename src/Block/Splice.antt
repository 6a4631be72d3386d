-- ===== src/Block/Splice.antt =====
-- Bytes that are copied to and from the disk of day_13/ex30.c, segment by segment.
use Prim.Native.Nat.add
use ldd3_examples.Common.{
  ℕ, zero, suc, ◌+◌, ◌≤◌, ◌<◌, ◌≡◌, refl, ap, List, [], ◌∷◌, ◌++◌, length, take, drop, get_elem?,
  ◌⊎◌, inr, length-append, length-drop, arith,
}
use ldd3_examples.Block.{Bytes, splice}

-- All bytes of the segments, in order.
abbrev pub concat : List Bytes → Bytes
concat [] = []
concat (s ∷ ss) = s ++ concat ss

pub length-splice : (off : ℕ) (seg disk : Bytes) → length (splice off seg disk) ≡ length disk
unfolding splice
length-splice off seg [] = refl
length-splice zero [] (d ∷ disk) = refl
length-splice zero (x ∷ seg) (d ∷ disk) = ap suc (length-splice zero seg disk)
length-splice (suc off) seg (d ∷ disk) = ap suc (length-splice off seg disk)

pub splice-nil : (off : ℕ) (disk : Bytes) → splice off [] disk ≡ disk
unfolding splice
splice-nil off [] = refl
splice-nil zero (d ∷ disk) = refl
splice-nil (suc off) (d ∷ disk) = ap (◌∷◌ d) (splice-nil off disk)

-- Two copies side by side are one.
pub splice-splice :
    (off : ℕ) (a b disk : Bytes)
    → splice (off + length a) b (splice off a disk) ≡ splice off (a ++ b) disk
unfolding splice
splice-splice off a b [] = refl
splice-splice zero [] b (d ∷ disk) = refl
splice-splice zero (x ∷ a) b (d ∷ disk) =
    rw (add.zero (suc (length a)))
      (ap (◌∷◌ x) (rw (add.zero (length a)) at (splice-splice zero a b disk)))
splice-splice (suc off) a b (d ∷ disk) =
    rw (add.suc off (length a)) (ap (◌∷◌ d) (splice-splice off a b disk))

-- What was copied to an offset stands there, and nothing else has changed.
pub take-splice :
    (off : ℕ) (seg disk : Bytes)
    → off + length seg ≤ length disk
    → take (length seg) (drop off (splice off seg disk)) ≡ seg
unfolding splice
take-splice zero [] [] h = refl
take-splice zero (x ∷ seg) [] h = absurd (omega arith)
take-splice (suc off) seg [] h = absurd (omega arith)
take-splice zero [] (d ∷ disk) h = refl
take-splice zero (x ∷ seg) (d ∷ disk) h = ap (◌∷◌ x) (take-splice zero seg disk (omega arith))
take-splice (suc off) seg (d ∷ disk) h = take-splice off seg disk (omega arith)

pub splice-outside :
    (off : ℕ) (seg disk : Bytes) (i : ℕ)
    → (i < off) ⊎ (off + length seg ≤ i)
    → get_elem? (splice off seg disk) i ≡ get_elem? disk i
unfolding splice
splice-outside off seg [] i h = refl
splice-outside zero [] (d ∷ disk) i h = refl
splice-outside zero (x ∷ seg) (d ∷ disk) zero h = absurd (omega arith)
splice-outside zero (x ∷ seg) (d ∷ disk) (suc i) h =
    splice-outside zero seg disk i (inr (omega arith))
splice-outside (suc off) seg (d ∷ disk) zero h = refl
splice-outside (suc off) seg (d ∷ disk) (suc i) h = splice-outside off seg disk i (omega arith)

-- A read cuts the disk into segments of the same lengths.
unfoldable pub cut : Bytes → List Bytes → List Bytes
cut bytes [] = []
cut bytes (s ∷ ss) = take (length s) bytes ∷ cut (drop (length s) bytes) ss

pub drop-drop : (m n : ℕ) (xs : Bytes) → drop n (drop m xs) ≡ drop (m + n) xs
drop-drop zero n xs = rw (add.zero n)
drop-drop (suc m) zero [] = rw (add.suc m zero) refl
drop-drop (suc m) (suc n) [] = rw (add.suc m (suc n)) refl
drop-drop (suc m) n (x ∷ xs) = rw (add.suc m n) (drop-drop m n xs)

pub take-add : (m n : ℕ) (xs : Bytes) → take m xs ++ take n (drop m xs) ≡ take (m + n) xs
take-add zero n xs = rw (add.zero n)
take-add (suc m) zero [] = rw (add.suc m zero) refl
take-add (suc m) (suc n) [] = rw (add.suc m (suc n)) refl
take-add (suc m) n (x ∷ xs) = rw (add.suc m n) (ap (◌∷◌ x) (take-add m n xs))

pub concat-cut :
    (bytes : Bytes) (segs : List Bytes)
    → length (concat segs) ≤ length bytes
    → concat (cut bytes segs) ≡ take (length (concat segs)) bytes
unfolding cut
concat-cut bytes [] h = refl
concat-cut bytes (s ∷ ss) h =
    let fits : length (concat ss) ≤ length (drop (length s) bytes) =
      omega (arith, length-append s (concat ss), length-drop (length s) bytes) in
    rw (length-append s (concat ss), concat-cut (drop (length s) bytes) ss fits)
      (take-add (length s) (length (concat ss)) bytes)
