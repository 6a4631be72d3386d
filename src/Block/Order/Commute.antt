-- ===== src/Block/Order/Commute.antt =====
-- Requests of day_13/ex30.c that do not meet: neither sees what the other does.
use ldd3_examples.Common.{
  ℕ, zero, suc, Bool, true, false, ◌+◌, ◌*◌, ◌≤◌, ◌≡◌, refl, ap, sym, [], ◌∷◌, length, take, drop,
  length-take, ◌⊎◌, inl, inr, Bool-cases, ◌&&◌, arith,
}
use ldd3_examples.Block.{Bytes, Request, splice}
use ldd3_examples.Block.Splice.{concat, splice-nil}
use ldd3_examples.Block.Queue.{granted, effect, answer}

-- Both read, or their sectors are others.
abbrev pub Apart : Request → Request → Type 0
Apart a b =
    ((a.write ≡ false) × (b.write ≡ false))
    ⊎ (a.pos + a.sectors ≤ b.pos)
    ⊎ (b.pos + b.sectors ≤ a.pos)

pub Apart-symm : (a b : Request) → Apart a b → Apart b a
Apart-symm a b (inl (r, r')) = inl (r', r)
Apart-symm a b (inr (inl h)) = inr (inr h)
Apart-symm a b (inr (inr h)) = inr (inl h)

splice_comm :
    (off off' : ℕ) (a b disk : Bytes)
    → off + length a ≤ off'
    → splice off a (splice off' b disk) ≡ splice off' b (splice off a disk)
unfolding splice
splice_comm off off' a b [] h = refl
splice_comm zero off' [] b (d ∷ disk) h = splice-nil zero (splice off' b (d ∷ disk))
splice_comm zero zero (x ∷ a) b (d ∷ disk) h = absurd (omega arith)
splice_comm zero (suc off') (x ∷ a) b (d ∷ disk) h =
    ap (◌∷◌ x) (splice_comm zero off' a b disk (omega arith))
splice_comm (suc off) zero a b (d ∷ disk) h = absurd (omega arith)
splice_comm (suc off) (suc off') a b (d ∷ disk) h =
    ap (◌∷◌ d) (splice_comm off off' a b disk (omega arith))

-- A read before the bytes that are written, and one behind them.
take_before :
    (off n off' : ℕ) (b disk : Bytes)
    → off + n ≤ off'
    → take n (drop off (splice off' b disk)) ≡ take n (drop off disk)
unfolding splice
take_before off n off' b [] h = refl
take_before zero zero off' b (d ∷ disk) h = refl
take_before zero (suc n) zero b (d ∷ disk) h = absurd (omega arith)
take_before zero (suc n) (suc off') b (d ∷ disk) h =
    ap (◌∷◌ d) (take_before zero n off' b disk (omega arith))
take_before (suc off) n zero b (d ∷ disk) h = absurd (omega arith)
take_before (suc off) n (suc off') b (d ∷ disk) h = take_before off n off' b disk (omega arith)

drop_behind :
    (off off' : ℕ) (b disk : Bytes)
    → off' + length b ≤ off
    → drop off (splice off' b disk) ≡ drop off disk
unfolding splice
drop_behind off off' b [] h = refl
drop_behind zero zero [] (d ∷ disk) h = refl
drop_behind zero zero (x ∷ b) (d ∷ disk) h = absurd (omega arith)
drop_behind zero (suc off') b (d ∷ disk) h = absurd (omega arith)
drop_behind (suc off) zero [] (d ∷ disk) h = refl
drop_behind (suc off) zero (x ∷ b) (d ∷ disk) h = drop_behind off zero b disk (omega arith)
drop_behind (suc off) (suc off') b (d ∷ disk) h = drop_behind off off' b disk (omega arith)

-- A request writes no more bytes than its sectors have.
span-le :
    (req : Request) → length (take (req.sectors * 512) (concat req.segments)) ≤ req.sectors * 512
span-le req = omega (arith, length-take (req.sectors * 512) (concat req.segments))

-- The bytes that a write puts on the disk.
abbrev written : Request → Bytes
written req = take (req.sectors * 512) (concat req.segments)

writes_comm :
    (a b : Request) (disk : Bytes)
    → (a.pos + a.sectors ≤ b.pos) ⊎ (b.pos + b.sectors ≤ a.pos)
    → splice (a.pos * 512) (written a) (splice (b.pos * 512) (written b) disk)
      ≡ splice (b.pos * 512) (written b) (splice (a.pos * 512) (written a) disk)
writes_comm a b disk (inl h) =
    splice_comm (a.pos * 512) (b.pos * 512) (written a) (written b) disk (omega (arith, span-le a))
writes_comm a b disk (inr h) = sym (
    splice_comm (b.pos * 512) (a.pos * 512) (written b) (written a) disk (omega (arith, span-le b)))

read_elsewhere :
    (a b : Request) (disk : Bytes)
    → (a.pos + a.sectors ≤ b.pos) ⊎ (b.pos + b.sectors ≤ a.pos)
    → take (a.sectors * 512) (drop (a.pos * 512) (splice (b.pos * 512) (written b) disk))
      ≡ take (a.sectors * 512) (drop (a.pos * 512) disk)
read_elsewhere a b disk (inl h) =
    take_before (a.pos * 512) (a.sectors * 512) (b.pos * 512) (written b) disk (omega arith)
read_elsewhere a b disk (inr h) =
    ap (take (a.sectors * 512))
      (drop_behind (a.pos * 512) (b.pos * 512) (written b) disk (omega (arith, span-le b)))

-- Where one of the two writes, their sectors are others.
written-Apart :
    (a b : Request)
    → Apart a b
    → b.write ≡ true
    → (a.pos + a.sectors ≤ b.pos) ⊎ (b.pos + b.sectors ≤ a.pos)
written-Apart a b (inl (_, r)) w = ground arith
written-Apart a b (inr h) w = h

and-right : (p q : Bool) → (p && q) ≡ true → q ≡ true
and-right p q e = ground arith

pub effect_comm :
    (nsectors : ℕ) (a b : Request) (disk : Bytes)
    → Apart a b
    → effect nsectors a (effect nsectors b disk) ≡ effect nsectors b (effect nsectors a disk)
effect_comm nsectors a b disk p = elim (Bool-cases (granted nsectors a && a.write)) [
  | inr e ↦ rw e refl
  | inl e ↦ elim (Bool-cases (granted nsectors b && b.write)) [
    | inr e' ↦ rw e' refl
    | inl e' ↦
        rw (e, e')
          (writes_comm a b disk (written-Apart a b p (and-right (granted nsectors b) b.write e')))
  ]
]

-- What a request has in its segments does not depend on one that is apart from it.
pub answer-effect :
    (nsectors : ℕ) (a b : Request) (disk : Bytes)
    → Apart a b
    → answer nsectors a (effect nsectors b disk) ≡ answer nsectors a disk
answer-effect nsectors a b disk p = elim (Bool-cases (granted nsectors b && b.write)) [
  | inr e ↦ rw e refl
  | inl e ↦
      rw (
        e,
        read_elsewhere a b disk (written-Apart a b p (and-right (granted nsectors b) b.write e)),
      )
]
