-- ===== src/Mmap/Position.antt =====
-- Reads and writes of day_11/ex27.c at a position.
use ldd3_examples.Common.{
  ℕ, ◌+◌, ◌-◌, ◌^◌, ◌≤◌, ◌<◌, min, ◌≡◌, List, [], ◌∷◌, ◌++◌, some, length, take, drop, Run, done,
  fault, ◌==◌, if◌then◌else◌, arith,
}
use ldd3_examples.Kernel.Uaccess.{Uaccess}
use ldd3_examples.Kernel.Errno.{Ret, ret, err, enospc}
use ldd3_examples.Mmap.{
  Call, copy_to_user, copy_from_user, max_length, extend, sub32, bytes_to_do, char_dev_read,
  char_dev_write,
}

-- What is asked for, or what is left up to the end.
abbrev pub span : (ppos lbuf : ℕ) → ℕ
span ppos lbuf = min lbuf (max_length - ppos)

bytes_to_do_lem : (ppos lbuf : ℕ) → ppos ≤ max_length → bytes_to_do ppos lbuf ≡ span ppos lbuf
unfolding bytes_to_do
bytes_to_do_lem ppos lbuf h = ground arith

nbytes_lem : (n left : ℕ) → left ≤ n → n ≤ max_length → extend (sub32 n left) ≡ n - left
nbytes_lem n left h k = ground arith

module _ (u : Uaccess) (b user : List ℕ) (lbuf ppos : ℕ) (size : length b ≡ max_length)
    (inside : ppos ≤ max_length) where
  abbrev to_user : List ℕ × ℕ
  to_user = u.copy_to_user user (drop ppos b) (span ppos lbuf)

  -- Up to the end of the buffer a read never faults. At the end, or of no bytes, it returns ENOSPC;
  -- else it asks for the span, and the position moves by what it returns.
  pub char_dev_read-inside : char_dev_read u (some b) user lbuf ppos ≡ (
      if span ppos lbuf == 0
      then done [] (user, ppos, err enospc)
      else done
          (copy_to_user (span ppos lbuf) ∷ [])
          (to_user.0, ppos + (span ppos lbuf - to_user.1), ret (span ppos lbuf - to_user.1)))
  unfolding char_dev_read
  char_dev_read-inside = ground (
    arith,
    bytes_to_do_lem ppos lbuf inside,
    nbytes_lem (span ppos lbuf) to_user.1 (u.to_left _ _ _),
  )

  abbrev from_user : List ℕ × ℕ
  from_user = u.copy_from_user (drop ppos b) user (span ppos lbuf)

  -- Up to the end of the buffer a write never faults. At the end, or of no bytes, it returns ENOSPC;
  -- else it asks for the span, changes no byte before the position, and moves the position by what it
  -- returns.
  pub char_dev_write-inside : char_dev_write u (some b) user lbuf ppos ≡ (
      if span ppos lbuf == 0
      then done [] (some b, ppos, err enospc)
      else done (copy_from_user (span ppos lbuf) ∷ []) (
        some (take ppos b ++ from_user.0),
        ppos + (span ppos lbuf - from_user.1),
        ret (span ppos lbuf - from_user.1),
      ))
  unfolding char_dev_write
  char_dev_write-inside = ground (
    arith,
    bytes_to_do_lem ppos lbuf inside,
    nbytes_lem (span ppos lbuf) from_user.1 (u.from_left _ _ _),
  )

-- At a position past the end of the buffer and below 2 ^ 31, and for at least one byte and fewer than
-- 2 ^ 31, the count of bytes left is negative, is
-- compared as a huge number, and the access runs past the buffer, for a read and for a write.
pub past_end-fault :
    (u : Uaccess) (b user : List ℕ) (lbuf ppos : ℕ)
    → length b ≡ max_length
    → max_length < ppos
    → ppos < 2 ^ 31
    → 0 < lbuf
    → lbuf < 2 ^ 31
    → (char_dev_read u (some b) user lbuf ppos ≡ fault)
      × (char_dev_write u (some b) user lbuf ppos ≡ fault)
unfolding char_dev_read char_dev_write bytes_to_do
past_end-fault u b user lbuf ppos size past few pos small = (ground arith, ground arith)

abbrev pub Reads : Run Call (List ℕ × ℕ × Ret) → (List ℕ → ℕ → Type 0) → Type 0
Reads (done t (got, ppos, ret n)) P = P got n
Reads _ P = ⊥
