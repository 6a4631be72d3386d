-- ===== src/Proc/Access.antt =====
-- Writes to and reads from the proc entry of day_03/ex5.c.
use ldd3_examples.Common.{
  take_all, ℕ, suc, ◌+◌, ◌-◌, ◌≤◌, ◌<◌, ◌≡◌, refl, ap, ◌∙◌, [], ◌∷◌, ◌++◌, length, take, drop,
  length-append, Run, done, fault, arith,
}
use ldd3_examples.Common.Int.{ℤ}
use ldd3_examples.Common.Text.{Bytes, strlen, print_int, codes, IsInt}
use ldd3_examples.Common.Text.Print.{strlen-append, length-print_int}
use ldd3_examples.Kernel.Uaccess.{Uaccess}
use ldd3_examples.Kernel.Errno.{Ret, ret, err, efault}
use ldd3_examples.Proc.{
  Call, copy_from_user, copy_to_user, Params, bufsize, set_params, report, mywrite, myread,
}
use ldd3_examples.Proc.Scan.{two_ints, two_ints-append, mywrite-two_ints}

length-report : (s : Params) → IsInt s.irq → IsInt s.mode → length (report s) < bufsize
unfolding report
length-report s hi hm = omega (
  arith,
  length-print_int s.irq (10 ∷ codes "mode = " ++ print_int s.mode (10 ∷ [])) hi,
  length-print_int s.mode (10 ∷ []) hm,
)

-- A read from the start with room for the array and a complete copy gives the user the text of the
-- parameters, if they are ints, moves the position behind it, and returns its length. It never runs
-- over the array.
pub myread-report :
    (u : Uaccess) (s : Params) (ubuf : Bytes) (count : ℕ)
    → IsInt s.irq
    → IsInt s.mode
    → bufsize ≤ count
    → (u.copy_to_user ubuf (report s) (length (report s))).1 ≡ 0
    → (got : Bytes) × (myread u s ubuf count 0
        ≡ done
            (copy_to_user (length (report s)) ∷ [])
            (got, length (report s), ret (length (report s))))
      × (take (length (report s)) got ≡ report s)
unfolding myread
myread-report u s ubuf count hi hm room full = (
  (u.copy_to_user ubuf (report s) (length (report s))).0,
  ground (arith, length-report s hi hm),
  rw all at (u.to_copied ubuf (report s) (length (report s)) (omega arith)) ∙ take_all (report s),
)
  where
    all :
        length (report s) - (u.copy_to_user ubuf (report s) (length (report s))).1
        ≡ length (report s)
    all = omega arith

-- A complete write of two ints and a newline, as a shell's echo makes it, is not ended by a NUL. The
-- parameters are set, but the result counts the bytes that the array on the stack held before up to
-- a NUL: it exceeds the count that was asked for by their number.
pub mywrite-overcount :
    (u : Uaccess) (s : Params) (stack : Bytes) (i m : ℤ) (k : ℕ)
    → length stack ≡ bufsize
    → IsInt i
    → IsInt m
    → (u.copy_from_user stack (two_ints i m (10 ∷ [])) (length (two_ints i m (10 ∷ [])))).1 ≡ 0
    → strlen {E = Call} (drop (length (two_ints i m (10 ∷ []))) stack) ≡ done [] k
    → mywrite u s stack (two_ints i m (10 ∷ [])) (length (two_ints i m (10 ∷ []))) 0
      ≡ done (copy_from_user (length (two_ints i m (10 ∷ []))) ∷ []) (
        record { irq = i; mode = m },
        length (two_ints i m (10 ∷ [])) + k,
        ret (length (two_ints i m (10 ∷ [])) + k),
      )
mywrite-overcount u s stack i m k size hi hm full rest =
    rw (sum) at (mywrite-two_ints u s stack size i m 10 (suc k) hi hm refl full newline)
  where
    newline :
        strlen {E = Call} (10 ∷ drop (length (two_ints i m (10 ∷ []))) stack) ≡ done [] (suc k)
    newline =
        strlen-append (10 ∷ []) (drop (length (two_ints i m (10 ∷ []))) stack) k (omega arith, tt)
          rest
        ∙ ap (done []) (omega arith)

    sum : length (two_ints i m []) + suc k ≡ length (two_ints i m (10 ∷ [])) + k
    sum = omega (
      arith,
      ap length (two_ints-append i m (10 ∷ [])),
      length-append (two_ints i m []) (10 ∷ []),
    )

-- What a write may end with: EFAULT with nothing changed, or the position behind the string, from the
-- start. It may read past the array, but only from the start and when the count was let through.
abbrev pub Kept : Params → (count ppos : ℕ) → Run Call (Params × ℕ × Ret) → Type 0
Kept s count ppos (done t (s', ppos', err e)) = (e ≡ efault) × (s' ≡ s) × (ppos' ≡ ppos)
Kept s count ppos (done t (s', ppos', ret c)) = (count ≤ bufsize) × (ppos ≡ 0) × (ppos' ≡ c)
Kept s count ppos fault = (count ≤ bufsize) × (ppos ≡ 0)

-- A write that fails returns EFAULT and leaves the parameters and the position. One that succeeds was
-- at the start with a count of at most the array, and moves the position by what it returns; only
-- such a write can read past the array.
pub mywrite-Kept :
    (u : Uaccess) (s : Params) (stack ubuf : Bytes) (count ppos : ℕ)
    → Kept s count ppos (mywrite u s stack ubuf count ppos)
unfolding mywrite set_params
mywrite-Kept u s stack ubuf count ppos = ground arith
