-- ===== src/Proc.antt =====
-- The proc entry with two parameters, day_03/ex5.c.
pub mod Scan
pub mod Access
use ldd3_examples.Common.{
  ℕ, Bool, true, false, List, [], ◌∷◌, ◌++◌, Option, none, some, length, ltb, ◌==◌, ◌||◌, not,
  if◌then◌else◌, Run, done, fault, ◌>>=◌, ◌>>◌, pure, emit, require,
}
use ldd3_examples.Common.Int.{ℤ}
use ldd3_examples.Common.Text.{Bytes, strlen, skip_spaces, scan_int, print_int, codes}
use ldd3_examples.Kernel.Uaccess.{Uaccess}
use ldd3_examples.Kernel.Errno.{Ret, ret, err, efault}

pub data Call : Type 0 where
  copy_from_user copy_to_user : ℕ → Call
  proc_create proc_remove : Call

abbrev pub bufsize : ℕ
bufsize = 100

-- The module's parameters, which the entry shows and sets.
pub record Params : Type 0 where
  pub irq : ℤ
  pub mode : ℤ

-- `sscanf(buf,"%d %d",&i,&m)`: the two ints if it finds both, after which it returns 2.
abbrev pub second : Option (ℤ × Bytes) → Run Call (Option (ℤ × ℤ))
second none = pure none
second (some (i, rest)) = do
  s ← skip_spaces rest
  found ← scan_int s
  elim found [ none ↦ pure none | some (m, end) ↦ pure (some (i, m)) ]

unfoldable pub scan_two : Bytes → Run Call (Option (ℤ × ℤ))
scan_two buf = scan_int buf >>= second

-- From sscanf on; `buf` is what the array on the stack holds.
unfoldable pub set_params : Params → (buf : Bytes) (ppos : ℕ) → Run Call (Params × ℕ × Ret)
set_params s buf ppos = do
  found ← scan_two buf
  elim found [
    | none ↦ pure (s, ppos, err efault)
    | some (i, m) ↦ strlen buf >>= λ c. pure (record { irq = i; mode = m }, c, ret c)
  ]

-- "irq = %d\n" and "mode = %d\n"
unfoldable pub report : Params → Bytes
report s = codes "irq = " ++ print_int s.irq (10 ∷ codes "mode = " ++ print_int s.mode (10 ∷ []))

module _ (u : Uaccess) where
  -- The parameters, *ppos and the return value; `stack` is what the array held before.
  unfoldable pub mywrite :
      Params → (stack ubuf : Bytes) (count ppos : ℕ) → Run Call (Params × ℕ × Ret)
  mywrite s stack ubuf count ppos =
      if ltb 0 ppos || ltb bufsize count then pure (s, ppos, err efault) else do
        emit (copy_from_user count)
        let (buf, left) = u.copy_from_user stack ubuf count
        if left == 0 then set_params s buf ppos else pure (s, ppos, err efault)

  -- The user's bytes, *ppos and the return value. The text and its NUL go to an array on the stack.
  unfoldable pub myread : Params → (ubuf : Bytes) (count ppos : ℕ) → Run Call (Bytes × ℕ × Ret)
  unfolding report
  myread s ubuf count ppos =
      if ltb 0 ppos || ltb count bufsize then pure (ubuf, ppos, ret 0) else do
        require (ltb (length (report s)) bufsize)
        let len = length (report s)
        emit (copy_to_user len)
        let (ubuf', left) = u.copy_to_user ubuf (report s) len
        if left == 0 then pure (ubuf', len, ret len) else pure (ubuf', ppos, err efault)

-- proc_create and proc_remove; the entry is not looked at.
unfoldable pub simple_init : Run Call Ret
simple_init = do emit proc_create; pure (ret 0)

unfoldable pub simple_cleanup : Run Call (Unit {0})
simple_cleanup = emit proc_remove
