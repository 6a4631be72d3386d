-- ===== src/Programs/ReadOnce.antt =====
-- day_14/test.c: read once and print what was read. A call into the driver may never end.
pub mod Hangs
use ldd3_examples.Common.{ℕ, Bool, true, false, List, [], ◌∷◌, Option, none, some, Run, ◌>>=◌, pure}
use ldd3_examples.Common.Text.{Bytes, c_string}
use ldd3_examples.Kernel.Errno.{Ret, ret, err}
use ldd3_examples.Kernel.FileOps.{FileOps}

pub data Output : Type 0 where
  failed_to_open : Output
  -- none is -1
  read_count : Option ℕ → Output
  text : Bytes → Output

abbrev count_of : Ret → Option ℕ
count_of (ret n) = some n
count_of (err e) = none

-- A result of the driver is none while its function has not ended; so is the program's exit status.
module _ {E S : Type 0} (ops : FileOps E S (Option Ret)) where
  unfoldable pub print_read : S → (buff : Bytes) → Option Ret → Run E (S × List Output × Option ℕ)
  print_read s buff none = pure (s, [], none)
  print_read s buff (some r) = do
    shown ← c_string buff
    (s', q) ← ops.on_release s
    pure (s', read_count (count_of r) ∷ text shown ∷ [], some 0)

  unfoldable pub opened : Option Ret → S → (buff : Bytes) → Run E (S × List Output × Option ℕ)
  unfolding print_read
  opened none s buff = pure (s, [], none)
  opened (some (err e)) s buff = pure (s, failed_to_open ∷ [], some 0)
  opened (some (ret n)) s buff = do (s', buff', r) ← ops.on_read s buff 60; print_read s' buff' r

  -- `found` tells whether the name leads to the driver's device.
  unfoldable pub main : (found : Bool) → S → (buff : Bytes) → Run E (S × List Output × Option ℕ)
  unfolding opened
  main false s buff = pure (s, failed_to_open ∷ [], some 0)
  main true s buff = do (s', r) ← ops.on_open s; opened r s' buff
