-- ===== src/Programs/WriteRead.antt =====
-- day_02/test.c, which day_03/test.c repeats: write a string, read it back, and print it.
pub mod Prints
use ldd3_examples.Common.{
  ℕ, suc, Bool, true, false, List, [], ◌∷◌, ◌++◌, replicate, ◌==◌, not, if◌then◌else◌, Run, ◌>>=◌,
  pure,
}
use ldd3_examples.Common.Text.{Bytes, codes, strlen, c_string}
use ldd3_examples.Kernel.FileOps.{FileOps}

pub data Output : Type 0 where
  failed_to_open : Output
  written read_count : ℕ → Output
  text : Bytes → Output

abbrev pub message : Bytes
message = codes "sample data for writing"

-- `char data[60]`
abbrev pub data_bytes : Bytes
data_bytes = message ++ replicate 37 0

module _ {E S : Type 0} (ops : FileOps E S ℕ) where
  -- What follows a successful open; `buff` is what the array holds. The state, the output and the exit
  -- status.
  unfoldable pub session : S → (buff : Bytes) → Run E (S × List Output × ℕ)
  session s buff = do
    size ← strlen data_bytes
    (s₁, n) ← ops.on_write s data_bytes (suc size)
    (s₂, buff', m) ← ops.on_read s₁ buff 60
    shown ← c_string buff'
    (s₃, r) ← ops.on_release s₂
    pure (s₃, written n ∷ read_count m ∷ text shown ∷ [], 0)

  -- `found` tells whether the name leads to the driver's device.
  unfoldable pub main : (found : Bool) → S → (buff : Bytes) → Run E (S × List Output × ℕ)
  unfolding session
  main false s buff = pure (s, failed_to_open ∷ [], 0)
  main true s buff = do
    (s₀, r) ← ops.on_open s
    if not (r == 0) then pure (s₀, failed_to_open ∷ [], 0) else session s₀ buff
