-- ===== src/Programs/MapFile.antt =====
-- day_11/mmap.c: map the device, write to it, and print what the mapping shows.
pub mod Prints
use ldd3_examples.Common.{
  ℕ, Bool, true, false, List, [], ◌∷◌, ◌++◌, Option, none, some, take, Run, ◌>>=◌, pure,
}
use ldd3_examples.Common.Text.{Bytes, codes, strlen}
use ldd3_examples.Kernel.Errno.{Ret, ret, err}
use ldd3_examples.Kernel.FileOps.{FileOps}

pub data Output : Type 0 where
  file_open_failed mmap_status : Output
  -- bytes on the standard output
  text : Bytes → Output

pub data Ending : Type 0 where
  -- main returns, or the assertion after munmap fails
  ended aborted : Ending

abbrev pub message : Bytes
message = codes "welcome to hello world\n"

-- `temp`, with its NUL
abbrev pub temp : Bytes
temp = message ++ 0 ∷ []

-- `shown` gives the bytes that a mapping of the device shows, as the device's state is.
module _ {E S : Type 0} (ops : FileOps E S Ret) (shown : S → Bytes) where
  -- `mapped` is false where `filedata` is MAP_FAILED: it passes the test on NULL, write finds no memory
  -- there, and munmap refuses the address.
  unfoldable pub session : (mapped : Bool) → S → Run E (S × List Output × Ending)
  session false s = do
    size ← strlen temp
    (s₁, n) ← ops.on_write s temp size
    pure (s₁, mmap_status ∷ [], aborted)
  session true s = do
    size ← strlen temp
    (s₁, n) ← ops.on_write s temp size
    (s₂, r) ← ops.on_release s₁
    pure (s₂, mmap_status ∷ text (take size (shown s₁)) ∷ [], ended)

  abbrev opened : Ret → S → Run E Bool → Run E (S × List Output × Ending)
  opened (err e) s mapping = pure (s, file_open_failed ∷ [], ended)
  opened (ret _) s mapping = mapping >>= λ mapped. session mapped s

  abbrev mapped_by : Option (S → (remap_ok : Bool) → Run E Ret) → (remap_ok : Bool) → S → Run E Bool
  mapped_by none remap_ok s = pure false
  mapped_by (some mmap) remap_ok s =
      mmap s remap_ok >>= λ r. pure (elim r [ ret _ ↦ true | err _ ↦ false ])

  -- `remap_ok` tells whether the kernel can map the memory.
  unfoldable pub main : (remap_ok : Bool) → S → Run E (S × List Output × Ending)
  unfolding session
  main remap_ok s = do (s₀, r) ← ops.on_open s; opened r s₀ (mapped_by ops.on_mmap remap_ok s₀)
