-- ===== src/Memory.antt =====
-- The modules of day_07/ex19.c and day_11/ex28.c, which allocate memory while they are loaded.
pub mod Loading
use ldd3_examples.Common.{
  ℕ, Bool, true, false, ◌+◌, ◌*◌, ◌%◌, ◌^◌, List, [], ◌∷◌, ◌++◌, Option, none, some, length, drop,
  leb, not, if◌then◌else◌, Run, ◌>>=◌, ◌>>◌, pure, emit, deref, require,
}
use ldd3_examples.Common.Text.{Bytes, codes}
use ldd3_examples.Kernel.Errno.{Ret, ret, err, enomem}

pub data Call : Type 0 where
  vmalloc kmalloc : (size : ℕ) (ok : Bool) → Call
  vfree kfree : Call
  dma_alloc_coherent : (size : ℕ) (ok : Bool) → Call
  dma_free_coherent : Call
  dma_map_single dma_unmap_single : Call

-- day_07/ex19.c: whether vptr and kptr hold memory, and the result.
unfoldable pub memory_module_init : (v_ok k_ok : Bool) → Run Call ((Bool × Bool) × Ret)
memory_module_init v_ok k_ok = do
  emit (vmalloc 1000 v_ok)
  if not v_ok then pure ((false, false), err enomem) else (do
    emit (kmalloc 1000 k_ok)
    if not k_ok then pure ((true, false), err enomem) else pure ((true, true), ret 0))

unfoldable pub memory_module_exit : Run Call (Unit {0})
memory_module_exit = do emit vfree; emit kfree

-- day_11/ex28.c. A buffer is NULL or its bytes.
abbrev pub coherent_string : Bytes
coherent_string = codes "This is the dma_alloc_coherent string"

abbrev pub single_string : Bytes
single_string = codes "This is the dma_map_single string"

-- The strcpy, with the NUL; the rest of `output` logs.
unfoldable pub output : (kbuf : Option Bytes) (string : Bytes) → Run Call Bytes
output kbuf string = do
  bytes ← deref kbuf
  require (leb (length string + 1) (length bytes))
  pure (string ++ 0 ∷ drop (length string + 1) bytes)

abbrev pub is_some : {A : Type 0} → Option A → Bool
is_some none = false
is_some (some a) = true

abbrev pub dma_size : (page_size : ℕ) → ℕ
dma_size page_size = 10 * page_size % 2 ^ 64

unfoldable pub dma_module_init : (page_size : ℕ) (coherent single : Option Bytes) → Run Call Ret
dma_module_init page_size coherent single = do
  emit (dma_alloc_coherent (dma_size page_size) (is_some coherent))
  written ← output coherent coherent_string
  emit dma_free_coherent
  emit (kmalloc (dma_size page_size) (is_some single))
  emit dma_map_single
  written' ← output single single_string
  emit dma_unmap_single
  emit kfree
  pure (ret 0)

unfoldable pub dma_module_exit : Run Call (Unit {0})
dma_module_exit = pure tt
