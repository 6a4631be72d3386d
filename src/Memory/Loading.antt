-- ===== src/Memory/Loading.antt =====
-- What the modules of day_07/ex19.c and day_11/ex28.c hold after they are loaded, and where they fault.
use ldd3_examples.Common.{
  ℕ, Bool, true, false, ◌+◌, ◌-◌, ◌≡◌, refl, ◌≤◌, List, [], ◌∷◌, Option, none, some, length, Run,
  done, fault, arith,
}
use ldd3_examples.Common.Text.{Bytes}
use ldd3_examples.Kernel.Errno.{Ret, ret, err, enomem}
use ldd3_examples.Memory.{
  Call, vmalloc, kmalloc, vfree, kfree, dma_alloc_coherent, dma_free_coherent, dma_map_single,
  dma_unmap_single, memory_module_init, memory_module_exit, output, dma_module_init,
}

-- The areas of vmalloc and of kmalloc that are held after some calls.
abbrev pub areas : (vs ks : ℕ) → List Call → ℕ × ℕ
areas vs ks [] = (vs, ks)
areas vs ks (vmalloc n true ∷ cs) = areas (vs + 1) ks cs
areas vs ks (kmalloc n true ∷ cs) = areas vs (ks + 1) cs
areas vs ks (vfree ∷ cs) = areas (vs - 1) ks cs
areas vs ks (kfree ∷ cs) = areas vs (ks - 1) cs
areas vs ks (_ ∷ cs) = areas vs ks cs

abbrev Unloads : ℕ × ℕ → Run Call (Unit {0}) → Type 0
Unloads (v, k) (done t r) = areas v k t ≡ (0, 0)
Unloads (v, k) fault = ⊥

-- What a load leaves: with 0 both areas, which unloading then frees; with an error no area of kmalloc.
abbrev pub Outcome : (v_ok : Bool) → Run Call ((Bool × Bool) × Ret) → Type 0
Outcome v_ok (done t (pointers, ret n)) =
    (n ≡ 0)
    × (pointers ≡ (true, true))
    × (areas 0 0 t ≡ (1, 1))
    × Unloads (areas 0 0 t) memory_module_exit
Outcome true (done t (pointers, err e)) = (e ≡ enomem) × (areas 0 0 t ≡ (1, 0))
Outcome false (done t (pointers, err e)) = (e ≡ enomem) × (areas 0 0 t ≡ (0, 0))
Outcome v_ok fault = ⊥

-- Loading ex19.c succeeds with both areas held, which unloading frees; or fails with ENOMEM, holding
-- nothing where vmalloc failed, and the area of vmalloc where only kmalloc failed.
pub memory_module_init-Outcome : (v_ok k_ok : Bool) → Outcome v_ok (memory_module_init v_ok k_ok)
unfolding memory_module_init memory_module_exit
memory_module_init-Outcome true true = (refl, refl, refl, refl)
memory_module_init-Outcome true false = (refl, refl)
memory_module_init-Outcome false k_ok = (refl, refl)

-- Whether memory of that size is there.
abbrev pub IsRoom : ℕ → Option Bytes → Type 0
IsRoom n none = ⊥
IsRoom n (some bytes) = n ≤ length bytes

-- What is allocated or mapped and not yet given back.
abbrev pub balance : ℕ → List Call → ℕ
balance n [] = n
balance n (dma_alloc_coherent _ true ∷ cs) = balance (n + 1) cs
balance n (kmalloc _ true ∷ cs) = balance (n + 1) cs
balance n (dma_map_single ∷ cs) = balance (n + 1) cs
balance n (dma_free_coherent ∷ cs) = balance (n - 1) cs
balance n (kfree ∷ cs) = balance (n - 1) cs
balance n (dma_unmap_single ∷ cs) = balance (n - 1) cs
balance n (_ ∷ cs) = balance n cs

abbrev pub HaveRoom : (coherent single : Option Bytes) → Type 0
HaveRoom coherent single = IsRoom 38 coherent × IsRoom 34 single

abbrev pub DmaOutcome : (coherent single : Option Bytes) → Run Call Ret → Type 0
DmaOutcome coherent single (done t r) = (r ≡ ret 0) × (balance 0 t ≡ 0) × HaveRoom coherent single
DmaOutcome coherent single fault = ¬ (HaveRoom coherent single)

-- Loading ex28.c returns 0 with all given back and faults otherwise: it returns exactly where both
-- allocations are made and have room for their strings.
pub dma_module_init-DmaOutcome :
    (page_size : ℕ) (coherent single : Option Bytes)
    → DmaOutcome coherent single (dma_module_init page_size coherent single)
unfolding dma_module_init output
dma_module_init-DmaOutcome p none s = λ r. r.0
dma_module_init-DmaOutcome p (some c) none = ground arith
dma_module_init-DmaOutcome p (some c) (some s) = ground arith
