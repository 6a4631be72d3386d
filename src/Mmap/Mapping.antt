-- ===== src/Mmap/Mapping.antt =====
-- What a mapping of day_11/ex27.c shows: the physical memory from the page frame on that the driver
-- gives remap_pfn_range.
use native.Mathlib.Nat.{div-add-mod'}
use ldd3_examples.Common.{
  ℕ, zero, suc, ◌+◌, ◌-◌, ◌*◌, ◌/◌, ◌%◌, ◌^◌, ◌≤◌, ◌<◌, ◌≡◌, refl, ap, ◌∙◌, true, [], ◌∷◌, some,
  get_elem?, take, length, Run, done, arith,
}
use ldd3_examples.Common.Text.{Bytes}
use ldd3_examples.Kernel.Errno.{Ret}
use ldd3_examples.Mmap.{Call, remap_pfn_range, max_length, Place, page_align, char_dev_mmap}

-- `n` bytes of memory from `addr` on.
abbrev pub view : (memory : ℕ → ℕ) (addr n : ℕ) → Bytes
view memory addr zero = []
view memory addr (suc n) = memory addr ∷ view memory (suc addr) n

-- The bytes of the mapping that a call of the driver's mmap has made.
abbrev pub shows : Place → (memory : ℕ → ℕ) → Run Call Ret → Bytes
shows p memory (done (remap_pfn_range pfn size true ∷ cs) r) =
    view memory (pfn * 2 ^ p.page_shift) size
shows p memory _ = []

-- The buffer stands at `pa`.
abbrev pub Holds : (memory : ℕ → ℕ) (pa : ℕ) → Bytes → Type 0
Holds memory pa b = (j c : ℕ) → get_elem? b j ≡ some c → memory (pa + j) ≡ c

take-view :
    (memory : ℕ → ℕ) (addr m n : ℕ) → m ≤ n → take m (view memory addr n) ≡ view memory addr m
take-view memory addr zero n h = refl
take-view memory addr (suc m) zero h = elim h [ ]
take-view memory addr (suc m) (suc n) h =
    ap (◌∷◌ (memory addr)) (take-view memory (suc addr) m n (omega arith))

Holds-tail :
    (memory : ℕ → ℕ) (pa c : ℕ) (b : Bytes) → Holds memory pa (c ∷ b) → Holds memory (suc pa) b
Holds-tail memory pa c b h j d e =
    let same : suc pa + j ≡ pa + suc j = omega arith in rw same (h (suc j) d e)

Holds-view :
    (memory : ℕ → ℕ) (pa n : ℕ) (b : Bytes)
    → Holds memory pa b
    → n ≤ length b
    → view memory pa n ≡ take n b
Holds-view memory pa zero b h l = refl
Holds-view memory pa (suc n) [] h l = elim l [ ]
Holds-view memory pa (suc n) (c ∷ b) h l =
    let first : memory pa ≡ c = (let same : pa ≡ pa + 0 = omega arith in rw same (h 0 c refl)) in
    rw (first, Holds-view memory (suc pa) n b (Holds-tail memory pa c b h) (omega arith)) refl

aligned : (pa size : ℕ) → pa % size ≡ 0 → pa / size * size ≡ pa
aligned pa size h = omega (arith, div-add-mod' pa size)

page_align-le : (size n : ℕ) → 0 < size → n ≤ (n + size - 1) / size * size
page_align-le size n h = omega (arith)

power_pos : (k : ℕ) → 0 < 2 ^ k
power_pos zero = omega arith
power_pos (suc k) = let before = power_pos k in omega arith

-- Where the buffer of 4000 bytes begins a page, the mapping shows it, byte for byte.
pub shows-buffer :
    (p : Place) (memory : ℕ → ℕ) (b : Bytes) (n : ℕ)
    → p.pa % 2 ^ p.page_shift ≡ 0
    → Holds memory p.pa b
    → length b ≡ max_length
    → n ≤ max_length
    → take n (shows p memory (char_dev_mmap p true)) ≡ take n b
unfolding char_dev_mmap
shows-buffer p memory b n start h size l =
    take-view memory (p.pa / 2 ^ p.page_shift * 2 ^ p.page_shift) n
      (page_align p.page_shift max_length)
      (omega (arith, page_align-le (2 ^ p.page_shift) max_length (power_pos p.page_shift)))
    ∙ ap (λ (a : ℕ). view memory a n) (aligned p.pa (2 ^ p.page_shift) start)
    ∙ Holds-view memory p.pa n b h (omega arith)
