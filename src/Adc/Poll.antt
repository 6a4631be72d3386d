-- ===== src/Adc/Poll.antt =====
-- The poll loop in the read of day_14/ex31.c.
use Prim.Native.Nat.{bit_and-bitwise, digits}
use mathlib.Core.List.{append-nil}
use ldd3_examples.Common.{
  ℕ, true, ◌*◌, ◌/◌, ◌%◌, ◌^◌, ◌≡◌, ◌+◌, ◌∙◌, sym, min, ◌≢◌, refl, List, [], ◌∷◌, none, bit_and,
  zero, suc, done, arith,
}
use ldd3_examples.Kernel.Uaccess.{Uaccess}
use ldd3_examples.Chardev.Defs.{Buffer}
use ldd3_examples.Adc.{Call, adccon, down_interruptible, writel, readl, mdelay, wait_done, adc_read}

-- A mask whose lowest bit is 0 gives an even number.
even_mask : (n a b : ℕ) → suc a % 2 ≡ 0 → digits (λ b. zero) min (suc n) (suc a) b ≢ 1
even_mask n a b h e =
    let lowest : digits (λ b. zero) min (suc n) (suc a) b
        ≡ digits (λ b. zero) min n (suc a / 2) (b / 2) * 2 + min (suc a % 2) (b % 2) =
      refl in
    omega arith

bit_15 : (v : ℕ) → bit_and (2 ^ 15) v ≢ 1
bit_15 v e = even_mask 32767 32767 v refl (sym (bit_and-bitwise 32768 v) ∙ e)

-- So many reads of the control register.
abbrev pub polls_of : List ℕ → List Call
polls_of [] = []
polls_of (v ∷ vs) = readl adccon ∷ polls_of vs

wait_done-spins : (vs : List ℕ) → wait_done vs ≡ done (polls_of vs) none
unfolding wait_done
wait_done-spins [] = refl
wait_done-spins (v ∷ vs) = ground (arith, bit_15 v, wait_done-spins vs)

-- Once a read has taken the lock it never returns: whatever values the control register shows, and
-- however many, the read has called nothing but readl since the delay, and has not released the lock.
pub adc_read-spins :
    (u : Uaccess) (sprintf : ℕ → List ℕ) (buffer : Buffer) (polls : List ℕ) (data0 : ℕ)
    (user : List ℕ) (count : ℕ)
    → adc_read u sprintf buffer true polls data0 user count
      ≡ done (down_interruptible true ∷ writel 9 adccon ∷ mdelay 3 ∷ polls_of polls) none
unfolding adc_read
adc_read-spins u sprintf buffer polls data0 user count = rw (wait_done-spins polls, append-nil)
