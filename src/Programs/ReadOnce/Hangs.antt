-- ===== src/Programs/ReadOnce/Hangs.antt =====
-- day_14/test.c on the driver of ex31.c.
use mathlib.Core.List.{append-nil}
use ldd3_examples.Common.{ℕ, true, ◌≡◌, List, [], ◌∷◌, none, done}
use ldd3_examples.Common.Text.{Bytes}
use ldd3_examples.Kernel.Uaccess.{Uaccess}
use ldd3_examples.Chardev.Defs.{Buffer}
use ldd3_examples.Adc.{
  adccon, down_interruptible, writel, mdelay, adc_char_drv_fops, adc_char_drv_open,
}
use ldd3_examples.Adc.Poll.{polls_of, adc_read-spins}
use ldd3_examples.Programs.ReadOnce.{main, opened, print_read}

-- Where day_14/test.c opens the device of ex31.c and its read gets the lock, the program prints nothing
-- and never ends: whatever values the control register shows, and however many, it has made no call but
-- readl since the delay, and holds the lock.
pub main-hangs :
    (u : Uaccess) (sprintf : ℕ → List ℕ) (buffer : Buffer) (polls : List ℕ) (data0 : ℕ)
    (buff : Bytes)
    → main (adc_char_drv_fops u sprintf true polls data0) true buffer buff
      ≡ done
          (down_interruptible true ∷ writel 9 adccon ∷ mdelay 3 ∷ polls_of polls)
          (buffer, [], none)
unfolding main opened print_read adc_char_drv_open
main-hangs u sprintf buffer polls data0 buff =
    rw (adc_read-spins u sprintf buffer polls data0 buff 60, append-nil, append-nil)
