-- ===== src/Irq.antt =====
-- The interrupt handler of day_07/ex20.c.
pub mod Counting
use ldd3_examples.Common.{ℕ, Bool, ◌+◌, ◌%◌, ◌^◌, not, if◌then◌else◌, Run, ◌>>=◌, ◌>>◌, pure, emit}
use ldd3_examples.Common.Int.{ℤ, pos, negsuc, nonzero}

pub data Call : Type 0 where
  request_irq : (irq : ℤ) (ok : Bool) → Call
  synchronize_irq free_irq : (irq : ℤ) → Call

-- What an interrupt handler answers.
pub data IrqReturn : Type 0 where
  irq_none irq_handled : IrqReturn

-- irq_counter, an int by its bits
unfoldable pub my_interrupt : (irq_counter : ℕ) → ℕ × IrqReturn
my_interrupt irq_counter = ((irq_counter + 1) % 2 ^ 32, irq_none)

unfoldable pub my_irq_init : (irq requested : ℤ) → Run Call ℤ
my_irq_init irq requested = do
  emit (request_irq irq (not (nonzero requested)))
  if nonzero requested then pure (negsuc 0) else pure (pos 0)

unfoldable pub my_irq_exit : (irq : ℤ) → Run Call (Unit {0})
my_irq_exit irq = do emit (synchronize_irq irq); emit (free_irq irq)
