-- ===== src/Tty/Driver.antt =====
-- tiny_init and tiny_exit of day_12/ex29.c.
pub mod Exit
use ldd3_examples.Common.{
  ℕ, zero, suc, Bool, true, false, ◌-◌, ◌<◌, List, [], ◌∷◌, Option, none, some, ◌==◌, not,
  if◌then◌else◌, Run, done, fault, ◌>>=◌, ◌>>◌, pure, emit, deref,
}
use ldd3_examples.Common.Int.{ℤ, pos, negsuc}
use ldd3_examples.Kernel.Errno.{Errno, enomem}
use ldd3_examples.Tty.Defs.{
  TinySerial, Slot, Call, kfree_tiny, kfree_timer, alloc_tty_driver, tty_register_driver,
  tty_set_operations, put_tty_driver, tty_unregister_driver, tty_register_device,
  tty_unregister_device,
}
use ldd3_examples.Tty.Port.{do_close, del_timer_of}

abbrev pub tiny_tty_minors : ℕ
tiny_tty_minors = 4

-- `for (i = 0; i < TINY_TTY_MINORS; ++i)` over calls that take `i`.
unfoldable pub for_minors : (ℕ → Call) → (i left : ℕ) → Run Call (Unit {0})
for_minors call i zero = pure tt
for_minors call i (suc left) = do emit (call i); for_minors call (suc i) left

-- What tiny_init returns: -ENOMEM, or the result of tty_register_driver.
pub data InitRet : Type 0 where
  no_memory : InitRet
  registered : ℤ → InitRet

unfoldable pub tiny_init : (alloc_ok : Bool) (register_ret : ℤ) → Run Call InitRet
unfolding for_minors
tiny_init false r = do emit (alloc_tty_driver false); pure no_memory
tiny_init true (pos zero) = do
  emit (alloc_tty_driver true)
  emit tty_set_operations
  emit (tty_register_driver true)
  for_minors tty_register_device 0 tiny_tty_minors
  pure (registered (pos zero))
tiny_init true r = do
  emit (alloc_tty_driver true)
  emit tty_set_operations
  emit (tty_register_driver false)
  emit put_tty_driver
  pure (registered r)

-- `while (tiny->open_count) do_close(tiny);`, on fuel; `none` if the fuel runs out.
unfoldable pub close_all : (fuel : ℕ) → TinySerial → Run Call (Option TinySerial)
close_all zero tiny = pure none
close_all (suc fuel) tiny =
    let rest = do_close tiny >>= close_all fuel in
    if tiny.open_count == 0 then pure (some tiny) else rest

-- What follows the inner loop: the timer and the memory.
abbrev pub finish : Option TinySerial → Run Call (Option Slot)
finish none = pure none
finish (some t) = do del_timer_of t; emit kfree_timer; emit kfree_tiny; pure (some none)

-- One round of the second loop of tiny_exit.
unfoldable pub exit_slot : (fuel : ℕ) → Slot → Run Call (Option Slot)
exit_slot fuel none = pure (some none)
exit_slot fuel (some tiny) = close_all fuel tiny >>= finish

-- The entries with what became of them; `none` if the fuel ran out.
abbrev pub join : Option Slot → Option (List Slot) → Run Call (Option (List Slot))
join none rest = pure none
join (some s) none = pure none
join (some s) (some ss) = pure (some (s ∷ ss))

unfoldable pub exit_slots : (fuel : ℕ) → List Slot → Run Call (Option (List Slot))
exit_slots fuel [] = pure (some [])
exit_slots fuel (s ∷ ss) = do first ← exit_slot fuel s; rest ← exit_slots fuel ss; join first rest

-- `table` is tiny_table.
unfoldable pub tiny_exit : (fuel : ℕ) (table : List Slot) → Run Call (Option (List Slot))
unfolding for_minors exit_slots
tiny_exit fuel table = do
  for_minors tty_unregister_device 0 tiny_tty_minors
  emit tty_unregister_driver
  exit_slots fuel table
