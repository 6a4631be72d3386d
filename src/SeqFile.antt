-- ===== src/SeqFile.antt =====
-- The sequence file of day_03/ex6.c.
pub mod Lines
use ldd3_examples.Common.{
  ℕ, Bool, true, false, ◌+◌, ◌-◌, ◌%◌, ◌^◌, List, [], ◌∷◌, ltb, ◌==◌, if◌then◌else◌, Run, ◌>>◌,
  pure, emit,
}
use ldd3_examples.Common.Int.{ℤ, pos, negsuc}
use ldd3_examples.Common.Text.{Bytes, print_int}
use ldd3_examples.Kernel.SeqOps.{SeqOps}
use ldd3_examples.Kernel.Errno.{Ret, ret}

-- The static `counter`, an unsigned long, and the kernel's position in the sequence.
pub record State : Type 0 where
  pub counter : ℕ
  pub index : ℕ

-- Whether the result is not NULL, and the state. A pointer that is not NULL is `&counter`.
unfoldable pub my_seq_start : State → Bool × State
my_seq_start s = if s.index == 0 then (true, s) else (false, record s { index = 0 })

unfoldable pub my_seq_next : State → Bool × State
my_seq_next s = (false, record { counter = (s.counter + 1) % 2 ^ 64; index = s.index + 1 })

unfoldable pub my_seq_stop : State → State
my_seq_stop s = s

-- The signed number with these 64 bits.
abbrev pub long : ℕ → ℤ
long w = if ltb w (2 ^ 63) then pos w else negsuc (2 ^ 64 - w - 1)

-- `seq_printf(s, "%Ld\n", *spos)`
unfoldable pub my_seq_show : State → Bytes
my_seq_show s = print_int (long s.counter) (10 ∷ [])

abbrev pub my_seq_ops : SeqOps State
my_seq_ops = record {
  on_start = my_seq_start;
  on_next = my_seq_next;
  on_stop = my_seq_stop;
  on_show = my_seq_show;
}

pub data Call : Type 0 where
  seq_open proc_create proc_remove : Call

-- The result of seq_open is passed on.
unfoldable pub my_open : (opened : Ret) → Run Call Ret
my_open opened = do emit seq_open; pure opened

unfoldable pub simple_init : Run Call Ret
simple_init = do emit proc_create; pure (ret 0)

unfoldable pub simple_cleanup : Run Call (Unit {0})
simple_cleanup = emit proc_remove
