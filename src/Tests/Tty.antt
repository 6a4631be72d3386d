-- ===== src/Tests/Tty.antt =====
-- The tty driver of day_12/ex29.c at concrete inputs.
use ldd3_examples.Common.{
  ◌≤◌, Steps, ℕ, ◌≡◌, ◌↔◌, refl, true, false, List, [], ◌∷◌, none, some, done, fault, arith,
}
use ldd3_examples.Kernel.Errno.{ret, err, enomem}
use ldd3_examples.Tty.Defs.{
  kmalloc_tiny, sema_init, printk_byte, printk_text, Call, SerialStruct, AsyncIcount, TinySerial,
  down, up, kmalloc_timer,
}
use ldd3_examples.Tty.Port.{OpenEnv, tiny_open, tiny_close}
use ldd3_examples.Tty.Port.Invariant.{count, tiny_open-no_timer}
use ldd3_examples.Tty.Port.History.{Event, opens, closes, fires, calls, Supplied, users}
use ldd3_examples.Tty.Port.FileCalls.{writes}
use ldd3_examples.Tty.Port.Exclusion
use ldd3_examples.Tty.Port.Exclusion.{Reach-orderly}
use ldd3_examples.Tty.Write.{tiny_write, print_bytes}
use ldd3_examples.Kernel.Processes.{System, Reach, start, later, begins, takes, makes, idle}
use ldd3_examples.Kernel.Processes.Counting.{how_many}
use ldd3_examples.Kernel.Processes.Progress.{Finishes}
use ldd3_examples.Tests.Instances.{counter}
use ldd3_examples.Tty.Port.Race.{Machine, Step, closed_and_pending}
use ldd3_examples.Tty.Ioctl.{IoctlConst, Wake, wait_loop}
use ldd3_examples.Tty.Ioctl.Waiting.{Answers, Waits, wait_loop_iff}
use ldd3_examples.Tty.Table.{run_table, fresh_ports, users_of, users_at}
use ldd3_examples.Tty.Table.Lifetime.{Lives, run_table-Lives}
use ldd3_examples.Tty.Driver.{tiny_tty_minors}

abbrev settings : SerialStruct
settings = record {
  type = 1;
  line = 0;
  port = 0;
  irq = 0;
  flags = 0;
  xmit_fifo_size = 0;
  baud_base = 9600;
  close_delay = 0;
  closing_wait = 0;
  custom_divisor = 0;
  hub6 = 0;
  io_type = 0;
}

abbrev counters : AsyncIcount
counters = record {
  cts = 0;
  dsr = 0;
  rng = 0;
  dcd = 0;
  rx = 0;
  tx = 0;
  frame = 0;
  overrun = 0;
  parity = 0;
  brk = 0;
  buf_overrun = 0;
}

abbrev closed_port : TinySerial
closed_port = record {
  tty = 0;
  open_count = 0;
  timer = none;
  msr = 0;
  mcr = 0;
  serial = settings;
  icount = counters;
}

abbrev open_once : TinySerial
open_once = record closed_port { open_count = 1; timer = some 300 }

abbrev granted : OpenEnv
granted = record {
  jiffies = 100;
  hz = 100;
  tty = 1;
  new_tiny = some closed_port;
  new_timer = some 0;
}

abbrev no_timer : OpenEnv
no_timer = record granted { new_timer = none }

-- Two users of port 2, and one that opens port 0 and closes it.
abbrev table_history : List (ℕ × Event)
table_history =
    (2, opens granted)
    ∷ (2, calls (writes (65 ∷ 66 ∷ []) 2))
    ∷ (0, opens granted)
    ∷ (2, fires 300 100)
    ∷ (2, opens granted)
    ∷ (0, closes)
    ∷ []

supplied : Supplied (opens granted ∷ [])
supplied = ((closed_port, refl), (0, refl), tt)

run_table-Lives_example :
    Lives 9 (0 ∷ 0 ∷ 2 ∷ 0 ∷ []) (run_table table_history (fresh_ports tiny_tty_minors))
unfolding users_of users_at users
run_table-Lives_example =
    run_table-Lives 9 table_history
      (supplied, ((omega arith, tt), (supplied, (tt, (supplied, (tt, tt)))))) (omega arith)

tiny_open-no_timer_example :
    (broken : TinySerial) × (tiny_open no_timer none
      ≡ done
          (kmalloc_tiny true ∷ sema_init 1 ∷ down ∷ kmalloc_timer false ∷ up ∷ [])
          (some broken, err enomem))
    × (broken.open_count ≡ 1)
    × (tiny_close true (some broken) ≡ fault)
    × (tiny_open granted (some broken)
        ≡ done (down ∷ up ∷ []) (some (record broken { tty = 1; open_count = 2 }), ret 0))
tiny_open-no_timer_example = tiny_open-no_timer no_timer granted closed_port refl refl

-- Two writers: the first logs a byte.
abbrev writer : ℕ
writer = 0

abbrev at_byte : System Call counter
at_byte = record {
  lock = 0;
  procs = record { held = true; calls = printk_byte 65 ∷ printk_text ∷ up ∷ [] } ∷ idle ∷ [];
}

at_byte-Reach : Reach Exclusion.discipline counter Exclusion.Starts 2 at_byte
unfolding tiny_write print_bytes
at_byte-Reach =
    let begun = later start (begins writer refl (Exclusion.writes open_once (65 ∷ []) 1 _ refl)) in
    later (later begun (takes writer refl refl refl)) (makes writer refl refl)

Reach-orderly_example :
    (how_many Exclusion.at_inner at_byte.procs ≤ 1)
    × Finishes Exclusion.discipline counter Exclusion.Starts at_byte
Reach-orderly_example = Reach-orderly counter at_byte-Reach

closed_and_pending_example :
    (after : Machine) × Steps Step
      (record { slot = some open_once; pending = true; running = false })
      after
    × (count after.slot ≡ 0)
    × (after.pending ≡ true)
closed_and_pending_example = closed_and_pending open_once 300 refl refl

abbrev commands : IoctlConst
commands = record {
  tiocgserial = 0x541E;
  tiocmiwait = 0x545C;
  tiocgicount = 0x545D;
  tiocm_rng = 0x080;
  tiocm_dsr = 0x100;
  tiocm_cd = 0x040;
  tiocm_cts = 0x020;
  async_skip_test = 0x40;
  async_auto_irq = 0x80;
  hz = 100;
}

abbrev rung : Wake
rung = record { signal = false; now = record counters { rng = 1 } }

wait_loop_iff_example :
    Answers (wait_loop commands 0x080 counters (rung ∷ [])) (some (ret 0))
    ↔ Waits commands 0x080 counters (rung ∷ []) (ret 0)
wait_loop_iff_example = wait_loop_iff commands 0x080 counters (rung ∷ []) (ret 0)
