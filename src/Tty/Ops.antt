-- ===== src/Tty/Ops.antt =====
-- serial_ops of day_12/ex29.c: the functions that the driver gives the tty layer.
use ldd3_examples.Common.{ℕ, Bool, List, Option, Run}
use ldd3_examples.Kernel.Errno.{Ret}
use ldd3_examples.Tty.Defs.{TinySerial, Slot, Call}
use ldd3_examples.Tty.Port.{OpenEnv, tiny_open, tiny_close}
use ldd3_examples.Tty.Write.{tiny_write, tiny_write_room}
use ldd3_examples.Tty.Modem.{Tiocm, tiny_tiocmget, tiny_tiocmset}
use ldd3_examples.Tty.Termios.{TermBits, Termios, Log, tiny_set_termios}
use ldd3_examples.Tty.Ioctl.{IoctlConst, Out, Wake, tiny_ioctl}

-- struct tty_operations; the functions take what the model of each takes.
pub record TtyOps : Type 0 where
  pub on_open : OpenEnv → Slot → Run Call (Slot × Ret)
  pub on_close : (driver_data : Bool) → Slot → Run Call Slot
  pub on_write : Slot → List ℕ → ℕ → Run Call Ret
  pub on_write_room : Slot → Run Call Ret
  pub on_set_termios : TermBits → (baud : ℕ) → Termios → (old : Option Termios) → Run Log (Unit {0})
  pub on_tiocmget : Tiocm → TinySerial → ℕ
  pub on_tiocmset : Tiocm → TinySerial → (set clear : ℕ) → TinySerial
  pub on_ioctl : IoctlConst → Slot → (cmd arg left : ℕ) → List Wake → Run Call (Out × Option Ret)

abbrev pub serial_ops : TtyOps
serial_ops = record {
  on_open = tiny_open;
  on_close = tiny_close;
  on_write = tiny_write;
  on_write_room = tiny_write_room;
  on_set_termios = tiny_set_termios;
  on_tiocmget = tiny_tiocmget;
  on_tiocmset = tiny_tiocmset;
  on_ioctl = tiny_ioctl;
}
