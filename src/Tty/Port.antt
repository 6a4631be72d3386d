-- ===== src/Tty/Port.antt =====
-- Opening, closing and the timer of one port: tiny_open, do_close, tiny_close and tiny_timer of
-- day_12/ex29.c, on the port's entry of tiny_table.
pub mod Invariant
pub mod FileCalls
pub mod History
pub mod Race
pub mod Exclusion
use ldd3_examples.Common.{
  ℕ, Bool, true, false, ◌+◌, ◌-◌, ◌*◌, ◌%◌, ◌^◌, List, [], ◌∷◌, Option, none, some, ◌==◌, leb,
  if◌then◌else◌, Run, ◌>>=◌, ◌>>◌, pure, emit, deref,
}
use ldd3_examples.Kernel.Errno.{Ret, ret, err, enomem}
use ldd3_examples.Tty.Defs.{
  TinySerial, Slot, Call, kmalloc_tiny, kmalloc_timer, sema_init, down, up, add_timer, del_timer,
  tty_buffer_request_room, tty_insert_flip_string, tty_flip_buffer_push,
}

-- What the kernel gives an open: the clock, HZ, and what the two calls of kmalloc return. A new
-- tiny_serial holds whatever its memory held before.
pub record OpenEnv : Type 0 where
  pub jiffies : ℕ
  pub hz : ℕ
  pub tty : ℕ
  pub new_tiny : Option TinySerial
  pub new_timer : Option ℕ

-- `jiffies + DELAY_TIME`, an unsigned long
abbrev pub expiry : (jiffies hz : ℕ) → ℕ
expiry jiffies hz = (jiffies + hz * 2) % 2 ^ 64

-- The end of the first open: `timer` is not NULL.
unfoldable pub arm : OpenEnv → TinySerial → Run Call (Slot × Ret)
arm k tiny = do
  emit (add_timer (expiry k.jiffies k.hz))
  emit up
  pure (some (record tiny { timer = some (expiry k.jiffies k.hz) }), ret 0)

-- `if (!tiny->timer)` and what follows
unfoldable pub first_open : OpenEnv → TinySerial → Run Call (Slot × Ret)
unfolding arm
first_open k tiny = elim tiny.timer [
  | some e ↦ arm k tiny
  | none ↦ elim k.new_timer [
    | none ↦ do emit (kmalloc_timer false); emit up; pure (some tiny, err enomem)
    | some e ↦ do emit (kmalloc_timer true); arm k (record tiny { timer = some e })
  ]
]

-- From `down(&tiny->sem)` on.
unfoldable pub open_port : OpenEnv → TinySerial → Run Call (Slot × Ret)
unfolding first_open
open_port k old = do
  emit down
  let tiny = record old { tty = k.tty; open_count = old.open_count + 1 }
  if tiny.open_count == 1 then first_open k tiny else (emit up >> pure (some tiny, ret 0))

unfoldable pub tiny_open : OpenEnv → Slot → Run Call (Slot × Ret)
unfolding open_port
tiny_open k (some tiny) = open_port k tiny
tiny_open k none = elim k.new_tiny [
  | none ↦ do emit (kmalloc_tiny false); pure (none, err enomem)
  | some garbage ↦ do
    emit (kmalloc_tiny true)
    emit (sema_init 1)
    open_port k (record garbage { open_count = 0; timer = none })
]

-- `del_timer(tiny->timer)` follows the pointer.
unfoldable pub del_timer_of : TinySerial → Run Call (Unit {0})
del_timer_of tiny = do deref tiny.timer; emit del_timer

unfoldable pub do_close : TinySerial → Run Call TinySerial
unfolding del_timer_of
do_close old = do
  emit down
  if old.open_count == 0 then (emit up >> pure old) else (do
    let tiny = record old { open_count = old.open_count - 1 }
    (if leb tiny.open_count 0 then del_timer_of tiny else pure tt)
    emit up
    pure tiny)

-- `driver_data` is NULL where the tty's last open did not set it.
unfoldable pub tiny_close : (driver_data : Bool) → Slot → Run Call Slot
unfolding do_close
tiny_close false slot = pure slot
tiny_close true slot = do old ← deref slot; tiny ← do_close old; pure (some tiny)

-- The timer's function, where it runs: one character goes up, and the timer is set again.
unfoldable pub tiny_timer : (jiffies hz : ℕ) → Slot → Run Call Slot
tiny_timer jiffies hz none = pure none
tiny_timer jiffies hz (some tiny) = do
  emit (tty_buffer_request_room 1)
  emit (tty_insert_flip_string (b't' ∷ []))
  emit tty_flip_buffer_push
  deref tiny.timer
  emit (add_timer (expiry jiffies hz))
  pure (some (record tiny { timer = some (expiry jiffies hz) }))
