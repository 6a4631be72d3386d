-- ===== src/Tty/Ioctl.antt =====
-- tiny_ioctl of day_12/ex29.c and the three functions behind it.
pub mod Waiting
pub mod Commands
use ldd3_examples.Common.{
  ℕ, Bool, true, false, ◌*◌, List, [], ◌∷◌, Option, none, some, bit_and, bit_or, ◌==◌, ◌&&◌, ◌||◌,
  not, if◌then◌else◌, Run, ◌>>=◌, ◌>>◌, pure, emit, deref,
}
use ldd3_examples.Kernel.Errno.{Ret, ret, err, efault, eio, erestartsys, enoioctlcmd}
use ldd3_examples.Tty.Defs.{
  SerialStruct, AsyncIcount, TinySerial, Slot, Call, copy_to_user, add_wait_queue, schedule,
  remove_wait_queue,
}

-- The kernel's constants: the commands, the lines that TIOCMIWAIT may wait for, the two flags
-- of a serial_struct, and HZ.
pub record IoctlConst : Type 0 where
  pub tiocgserial : ℕ
  pub tiocmiwait : ℕ
  pub tiocgicount : ℕ
  pub tiocm_rng : ℕ
  pub tiocm_dsr : ℕ
  pub tiocm_cd : ℕ
  pub tiocm_cts : ℕ
  pub async_skip_test : ℕ
  pub async_auto_irq : ℕ
  pub hz : ℕ

-- What the user's structure receives: nothing, or a structure all but its last `left` bytes.
pub data Out : Type 0 where
  nothing : Out
  serial : SerialStruct → (left : ℕ) → Out
  icount : AsyncIcount → (left : ℕ) → Out

-- What one sleep ends with: whether a signal is pending, and the counters then.
pub record Wake : Type 0 where
  pub signal : Bool
  pub now : AsyncIcount

-- `tmp` as TIOCGSERIAL fills it in.
unfoldable pub filled_serial : IoctlConst → SerialStruct → SerialStruct
filled_serial k s = record s {
  flags = bit_or k.async_skip_test k.async_auto_irq;
  close_delay = 5 * k.hz;
  closing_wait = 30 * k.hz;
}

-- `left` is what copy_to_user does not copy.
unfoldable pub ioctl_tiocgserial : IoctlConst → Slot → (cmd arg left : ℕ) → Run Call (Out × Ret)
ioctl_tiocgserial k slot cmd arg left =
    if cmd == k.tiocgserial
    then (if arg == 0 then pure (nothing, err efault) else (do
      tiny ← deref slot
      emit copy_to_user
      let out = serial (filled_serial k tiny.serial) left
      if left == 0 then pure (out, ret 0) else pure (out, err efault)))
    else pure (nothing, err enoioctlcmd)

-- No modem line has changed.
abbrev pub same : AsyncIcount → AsyncIcount → Bool
same now prev =
    now.rng == prev.rng && (now.dsr == prev.dsr && (now.dcd == prev.dcd && now.cts == prev.cts))

abbrev pub asked : (mask arg now prev : ℕ) → Bool
asked mask arg now prev = not (bit_and arg mask == 0) && not (now == prev)

-- A line that `arg` names has changed.
abbrev pub wanted : IoctlConst → ℕ → AsyncIcount → AsyncIcount → Bool
wanted k arg now prev =
    asked k.tiocm_rng arg now.rng prev.rng
    || (asked k.tiocm_dsr arg now.dsr prev.dsr
        || (asked k.tiocm_cd arg now.dcd prev.dcd || asked k.tiocm_cts arg now.cts prev.cts))

-- The loop, by what each sleep ends with; `none` while it sleeps.
unfoldable pub wait_loop : IoctlConst → ℕ → AsyncIcount → List Wake → Run Call (Option Ret)
wait_loop k arg cprev [] = pure none
wait_loop k arg cprev (w ∷ ws) = do
  emit add_wait_queue
  emit schedule
  emit remove_wait_queue
  let rest = wait_loop k arg w.now ws
  if w.signal
      then pure (some (err erestartsys))
      else if same w.now cprev
      then pure (some (err eio))
      else if wanted k arg w.now cprev
      then pure (some (ret 0))
      else rest

unfoldable pub ioctl_tiocmiwait :
    IoctlConst → Slot → (cmd arg : ℕ) → List Wake → Run Call (Out × Option Ret)
ioctl_tiocmiwait k slot cmd arg wakes =
    if cmd == k.tiocmiwait
    then (do tiny ← deref slot; r ← wait_loop k arg tiny.icount wakes; pure (nothing, r))
    else pure (nothing, some (err enoioctlcmd))

unfoldable pub ioctl_tiocgicount : IoctlConst → Slot → (cmd arg left : ℕ) → Run Call (Out × Ret)
ioctl_tiocgicount k slot cmd arg left =
    if cmd == k.tiocgicount
    then (do
      tiny ← deref slot
      let cnow = tiny.icount
      emit copy_to_user
      let out =
          icount
            (record {
              cts = cnow.cts;
              dsr = cnow.dsr;
              rng = cnow.rng;
              dcd = cnow.dcd;
              rx = cnow.rx;
              tx = cnow.tx;
              frame = cnow.frame;
              overrun = cnow.overrun;
              parity = cnow.parity;
              brk = cnow.brk;
              buf_overrun = cnow.buf_overrun;
            })
            left
      if left == 0 then pure (out, ret 0) else pure (out, err efault))
    else pure (nothing, err enoioctlcmd)

abbrev pub returned : Run Call (Out × Ret) → Run Call (Out × Option Ret)
returned m = m >>= λ (o, r). pure (o, some r)

-- The `switch` of the real tiny_ioctl.
unfoldable pub tiny_ioctl :
    IoctlConst → Slot → (cmd arg left : ℕ) → List Wake → Run Call (Out × Option Ret)
unfolding ioctl_tiocgserial ioctl_tiocmiwait ioctl_tiocgicount
tiny_ioctl k slot cmd arg left wakes =
    if cmd == k.tiocgserial
    then returned (ioctl_tiocgserial k slot cmd arg left)
    else if cmd == k.tiocmiwait
    then ioctl_tiocmiwait k slot cmd arg wakes
    else if cmd == k.tiocgicount
    then returned (ioctl_tiocgicount k slot cmd arg left)
    else pure (nothing, some (err enoioctlcmd))
