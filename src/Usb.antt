-- ===== src/Usb.antt =====
-- The USB driver, day_09/ex23.c. Its class and its interfaces are the kernel's.
pub mod Transfer
pub mod Hotplug
use ldd3_examples.Common.{
  ℕ, Bool, true, false, ◌≤◌, List, [], ◌∷◌, ◌++◌, Option, none, some, length, take, drop, leb, not,
  ◌==◌, if◌then◌else◌, Run, done, ◌>>=◌, ◌>>◌, pure, emit, deref, require,
}
use ldd3_examples.Common.Int.{ℤ, pos, negsuc, nonzero, ltb_ℤ}
use ldd3_examples.Common.Text.{Bytes}
use ldd3_examples.Kernel.Uaccess.{Uaccess}
use ldd3_examples.Kernel.FileOps.{FileOps}

-- A result: a count, -EFAULT, or what usb_bulk_msg returned.
pub data Ret : Type 0 where
  counted : ℕ → Ret
  efault : Ret
  failed : ℤ → Ret

pub data Call : Type 0 where
  -- a transfer from or to the device with this number, of at most so many bytes
  bulk_in : (device len : ℕ) → Call
  bulk_out : (device : ℕ) → Bytes → Call
  copy_to_user copy_from_user : ℕ → Call
  usb_register_dev : (ok : Bool) → Call
  usb_deregister_dev : Call
  usb_register : (ok : Bool) → Call
  usb_deregister : Call

abbrev pub max_pkt_size : ℕ
max_pkt_size = 512

-- MIN(a,b)
abbrev pub min_of : ℕ → ℕ → ℕ
min_of a b = if leb a b then a else b

-- The globals: `device`, NULL or a device's number, and the bytes of bulk_buf.
pub record State : Type 0 where
  pub device : Option ℕ
  pub bulk_buf : Bytes

-- What usb_bulk_msg returns, and the bytes that arrive or the number of bytes that went out.
-- No more bytes arrive than the driver asks for.
pub record Received : Type 0 where
  pub retval : ℤ
  pub bytes : Bytes
  pub fits : length bytes ≤ max_pkt_size

pub record Sent : Type 0 where
  pub retval : ℤ
  pub count : ℕ

-- The second half of a write.
unfoldable pub send_bulk : Sent → State → (cnt : ℕ) → Run Call Ret
send_bulk r s cnt = do
  d ← deref s.device
  emit (bulk_out d (take (min_of cnt max_pkt_size) s.bulk_buf))
  if nonzero r.retval then pure (failed r.retval) else pure (counted r.count)

module _ (u : Uaccess) where
  -- The state, the user's bytes and the result.
  unfoldable pub pen_drive_read :
      Received → State → (buf : Bytes) (cnt : ℕ) → Run Call (State × Bytes × Ret)
  pen_drive_read r s buf cnt = do
    d ← deref s.device
    emit (bulk_in d max_pkt_size)
    let read_cnt = length r.bytes
    let s' = record s { bulk_buf = r.bytes ++ drop read_cnt s.bulk_buf }
    if nonzero r.retval then pure (s', buf, failed r.retval) else (do
      emit (copy_to_user (min_of cnt read_cnt))
      let (buf', left) = u.copy_to_user buf s'.bulk_buf (min_of cnt read_cnt)
      if left == 0 then pure (s', buf', counted (min_of cnt read_cnt)) else pure (s', buf', efault))

  -- The first half of a write: the state, and what was not copied.
  unfoldable pub fill_bulk : State → (buf : Bytes) (cnt : ℕ) → Run Call (State × ℕ)
  fill_bulk s buf cnt = do
    emit (copy_from_user (min_of cnt max_pkt_size))
    let (bulk, left) = u.copy_from_user s.bulk_buf buf (min_of cnt max_pkt_size)
    pure (record s { bulk_buf = bulk }, left)

  -- The state and the result.
  unfoldable pub pen_drive_write : Sent → State → (buf : Bytes) (cnt : ℕ) → Run Call (State × Ret)
  unfolding fill_bulk send_bulk
  pen_drive_write r s buf cnt = do
    (s', left) ← fill_bulk s buf cnt
    if not (left == 0)
        then pure (s', efault)
        else (send_bulk r s' cnt >>= λ result. pure (s', result))

unfoldable pub pen_drive_open : Run Call Ret
pen_drive_open = pure (counted 0)

unfoldable pub pen_drive_close : Run Call Ret
pen_drive_close = pure (counted 0)

abbrev pub pen_drive_file_ops : Uaccess → Received → Sent → FileOps Call State Ret
pen_drive_file_ops u received sent = record {
  on_open = λ s. (pen_drive_open >>= λ r. pure (s, r));
  on_release = λ s. (pen_drive_close >>= λ r. pure (s, r));
  on_read = pen_drive_read u received;
  on_write = pen_drive_write u sent;
  on_poll = none;
  on_llseek = none;
  on_ioctl = none;
  on_mmap = none;
}

-- interface_to_usbdev gives the device of the interface; the loop over the endpoints only logs.
unfoldable pub probe : (usbdev : ℕ) (registered : ℤ) → State → Run Call (State × ℤ)
probe usbdev registered s = do
  emit (usb_register_dev (not (ltb_ℤ registered (pos 0))))
  pure (record s { device = some usbdev }, registered)

unfoldable pub remove : State → Run Call State
remove s = do emit usb_deregister_dev; pure s

unfoldable pub usb_driver_module_init : (registered : ℤ) → Run Call ℤ
usb_driver_module_init registered = do
  emit (usb_register (not (nonzero registered)))
  pure registered

unfoldable pub usb_driver_module_exit : Run Call (Unit {0})
usb_driver_module_exit = emit usb_deregister
