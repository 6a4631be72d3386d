-- ===== src/Adc.antt =====
-- The ADC driver, day_14/ex31.c.
pub mod Poll
pub mod Loading
use ldd3_examples.Common.{
  ℕ, Bool, true, false, ◌%◌, ◌*◌, ◌^◌, List, [], ◌∷◌, Option, none, some, bit_and, bit_or, length,
  drop, suc, ◌++◌, ltb, leb, ◌==◌, not, if◌then◌else◌, Run, done, fault, ◌>>=◌, ◌>>◌, pure, emit,
  require,
}
use ldd3_examples.Common.Int.{ℤ, pos, negsuc, ltb_ℤ}
use ldd3_examples.Kernel.Uaccess.{Uaccess}
use ldd3_examples.Kernel.Boot.{Boot}
use ldd3_examples.Kernel.Errno.{Ret, ret, err, erestartsys, einval}
use ldd3_examples.Kernel.FileOps.{FileOps}
use ldd3_examples.Chardev.Defs.{Buffer, bytes, store, buffer_len, sub64}

pub data Call : Type 0 where
  alloc_chrdev_region cdev_alloc cdev_add : (ok : Bool) → Call
  cdev_init unregister_chrdev_region cdev_del : Call
  kmalloc : (size flags : ℕ) (ok : Bool) → Call
  ioremap : (base len : ℕ) (ok : Bool) → Call
  iounmap kfree : Call
  sema_init : ℕ → Call
  down_interruptible : (ok : Bool) → Call
  up : Call
  writel : (value reg : ℕ) → Call
  readl : (reg : ℕ) → Call
  mdelay : ℕ → Call
  copy_to_user : ℕ → Call

abbrev pub adccon : ℕ
adccon = 0x0000

abbrev pub adcdat0 : ℕ
adcdat0 = 0x000C

-- ADC_CON_SELMUX(x), and ADC_CON_EN_START
abbrev pub selmux : ℕ → ℕ
selmux x = bit_and 7 x * 2 ^ 3

abbrev pub con_en_start : ℕ
con_en_start = 1

-- `while((readl(…) & (1<<15)) !=1);`, by the values that the register shows; `none` while it spins.
unfoldable pub wait_done : List ℕ → Run Call (Option (Unit {0}))
wait_done [] = pure none
wait_done (v ∷ vs) = do
  emit (readl adccon)
  let rest = wait_done vs
  if bit_and (2 ^ 15) v == 1 then pure (some tt) else rest

-- The buffer after `sprintf(buffer,"adc value=%d\n",adc_value)`: the text and a NUL.
abbrev pub printed : Buffer → List ℕ → Buffer
printed buffer text = store buffer (text ++ 0 ∷ drop (suc (length text)) (bytes buffer))

-- From the data register on; `sprintf` gives the bytes of "adc value=%d\n" for a value. The result
-- is the buffer, the user's bytes and the return value.
unfoldable pub report :
    (u : Uaccess) (sprintf : ℕ → List ℕ)
    → Buffer
    → (data0 : ℕ) (user : List ℕ) → Run Call (Buffer × List ℕ × Ret)
report u sprintf buffer data0 user = do
  emit (readl adcdat0)
  let text = sprintf (bit_and 0x3ff data0)
  require (ltb (length text) (length (bytes buffer)))
  let buffer' = printed buffer text
  let len = length text
  emit (copy_to_user len)
  let (user', ret_len) = u.copy_to_user user (bytes buffer') len
  emit up
  pure (buffer', user', ret (sub64 len ret_len))

abbrev pub continue :
    Run Call (Buffer × List ℕ × Ret) → Option (Unit {0}) → Run Call (Option (Buffer × List ℕ × Ret))
continue m none = pure none
continue m (some _) = m >>= λ r. pure (some r)

-- `locked` is false where a signal ends down_interruptible; `polls` are the values of ADCCON. The
-- length that the source computes from `count` is overwritten before it is used.
unfoldable pub adc_read :
    (u : Uaccess) (sprintf : ℕ → List ℕ)
    → Buffer
    → (locked : Bool) (polls : List ℕ) (data0 : ℕ) (user : List ℕ) (count : ℕ)
    → Run Call (Option (Buffer × List ℕ × Ret))
unfolding report
adc_read u sprintf buffer false polls data0 user count = do
  emit (down_interruptible false)
  pure (some (buffer, user, err erestartsys))
adc_read u sprintf buffer true polls data0 user count = do
  emit (down_interruptible true)
  emit (writel (bit_or (selmux 1) con_en_start) adccon)
  emit (mdelay 3)
  finished ← wait_done polls
  continue (report u sprintf buffer data0 user) finished

unfoldable pub adc_char_drv_open : Run Call Ret
adc_char_drv_open = pure (ret 0)

unfoldable pub adc_char_drv_release : Run Call Ret
adc_char_drv_release = pure (ret 0)

-- The state, the user's bytes and the result; the result is none while a read has not ended.
abbrev ended :
    Buffer → (user : List ℕ) → Option (Buffer × List ℕ × Ret) → Buffer × List ℕ × Option Ret
ended buffer user none = (buffer, user, none)
ended buffer user (some (buffer', user', r)) = (buffer', user', some r)

-- There is no write: the kernel returns EINVAL.
abbrev pub adc_char_drv_fops :
    (u : Uaccess) (sprintf : ℕ → List ℕ) (locked : Bool) (polls : List ℕ) (data0 : ℕ)
    → FileOps Call Buffer (Option Ret)
adc_char_drv_fops u sprintf locked polls data0 = record {
  on_open = λ s. (adc_char_drv_open >>= λ r. pure (s, some r));
  on_release = λ s. (adc_char_drv_release >>= λ r. pure (s, some r));
  on_read = λ s user count.
      (adc_read u sprintf s locked polls data0 user count >>= λ o. pure (ended s user o));
  on_write = λ s user count. pure (s, some (err einval));
  on_poll = none;
  on_llseek = none;
  on_ioctl = none;
  on_mmap = none;
}

abbrev pub failed : ℤ → Bool
failed r = ltb_ℤ r (pos 0)

unfoldable pub fail0 : Run Call (ℤ × Buffer)
fail0 = pure (negsuc 0, none)

unfoldable pub fail1 : Buffer → Run Call (ℤ × Buffer)
fail1 b = do emit unregister_chrdev_region; pure (negsuc 0, b)

-- The label fail3 falls through to fail2: the buffer is kept.
unfoldable pub fail2 : Buffer → Run Call (ℤ × Buffer)
unfolding fail1
fail2 b = do emit cdev_del; fail1 b

unfoldable pub map_registers : (mapped : Bool) → List ℕ → Run Call (ℤ × Buffer)
unfolding fail2
map_registers mapped b = do
  emit (sema_init 1)
  emit (ioremap 0x58000000 0x20 mapped)
  if mapped then pure (pos 0, some b) else fail2 (some b)

unfoldable pub load_buffer : Boot → (mapped : Bool) → Run Call (ℤ × Buffer)
unfolding fail2 map_registers
load_buffer k mapped = elim (k.kmalloc k.gfp_kernel buffer_len) [
  | none ↦ do emit (kmalloc k.gfp_kernel buffer_len false); fail2 none
  | some b ↦ do emit (kmalloc k.gfp_kernel buffer_len true); map_registers mapped b
]

unfoldable pub load_cdev : Boot → (mapped : Bool) → Run Call (ℤ × Buffer)
unfolding fail2 load_buffer
load_cdev k mapped = do
  emit cdev_init
  emit (cdev_add (not (failed k.add_ret)))
  if failed k.add_ret then fail2 none else load_buffer k mapped

unfoldable pub adc_init : Boot → (mapped : Bool) → Run Call (ℤ × Buffer)
unfolding fail0 fail1 load_cdev
adc_init k mapped = do
  emit (alloc_chrdev_region (not (failed k.region_ret)))
  if failed k.region_ret
      then fail0
      else do emit (cdev_alloc k.cdev_ok); if k.cdev_ok then load_cdev k mapped else fail1 none

unfoldable pub adc_exit : Run Call Buffer
adc_exit = do emit iounmap; emit cdev_del; emit unregister_chrdev_region; emit kfree; pure none
