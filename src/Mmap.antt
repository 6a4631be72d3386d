-- ===== src/Mmap.antt =====
-- The character driver with mmap, day_11/ex27.c. A loff_t is a position of at least 0.
pub mod Position
pub mod Mapping
use ldd3_examples.Common.{
  ℕ, Bool, true, false, ◌+◌, ◌-◌, ◌%◌, ◌/◌, ◌*◌, ◌^◌, List, [], ◌∷◌, ◌++◌, Option, none, some,
  length, take, drop, ltb, leb, ◌==◌, not, if◌then◌else◌, Run, done, fault, ◌>>=◌, ◌>>◌, pure, emit,
  require,
}
use ldd3_examples.Common.Int.{ℤ, pos, negsuc, ltb_ℤ}
use ldd3_examples.Kernel.Uaccess.{Uaccess}
use ldd3_examples.Kernel.Boot.{Boot}
use ldd3_examples.Kernel.Errno.{Ret, ret, err, enospc, eagain}
use ldd3_examples.Kernel.FileOps.{FileOps}
use ldd3_examples.Chardev.Defs.{Buffer, bytes, store}

pub data Call : Type 0 where
  copy_to_user copy_from_user : ℕ → Call
  remap_pfn_range : (pfn size : ℕ) (ok : Bool) → Call
  alloc_chrdev_region cdev_alloc cdev_add : (ok : Bool) → Call
  cdev_init unregister_chrdev_region cdev_del : Call
  class_create device_create device_destroy class_destroy : Call
  kmalloc : (size flags : ℕ) (ok : Bool) → Call
  kfree : Call

abbrev pub max_length : ℕ
max_length = 4000

-- `maxbytes = MAX_LENGTH - *ppos`, cut to the 32 bits of an int.
abbrev pub int_maxbytes : ℕ → ℕ
int_maxbytes ppos = (max_length + 2 ^ 64 - ppos) % 2 ^ 32

-- An int's bit pattern as an unsigned long: the sign is extended.
abbrev pub extend : ℕ → ℕ
extend w = if ltb w (2 ^ 31) then w else w + 2 ^ 64 - 2 ^ 32

-- `bytes_to_do`, an int; the comparison is one of unsigned longs.
unfoldable pub bytes_to_do : (ppos lbuf : ℕ) → ℕ
bytes_to_do ppos lbuf =
    if ltb lbuf (extend (int_maxbytes ppos)) then lbuf % 2 ^ 32 else int_maxbytes ppos

-- `nbytes = bytes_to_do - left`, an int
abbrev pub sub32 : ℕ → ℕ → ℕ
sub32 a b = (a + 2 ^ 64 - b) % 2 ^ 32

module _ (u : Uaccess) where
  -- The user's bytes, *ppos and the result of a read.
  unfoldable pub char_dev_read :
      Buffer → (user : List ℕ) (lbuf ppos : ℕ) → Run Call (List ℕ × ℕ × Ret)
  char_dev_read buffer user lbuf ppos = do
    let todo = bytes_to_do ppos lbuf
    if todo == 0 then pure (user, ppos, err enospc) else (do
      require (leb (ppos + extend todo) (length (bytes buffer)))
      emit (copy_to_user (extend todo))
      let (user', left) = u.copy_to_user user (drop ppos (bytes buffer)) (extend todo)
      let nbytes = sub32 todo left
      pure (user', ppos + extend nbytes, ret (extend nbytes)))

  -- The buffer, *ppos and the result of a write.
  unfoldable pub char_dev_write :
      Buffer → (user : List ℕ) (lbuf ppos : ℕ) → Run Call (Buffer × ℕ × Ret)
  char_dev_write buffer user lbuf ppos = do
    let todo = bytes_to_do ppos lbuf
    if todo == 0 then pure (buffer, ppos, err enospc) else (do
      require (leb (ppos + extend todo) (length (bytes buffer)))
      emit (copy_from_user (extend todo))
      let (part, left) = u.copy_from_user (drop ppos (bytes buffer)) user (extend todo)
      let nbytes = sub32 todo left
      pure (
        store buffer (take ppos (bytes buffer) ++ part),
        ppos + extend nbytes,
        ret (extend nbytes),
      ))

-- `counter`, which each open counts up (an int, not taken near 2 ^ 31).
unfoldable pub char_dev_open : (counter : ℕ) → ℕ × Ret
char_dev_open counter = (counter + 1, ret 0)

unfoldable pub char_dev_release : Run Call Ret
char_dev_release = pure (ret 0)

-- PAGE_SHIFT, and __pa of the buffer: where it stands in physical memory.
pub record Place : Type 0 where
  pub page_shift : ℕ
  pub pa : ℕ

-- PAGE_ALIGN
abbrev pub page_align : (page_shift n : ℕ) → ℕ
page_align page_shift n = (n + 2 ^ page_shift - 1) / 2 ^ page_shift * 2 ^ page_shift

unfoldable pub char_dev_mmap : Place → (remap_ok : Bool) → Run Call Ret
char_dev_mmap p remap_ok = do
  emit (remap_pfn_range (p.pa / 2 ^ p.page_shift) (page_align p.page_shift max_length) remap_ok)
  if remap_ok then pure (ret 0) else pure (err eagain)

-- The globals, and the position of the open file.
pub record File : Type 0 where
  pub buffer : Buffer
  pub counter : ℕ
  pub f_pos : ℕ

module _ (u : Uaccess) where
  abbrev opened : File → File × Ret
  opened s = ((record s { counter = (char_dev_open s.counter).0 }), (char_dev_open s.counter).1)

  abbrev read_at : File → List ℕ → ℕ → Run Call (File × List ℕ × Ret)
  read_at s user count = do
    (user', f_pos', r) ← char_dev_read u s.buffer user count s.f_pos
    pure (record s { f_pos = f_pos' }, user', r)

  abbrev write_at : File → List ℕ → ℕ → Run Call (File × Ret)
  write_at s user count = do
    (buffer', f_pos', r) ← char_dev_write u s.buffer user count s.f_pos
    pure (record s { buffer = buffer'; f_pos = f_pos' }, r)

  abbrev pub char_dev_fops : Place → FileOps Call File Ret
  char_dev_fops p = record {
    on_open = λ s. pure (opened s);
    on_release = λ s. (char_dev_release >>= λ r. pure (s, r));
    on_read = read_at;
    on_write = write_at;
    on_poll = none;
    on_llseek = none;
    on_ioctl = none;
    on_mmap = some (λ s. char_dev_mmap p);
  }

abbrev pub failed : ℤ → Bool
failed r = ltb_ℤ r (pos 0)

-- `gfp_atomic` is GFP_ATOMIC. The result of kmalloc is not looked at, nor are those of class_create
-- and device_create.
unfoldable pub finish_init : Boot → (gfp_atomic : ℕ) → Run Call (ℤ × Buffer)
finish_init k gfp_atomic = do
  emit class_create
  emit device_create
  elim (k.kmalloc max_length gfp_atomic) [
    | none ↦ do emit (kmalloc max_length gfp_atomic false); pure (pos 0, none)
    | some b ↦ do emit (kmalloc max_length gfp_atomic true); pure (pos 0, some b)
  ]

unfoldable pub char_dev_init : Boot → (gfp_atomic : ℕ) → Run Call (ℤ × Buffer)
unfolding finish_init
char_dev_init k gfp_atomic = do
  emit (alloc_chrdev_region (not (failed k.region_ret)))
  if failed k.region_ret then pure (negsuc 0, none) else do
    emit (cdev_alloc k.cdev_ok)
    if not k.cdev_ok then (emit unregister_chrdev_region >> pure (negsuc 0, none)) else do
      emit cdev_init
      emit (cdev_add (not (failed k.add_ret)))
      if failed k.add_ret
          then (emit cdev_del >> (emit unregister_chrdev_region >> pure (negsuc 0, none)))
          else finish_init k gfp_atomic

unfoldable pub char_dev_exit : Run Call (Unit {0})
char_dev_exit = do
  emit device_destroy
  emit class_destroy
  emit cdev_del
  emit unregister_chrdev_region
  emit kfree
