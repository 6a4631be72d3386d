-- ===== src/Chardev/Load.antt =====
-- char_drv_module_init and char_drv_module_exit, which the drivers share but for the call that
-- reserves the device number and for the locks that they set up. The device number is only
-- printed, and is left out.
use ldd3_examples.Common.{
  Bool, true, false, List, none, some, not, if◌then◌else◌, Run, done, ◌>>◌, pure, emit,
}
use ldd3_examples.Common.Int.{ℤ, pos, negsuc, ltb_ℤ}
use ldd3_examples.Kernel.Boot.{Boot}
use ldd3_examples.Chardev.Defs.{
  Call, Buffer, buffer_len, cdev_alloc, cdev_add, cdev_init, unregister_chrdev_region, cdev_del,
  kmalloc, kfree,
}

abbrev pub failed : ℤ → Bool
failed ret = ltb_ℤ ret (pos 0)

-- The labels of the unwinding: each falls through to the next.
unfoldable pub fail0 : Run Call (ℤ × Buffer)
fail0 = pure (negsuc 0, none)

unfoldable pub fail1 : Run Call (ℤ × Buffer)
unfolding fail0
fail1 = do emit unregister_chrdev_region; fail0

unfoldable pub fail2 : Run Call (ℤ × Buffer)
unfolding fail1
fail2 = do emit cdev_del; fail1

-- `buffer=kmalloc(GFP_KERNEL,buffer_len)` and what follows.
unfoldable pub load_buffer : List Call → Boot → Run Call (ℤ × Buffer)
unfolding fail2
load_buffer sync k = elim (k.kmalloc k.gfp_kernel buffer_len) [
  | none ↦ do emit (kmalloc k.gfp_kernel buffer_len false); fail2
  | some b ↦ do emit (kmalloc k.gfp_kernel buffer_len true); done sync tt; pure (pos 0, some b)
]

unfoldable pub load_cdev : List Call → Boot → Run Call (ℤ × Buffer)
unfolding fail2 load_buffer
load_cdev sync k = do
  emit cdev_init
  emit (cdev_add (not (failed k.add_ret)))
  if failed k.add_ret then fail2 else load_buffer sync k

unfoldable pub load : (Bool → Call) → List Call → Boot → Run Call (ℤ × Buffer)
unfolding fail0 fail1 load_cdev
load region sync k = do
  emit (region (not (failed k.region_ret)))
  if failed k.region_ret
      then fail0
      else do emit (cdev_alloc k.cdev_ok); if k.cdev_ok then load_cdev sync k else fail1

unfoldable pub unload : Run Call Buffer
unload = do emit cdev_del; emit unregister_chrdev_region; emit kfree; pure none
