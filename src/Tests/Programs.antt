-- ===== src/Tests/Programs.antt =====
-- The programs beside the drivers, at concrete inputs.
use ldd3_examples.Common.{
  ◌≡◌, ◌+◌, ◌-◌, ap, get_elem?, done, ℕ, refl, true, List, [], ◌∷◌, none, some, Option, replicate,
  length-replicate, arith,
}
use ldd3_examples.Common.Int.{pos}
use ldd3_examples.Common.Text.{Bytes}
use ldd3_examples.Kernel.Simple.{simple_uaccess}
use ldd3_examples.Chardev.Defs.{
  Call, alloc_chrdev_region, cdev_alloc, cdev_init, cdev_add, kmalloc, sema_init, bytes,
}
use ldd3_examples.Chardev.Drivers.{ex7, init_of}
use ldd3_examples.Chardev.Fops.{FopsEnv, fops_of}
use ldd3_examples.Chardev.Poll
use ldd3_examples.Mmap.Mapping.{Holds}
use ldd3_examples.Mmap.{Place, max_length, char_dev_fops, File}
use ldd3_examples.Adc.{adccon, down_interruptible, writel, mdelay, readl, adc_char_drv_fops}
use ldd3_examples.Programs.ReadOnce
use ldd3_examples.Programs.ReadOnce.Hangs.{main-hangs}
use ldd3_examples.Programs.WriteRead
use ldd3_examples.Programs.WriteRead.Prints.{Prints, loaded-Prints}
use ldd3_examples.Programs.PollTest
use ldd3_examples.Programs.PollTest.Prints.{PollBits, Shows, expected, round_of, main-Shows}
use ldd3_examples.Programs.MapFile
use ldd3_examples.Programs.MapFile.Prints.{Ends, shown_by, main-Ends}
use ldd3_examples.Tests.Instances.{complete, boot, generic_abi}

abbrev env : FopsEnv
env = record {
  uaccess = simple_uaccess;
  abi = generic_abi;
  pollin = 1;
  pollrdnorm = 64;
  uninit = pos 0;
}

abbrev loading : List Call
loading =
    alloc_chrdev_region true
    ∷ cdev_alloc true
    ∷ cdev_init
    ∷ cdev_add true
    ∷ kmalloc 208 4000 true
    ∷ sema_init 1
    ∷ []

abbrev zeros : List ℕ
zeros = replicate 208 0

abbrev array : Bytes
array = replicate 60 7

loaded-Prints_example :
    Prints ex7
      (WriteRead.main (fops_of env ex7) true (record { buffer = some zeros; condition = 0 }) array)
unfolding init_of
loaded-Prints_example =
    loaded-Prints env ex7 boot loading (some zeros) array refl (omega arith) (refl, refl)

abbrev bits : PollBits
bits = record {
  pollin = 1;
  pollrdnorm = 64;
  pollin_set = refl;
  pollin_twice = refl;
  pollin_some = refl;
}

abbrev texts : List (Option Bytes)
texts = some (104 ∷ 105 ∷ []) ∷ none ∷ some (111 ∷ 107 ∷ []) ∷ []

main-Shows_example : Shows (expected 1 texts) (
    PollTest.main
      (Poll.sample_char_drv_fops simple_uaccess 1 64)
      1
      325
      (round_of (some (104 ∷ 105 ∷ [])) ∷ round_of none ∷ round_of (some (111 ∷ 107 ∷ [])) ∷ [])
      (record { buffer = some zeros; condition = 0 })
      (replicate 32 0))
main-Shows_example =
    main-Shows simple_uaccess bits 325 texts zeros (replicate 32 0) complete
      (
        (omega arith, (omega arith, tt)),
        omega arith,
        ((omega arith, (omega arith, tt)), omega arith, tt),
      )
      (omega arith) (omega arith)

abbrev page : Bytes
page = replicate max_length 0

-- The third page of the memory is the buffer's.
abbrev place : Place
place = record { page_shift = 12; pa = 8192 }

abbrev or_zero : Option ℕ → ℕ
or_zero none = 0
or_zero (some c) = c

abbrev memory_of : File → ℕ → ℕ
memory_of s a = or_zero (get_elem? (bytes s.buffer) (a - 8192))

memory_of-Holds : (s : File) → Holds (memory_of s) 8192 (bytes s.buffer)
memory_of-Holds s j c e = let there : 8192 + j - 8192 ≡ j = omega arith in rw there (ap or_zero e)

main-Ends_example : Ends place true 2 (
    MapFile.main
      (char_dev_fops simple_uaccess place)
      (shown_by place memory_of)
      true
      (record { buffer = some page; counter = 2; f_pos = 0 }))
main-Ends_example =
    main-Ends simple_uaccess place memory_of true page 2 refl memory_of-Holds
      (length-replicate {A = ℕ} max_length 0) refl

main-hangs_example :
    ReadOnce.main
      (adc_char_drv_fops simple_uaccess (λ v. 97 ∷ []) true (0 ∷ 32768 ∷ []) 5)
      true
      (some page)
      array
    ≡ done
        (down_interruptible true ∷ writel 9 adccon ∷ mdelay 3 ∷ readl adccon ∷ readl adccon ∷ [])
        (some page, [], none)
main-hangs_example = main-hangs simple_uaccess (λ v. 97 ∷ []) (some page) (0 ∷ 32768 ∷ []) 5 array
