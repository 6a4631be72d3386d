-- ===== src/Adc/Loading.antt =====
-- What loading and unloading the driver of day_14/ex31.c acquires and releases.
use ldd3_examples.Common.{
  ℕ, zero, suc, Bool, true, false, ◌≡◌, ◌⊎◌, List, [], ◌∷◌, ◌++◌, Option, none, some, Run, done,
  arith,
}
use ldd3_examples.Common.Int.{ℤ, pos, negsuc}
use ldd3_examples.Kernel.Boot.{Boot}
use ldd3_examples.Chardev.Defs.{Buffer, buffer_len}
use ldd3_examples.Adc.{
  Call, alloc_chrdev_region, cdev_alloc, kmalloc, ioremap, iounmap, kfree, unregister_chrdev_region,
  cdev_del, failed, adc_init, adc_exit,
}

-- What the module holds of the kernel.
pub record Held : Type 0 where
  pub regions : ℕ
  pub cdevs : ℕ
  pub objects : ℕ
  pub mappings : ℕ

abbrev pub nothing : Held
nothing = record { regions = 0; cdevs = 0; objects = 0; mappings = 0 }

abbrev pub got : Bool → ℕ → ℕ
got true n = suc n
got false n = n

-- The effect of one call; `none` releases what is not held.
abbrev pub track : Call → Held → Option Held
track (alloc_chrdev_region ok) h = some (record h { regions = got ok h.regions })
track (cdev_alloc ok) h = some (record h { cdevs = got ok h.cdevs })
track (kmalloc size flags ok) h = some (record h { objects = got ok h.objects })
track (ioremap base len ok) h = some (record h { mappings = got ok h.mappings })
track unregister_chrdev_region h = elim h.regions [
  | zero ↦ none
  | suc n ↦ some (record h { regions = n })
]
track cdev_del h = elim h.cdevs [ zero ↦ none | suc n ↦ some (record h { cdevs = n }) ]
track kfree h = elim h.objects [ zero ↦ none | suc n ↦ some (record h { objects = n }) ]
track iounmap h = elim h.mappings [ zero ↦ none | suc n ↦ some (record h { mappings = n }) ]
track _ h = some h

abbrev pub track_all : List Call → Held → Option Held
track_all [] h = some h
track_all (c ∷ cs) h = elim (track c h) [ none ↦ none | some h' ↦ track_all cs h' ]

-- Loading as far as the registers: all that comes before is granted.
abbrev pub Granted : Boot → Type 0
Granted k =
    (failed k.region_ret ≡ false)
    × (k.cdev_ok ≡ true)
    × (failed k.add_ret ≡ false)
    × ((b : List ℕ) × (k.kmalloc k.gfp_kernel buffer_len ≡ some b))

-- What loading may end with, and what unloading then does.
abbrev pub Outcome : Boot → Bool → Run Call (ℤ × Buffer) → Run Call Buffer → Type 0
Outcome k mapped (done t (r, b)) (done t' b') =
    ((r ≡ pos 0) × (mapped ≡ true) × Granted k × (track_all (t ++ t') nothing ≡ some nothing))
    ⊎ ((r ≡ negsuc 0) × (track_all t nothing ≡ some nothing))
    ⊎ ((r ≡ negsuc 0)
        × (mapped ≡ false)
        × Granted k
        × (track_all t nothing ≡ some (record nothing { objects = 1 })))
Outcome k mapped _ _ = ⊥

-- Loading returns 0, and unloading releases all; or it returns -1 with nothing held; or the registers
-- cannot be mapped, and it returns -1 with the buffer still allocated.
pub adc_init-Outcome : (k : Boot) (mapped : Bool) → Outcome k mapped (adc_init k mapped) adc_exit
unfolding adc_init adc_exit
adc_init-Outcome k mapped = ground arith
