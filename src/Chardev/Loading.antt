-- ===== src/Chardev/Loading.antt =====
-- What loading and unloading a driver's module acquires and releases.
use ldd3_examples.Common.{
  ℕ, zero, suc, ◌≡◌, ◌⊎◌, Bool, true, false, List, [], ◌∷◌, ◌++◌, Option, none, some, Run, fault,
  done, arith, ◌<◌, length,
}
use ldd3_examples.Common.Int.{ℤ, pos, negsuc}
use ldd3_examples.Kernel.Boot.{Boot}
use ldd3_examples.Kernel.Uaccess.{Uaccess}
use ldd3_examples.Chardev.Defs.{
  Call, Buffer, buffer_len, bytes, register_chrdev_region, alloc_chrdev_region, cdev_alloc,
  unregister_chrdev_region, cdev_del, cdev_add, cdev_init, kmalloc, kfree, clamp, sema_init,
  seqlock_init, init_completion, init_waitqueue_head,
}
use ldd3_examples.Chardev.Load.{failed}
use ldd3_examples.Chardev.Drivers.{
  Driver, ex3, ex7, ex9, ex10, ex11, ex12, ex13, ex14, init_of, exit_of, read_of, write_of,
}
use ldd3_examples.Chardev.Copy.{read_of-fault, write_of-fault}

-- What a module holds of the kernel.
pub record Held : Type 0 where
  pub regions : ℕ
  pub cdevs : ℕ
  pub objects : ℕ

abbrev pub nothing : Held
nothing = record { regions = 0; cdevs = 0; objects = 0 }

abbrev pub got : Bool → ℕ → ℕ
got true n = suc n
got false n = n

-- The effect of one call; `none` releases what is not held.
abbrev pub track : Call → Held → Option Held
track (register_chrdev_region ok) h = some (record h { regions = got ok h.regions })
track (alloc_chrdev_region ok) h = some (record h { regions = got ok h.regions })
track (cdev_alloc ok) h = some (record h { cdevs = got ok h.cdevs })
track (kmalloc size flags ok) h = some (record h { objects = got ok h.objects })
track unregister_chrdev_region h = elim h.regions [
  | zero ↦ none
  | suc n ↦ some (record h { regions = n })
]
track cdev_del h = elim h.cdevs [ zero ↦ none | suc n ↦ some (record h { cdevs = n }) ]
track kfree h = elim h.objects [ zero ↦ none | suc n ↦ some (record h { objects = n }) ]
track _ h = some h

abbrev pub track_all : List Call → Held → Option Held
track_all [] h = some h
track_all (c ∷ cs) h = elim (track c h) [ none ↦ none | some h' ↦ track_all cs h' ]

abbrev pub Loads : Boot → Type 0
Loads k =
    (failed k.region_ret ≡ false)
    × (k.cdev_ok ≡ true)
    × (failed k.add_ret ≡ false)
    × ((b : List ℕ) × (k.kmalloc k.gfp_kernel buffer_len ≡ some b))

-- What loading and then unloading end with: a failure that holds nothing, or a success after which
-- all is given back.
abbrev pub Balanced : Boot → Run Call (ℤ × Buffer) → Run Call Buffer → Type 0
Balanced k (done t (r, b)) (done t' b') =
    ((r ≡ negsuc 0) × (track_all t nothing ≡ some nothing) × (b ≡ none))
    ⊎ (Loads k × (r ≡ pos 0) × (track_all (t ++ t') nothing ≡ some nothing) × (b' ≡ none))
Balanced k _ _ = ⊥

-- Loading fails with -1, leaves the pointer NULL and leaves nothing held, or everything was granted,
-- loading returns 0, and unloading then releases all that loading acquired.
pub init-Balanced : (d : Driver) (k : Boot) → Balanced k (init_of d k) (exit_of d)
unfolding init_of exit_of
init-Balanced ex3 k = ground arith
init-Balanced d k = ground arith

pub length-init_of :
    (d : Driver) (k : Boot) (t : List Call) (b : Buffer)
    → init_of d k ≡ done t (pos 0, b)
    → length (bytes b) ≡ k.gfp_kernel
unfolding init_of
length-init_of ex3 k t b e = grind (arith, k.kmalloc_size k.gfp_kernel buffer_len)
length-init_of d k t b e = grind (arith, k.kmalloc_size k.gfp_kernel buffer_len)

-- The buffer is allocated with the arguments of kmalloc swapped, so once the module is loaded a read
-- or write of more than GFP_KERNEL bytes runs past the object, whatever `condition` is.
pub load_overrun :
    (u : Uaccess) (d : Driver) (k : Boot) (t : List Call) (b : Buffer) (c : ℕ) (user : List ℕ)
    (count : ℕ)
    → init_of d k ≡ done t (pos 0, b)
    → k.gfp_kernel < clamp count
    → (read_of u d (record { buffer = b; condition = c }) user count ≡ fault)
      × (write_of u d (record { buffer = b; condition = c }) user count ≡ fault)
load_overrun u d k t b c user count e h =
    let short : length (bytes b) < clamp count = omega (arith, length-init_of d k t b e) in
    (read_of-fault u d _ user count short, write_of-fault u d _ user count short)

-- Calls that set up the locks of each driver.
abbrev pub lock_setup : Driver → List Call
lock_setup ex7 = sema_init 1 ∷ []
lock_setup ex9 = init_completion ∷ []
lock_setup ex10 = sema_init 1 ∷ seqlock_init ∷ []
lock_setup ex11 = sema_init 1 ∷ []
lock_setup ex12 = sema_init 1 ∷ init_waitqueue_head ∷ []
lock_setup ex13 = sema_init 1 ∷ init_waitqueue_head ∷ []
lock_setup ex14 = sema_init 1 ∷ init_waitqueue_head ∷ []
lock_setup _ = []

-- Where loading succeeds, the device is added, and can be opened, before the buffer is allocated
-- and before any lock is set up.
pub init_of-live_early :
    (d : Driver) (k : Boot)
    → Loads k
    → (before : List Call) × (b : Buffer) × (init_of d k
        ≡ done
            (before ++ (cdev_add true ∷ kmalloc k.gfp_kernel buffer_len true ∷ lock_setup d))
            (pos 0, b))
unfolding init_of
init_of-live_early ex3 k (r, c, a, (b, m)) =
    (register_chrdev_region true ∷ cdev_alloc true ∷ cdev_init ∷ [], some b, ground arith)
init_of-live_early d k (r, c, a, (b, m)) =
    (alloc_chrdev_region true ∷ cdev_alloc true ∷ cdev_init ∷ [], some b, ground arith)
