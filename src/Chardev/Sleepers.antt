-- ===== src/Chardev/Sleepers.antt =====
-- Any number of processes that read and write through the driver of ex12.c, ex13.c or ex14.c, a kernel
-- call or a store to `condition` at a time: who sleeps in wait_event_interruptible.
pub mod Woken
use ldd3_examples.Common.{
  ℕ, zero, suc, ◌≡◌, ◌≢◌, Bool, true, false, List, [], ◌∷◌, some, get_elem?, done, set,
}
use ldd3_examples.Kernel.Uaccess.{Uaccess}
use ldd3_examples.Chardev.Defs.{
  Call, Waiting, wait_event_interruptible, assign_condition, wake_up_interruptible,
}
use ldd3_examples.Chardev.Drivers.{Driver, ex12, ex13, ex14, read_of, write_of}

-- The calls that are left of a process's read or write, and whether it sleeps in the first of them.
pub record Process : Type 0 where
  pub asleep : Bool
  pub calls : List Call

abbrev pub idle : Process
idle = record { asleep = false; calls = [] }

abbrev pub idles : ℕ → List Process
idles zero = []
idles (suc n) = idle ∷ idles n

-- wake_up_interruptible lets every sleeper look at the condition again.
abbrev pub wake_all : List Process → List Process
wake_all [] = []
wake_all (p ∷ ps) = record p { asleep = false } ∷ wake_all ps

-- The calls that neither wait, wake nor store.
abbrev pub IsPlain : Call → Type 0
IsPlain wait_event_interruptible = ⊥
IsPlain wake_up_interruptible = ⊥
IsPlain (assign_condition v) = ⊥
IsPlain _ = Unit {0}

pub record System : Type 0 where
  pub condition : ℕ
  pub procs : List Process

module _ (u : Uaccess) (d : Driver) where
  -- The semaphore is left out, so that more steps are allowed than the drivers make.
  pub data Step : System → System → Type 0 where
    start_read :
        {s : System} (i : ℕ) (w : Waiting) (user : List ℕ) (count : ℕ) {t : List Call}
        {r : Waiting × List ℕ × ℕ}
        → get_elem? s.procs i ≡ some idle
        → read_of u d w user count ≡ done t r
        → Step s (record s { procs = set s.procs i (record { asleep = false; calls = t }) })
    start_write :
        {s : System} (i : ℕ) (w : Waiting) (user : List ℕ) (count : ℕ) {t : List Call}
        {r : Waiting × ℕ}
        → get_elem? s.procs i ≡ some idle
        → write_of u d w user count ≡ done t r
        → Step s (record s { procs = set s.procs i (record { asleep = false; calls = t }) })
    passes :
        {s : System} (i : ℕ) {cs : List Call}
        → get_elem? s.procs i
          ≡ some (record { asleep = false; calls = wait_event_interruptible ∷ cs })
        → s.condition ≡ 1
        → Step s (record s { procs = set s.procs i (record { asleep = false; calls = cs }) })
    sleeps :
        {s : System} (i : ℕ) {cs : List Call}
        → get_elem? s.procs i
          ≡ some (record { asleep = false; calls = wait_event_interruptible ∷ cs })
        → s.condition ≢ 1
        → Step s (record s {
          procs = set s.procs i (record { asleep = true; calls = wait_event_interruptible ∷ cs });
        })
    signalled :
        {s : System} (i : ℕ) {a : Bool} {cs : List Call}
        → get_elem? s.procs i ≡ some (record { asleep = a; calls = wait_event_interruptible ∷ cs })
        → Step s (record s { procs = set s.procs i (record { asleep = false; calls = cs }) })
    stores :
        {s : System} (i v : ℕ) {cs : List Call}
        → get_elem? s.procs i ≡ some (record { asleep = false; calls = assign_condition v ∷ cs })
        → Step s (record {
          condition = v;
          procs = set s.procs i (record { asleep = false; calls = cs });
        })
    wakes :
        {s : System} (i : ℕ) {cs : List Call}
        → get_elem? s.procs i ≡ some (record { asleep = false; calls = wake_up_interruptible ∷ cs })
        → Step s
            (record s { procs = wake_all (set s.procs i (record { asleep = false; calls = cs })) })
    call :
        {s : System} (i : ℕ) {c : Call} {cs : List Call}
        → get_elem? s.procs i ≡ some (record { asleep = false; calls = c ∷ cs })
        → IsPlain c
        → Step s (record s { procs = set s.procs i (record { asleep = false; calls = cs }) })

  pub data Reach (n : ℕ) : System → Type 0 where
    start : Reach n (record { condition = 0; procs = idles n })
    later : {s t : System} → Reach n s → Step s t → Reach n t
