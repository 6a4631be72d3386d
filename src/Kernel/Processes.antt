-- ===== src/Kernel/Processes.antt =====
-- Any number of processes that make kernel calls around one lock, a call at a time.
pub mod Holders
pub mod Exclusive
pub mod Progress
pub mod Counting
use ldd3_examples.Common.{ℕ, zero, suc, ◌≡◌, Bool, true, false, List, [], ◌∷◌, some, get_elem?, set}
use ldd3_examples.Kernel.Semaphore.{Semaphore}

pub data Kind : Type 0 where
  acquires releases other : Kind

-- What a program's calls do to the lock, and which of them only its holder is to make.
pub record Discipline (E : Type 0) : Type 1 where
  pub kind : E → Kind
  pub IsCritical : E → Type 0
  pub critical-other : (c : E) → IsCritical c → kind c ≡ other

-- A process: whether it is in the lock, and the calls that are left to it.
pub record Process (E : Type 0) : Type 0 where
  pub held : Bool
  pub calls : List E

abbrev pub idle : {E : Type 0} → Process E
idle = record { held = false; calls = [] }

abbrev pub idles : {E : Type 0} → ℕ → List (Process E)
idles zero = []
idles (suc n) = idle ∷ idles n

pub record System (E : Type 0) (sem : Semaphore) : Type 0 where
  pub lock : sem.State
  pub procs : List (Process E)

module _ {E : Type 0} (d : Discipline E) where
  -- The lock is taken and given back in turn, and every critical call stands between.
  abbrev pub Guarded : (held : Bool) → List E → Type 0
  Guarded held [] = held ≡ false
  Guarded held (c ∷ cs) = elim (d.kind c) [
    | acquires ↦ (held ≡ false) × Guarded true cs
    | releases ↦ (held ≡ true) × Guarded false cs
    | other ↦ (d.IsCritical c → held ≡ true) × Guarded held cs
  ]

  -- `Starts` tells which lists of calls an idle process may begin.
  module _ (sem : Semaphore) (Starts : List E → Type 0) where
    pub data Step : System E sem → System E sem → Type 0 where
      begins :
          {s : System E sem} (i : ℕ) {t : List E}
          → get_elem? s.procs i ≡ some idle
          → Starts t
          → Step s (record s { procs = set s.procs i (record { held = false; calls = t }) })
      takes :
          {s : System E sem} (i : ℕ) {h : Bool} {c : E} {cs : List E} {lock' : sem.State}
          → get_elem? s.procs i ≡ some (record { held = h; calls = c ∷ cs })
          → d.kind c ≡ acquires
          → sem.acquire s.lock ≡ some lock'
          → Step s
              (record { lock = lock'; procs = set s.procs i (record { held = true; calls = cs }) })
      gives :
          {s : System E sem} (i : ℕ) {h : Bool} {c : E} {cs : List E}
          → get_elem? s.procs i ≡ some (record { held = h; calls = c ∷ cs })
          → d.kind c ≡ releases
          → Step s (record {
            lock = sem.release s.lock;
            procs = set s.procs i (record { held = false; calls = cs });
          })
      makes :
          {s : System E sem} (i : ℕ) {h : Bool} {c : E} {cs : List E}
          → get_elem? s.procs i ≡ some (record { held = h; calls = c ∷ cs })
          → d.kind c ≡ other
          → Step s (record s { procs = set s.procs i (record { held = h; calls = cs }) })

    -- From a lock with one place, and all processes idle.
    pub data Reach (n : ℕ) : System E sem → Type 0 where
      start : Reach n (record { lock = sem.init 1; procs = idles n })
      later : {s t : System E sem} → Reach n s → Step s t → Reach n t
