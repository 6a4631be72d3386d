-- ===== src/Chardev/Exclusion/Safety.antt =====
-- Who holds the lock in the reachable states of the drivers that have one.
use ldd3_examples.Common.{ℕ, ◌≡◌, Bool, true, false, List, ◌∷◌, some, get_elem?, done, arith}
use ldd3_examples.Kernel.Semaphore.{Semaphore}
use ldd3_examples.Kernel.Uaccess.{Uaccess}
use ldd3_examples.Kernel.Processes.{System, Guarded, Reach}
use ldd3_examples.Kernel.Processes.Exclusive.{critical_unique}
use ldd3_examples.Kernel.Processes.Progress.{Finishes, Reach-Finishes}
use ldd3_examples.Chardev.Defs.{Call, Waiting, copy_out, copy_in}
use ldd3_examples.Chardev.Drivers.{
  Driver, ex7, ex8, ex10, ex11, ex12, ex13, ex14, read_of, write_of,
}
use ldd3_examples.Chardev.Exclusion.{IsExclusive, discipline, Starts, reads, writes}

-- The drivers whose reads and writes both take the lock, and those whose writes do.
abbrev pub Locked : (all : Bool) → Driver → Type 0
Locked all ex7 = Unit {0}
Locked all ex8 = Unit {0}
Locked all ex11 = Unit {0}
Locked false ex10 = Unit {0}
Locked false ex12 = Unit {0}
Locked false ex13 = Unit {0}
Locked false ex14 = Unit {0}
Locked _ _ = ⊥

module _ (u : Uaccess) (w : Waiting) (user : List ℕ) (count : ℕ) (t : List Call) where
  -- The calls of the driver's functions, if they end.
  read_of-Guarded :
      (all : Bool) (d : Driver) (r : Waiting × List ℕ × ℕ)
      → Locked all d
      → read_of u d w user count ≡ done t r
      → Guarded (discipline all) false t
  unfolding read_of copy_out
  read_of-Guarded all ex7 r l e = ground arith
  read_of-Guarded all ex8 r l e = ground arith
  read_of-Guarded all ex11 r l e = ground arith
  read_of-Guarded false ex10 r l e = ground arith
  read_of-Guarded false ex12 r l e = ground arith
  read_of-Guarded false ex13 r l e = ground arith
  read_of-Guarded false ex14 r l e = ground arith
  read_of-Guarded _ _ r l e = absurd l

  write_of-Guarded :
      (all : Bool) (d : Driver) (r : Waiting × ℕ)
      → Locked all d
      → write_of u d w user count ≡ done t r
      → Guarded (discipline all) false t
  unfolding write_of copy_in
  write_of-Guarded all ex7 r l e = ground arith
  write_of-Guarded all ex8 r l e = ground arith
  write_of-Guarded all ex11 r l e = ground arith
  write_of-Guarded false ex10 r l e = ground arith
  write_of-Guarded false ex12 r l e = ground arith
  write_of-Guarded false ex13 r l e = ground arith
  write_of-Guarded false ex14 r l e = ground arith
  write_of-Guarded _ _ r l e = absurd l

Starts-Guarded :
    (u : Uaccess) (d : Driver) (all : Bool)
    → Locked all d
    → (t : List Call) → Starts u d t
    → Guarded (discipline all) false t
Starts-Guarded u d all l t (reads w user count r e) = read_of-Guarded u w user count t all d r l e
Starts-Guarded u d all l t (writes w user count r e) = write_of-Guarded u w user count t all d r l e

module _ (u : Uaccess) (sem : Semaphore) (d : Driver) (all : Bool) (locked : Locked all d) where
  -- Mutual exclusion: for any number of processes, in no reachable state of ex7.c, ex8.c or ex11.c do
  -- two of them stand at a copy, and in none of those or of ex10.c, ex12.c, ex13.c or ex14.c at copies
  -- from a user.
  pub Reach-exclusive :
      {n : ℕ} {s : System Call sem}
      → Reach (discipline all) sem (Starts u d) n s
      → (i j : ℕ) {h h' : Bool} {c c' : Call} {cs cs' : List Call}
      → get_elem? s.procs i ≡ some (record { held = h; calls = c ∷ cs })
      → get_elem? s.procs j ≡ some (record { held = h'; calls = c' ∷ cs' })
      → IsExclusive all c
      → IsExclusive all c'
      → i ≡ j
  Reach-exclusive =
      critical_unique (discipline all) sem (Starts u d) (Starts-Guarded u d all locked)

-- No deadlock: from every state that any number of readers and writers of ex7.c, ex8.c or ex11.c
-- reach there are steps after which every read and write has made all its calls, and the lock is free.
pub Reach-returns :
    (u : Uaccess) (sem : Semaphore) (d : Driver)
    → Locked true d
    → {n : ℕ} {s : System Call sem} → Reach (discipline true) sem (Starts u d) n s
    → Finishes (discipline true) sem (Starts u d) s
Reach-returns u sem d locked =
    Reach-Finishes (discipline true) sem (Starts u d) (Starts-Guarded u d true locked)
