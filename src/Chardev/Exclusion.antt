-- ===== src/Chardev/Exclusion.antt =====
-- Any number of processes that read and write through one driver of ex3.c to ex14.c, a kernel call
-- at a time.
pub mod Safety
use ldd3_examples.Common.{ℕ, ◌≡◌, refl, Bool, true, false, List, done}
use ldd3_examples.Kernel.Uaccess.{Uaccess}
use ldd3_examples.Kernel.Processes.{Kind, acquires, releases, other, Discipline}
use ldd3_examples.Chardev.Defs.{
  Call, Waiting, down, up, spin_lock, spin_unlock, copy_to_user, copy_from_user, memset,
}
use ldd3_examples.Chardev.Drivers.{Driver, read_of, write_of}

abbrev pub kind : Call → Kind
kind down = acquires
kind spin_lock = acquires
kind up = releases
kind spin_unlock = releases
kind _ = other

-- The calls that at most one process makes at a time: every copy, or every copy but those to a user.
abbrev pub IsExclusive : (all : Bool) → Call → Type 0
IsExclusive all (copy_to_user n) = elim all [ true ↦ Unit {0} | false ↦ ⊥ ]
IsExclusive all (copy_from_user n) = Unit {0}
IsExclusive all (memset n) = Unit {0}
IsExclusive all _ = ⊥

pub exclusive-other : (all : Bool) (c : Call) → IsExclusive all c → kind c ≡ other
exclusive-other all (copy_to_user n) x = refl
exclusive-other all (copy_from_user n) x = refl
exclusive-other all (memset n) x = refl
exclusive-other all _ x = absurd x

abbrev pub discipline : (all : Bool) → Discipline Call
discipline all = record {
  kind = kind;
  IsCritical = IsExclusive all;
  critical-other = exclusive-other all;
}

-- A process reads or writes, whatever the state and the arguments, and is to make the calls of the
-- driver's function.
pub data Starts (u : Uaccess) (d : Driver) : List Call → Type 0 where
  reads :
      {t : List Call} (w : Waiting) (user : List ℕ) (count : ℕ) (r : Waiting × List ℕ × ℕ)
      → read_of u d w user count ≡ done t r
      → Starts u d t
  writes :
      {t : List Call} (w : Waiting) (user : List ℕ) (count : ℕ) (r : Waiting × ℕ)
      → write_of u d w user count ≡ done t r
      → Starts u d t
