-- ===== src/Chardev/Atomic/Phases.antt =====
-- Where a process of Chardev/Atomic stands, outside the lock or in it.
use ldd3_examples.Common.{ℕ, ◌≡◌, ◌≢◌, ◌≤◌, refl, List, [], ◌∷◌, length, take, done, true, arith}
use ldd3_examples.Kernel.Uaccess.{Uaccess}
use ldd3_examples.Kernel.Processes.{acquires, releases}
use ldd3_examples.Chardev.Defs.{
  Call, Waiting, down, up, spin_lock, spin_unlock, copy_to_user, copy_from_user, copy_out, copy_in,
  clamp,
}
use ldd3_examples.Chardev.Drivers.{
  Driver, ex7, ex8, ex11, read_of, write_of, read_calls, write_calls,
}
use ldd3_examples.Chardev.Exclusion.{kind}
use ldd3_examples.Chardev.Exclusion.Safety.{Locked}
use ldd3_examples.Chardev.Seqlock.Torn.{mix}
use ldd3_examples.Chardev.Atomic.{Process, idle, holding}

-- A process that has the whole of a read or of a write before it, or nothing.
pub data Outside (size : ℕ) (p : Process) : Type 0 where
  rests : p.calls ≡ [] → Outside size p
  will_read :
      (a z : Call) (n : ℕ)
      → p.calls ≡ a ∷ copy_to_user n ∷ z ∷ []
      → kind a ≡ acquires
      → kind z ≡ releases
      → p.shown ≡ []
      → Outside size p
  will_write :
      (a z : Call) (n : ℕ)
      → p.calls ≡ a ∷ copy_from_user n ∷ z ∷ []
      → kind a ≡ acquires
      → kind z ≡ releases
      → p.put ≡ 0
      → n ≤ size
      → Outside size p

-- The process that has the lock; `base` is what the buffer held when it took it, or what it has written.
pub data Inside (size : ℕ) (base content : List ℕ) (p : Process) : Type 0 where
  is_reading :
      (z : Call) (n : ℕ)
      → p.calls ≡ copy_to_user n ∷ z ∷ []
      → kind z ≡ releases
      → content ≡ base
      → p.shown ≡ take (length p.shown) base
      → Inside size base content p
  is_writing :
      (z : Call) (n : ℕ)
      → p.calls ≡ copy_from_user n ∷ z ∷ []
      → kind z ≡ releases
      → content ≡ mix p.put p.source base
      → p.put ≤ length p.source
      → p.put ≤ n
      → n ≤ size
      → Inside size base content p
  will_leave :
      (z : Call)
      → p.calls ≡ z ∷ []
      → kind z ≡ releases
      → content ≡ base
      → Inside size base content p

pub Outside-acquires :
    (size : ℕ) (p : Process) (c : Call) (cs : List Call)
    → Outside size p
    → p.calls ≡ c ∷ cs
    → kind c ≡ acquires
Outside-acquires size p c cs (rests e) e' = ground arith
Outside-acquires size p c cs (will_read a z n e k k' h) e' = ground arith
Outside-acquires size p c cs (will_write a z n e k k' h h') e' = ground arith

module _ (u : Uaccess) (content user : List ℕ) (count : ℕ) (t : List Call) where
  -- The calls of a read or a write that does not fault.
  read_of-calls :
      (d : Driver) (r : Waiting × List ℕ × ℕ)
      → Locked true d
      → read_of u d (holding content) user count ≡ done t r
      → t ≡ read_calls d (clamp count)
  unfolding read_of copy_out
  read_of-calls ex7 r l e = ground arith
  read_of-calls ex8 r l e = ground arith
  read_of-calls ex11 r l e = ground arith
  read_of-calls _ r l e = absurd l

  write_of-calls :
      (d : Driver) (r : Waiting × ℕ)
      → Locked true d
      → write_of u d (holding content) user count ≡ done t r
      → (t ≡ write_calls d (clamp count)) × (clamp count ≤ length content)
  unfolding write_of copy_in
  write_of-calls ex7 r l e = ground arith
  write_of-calls ex8 r l e = ground arith
  write_of-calls ex11 r l e = ground arith
  write_of-calls _ r l e = absurd l

  pub read_of-Outside :
      (size : ℕ) (d : Driver) (r : Waiting × List ℕ × ℕ)
      → Locked true d
      → read_of u d (holding content) user count ≡ done t r
      → Outside size (record idle { calls = t })
  read_of-Outside size ex7 r l e =
      will_read down up (clamp count) (read_of-calls ex7 r l e) refl refl refl
  read_of-Outside size ex8 r l e =
      will_read spin_lock spin_unlock (clamp count) (read_of-calls ex8 r l e) refl refl refl
  read_of-Outside size ex11 r l e =
      will_read down up (clamp count) (read_of-calls ex11 r l e) refl refl refl
  read_of-Outside size _ r l e = absurd l

  pub write_of-Outside :
      (size : ℕ) (d : Driver) (r : Waiting × ℕ)
      → Locked true d
      → length content ≡ size
      → write_of u d (holding content) user count ≡ done t r
      → Outside size (record idle { calls = t; source = user })
  write_of-Outside size ex7 r l h e =
      let (c, room) = write_of-calls ex7 r l e in
      will_write down up (clamp count) c refl refl refl (omega arith)
  write_of-Outside size ex8 r l h e =
      let (c, room) = write_of-calls ex8 r l e in
      will_write spin_lock spin_unlock (clamp count) c refl refl refl (omega arith)
  write_of-Outside size ex11 r l h e =
      let (c, room) = write_of-calls ex11 r l e in
      will_write down up (clamp count) c refl refl refl (omega arith)
  write_of-Outside size _ r l h e = absurd l

-- In the lock, the process does not take it, and its next call tells what it does.
module _ (size : ℕ) (base content : List ℕ) (p : Process) where
  pub Inside-held :
      (c : Call) (cs : List Call)
      → Inside size base content p
      → p.calls ≡ c ∷ cs
      → kind c ≢ acquires
  Inside-held c cs (is_reading z n e k h i) e' x = ground arith
  Inside-held c cs (is_writing z n e k h i l m) e' x = ground arith
  Inside-held c cs (will_leave z e k h) e' x = ground arith

  pub Inside-busy : Inside size base content p → p.calls ≢ []
  Inside-busy (is_reading z n e k h i) e' = ground arith
  Inside-busy (is_writing z n e k h i l m) e' = ground arith
  Inside-busy (will_leave z e k h) e' = ground arith

  pub Inside-reads :
      (n : ℕ) (cs : List Call)
      → Inside size base content p
      → p.calls ≡ copy_to_user n ∷ cs
      → (z : Call) × (cs ≡ z ∷ [])
        × (kind z ≡ releases)
        × (content ≡ base)
        × (p.shown ≡ take (length p.shown) base)
  Inside-reads n cs (is_reading z n' e k h i) e' = (z, ground arith, k, h, i)
  Inside-reads n cs (is_writing z n' e k h i l m) e' = ground arith
  Inside-reads n cs (will_leave z e k h) e' = ground arith

  pub Inside-writes :
      (n : ℕ) (cs : List Call)
      → Inside size base content p
      → p.calls ≡ copy_from_user n ∷ cs
      → (z : Call) × (cs ≡ z ∷ [])
        × (kind z ≡ releases)
        × (content ≡ mix p.put p.source base)
        × (p.put ≤ length p.source)
        × (p.put ≤ n)
        × (n ≤ size)
  Inside-writes n cs (is_reading z n' e k h i) e' = ground arith
  Inside-writes n cs (is_writing z n' e k h i l m) e' =
      (z, ground arith, k, h, i, ground arith, ground arith)
  Inside-writes n cs (will_leave z e k h) e' = ground arith

  pub Inside-leaves :
      (c : Call) (cs : List Call)
      → Inside size base content p
      → p.calls ≡ c ∷ cs
      → kind c ≡ releases
      → (cs ≡ []) × (content ≡ base)
  Inside-leaves c cs (is_reading z n e k h i) e' x = ground arith
  Inside-leaves c cs (is_writing z n e k h i l m) e' x = ground arith
  Inside-leaves c cs (will_leave z e k h) e' x = (ground arith, h)
