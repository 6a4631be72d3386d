-- ===== src/Tty/Port/Invariant.antt =====
-- One port's open count and its timer, over the calls of day_12/ex29.c.
use ldd3_examples.Common.{
  ℕ, Bool, true, false, ◌+◌, ◌-◌, ◌<◌, ◌≡◌, refl, ◌⊎◌, List, [], ◌∷◌, none, some, Run, done, fault,
  arith,
}
use ldd3_examples.Kernel.Errno.{Ret, ret, err, enomem}
use ldd3_examples.Tty.Defs.{
  TinySerial, Slot, Call, add_timer, del_timer, down, up, kmalloc_tiny, kmalloc_timer, sema_init,
}
use ldd3_examples.Tty.Port.{OpenEnv, open_port, tiny_open, tiny_close, tiny_timer}

abbrev pub count : Slot → ℕ
count none = 0
count (some t) = t.open_count

-- Whether the port's timer is set after these calls.
abbrev pub pending_after : List Call → Bool → Bool
pending_after [] p = p
pending_after (add_timer e ∷ cs) p = pending_after cs true
pending_after (del_timer ∷ cs) p = pending_after cs false
pending_after (_ ∷ cs) p = pending_after cs p

-- Whether the semaphore is taken and given back in turn, and free at the end.
abbrev pub Brackets : (held : Bool) → List Call → Type 0
Brackets held [] = held ≡ false
Brackets held (down ∷ cs) = (held ≡ false) × Brackets true cs
Brackets held (up ∷ cs) = (held ≡ true) × Brackets false cs
Brackets held (_ ∷ cs) = Brackets held cs

-- The timer is set exactly while the port is open, and is allocated once the port has an object.
abbrev pub IsSound : Slot → Bool → Type 0
IsSound none pending = pending ≡ false
IsSound (some t) pending =
    ((e : ℕ) × (t.timer ≡ some e))
    × (((t.open_count ≡ 0) × (pending ≡ false)) ⊎ ((0 < t.open_count) × (pending ≡ true)))

-- The same of an object whose timer may not be allocated before its first open.
abbrev IsCounted : TinySerial → Bool → Type 0
IsCounted t pending =
    ((t.open_count ≡ 0) × (pending ≡ false))
    ⊎ ((e : ℕ) × (t.timer ≡ some e) × (0 < t.open_count) × (pending ≡ true))

-- The call does not fault; it ends with this count and result, soundly, and with the semaphore free.
abbrev pub Keeps : Run Call (Slot × Ret) → Bool → ℕ → Ret → Type 0
Keeps (done t (slot, r')) pending n r =
    (r' ≡ r) × (count slot ≡ n) × IsSound slot (pending_after t pending) × Brackets false t
Keeps fault pending n r = ⊥

abbrev pub KeepsSlot : Run Call Slot → Bool → ℕ → Type 0
KeepsSlot (done t slot) pending n =
    (count slot ≡ n) × IsSound slot (pending_after t pending) × Brackets false t
KeepsSlot fault pending n = ⊥

open_port-Keeps :
    (k : OpenEnv) (tiny : TinySerial) (pending : Bool) (e : ℕ)
    → k.new_timer ≡ some e
    → IsCounted tiny pending
    → Keeps (open_port k tiny) pending (tiny.open_count + 1) (ret 0)
unfolding open_port
open_port-Keeps k tiny pending e a v = ground arith

-- Where both allocations succeed, an open counts one more user, returns 0 and keeps the port sound.
pub tiny_open-Keeps :
    (k : OpenEnv) (slot : Slot) (pending : Bool) (g : TinySerial) (e : ℕ)
    → k.new_tiny ≡ some g
    → k.new_timer ≡ some e
    → IsSound slot pending
    → Keeps (tiny_open k slot) pending (count slot + 1) (ret 0)
unfolding tiny_open
tiny_open-Keeps k none pending g e a b v =
    ground (arith, open_port-Keeps k (record g { open_count = 0; timer = none }) pending e b)
tiny_open-Keeps k (some tiny) pending g e a b v = ground (arith, open_port-Keeps k tiny pending e b)

-- A close of a port that has been opened takes one user off, if there is one, and keeps it sound.
pub tiny_close-Keeps :
    (tiny : TinySerial) (pending : Bool)
    → IsSound (some tiny) pending
    → KeepsSlot (tiny_close true (some tiny)) pending (tiny.open_count - 1)
unfolding tiny_close
tiny_close-Keeps tiny pending v = ground arith

-- The timer runs while it is set, and is no longer set when it does. It sets itself again.
pub tiny_timer-Keeps :
    (jiffies hz : ℕ) (slot : Slot)
    → IsSound slot true
    → KeepsSlot (tiny_timer jiffies hz slot) false (count slot)
unfolding tiny_timer
tiny_timer-Keeps jiffies hz none v = cc
tiny_timer-Keeps jiffies hz (some tiny) v = ground arith

-- The error path: the first open of a port, whose object can be allocated and whose timer cannot, returns
-- ENOMEM with the port counted as open and no timer. The close that follows then hands NULL to
-- del_timer, and any open that comes before it returns 0 and starts no timer.
pub tiny_open-no_timer :
    (k k' : OpenEnv) (garbage : TinySerial)
    → k.new_tiny ≡ some garbage
    → k.new_timer ≡ none
    → (broken : TinySerial) × (tiny_open k none
        ≡ done
            (kmalloc_tiny true ∷ sema_init 1 ∷ down ∷ kmalloc_timer false ∷ up ∷ [])
            (some broken, err enomem))
      × (broken.open_count ≡ 1)
      × (tiny_close true (some broken) ≡ fault)
      × (tiny_open k' (some broken)
          ≡ done (down ∷ up ∷ []) (some (record broken { tty = k'.tty; open_count = 2 }), ret 0))
unfolding tiny_open tiny_close
tiny_open-no_timer k k' garbage new a = (
  record garbage { tty = k.tty; open_count = 1; timer = none },
  ground arith,
  refl,
  ground arith,
  ground arith,
)
