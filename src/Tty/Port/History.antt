-- ===== src/Tty/Port/History.antt =====
-- One port over any history of opens, closes, timer runs and other calls, against the number of its users.
use ldd3_examples.Common.{
  ℕ, Bool, true, false, ◌+◌, ◌-◌, ◌≡◌, refl, List, [], ◌∷◌, Option, none, some, Run, done, fault,
  arith,
}
use ldd3_examples.Kernel.Errno.{Ret}
use ldd3_examples.Tty.Defs.{TinySerial, Slot, Call}
use ldd3_examples.Tty.Port.{OpenEnv, tiny_close, tiny_timer}
use ldd3_examples.Tty.Ops.{serial_ops}
use ldd3_examples.Tty.Port.FileCalls.{FileCall, file_call, InBounds, KeepsPort, file_call-Keeps}
use ldd3_examples.Tty.Port.Invariant.{
  count, pending_after, IsSound, tiny_open-Keeps, tiny_close-Keeps, tiny_timer-Keeps,
}

-- A port with the kernel's timer of it.
pub record Port : Type 0 where
  pub slot : Slot
  pub pending : Bool

abbrev pub fresh : Port
fresh = record { slot = none; pending = false }

-- `opens` with what the kernel gives; `fires` when the clock stands at `jiffies`; `calls` is anything else
-- that serial_ops has.
pub data Event : Type 0 where
  opens : OpenEnv → Event
  closes : Event
  fires : (jiffies hz : ℕ) → Event
  calls : FileCall → Event

-- The port after a call that made `t`.
abbrev pub settle : Bool → Run Call Slot → Option Port
settle pending (done t slot) = some (record { slot = slot; pending = pending_after t pending })
settle pending fault = none

abbrev pub opened : Run Call (Slot × Ret) → Run Call Slot
opened (done t (slot, r)) = done t slot
opened fault = fault

abbrev pub is_some : Slot → Bool
is_some none = false
is_some (some t) = true

abbrev pub fire : ℕ → ℕ → Slot → Bool → Option Port
fire jiffies hz slot true = settle false (tiny_timer jiffies hz slot)
fire jiffies hz slot false = some (record { slot = slot; pending = false })

-- One event; `none` is a fault. The tty layer's close finds no driver_data before the first open,
-- and a timer that is not set does not run.
unfoldable pub step : Event → Port → Option Port
step (opens k) p = settle p.pending (opened (serial_ops.on_open k p.slot))
step closes p = settle p.pending (serial_ops.on_close (is_some p.slot) p.slot)
step (fires jiffies hz) p = fire jiffies hz p.slot p.pending
step (calls c) p = settle p.pending (file_call c p.slot)

unfoldable pub run : List Event → Port → Option Port
run [] p = some p
run (e ∷ es) p = elim (step e p) [ none ↦ none | some q ↦ run es q ]

-- The number of users, by the events alone.
unfoldable pub users : List Event → ℕ → ℕ
users [] n = n
users (opens k ∷ es) n = users es (n + 1)
users (closes ∷ es) n = users es (n - 1)
users (fires jiffies hz ∷ es) n = users es n
users (calls c ∷ es) n = users es n

-- Every open is given its memory, and every write's buffer has the bytes that it counts.
abbrev pub Supplied : List Event → Type 0
Supplied [] = Unit {0}
Supplied (opens k ∷ es) =
    ((g : TinySerial) × (k.new_tiny ≡ some g)) × ((e : ℕ) × (k.new_timer ≡ some e)) × Supplied es
Supplied (closes ∷ es) = Supplied es
Supplied (fires jiffies hz ∷ es) = Supplied es
Supplied (calls c ∷ es) = InBounds c × Supplied es

-- The port has `n` users and is sound.
abbrev pub Serves : ℕ → Option Port → Type 0
Serves n none = ⊥
Serves n (some p) = (count p.slot ≡ n) × IsSound p.slot p.pending

step-opens :
    (k : OpenEnv) (p : Port) (g : TinySerial) (e : ℕ)
    → k.new_tiny ≡ some g
    → k.new_timer ≡ some e
    → IsSound p.slot p.pending
    → Serves (count p.slot + 1) (step (opens k) p)
unfolding step
step-opens k p g e a b v = ground (arith, tiny_open-Keeps k p.slot p.pending g e a b v)

step-closes :
    (slot : Slot) (pending : Bool)
    → IsSound slot pending
    → Serves (count slot - 1) (step closes (record { slot = slot; pending = pending }))
unfolding step
step-closes none pending v = unfold tiny_close in (refl, v)
step-closes (some t) pending v = ground (arith, tiny_close-Keeps t pending v)

step-fires :
    (jiffies hz : ℕ) (slot : Slot) (pending : Bool)
    → IsSound slot pending
    → Serves (count slot) (step (fires jiffies hz) (record { slot = slot; pending = pending }))
unfolding step
step-fires jiffies hz slot true v = ground (arith, tiny_timer-Keeps jiffies hz slot v)
step-fires jiffies hz slot false v = (refl, v)

settled :
    (m : Run Call Slot) (pending : Bool) (n : ℕ)
    → KeepsPort m pending n
    → Serves n (settle pending m)
settled (done t slot) pending n (q, c, v) = (c, rw q v)
settled fault pending n v = v

step-calls :
    (c : FileCall) (slot : Slot) (pending : Bool)
    → InBounds c
    → IsSound slot pending
    → Serves (count slot) (step (calls c) (record { slot = slot; pending = pending }))
unfolding step
step-calls c slot pending b v =
    settled (file_call c slot) pending (count slot) (file_call-Keeps c slot pending b v)

-- One event of a sound port, where an open is given its memory.
pub step-Serves :
    (e : Event) (p : Port)
    → Supplied (e ∷ [])
    → IsSound p.slot p.pending
    → Serves (users (e ∷ []) (count p.slot)) (step e p)
unfolding users
step-Serves (opens k) p ((g, a), (e, b), rest) v = step-opens k p g e a b v
step-Serves closes p s v = step-closes p.slot p.pending v
step-Serves (fires j h) p s v = step-fires j h p.slot p.pending v
step-Serves (calls c) p (b, s) v = step-calls c p.slot p.pending b v

abbrev resume : List Event → Option Port → Option Port
resume es none = none
resume es (some q) = run es q

run-resume : (e : Event) (es : List Event) (p : Port) → run (e ∷ es) p ≡ resume es (step e p)
unfolding run
run-resume e es p = ground arith

-- What the rest of the history keeps, from any port with `n` users.
abbrev Onwards : List Event → ℕ → Type 0
Onwards es n =
    (q : Port) → count q.slot ≡ n → IsSound q.slot q.pending → Serves (users es n) (run es q)

Serves-resume :
    (es : List Event) (n : ℕ) (o : Option Port)
    → Serves n o
    → Onwards es n
    → Serves (users es n) (resume es o)
Serves-resume es n none v k = v
Serves-resume es n (some q) v k = k q v.0 v.1

run-Onwards : (es : List Event) (n : ℕ) → Supplied es → Onwards es n
unfolding users
run-Onwards [] n s q c v = unfold run in (c, v)
run-Onwards (opens k ∷ es) n s q c v =
    let ((g, a), (e, b), rest) = s in
    rw (run-resume (opens k) es q) (
      Serves-resume es (n + 1) (step (opens k) q) (rw (← c) (step-opens k q g e a b v))
        (run-Onwards es (n + 1) rest))
run-Onwards (closes ∷ es) n s q c v = rw (run-resume closes es q) (
    Serves-resume es (n - 1) (step closes q) (rw (← c) (step-closes q.slot q.pending v))
      (run-Onwards es (n - 1) s))
run-Onwards (fires j h ∷ es) n s q c v = rw (run-resume (fires j h) es q) (
    Serves-resume es n (step (fires j h) q) (rw (← c) (step-fires j h q.slot q.pending v))
      (run-Onwards es n s))
run-Onwards (calls d ∷ es) n (b, s) q c v = rw (run-resume (calls d) es q) (
    Serves-resume es n (step (calls d) q) (rw (← c) (step-calls d q.slot q.pending b v))
      (run-Onwards es n s))

-- Over any history of a port in which every allocation succeeds and every write's buffer has the bytes
-- that it counts, no call faults, open_count is the
-- number of users, and the timer is set, and allocated, exactly while there is one.
pub run-Serves : (es : List Event) → Supplied es → Serves (users es 0) (run es fresh)
run-Serves es s = run-Onwards es 0 s fresh refl refl
