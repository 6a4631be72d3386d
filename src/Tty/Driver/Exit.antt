-- ===== src/Tty/Driver/Exit.antt =====
-- What loading and unloading the driver of day_12/ex29.c release.
use mathlib.Core.List.{append-nil}
use ldd3_examples.Common.{
  ℕ, zero, suc, Bool, true, false, ◌+◌, ◌-◌, ◌<◌, ◌≡◌, refl, ap, List, [], ◌∷◌, ◌++◌, Option, none,
  some, Run, done, fault, ◌>>=◌, arith,
}
use ldd3_examples.Common.Int.{ℤ, pos, negsuc}
use ldd3_examples.Tty.Defs.{
  TinySerial, Slot, Call, kfree_tiny, kfree_timer, alloc_tty_driver, put_tty_driver, down, up,
  add_timer, del_timer,
}
use ldd3_examples.Tty.Port.{do_close, del_timer_of}
use ldd3_examples.Tty.Port.Invariant.{count, pending_after, Brackets, IsSound}
use ldd3_examples.Tty.Driver.{
  InitRet, no_memory, registered, tiny_init, for_minors, close_all, finish, join, exit_slot,
  exit_slots, tiny_exit,
}

-- How many objects and timers a list of calls frees, and how often it lets go of the tty driver.
abbrev pub tinies_freed : List Call → ℕ
tinies_freed [] = 0
tinies_freed (kfree_tiny ∷ cs) = suc (tinies_freed cs)
tinies_freed (_ ∷ cs) = tinies_freed cs

abbrev pub timers_freed : List Call → ℕ
timers_freed [] = 0
timers_freed (kfree_timer ∷ cs) = suc (timers_freed cs)
timers_freed (_ ∷ cs) = timers_freed cs

abbrev pub driver_puts : List Call → ℕ
driver_puts [] = 0
driver_puts (put_tty_driver ∷ cs) = suc (driver_puts cs)
driver_puts (_ ∷ cs) = driver_puts cs

abbrev pub owned : Slot → ℕ
owned none = 0
owned (some t) = 1

-- The port is closed, its timer is off, and its semaphore free; nothing is freed yet.
abbrev Closed : Run Call (Option TinySerial) → Bool → Type 0
Closed (done t (some tiny)) pending =
    (tiny.open_count ≡ 0)
    × ((e : ℕ) × (tiny.timer ≡ some e))
    × (pending_after t pending ≡ false)
    × Brackets false t
    × (tinies_freed t ≡ 0)
    × (timers_freed t ≡ 0)
    × (driver_puts t ≡ 0)
Closed _ pending = ⊥

close_all-Closed :
    (fuel : ℕ) (tiny : TinySerial) (pending : Bool)
    → IsSound (some tiny) pending
    → tiny.open_count < fuel
    → Closed (close_all fuel tiny) pending
unfolding close_all do_close
close_all-Closed zero tiny pending v h = elim h [ ]
close_all-Closed (suc fuel) tiny pending v h = ground (
  arith,
  close_all-Closed fuel (record tiny { open_count = tiny.open_count - 1 }) false,
  close_all-Closed fuel (record tiny { open_count = tiny.open_count - 1 }) true,
)

pending_after-append :
    (s t : List Call) (p : Bool) → pending_after (s ++ t) p ≡ pending_after t (pending_after s p)
pending_after-append [] t p = refl
pending_after-append (add_timer e ∷ s) t p = pending_after-append s t true
pending_after-append (del_timer ∷ s) t p = pending_after-append s t false
pending_after-append (_ ∷ s) t p = pending_after-append s t p

Brackets-append :
    (h : Bool) (s t : List Call) → Brackets h s → Brackets false t → Brackets h (s ++ t)
Brackets-append h [] t b c = rw b c
Brackets-append h (down ∷ s) t b c = (b.0, Brackets-append true s t b.1 c)
Brackets-append h (up ∷ s) t b c = (b.0, Brackets-append false s t b.1 c)
Brackets-append h (_ ∷ s) t b c = Brackets-append h s t b c

tinies_freed-append : (s t : List Call) → tinies_freed (s ++ t) ≡ tinies_freed s + tinies_freed t
tinies_freed-append [] t = omega arith
tinies_freed-append (kfree_tiny ∷ s) t = omega (arith, tinies_freed-append s t)
tinies_freed-append (_ ∷ s) t = tinies_freed-append s t

timers_freed-append : (s t : List Call) → timers_freed (s ++ t) ≡ timers_freed s + timers_freed t
timers_freed-append [] t = omega arith
timers_freed-append (kfree_timer ∷ s) t = omega (arith, timers_freed-append s t)
timers_freed-append (_ ∷ s) t = timers_freed-append s t

driver_puts-append : (s t : List Call) → driver_puts (s ++ t) ≡ driver_puts s + driver_puts t
driver_puts-append [] t = omega arith
driver_puts-append (put_tty_driver ∷ s) t = omega (arith, driver_puts-append s t)
driver_puts-append (_ ∷ s) t = driver_puts-append s t

-- The entry is NULL, the port's timer is off and its semaphore free, and `n` objects and as many
-- timers were freed.
abbrev pub Unloaded : Run Call (Option Slot) → Bool → ℕ → Type 0
Unloaded (done t (some none)) pending n =
    (pending_after t pending ≡ false)
    × Brackets false t
    × (tinies_freed t ≡ n)
    × (timers_freed t ≡ n)
    × (driver_puts t ≡ 0)
Unloaded _ pending n = ⊥

abbrev last_calls : List Call
last_calls = del_timer ∷ kfree_timer ∷ kfree_tiny ∷ []

exit_some :
    (m : Run Call (Option TinySerial)) (pending : Bool)
    → Closed m pending
    → Unloaded (m >>= finish) pending 1
unfolding del_timer_of
exit_some (done t (some tiny)) pending c = ground (
  arith,
  pending_after-append t last_calls pending,
  Brackets-append false t last_calls,
  tinies_freed-append t last_calls,
  timers_freed-append t last_calls,
  driver_puts-append t last_calls,
)
exit_some (done t none) pending c = absurd c
exit_some fault pending c = absurd c

-- With more fuel than users the inner loop of tiny_exit ends, and a port that is sound is closed as
-- often as it has users; then its timer is off, and its object and timer, if it has them, are each
-- freed once.
pub exit_slot-Unloaded :
    (fuel : ℕ) (slot : Slot) (pending : Bool)
    → IsSound slot pending
    → count slot < fuel
    → Unloaded (exit_slot fuel slot) pending (owned slot)
unfolding exit_slot
exit_slot-Unloaded fuel none pending v h = (v, refl, refl, refl, refl)
exit_slot-Unloaded fuel (some tiny) pending v h =
    exit_some (close_all fuel tiny) pending (close_all-Closed fuel tiny pending v h)

-- All ports of a table.
abbrev pub AllReady : ℕ → List Slot → Type 0
AllReady fuel [] = Unit {0}
AllReady fuel (s ∷ ss) = ((p : Bool) × IsSound s p) × (count s < fuel) × AllReady fuel ss

abbrev pub all_owned : List Slot → ℕ
all_owned [] = 0
all_owned (s ∷ ss) = owned s + all_owned ss

abbrev pub all_null : List Slot → List Slot
all_null [] = []
all_null (s ∷ ss) = none ∷ all_null ss

-- The table ends up all NULL, having freed `n` objects and `n` timers.
abbrev pub Emptied : Run Call (Option (List Slot)) → List Slot → ℕ → Type 0
Emptied (done t (some table)) after n =
    (table ≡ after) × (tinies_freed t ≡ n) × (timers_freed t ≡ n) × (driver_puts t ≡ 0)
Emptied _ after n = ⊥

exit_cons :
    (first : Run Call (Option Slot)) (rest : Run Call (Option (List Slot))) (pending : Bool)
    (n m : ℕ) (after : List Slot)
    → Unloaded first pending n
    → Emptied rest after m
    → Emptied (first >>= λ a. rest >>= λ b. join a b) (none ∷ after) (n + m)
exit_cons (done t (some none)) (done t' (some ss)) pending n m after u e = rw append-nil (
  ap (◌∷◌ none) e.0,
  omega (arith, tinies_freed-append t t'),
  omega (arith, timers_freed-append t t'),
  omega (arith, driver_puts-append t t'),
)
exit_cons (done t (some none)) (done t' none) pending n m after u e = absurd e
exit_cons (done t (some none)) fault pending n m after u e = absurd e
exit_cons (done t (some (some s))) rest pending n m after u e = absurd u
exit_cons (done t none) rest pending n m after u e = absurd u
exit_cons fault rest pending n m after u e = absurd u

exit_slots-Emptied :
    (fuel : ℕ) (table : List Slot)
    → AllReady fuel table
    → Emptied (exit_slots fuel table) (all_null table) (all_owned table)
unfolding exit_slots
exit_slots-Emptied fuel [] r = (refl, refl, refl, refl)
exit_slots-Emptied fuel (s ∷ ss) ((p, v), h, r) =
    exit_cons (exit_slot fuel s) (exit_slots fuel ss) p (owned s) (all_owned ss) (all_null ss)
      (exit_slot-Unloaded fuel s p v h) (exit_slots-Emptied fuel ss r)

-- Unloading ends, leaves every entry of the table NULL, and frees each object and each timer once,
-- if every port is sound and the fuel exceeds its users. It never gives back the tty driver that
-- tiny_init allocates.
pub tiny_exit-Emptied :
    (fuel : ℕ) (table : List Slot)
    → AllReady fuel table
    → Emptied (tiny_exit fuel table) (all_null table) (all_owned table)
unfolding tiny_exit for_minors
tiny_exit-Emptied fuel table r = ground (arith, exit_slots-Emptied fuel table r)

-- The tty driver that the calls hold: allocated, and not given back.
abbrev pub driver_held : List Call → ℕ
driver_held [] = 0
driver_held (alloc_tty_driver true ∷ cs) = suc (driver_held cs)
driver_held (_ ∷ cs) = driver_held cs

abbrev pub InitBalance : Run Call InitRet → Type 0
InitBalance (done t no_memory) = (driver_held t ≡ 0) × (driver_puts t ≡ 0)
InitBalance (done t (registered (pos zero))) = (driver_held t ≡ 1) × (driver_puts t ≡ 0)
InitBalance (done t (registered r)) = (driver_held t ≡ 1) × (driver_puts t ≡ 1)
InitBalance fault = ⊥

-- Loading gives the tty driver back exactly when its registration fails.
pub tiny_init-InitBalance : (ok : Bool) (r : ℤ) → InitBalance (tiny_init ok r)
unfolding tiny_init for_minors
tiny_init-InitBalance false r = (refl, refl)
tiny_init-InitBalance true (pos zero) = (refl, refl)
tiny_init-InitBalance true (pos (suc n)) = (refl, refl)
tiny_init-InitBalance true (negsuc n) = (refl, refl)
