-- ===== src/Tty/Port/Race.antt =====
-- del_timer does not wait for a timer function that runs: the port with the timer's function as a
-- second thread.
use ldd3_examples.Common.{
  Steps, here, also, ℕ, Bool, true, false, ◌≡◌, refl, List, [], ◌∷◌, some, done, arith,
}
use ldd3_examples.Kernel.Errno.{Ret}
use ldd3_examples.Tty.Defs.{
  TinySerial, Slot, Call, down, up, del_timer, add_timer, tty_buffer_request_room,
  tty_insert_flip_string, tty_flip_buffer_push,
}
use ldd3_examples.Tty.Port.{OpenEnv, tiny_open, tiny_close, tiny_timer}
use ldd3_examples.Tty.Port.Invariant.{count, pending_after}

pub record Machine : Type 0 where
  pub slot : Slot
  pub pending : Bool
  -- the timer has expired, and its function has not set it again
  pub running : Bool

pub data Step : Machine → Machine → Type 0 where
  opens :
      {m : Machine} (k : OpenEnv) {t : List Call} {slot : Slot} {r : Ret}
      → tiny_open k m.slot ≡ done t (slot, r)
      → Step m (record m { slot = slot; pending = pending_after t m.pending })
  closes :
      {m : Machine} {t : List Call} {slot : Slot}
      → tiny_close true m.slot ≡ done t slot
      → Step m (record m { slot = slot; pending = pending_after t m.pending })
  expires : {m : Machine} → m.pending ≡ true → Step m (record m { pending = false; running = true })
  fires :
      {m : Machine} (jiffies hz : ℕ) {t : List Call} {slot : Slot}
      → m.running ≡ true
      → tiny_timer jiffies hz m.slot ≡ done t slot
      → Step m (record { slot = slot; pending = pending_after t m.pending; running = false })

-- From any open port with one user whose timer is set there are steps after which nobody uses the
-- port and its timer is set: the timer expires, the port is closed, and the function sets it again.
pub closed_and_pending :
    (tiny : TinySerial) (e : ℕ)
    → tiny.open_count ≡ 1
    → tiny.timer ≡ some e
    → (after : Machine) × Steps Step
        (record { slot = some tiny; pending = true; running = false })
        after
      × (count after.slot ≡ 0)
      × (after.pending ≡ true)
unfolding tiny_close tiny_timer
closed_and_pending tiny e one t = (
  record {
    slot = some (record tiny { open_count = 0; timer = some 0 });
    pending = true;
    running = false;
  },
  also (expires refl) (
      also
        (closes {t = down ∷ del_timer ∷ up ∷ []} {slot = some (record tiny { open_count = 0 })}
          (ground arith))
        (also
          (fires 0 0
            {t = tty_buffer_request_room 1
              ∷ tty_insert_flip_string (b't' ∷ [])
              ∷ tty_flip_buffer_push
              ∷ add_timer 0
              ∷ []}
            refl (ground arith))
          here)),
  refl,
  refl,
)
