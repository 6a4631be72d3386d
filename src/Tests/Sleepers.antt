-- ===== src/Tests/Sleepers.antt =====
-- The drivers with a wait queue at concrete inputs, with other processes in between.
use ldd3_examples.Common.{
  Steps, ℕ, ◌≡◌, refl, true, false, List, [], ◌∷◌, some, get_elem?, Bool, done, arith,
}
use ldd3_examples.Kernel.Simple.{simple_uaccess}
use ldd3_examples.Chardev.Defs.{
  Call, Waiting, clamp, copy_to_user, assign_condition, poll_wait, wait_event_interruptible,
  wake_up_interruptible,
}
use ldd3_examples.Chardev.Drivers.{ex12}
use ldd3_examples.Chardev.Copy.{read_of-done, write_of-done}
use ldd3_examples.Chardev.Poll.{poll}
use ldd3_examples.Chardev.Poll.Missed.{Machine, Step, ready, globals, write-missed}
use ldd3_examples.Chardev.Sleepers.{
  System, Reach, start, later, start_read, start_write, sleeps, call, stores,
}
use ldd3_examples.Chardev.Sleepers.Woken.{Reach-woken}

abbrev three : List ℕ
three = 1 ∷ 2 ∷ 3 ∷ []

abbrev unset : Waiting
unset = record { buffer = some three; condition = 0 }

abbrev text : List ℕ
text = 7 ∷ 8 ∷ []

-- Process 0 sleeps in a read, and process 1 has stored to `condition`.
abbrev stored : System
stored = record {
  condition = 1;
  procs =
      record {
        asleep = true;
        calls = wait_event_interruptible ∷ copy_to_user 2 ∷ assign_condition 0 ∷ [];
      }
      ∷ record { asleep = false; calls = wake_up_interruptible ∷ [] }
      ∷ [];
}

stored-Reach : Reach simple_uaccess ex12 2 stored
unfolding clamp
stored-Reach =
    let reads = read_of-done simple_uaccess ex12 unset text 2 (omega arith) in
    let writes = write_of-done simple_uaccess ex12 unset three text 2 refl (omega arith) in
    later
      (later
        (later
          (later
            (later
              (later (later start (start_read 0 unset text 2 refl reads))
                (sleeps 0 refl (λ e. absurd (omega arith))))
              (start_write 1 unset text 2 refl writes))
            (call 1 refl tt))
          (call 1 refl tt))
        (call 1 refl tt))
      (stores 1 1 refl)

Reach-woken_example :
    (j : ℕ) × (cs' : List Call) × (a : Bool) × (get_elem? stored.procs j
      ≡ some (record { asleep = a; calls = wake_up_interruptible ∷ cs' }))
Reach-woken_example = Reach-woken simple_uaccess ex12 tt stored-Reach refl 0 refl

write-missed_example :
    (m : Machine) × Steps (Step simple_uaccess) (ready three) m
    × (m.reading ≡ [])
    × (m.writing ≡ [])
    × (m.shown ≡ 1 ∷ 2 ∷ [])
    × (m.content ≡ 7 ∷ 8 ∷ 3 ∷ [])
    × (poll 1 64 (globals m) ≡ done (poll_wait ∷ []) 0)
unfolding clamp
write-missed_example =
    write-missed simple_uaccess three text text 2 2 1 64 (omega arith) (omega arith) (omega arith)
