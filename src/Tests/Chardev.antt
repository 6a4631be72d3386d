-- ===== src/Tests/Chardev.antt =====
-- The character drivers of ex3.c to ex14.c at concrete inputs.
use ldd3_examples.Chardev.Content.{
  Op, opens, puts, gets, seeks, took, gave, moved, run, Content, final, results,
}
use ldd3_examples.Chardev.Content.Refinement.{file_of, run-Refines}
use ldd3_examples.Chardev.Fops.{FopsEnv, fops_of}
use ldd3_examples.Chardev.Seqlock.Torn
use ldd3_examples.Chardev.Seqlock.Torn.Mixed.{read-torn}
use ldd3_examples.Common.{
  Steps, ℕ, ◌≤◌, ◌<◌, ◌≡◌, refl, true, false, List, [], ◌∷◌, some, replicate, fault, done, arith,
}
use ldd3_examples.Chardev.Defs.{
  down, copy_from_user, assign_condition, wake_up_interruptible, wait_event_interruptible, Call,
  Waiting, buffer_len, clamp, copy_out, copy_in, up, copy_to_user, alloc_chrdev_region, cdev_alloc,
  cdev_init, cdev_add, kmalloc, sema_init,
}
use ldd3_examples.Chardev.Drivers.{ex14, ex7, ex8, read_of, write_of, init_of, exit_of}
use ldd3_examples.Tests.Instances.{complete, boot, counter, generic_abi}
use ldd3_examples.Common.Int.{pos}
use ldd3_examples.Kernel.Simple.{simple_uaccess}
use ldd3_examples.Chardev.Copy.{read_of-done, write_of-done}
use ldd3_examples.Chardev.Atomic
use ldd3_examples.Chardev.Atomic.Linear.{Reach-atomic}
use ldd3_examples.Chardev.Completion
use ldd3_examples.Chardev.Completion.Order
use ldd3_examples.Chardev.Loading.{Balanced, init-Balanced, load_overrun}
use ldd3_examples.Kernel.Processes.{idle, System, Reach, start, later, begins, takes}
use ldd3_examples.Kernel.Processes.Progress.{Finishes}
use ldd3_examples.Chardev.Exclusion.{discipline, Starts, reads}
use ldd3_examples.Chardev.Exclusion.Safety.{Reach-exclusive, Reach-returns}

abbrev three : List ℕ
three = 1 ∷ 2 ∷ 3 ∷ []

abbrev waiting : Waiting
waiting = record { buffer = some three; condition = 1 }

abbrev sent : List ℕ
sent = 7 ∷ 8 ∷ []

abbrev received : List ℕ
received = 0 ∷ 0 ∷ []

init-Balanced_example : Balanced boot (init_of ex8 boot) (exit_of ex8)
init-Balanced_example = init-Balanced ex8 boot

abbrev loading : List Call
loading =
    alloc_chrdev_region true
    ∷ cdev_alloc true
    ∷ cdev_init
    ∷ cdev_add true
    ∷ kmalloc 208 4000 true
    ∷ sema_init 1
    ∷ []

abbrev loaded : Waiting
loaded = record { buffer = some (replicate 208 0); condition = 0 }

load_overrun_example :
    (read_of simple_uaccess ex7 loaded [] 209 ≡ fault)
    × (write_of simple_uaccess ex7 loaded [] 209 ≡ fault)
unfolding clamp init_of
load_overrun_example =
    load_overrun simple_uaccess ex7 boot loading (some (replicate 208 0)) 0 [] 209 refl
      (omega arith)

-- Two processes: the first stands at its copy.
abbrev reader : ℕ
reader = 0

abbrev at_copy : System Call counter
at_copy = record {
  lock = 0;
  procs = record { held = true; calls = copy_to_user 2 ∷ up ∷ [] } ∷ idle ∷ [];
}

at_copy-Reach : Reach (discipline true) counter (Starts simple_uaccess ex7) 2 at_copy
unfolding clamp
at_copy-Reach =
    let called = read_of-done simple_uaccess ex7 waiting received 2 (omega arith) in
    later (later start (begins reader refl (reads waiting received 2 _ called)))
      (takes reader refl refl refl)

Reach-exclusive_example : reader ≡ reader
Reach-exclusive_example =
    Reach-exclusive simple_uaccess counter ex7 true tt at_copy-Reach reader reader refl refl tt tt

Reach-returns_example : Finishes (discipline true) counter (Starts simple_uaccess ex7) at_copy
Reach-returns_example = Reach-returns simple_uaccess counter ex7 tt at_copy-Reach

-- The first process has put two bytes, of which it could copy one; the second has read them, and has still
-- the lock.
abbrev read_after : Atomic.System
read_after = record {
  taken = true;
  content = 7 ∷ 0 ∷ 3 ∷ [];
  procs =
      record { calls = []; source = 7 ∷ 0 ∷ []; put = 2; shown = [] }
      ∷ record { calls = up ∷ []; source = []; put = 0; shown = 7 ∷ 0 ∷ [] }
      ∷ [];
  log = Atomic.gave (7 ∷ 0 ∷ []) ∷ Atomic.wrote 2 (7 ∷ 0 ∷ []) ∷ [];
}

read_after-Reach : Atomic.Reach simple_uaccess ex7 three 2 read_after
unfolding clamp
read_after-Reach =
    let none_left : 0 < clamp 2 = omega arith in
    let one_left : 1 < clamp 2 = omega arith in
    let write_calls =
      write_of-done simple_uaccess ex7 (Atomic.holding three) three (7 ∷ []) 2 refl (omega arith) in
    let read_calls =
      read_of-done simple_uaccess ex7 (Atomic.holding three) received 2 (omega arith) in
    let started =
      Atomic.later (Atomic.later Atomic.start (Atomic.writes 0 (7 ∷ []) 2 refl refl write_calls))
        (Atomic.reads 1 received 2 refl refl read_calls) in
    let stopped =
      Atomic.later
        (Atomic.later (Atomic.later started (Atomic.takes 0 refl refl refl refl))
          (Atomic.puts 0 refl refl none_left refl))
        (Atomic.stops 0 refl refl) in
    let written =
      Atomic.later (Atomic.later stopped (Atomic.puts 0 refl refl one_left refl))
        (Atomic.has_put 0 refl refl) in
    let reading =
      Atomic.later (Atomic.later written (Atomic.gives 0 refl refl refl))
        (Atomic.takes 1 refl refl refl refl) in
    let shown =
      Atomic.later (Atomic.later reading (Atomic.shows 1 refl refl none_left refl))
        (Atomic.shows 1 refl refl one_left refl) in
    Atomic.later shown (Atomic.has_shown 1 refl refl)

Reach-atomic_example :
    (base : List ℕ) × Atomic.Sequential three read_after.log base
    × (read_after.taken ≡ false → read_after.content ≡ base)
Reach-atomic_example = Reach-atomic simple_uaccess ex7 three tt read_after-Reach

-- A write that has completed, and a read that has copied after it.
abbrev one_each : Order.System simple_uaccess counter
one_each = record { completion = 0; copied = 1; completed = 1; procs = [] ∷ [] ∷ [] }

one_each-Reach : Order.Reach simple_uaccess counter 2 one_each
unfolding clamp Completion.read Completion.write copy_out copy_in
one_each-Reach =
    let written = Order.later Order.start (Order.writes 0 (some three) sent 2 refl refl) in
    let completed =
      Order.later (Order.later written (Order.copies_in 0 refl)) (Order.completes 0 refl) in
    let reading = Order.later completed (Order.reads 1 (some three) received 2 refl refl) in
    Order.later (Order.later reading (Order.passes 1 refl refl)) (Order.copies_out 1 refl)

copied-le_completed_example : one_each.copied ≤ one_each.completed
copied-le_completed_example = Order.copied-le_completed simple_uaccess counter one_each-Reach

abbrev fops_env : FopsEnv
fops_env = record {
  uaccess = simple_uaccess;
  abi = generic_abi;
  pollin = 1;
  pollrdnorm = 64;
  uninit = pos 0;
}

abbrev at_start : Content
at_start = record { content = three; fresh = 0; position = pos 0 }

-- Two bytes are written over three, a seek is made, and then all three are read.
abbrev operations : List Op
operations = opens ∷ puts sent 2 ∷ seeks (pos 0) 0 ∷ gets (0 ∷ 0 ∷ 0 ∷ []) 3 ∷ []

run-Refines_example :
    run generic_abi (fops_of fops_env ex14) operations (file_of at_start)
    ≡ done
        (down
          ∷ copy_from_user 2
          ∷ up
          ∷ assign_condition 1
          ∷ wake_up_interruptible
          ∷ wait_event_interruptible
          ∷ copy_to_user 3
          ∷ assign_condition 0
          ∷ [])
        (
          file_of (record { content = 7 ∷ 8 ∷ 3 ∷ []; fresh = 0; position = pos buffer_len }),
          took 0 ∷ took 2 ∷ moved (pos buffer_len) ∷ gave 3 (7 ∷ 8 ∷ 3 ∷ []) ∷ [],
        )
unfolding clamp final results
run-Refines_example =
    run-Refines fops_env ex14 operations at_start complete
      (tt, ((omega arith, omega arith), (tt, ((omega arith, omega arith), tt))))

-- The first of two bytes is new.
read-torn_example :
    (m : Torn.Machine) × Steps (Torn.Step simple_uaccess) (Torn.quiet 0 (3 ∷ 4 ∷ [])) m
    × (m.reading ≡ [])
    × (m.shown ≡ 1 ∷ 4 ∷ [])
    × (m.writing ≡ copy_from_user 2 ∷ up ∷ [])
unfolding clamp
read-torn_example =
    read-torn simple_uaccess 0 2 1 (3 ∷ 4 ∷ []) (1 ∷ 2 ∷ []) (0 ∷ 0 ∷ []) (omega arith)
      (omega arith) (omega arith)
