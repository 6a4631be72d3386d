-- ===== src/Deferred/Unloading.antt =====
-- A module of day_06 and its handler, which the kernel runs on its own, from the loading of the
-- module to its unloading and after it.
pub mod Quiet
pub mod Early
pub mod Stuck
pub mod Progress
use ldd3_examples.Common.{
  ℕ, Bool, true, false, ◌≡◌, ◌⊎◌, List, [], ◌∷◌, Option, none, some, Run, done, fault,
}
use ldd3_examples.Deferred.{
  Call, init_timer, del_timer, add_timer, init_work, schedule_work, create_workqueue, queue_work,
  flush_workqueue, destroy_workqueue, tasklet_init, tasklet_schedule, tasklet_kill, tasklet_disable,
  tasklet_enable, msleep, my_timer_function, timer_init_module, timer_exit_module,
  my_workqueue_handler, shared_queue_init_module, shared_queue_exit_module, own_queue_init_module,
  own_queue_exit_module, my_tasklet_handler, tasklet_init_module, tasklet_exit_module,
}

-- What the kernel documents of a call: it queues the handler; it takes the handler off the queue and
-- does not wait; it waits until the handler is neither queued nor running; it waits until the handler
-- is not running (on a kernel for several processors).
pub data Kind : Type 0 where
  queues cancels drains awaits other : Kind

abbrev pub kind : Call → Kind
kind (add_timer _) = queues
kind schedule_work = queues
kind queue_work = queues
kind tasklet_schedule = queues
kind del_timer = cancels
kind flush_workqueue = drains
kind destroy_workqueue = drains
kind tasklet_kill = drains
kind tasklet_disable = awaits
kind _ = other

abbrev pub calls : {A : Type 0} → Run Call A → List Call
calls (done t a) = t
calls fault = []

pub record Module : Type 0 where
  pub init : List Call
  pub handler : List Call
  pub exit : List Call

pub data Example : Type 0 where
  ex15 ex16 ex17 ex18 : Example

abbrev pub module_of : (jiffies hz : ℕ) → Example → Module
module_of j hz ex15 = record {
  init = calls (timer_init_module j hz);
  handler = calls my_timer_function;
  exit = calls timer_exit_module;
}
module_of j hz ex16 = record {
  init = calls shared_queue_init_module;
  handler = calls my_workqueue_handler;
  exit = calls shared_queue_exit_module;
}
module_of j hz ex17 = record {
  init = calls own_queue_init_module;
  handler = calls my_workqueue_handler;
  exit = calls own_queue_exit_module;
}
module_of j hz ex18 = record {
  init = calls tasklet_init_module;
  handler = calls my_tasklet_handler;
  exit = calls tasklet_exit_module;
}

-- Where the module itself stands: the calls left of its init or of its exit, or that it was freed.
pub data Stage : Type 0 where
  loading : List Call → Stage
  live : Stage
  leaving : List Call → Stage
  gone : Stage

-- Whether the handler waits to be run, and the calls left of a running one.
pub record System : Type 0 where
  pub queued : Bool
  pub handler : Option (List Call)
  pub stage : Stage

abbrev pub start : Module → System
start m = record { queued = false; handler = none; stage = loading m.init }

-- When a call returns, and what it makes of `queued`. `smp` tells a kernel for several processors,
-- on which alone tasklet_disable waits.
abbrev pub Effect : (smp : Bool) → Kind → System → (after : Bool) → Type 0
Effect smp queues s after = after ≡ true
Effect smp cancels s after = after ≡ false
Effect smp drains s after = (s.queued ≡ false) × (s.handler ≡ none) × (after ≡ false)
Effect smp awaits s after = ((smp ≡ false) ⊎ (s.handler ≡ none)) × (after ≡ s.queued)
Effect smp other s after = after ≡ s.queued

pub data Step (smp : Bool) (m : Module) : System → System → Type 0 where
  fires :
      {s : System}
      → s.queued ≡ true
      → s.handler ≡ none
      → Step smp m s (record s { queued = false; handler = some m.handler })
  handles :
      {s : System} (c : Call) (cs : List Call) (after : Bool)
      → s.handler ≡ some (c ∷ cs)
      → Effect smp (kind c) s after
      → Step smp m s (record s { queued = after; handler = some cs })
  finishes : {s : System} → s.handler ≡ some [] → Step smp m s (record s { handler = none })
  loads :
      {s : System} (c : Call) (cs : List Call) (after : Bool)
      → s.stage ≡ loading (c ∷ cs)
      → Effect smp (kind c) s after
      → Step smp m s (record s { queued = after; stage = loading cs })
  lives : {s : System} → s.stage ≡ loading [] → Step smp m s (record s { stage = live })
  leaves : {s : System} → s.stage ≡ live → Step smp m s (record s { stage = leaving m.exit })
  exits :
      {s : System} (c : Call) (cs : List Call) (after : Bool)
      → s.stage ≡ leaving (c ∷ cs)
      → Effect smp (kind c) s after
      → Step smp m s (record s { queued = after; stage = leaving cs })
  frees : {s : System} → s.stage ≡ leaving [] → Step smp m s (record s { stage = gone })

pub data Reach (smp : Bool) (m : Module) : System → Type 0 where
  starts : Reach smp m (start m)
  next : {s s' : System} → Reach smp m s → Step smp m s s' → Reach smp m s'
