-- ===== src/Deferred/Unloading/Early.antt =====
-- The modules of day_06 whose exit does not wait: that of ex15.c, with del_timer where
-- del_timer_sync would wait, and that of ex16.c, which leaves its work queued.
use ldd3_examples.Common.{ℕ, Bool, true, false, ◌≡◌, refl, [], some}
use ldd3_examples.Deferred.{
  init_timer, del_timer, init_work, schedule_work, my_timer_function, timer_init_module,
  timer_exit_module, my_workqueue_handler, shared_queue_init_module, shared_queue_exit_module,
}
use ldd3_examples.Deferred.Unloading.{
  Example, ex15, ex16, ex17, ex18, module_of, gone, System, fires, loads, lives, leaves, exits,
  frees, Reach, starts, next,
}
use ldd3_examples.Deferred.Unloading.Quiet.{exit_waits}

-- The modules of ex15.c and of ex16.c can be freed while their handler runs: there are steps to a
-- state in which the module is gone and the handler stands at its start.
pub freed_early :
    (smp : Bool) (j hz : ℕ) (e : Example)
    → exit_waits e ≡ false
    → (s : System) × Reach smp (module_of j hz e) s
      × (s.stage ≡ gone)
      × (s.handler ≡ some (module_of j hz e).handler)
unfolding timer_init_module timer_exit_module my_timer_function shared_queue_init_module
    shared_queue_exit_module my_workqueue_handler
freed_early smp j hz ex15 w = (
  record { queued = false; handler = some []; stage = gone },
  next
      (next
        (next
          (next
            (next
              (next (next starts (loads init_timer _ false refl refl)) (loads _ [] true refl refl))
              (lives refl))
            (leaves refl))
          (fires refl refl))
        (exits del_timer [] false refl refl))
      (frees refl),
  refl,
  refl,
)
freed_early smp j hz ex16 w = (
  record { queued = false; handler = some (module_of j hz ex16).handler; stage = gone },
  next
      (next
        (next
          (next
            (next (next starts (loads init_work _ false refl refl))
              (loads schedule_work [] true refl refl))
            (lives refl))
          (leaves refl))
        (fires refl refl))
      (frees refl),
  refl,
  refl,
)
freed_early smp j hz ex17 w = absurd cc
freed_early smp j hz ex18 w = absurd cc
