-- ===== src/Tests/Deferred.antt =====
-- The modules of day_06 at concrete runs.
use ldd3_examples.Common.{Steps, ◌≡◌, ◌≢◌, refl, true, false, [], none, some, ◌⊎◌}
use ldd3_examples.Deferred.{
  create_workqueue, init_work, queue_work, flush_workqueue, destroy_workqueue, msleep, tasklet_init,
  tasklet_schedule, own_queue_init_module, own_queue_exit_module, my_workqueue_handler,
  tasklet_init_module, my_tasklet_handler, shared_queue_init_module, schedule_work,
}
use ldd3_examples.Deferred.Unloading.{
  Step, ex15, ex16, ex17, ex18, module_of, System, gone, fires, handles, finishes, loads, lives,
  live, leaves, exits, frees, Reach, starts, next,
}
use ldd3_examples.Deferred.Unloading.Quiet.{IsQuiet, freed-IsQuiet}
use ldd3_examples.Deferred.Unloading.Progress.{Reach-unloads}
use ldd3_examples.Deferred.Unloading.Early.{freed_early}
use ldd3_examples.Deferred.Unloading.Stuck.{at_disable, tasklet-stuck}

-- The module of ex17.c from its loading to its end.
abbrev freed : System
freed = record { queued = false; handler = none; stage = gone }

own_queue-Reach : Reach true (module_of 0 100 ex17) freed
unfolding own_queue_init_module own_queue_exit_module my_workqueue_handler
own_queue-Reach =
    next
      (next
        (next
          (next
            (next
              (next
                (next
                  (next
                    (next
                      (next (next starts (loads create_workqueue _ false refl refl))
                        (loads init_work _ false refl refl))
                      (loads queue_work [] true refl refl))
                    (lives refl))
                  (leaves refl))
                (fires refl refl))
              (handles (msleep 10000) [] false refl refl))
            (finishes refl))
          (exits flush_workqueue _ false refl (refl, refl, refl)))
        (exits destroy_workqueue [] false refl (refl, refl, refl)))
      (frees refl)

freed-IsQuiet_example : IsQuiet freed
freed-IsQuiet_example = freed-IsQuiet true 0 100 ex17 freed refl own_queue-Reach refl

freed_early_example :
    (s : System) × Reach true (module_of 0 100 ex15) s
    × (s.stage ≡ gone)
    × (s.handler ≡ some (module_of 0 100 ex15).handler)
freed_early_example = freed_early true 0 100 ex15 refl

-- The tasklet of ex18.c with its handler begun.
abbrev begun : System
begun = record { queued = false; handler = at_disable; stage = live }

tasklet-Reach : Reach true (module_of 0 100 ex18) begun
unfolding tasklet_init_module my_tasklet_handler
tasklet-Reach =
    next
      (next
        (next (next starts (loads tasklet_init _ false refl refl))
          (loads tasklet_schedule [] true refl refl))
        (lives refl))
      (fires refl refl)

tasklet-stuck_example :
    ((begun.handler ≡ none) ⊎ (begun.handler ≡ at_disable)) × (begun.stage ≢ gone)
tasklet-stuck_example = tasklet-stuck 0 100 begun tasklet-Reach

-- The module of ex16.c with its work queued.
abbrev waiting_work : System
waiting_work = record { queued = true; handler = none; stage = live }

waiting_work-Reach : Reach true (module_of 0 100 ex16) waiting_work
unfolding shared_queue_init_module
waiting_work-Reach =
    next
      (next (next starts (loads init_work _ false refl refl))
        (loads schedule_work [] true refl refl))
      (lives refl)

Reach-unloads_example :
    Steps
      (Step true (module_of 0 100 ex16))
      waiting_work
      (record { queued = false; handler = none; stage = gone })
Reach-unloads_example = Reach-unloads true 0 100 ex16 waiting_work (λ e. cc) waiting_work-Reach
