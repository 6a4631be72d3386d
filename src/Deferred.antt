-- ===== src/Deferred.antt =====
-- Work that a module leaves to the kernel: the timer of day_06/ex15.c, the work of ex16.c and ex17.c,
-- and the tasklet of ex18.c.
pub mod Unloading
use ldd3_examples.Common.{ℕ, ◌+◌, ◌%◌, ◌^◌, List, [], ◌∷◌, Run, done, ◌>>=◌, ◌>>◌, pure, emit}

pub data Call : Type 0 where
  init_timer del_timer : Call
  add_timer : (expires : ℕ) → Call
  init_work schedule_work : Call
  create_workqueue queue_work flush_workqueue destroy_workqueue : Call
  tasklet_init tasklet_schedule tasklet_kill tasklet_disable tasklet_enable : Call
  msleep : ℕ → Call

-- day_06/ex15.c. Its handler only logs.
unfoldable pub my_timer_function : Run Call (Unit {0})
my_timer_function = pure tt

unfoldable pub timer_init_module : (jiffies hz : ℕ) → Run Call ℕ
timer_init_module jiffies hz = do
  emit init_timer
  emit (add_timer ((jiffies + hz) % 2 ^ 64))
  pure 0

unfoldable pub timer_exit_module : Run Call (Unit {0})
timer_exit_module = emit del_timer

-- day_06/ex16.c and ex17.c have the same handler.
unfoldable pub my_workqueue_handler : Run Call (Unit {0})
my_workqueue_handler = emit (msleep 10000)

-- day_06/ex16.c, on the kernel's work queue.
unfoldable pub shared_queue_init_module : Run Call ℕ
shared_queue_init_module = do emit init_work; emit schedule_work; pure 0

unfoldable pub shared_queue_exit_module : Run Call (Unit {0})
shared_queue_exit_module = pure tt

-- day_06/ex17.c, on a queue of its own; the result of create_workqueue is not looked at.
unfoldable pub own_queue_init_module : Run Call ℕ
own_queue_init_module = do emit create_workqueue; emit init_work; emit queue_work; pure 0

unfoldable pub own_queue_exit_module : Run Call (Unit {0})
own_queue_exit_module = do emit flush_workqueue; emit destroy_workqueue

-- day_06/ex18.c
unfoldable pub my_tasklet_handler : Run Call (Unit {0})
my_tasklet_handler = do emit tasklet_disable; emit tasklet_enable

unfoldable pub tasklet_init_module : Run Call ℕ
tasklet_init_module = do emit tasklet_init; emit tasklet_schedule; pure 0

unfoldable pub tasklet_exit_module : Run Call (Unit {0})
tasklet_exit_module = emit tasklet_kill
