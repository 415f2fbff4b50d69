-- ===== src/Tests/Zemaphore.antt =====
-- A run of the semaphore of a mutex and a condition variable: a thread sleeps and is woken.
use osvcp.Prelude.{refl, true}
use osvcp.Zemaphore.{
  State, zem_init, lock_wait, sleep, lock_post, add, signal, inner, call_wait, call_post, Reachable,
  init, step,
}

abbrev woken_one : State
woken_one = record (zem_init 0) { value = 1; lock = true; woken = 1; finishing = 1 }

woken_one_run : Reachable 0 woken_one
woken_one_run =
    step
      (step
        (step
          (step
            (step (step (step (init 0) (call_wait _)) (inner (lock_wait _ 0 refl refl)))
              (inner (sleep _ 0 refl refl)))
            (call_post _))
          (inner (lock_post _ 0 refl refl)))
        (inner (add _ 0 refl)))
      (inner (signal _ 0 0 refl refl))
