-- ===== src/Tests/NsMutex.antt =====
-- A run of the mutex with a queue: the second of three threads is the last in the queue when it gets
-- the mutex, and the third is never woken.
use osvcp.Prelude.{◌≤◌, ◌≡◌, refl, true, false, none, some, List, [], ◌∷◌, sum}
use osvcp.NsMutex.{
  Place, waiting, holding, gone, Node, Mutex, ns_mutex_init, create, wait_guard, find_free, take,
  post_taken, find_locked, link_tail, link_head, set_tail, post_queued, wake, release, find_empty,
  unlock, find_next, pop, post_next, post_released, Steps, stay, more,
}
use osvcp.NsMutex.Exclusion
use osvcp.NsMutex.Exclusion.{by, holds}
use osvcp.NsMutex.LostWakeup
use osvcp.NsMutex.LostWakeup.{IsStuck, Waits}

abbrev nodes : Place → Place → Place → List Node
nodes p q r =
    record { sem = 0; next = none; place = p }
    ∷ record { sem = 0; next = some 2; place = q }
    ∷ record { sem = 0; next = none; place = r }
    ∷ []

-- The third thread waits while the second has the mutex.
abbrev stuck : Mutex
stuck = record {
  locked = true;
  head = none;
  tail = some 2;
  guard = 1;
  nodes = nodes gone holding waiting;
}

-- The first thread has the mutex, and the second has been queued.
abbrev second : Mutex
second = record {
  locked = true;
  head = some 1;
  tail = some 1;
  guard = 1;
  nodes =
      record { sem = 0; next = none; place = holding }
      ∷ record { sem = 0; next = none; place = waiting }
      ∷ [];
}

second_run : Steps ns_mutex_init second
second_run =
    more
      (more
        (more
          (more
            (more
              (more
                (more
                  (more
                    (more
                      (more (more (stay ns_mutex_init) (create _))
                        (wait_guard _ 0 0 (_, refl, refl) refl))
                      (find_free _ 0 (_, refl, refl) refl))
                    (take _ 0 (_, refl, refl)))
                  (post_taken _ 0 (_, refl, refl)))
                (create _))
              (wait_guard _ 1 0 (_, refl, refl) refl))
            (find_locked _ 1 (_, refl, refl) refl))
          (link_head _ 1 (_, refl, refl) refl))
        (set_tail _ 1 (_, refl, refl)))
      (post_queued _ 1 (_, refl, refl))

-- The first has released it to the second.
abbrev woke : Mutex
woke = record second {
  head = none;
  nodes =
      record { sem = 0; next = none; place = gone }
      ∷ record { sem = 0; next = none; place = holding }
      ∷ [];
}

woke_run : Steps ns_mutex_init woke
woke_run =
    more
      (more
        (more
          (more
            (more (more second_run (release _ 0 0 (_, refl, refl) refl))
              (find_next _ 0 1 (_, refl, refl) refl))
            (pop _ 0 1 _ (_, refl, refl) refl))
          (post_next _ 0 1 _ (_, refl, refl) refl))
        (post_released _ 0 (_, refl, refl)))
      (wake _ 1 0 _ refl refl refl)

stuck_run : Steps ns_mutex_init stuck
stuck_run =
    more
      (more
        (more
          (more (more (more woke_run (create _)) (wait_guard _ 2 0 (_, refl, refl) refl))
            (find_locked _ 2 (_, refl, refl) refl))
          (link_tail _ 2 1 (_, refl, refl) refl))
        (set_tail _ 2 (_, refl, refl)))
      (post_queued _ 2 (_, refl, refl))

stuck-IsStuck : IsStuck 2 stuck
stuck-IsStuck = record {
  head = refl;
  tail = (2, refl);
  nobody = refl;
  waits = (_, refl, refl, refl);
}

-- The second thread has released the mutex, and all are gone but the third.
abbrev lost : Mutex
lost = record stuck { locked = false; nodes = nodes gone gone waiting }

lost_run : Steps stuck lost
lost_run =
    more
      (more
        (more (more (stay stuck) (release _ 1 0 (_, refl, refl) refl))
          (find_empty _ 1 (_, refl, refl) refl))
        (unlock _ 1 (_, refl, refl)))
      (post_released _ 1 (_, refl, refl))

Steps-lost_example : Waits 2 lost.nodes × (lost.head ≡ none)
Steps-lost_example = LostWakeup.Steps-lost 2 stuck lost lost_run stuck-IsStuck

Steps-exclusive_example :
    (sum (by holds) stuck.nodes ≤ 1) × (stuck.locked ≡ false → sum (by holds) stuck.nodes ≡ 0)
Steps-exclusive_example = Exclusion.Steps-exclusive stuck stuck_run
