-- ===== src/Tests/Rendezvous.antt =====
-- A run of the rendezvous up to the end of the first child.
use osvcp.Prelude.{◌+◌, ◌≤◌, ◌≡◌, refl, ◌⊎◌}
use osvcp.Rendezvous.{
  wait, returned, join_1, ended, State, start_1, start_2, before_1, post_1, wait_1, after_1,
  before_2, post_2, Reachable, init, step,
}
use osvcp.Rendezvous.Meeting.{said_before, said_after}
use osvcp.Rendezvous.Progress
use osvcp.Rendezvous.Progress.{CanStep}

abbrev one_returned : State
one_returned = record { s1 = 1; s2 = 0; child_1 = returned; child_2 = wait; parent = join_1 }

one_returned_run : Reachable one_returned
one_returned_run =
    step
      (step
        (step
          (step
            (step (step (step (step init (start_1 _ refl)) (start_2 _ refl)) (before_2 _ refl))
              (post_2 _ refl))
            (before_1 _ refl))
          (post_1 _ refl))
        (wait_1 _ 0 refl refl))
      (after_1 _ refl)

Reachable-rendezvous_example :
    (1 ≤ said_after one_returned.child_1 + said_after one_returned.child_2
      → (said_before one_returned.child_1 ≡ 1) × (said_before one_returned.child_2 ≡ 1))
    × (one_returned.parent ≡ ended
        → (said_after one_returned.child_1 ≡ 1) × (said_after one_returned.child_2 ≡ 1))
    × ((one_returned.parent ≡ ended) ⊎ CanStep one_returned)
Reachable-rendezvous_example = Progress.Reachable-rendezvous one_returned one_returned_run
