-- ===== src/Tests/ForkJoin.antt =====
-- A run of zemaphore.c, over its semaphore: the child posts before the parent waits.
use osvcp.Prelude.{◌≡◌, ◌≢◌, refl, ◌⊎◌, arith, true}
use osvcp.Zemaphore
use osvcp.Zemaphore.Instance.{zem, zem-IsSemaphore}
use osvcp.ForkJoin.{
  Child, absent, printing, posting, leaving, Parent, creating, calling, waiting, ended, State, Step,
  create, wait, end, print, post, inside, Reachable, begin, step,
}
use osvcp.ForkJoin.Join

-- The parent has ended while the child is in the post.
abbrev last : State zem
last = record {
  s = record (Zemaphore.zem_init 0) { waited = 1; posted = 1 };
  child = leaving;
  parent = ended;
}

abbrev empty : Zemaphore.State
empty = Zemaphore.zem_init 0

abbrev at : Child → Parent → Zemaphore.State → State zem
at k p z = record { s = z; child = k; parent = p }

posting_run : Reachable zem (at posting calling empty)
posting_run =
    step (step begin (create (at absent creating empty) refl))
      (print (at printing calling empty) refl)

-- The post, by itself.
abbrev post_0 : Zemaphore.State
post_0 = record empty { calling_post = 1 }

abbrev post_1 : Zemaphore.State
post_1 = record empty { lock = true; adding = 1 }

abbrev post_2 : Zemaphore.State
post_2 = record empty { value = 1; lock = true; signalling = 1 }

abbrev post_3 : Zemaphore.State
post_3 = record empty { value = 1; lock = true; finishing = 1 }

abbrev full : Zemaphore.State
full = record empty { value = 1; posted = 1 }

-- A step of the semaphore.
goes :
    (k : Child) (p : Parent) (z y : Zemaphore.State)
    → Reachable zem (at k p z)
    → Zemaphore.Inner z y
    → Reachable zem (at k p y)
goes k p z y r t = step r (inside (at k p z) y t)

posted_run : Reachable zem (at leaving calling full)
posted_run =
    goes leaving calling post_3 full
      (goes leaving calling post_2 post_3
        (goes leaving calling post_1 post_2
          (goes leaving calling post_0 post_1
            (step posting_run (post (at posting calling empty) refl))
            (Zemaphore.lock_post post_0 0 refl refl))
          (Zemaphore.add post_1 0 refl))
        (Zemaphore.signal_nobody post_2 0 refl refl))
      (Zemaphore.unlock_post post_3 0 refl)

-- The wait after it.
abbrev wait_0 : Zemaphore.State
wait_0 = record full { calling_wait = 1 }

abbrev wait_1 : Zemaphore.State
wait_1 = record full { lock = true; testing = 1 }

abbrev wait_2 : Zemaphore.State
wait_2 = record full { lock = true; taking = 1 }

abbrev wait_3 : Zemaphore.State
wait_3 = record full { value = 0; lock = true; leaving = 1 }

last_run : Reachable zem last
last_run =
    step
      (goes leaving waiting wait_3 last.s
        (goes leaving waiting wait_2 wait_3
          (goes leaving waiting wait_1 wait_2
            (goes leaving waiting wait_0 wait_1
              (step posted_run (wait (at leaving calling full) refl))
              (Zemaphore.lock_wait wait_0 0 refl refl))
            (Zemaphore.find_value wait_1 0 0 refl refl))
          (Zemaphore.take wait_2 0 0 refl refl))
        (Zemaphore.unlock_wait wait_3 0 refl))
      (end (at leaving waiting last.s) refl (omega arith))

Reachable-ended_example :
    ((last.parent ≢ ended) ⊎ (last.child ≡ leaving))
    × ((last.parent ≡ ended) ⊎ ((d : State zem) × Step zem last d))
Reachable-ended_example = Join.Reachable-ended zem zem-IsSemaphore last last_run
