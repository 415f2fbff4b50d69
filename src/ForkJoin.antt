-- ===== src/ForkJoin.antt =====
-- exersises/concurrency/semaphores/how-to-implement-semaphores/zemaphore.c (lines 10 to 27), and
-- exersises/concurrency/semaphores/exercise/fork-join.c, which is the same with `sem_t`: a parent
-- that starts a child and waits for its one post. The semaphore is a parameter. A step is a
-- statement of one of the two threads, or a step inside of a call of the semaphore; `sleep` only
-- delays the next one, and what is printed is known by how far a thread is. That a thread wakes up
-- inside of a call without a reason can happen at any time, and is not counted as a step.
use osvcp.Prelude.{ℕ, ◌≡◌, ◌≤◌}
use osvcp.Semaphore.{Operations}
pub mod Join

-- The next statement of the child.
pub data Child : Type 0 where
  absent : Child  -- not yet created
  printing : Child
  posting : Child
  leaving : Child  -- inside of the post, or after it

-- The next statement of `main`, after the initialisation.
pub data Parent : Type 0 where
  creating : Parent
  calling : Parent  -- before the wait
  waiting : Parent  -- inside of the wait, or after it
  ended : Parent  -- has printed "parent: end"

module _ (o : Operations) where
  pub record State : Type 0 where
    pub s : o.State
    pub child : Child
    pub parent : Parent

  abbrev pub start : State
  start = record { s = o.sem_init 0; child = absent; parent = creating }

  pub data Step : State → State → Type 0 where
    create :
        (c : State) → c.parent ≡ creating → Step c (record c { parent = calling; child = printing })
    wait :
        (c : State)
        → c.parent ≡ calling
        → Step c (record c { parent = waiting; s = o.call_wait c.s })
    end :
        (c : State) → c.parent ≡ waiting → 1 ≤ o.returned c.s → Step c (record c { parent = ended })
    print : (c : State) → c.child ≡ printing → Step c (record c { child = posting })
    post :
        (c : State) → c.child ≡ posting → Step c (record c { child = leaving; s = o.call_post c.s })
    inside : (c : State) (t : o.State) → o.Step c.s t → Step c (record c { s = t })

  pub data Reachable : State → Type 0 where
    begin : Reachable start
    step : {c d : State} → Reachable c → Step c d → Reachable d
    disturb :
        {c : State} (t : o.State) → Reachable c → o.Wake c.s t → Reachable (record c { s = t })
