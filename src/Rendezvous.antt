-- ===== src/Rendezvous.antt =====
-- exersises/concurrency/semaphores/exercise/rendezvous.c (lines 9 to 43): two children that print,
-- post one semaphore and wait for the other, and the parent that starts them and waits for their
-- end. A step is a statement of one of the three threads; `sleep` only delays the next one.
use osvcp.Prelude.{ℕ, suc, ◌+◌, ◌≡◌}
pub mod Meeting
pub mod Progress

-- The next statement of a child.
pub data Place : Type 0 where
  absent : Place  -- not yet created
  before : Place  -- the first `printf`
  post : Place
  wait : Place
  after : Place  -- the second `printf`
  returned : Place

-- The next statement of `main`, from the creation of the children on.
pub data Parent : Type 0 where
  create_1 create_2 join_1 join_2 : Parent
  ending : Parent  -- the last `printf`
  ended : Parent

pub record State : Type 0 where
  pub s1 : ℕ
  pub s2 : ℕ
  pub child_1 : Place
  pub child_2 : Place
  pub parent : Parent

-- After the initialisation of the semaphores.
abbrev pub begun : State
begun = record { s1 = 0; s2 = 0; child_1 = absent; child_2 = absent; parent = create_1 }

pub data Step : State → State → Type 0 where
  -- `main`
  start_1 :
      (s : State) → s.parent ≡ create_1 → Step s (record s { parent = create_2; child_1 = before })
  start_2 :
      (s : State) → s.parent ≡ create_2 → Step s (record s { parent = join_1; child_2 = before })
  joined_1 :
      (s : State) → s.parent ≡ join_1 → s.child_1 ≡ returned → Step s (record s { parent = join_2 })
  joined_2 :
      (s : State) → s.parent ≡ join_2 → s.child_2 ≡ returned → Step s (record s { parent = ending })
  end : (s : State) → s.parent ≡ ending → Step s (record s { parent = ended })
  -- `child_1`
  before_1 : (s : State) → s.child_1 ≡ before → Step s (record s { child_1 = post })
  post_1 : (s : State) → s.child_1 ≡ post → Step s (record s { child_1 = wait; s1 = s.s1 + 1 })
  wait_1 :
      (s : State) (n : ℕ)
      → s.child_1 ≡ wait
      → s.s2 ≡ suc n
      → Step s (record s { child_1 = after; s2 = n })
  after_1 : (s : State) → s.child_1 ≡ after → Step s (record s { child_1 = returned })
  -- `child_2`
  before_2 : (s : State) → s.child_2 ≡ before → Step s (record s { child_2 = post })
  post_2 : (s : State) → s.child_2 ≡ post → Step s (record s { child_2 = wait; s2 = s.s2 + 1 })
  wait_2 :
      (s : State) (n : ℕ)
      → s.child_2 ≡ wait
      → s.s1 ≡ suc n
      → Step s (record s { child_2 = after; s1 = n })
  after_2 : (s : State) → s.child_2 ≡ after → Step s (record s { child_2 = returned })

pub data Reachable : State → Type 0 where
  init : Reachable begun
  step : {s t : State} → Reachable s → Step s t → Reachable t
