-- ===== src/Barrier/Children.antt =====
-- The threads of exersises/concurrency/semaphores/exercise/barrier.c (lines 54 to 87): `child`, and
-- `main` after the arguments. Each child calls `barrier` once, so its first wait is the call; a
-- child that has passed prints and ends. What is printed is known by how many children are where.
use osvcp.Prelude.{ℕ, suc, ◌+◌, ◌<◌, ◌≡◌, Bool, true, false}
use osvcp.Barrier
use osvcp.Barrier.{barrier_init}

pub record State : Type 0 where
  pub b : Barrier.State
  pub to_create : ℕ  -- the children that `main` has still to create
  pub started : ℕ  -- before the first `printf`
  pub calling : ℕ  -- has printed "before"
  pub finished : ℕ  -- has printed "after"
  pub ended : Bool  -- whether `main` has joined them all

abbrev pub start : ℕ → State
start num_threads = record {
  b = barrier_init num_threads;
  to_create = num_threads;
  started = 0;
  calling = 0;
  finished = 0;
  ended = false;
}

-- The steps of `barrier` after its first wait.
abbrev pub Inner : {s t : Barrier.State} → Barrier.Step s t → Type 0
Inner (Barrier.wait_mutex s n e) = ⊥
Inner _ = Unit {0}

pub data Step (num_threads : ℕ) : State → State → Type 0 where
  create :
      (s : State) (n : ℕ)
      → s.to_create ≡ suc n
      → Step num_threads s (record s { to_create = n; started = s.started + 1 })
  print_before :
      (s : State) (n : ℕ)
      → s.started ≡ suc n
      → Step num_threads s (record s { started = n; calling = s.calling + 1 })
  call :
      (s : State) (n m : ℕ)
      → s.calling ≡ suc n
      → s.b.mutex ≡ suc m
      → Step num_threads s
          (record s { calling = n; b = record s.b { mutex = m; arriving = s.b.arriving + 1 } })
  inner :
      (s : State) {t : Barrier.State} (r : Barrier.Step s.b t)
      → Inner r
      → Step num_threads s (record s { b = t })
  print_after :
      (s : State)
      → s.finished < s.b.passed
      → Step num_threads s (record s { finished = s.finished + 1 })
  join_all :
      (s : State)
      → s.to_create ≡ 0
      → s.finished ≡ num_threads
      → s.ended ≡ false
      → Step num_threads s (record s { ended = true })

pub data Reachable (num_threads : ℕ) : State → Type 0 where
  begin : Reachable num_threads (start num_threads)
  step : {s t : State} → Reachable num_threads s → Step num_threads s t → Reachable num_threads t
