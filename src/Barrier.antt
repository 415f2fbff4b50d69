-- ===== src/Barrier.antt =====
-- exersises/concurrency/semaphores/exercise/barrier.c (lines 15 to 45): a barrier made of two
-- semaphores. The threads are anonymous, any number of them: the state has how many of them are at
-- each place of `barrier`, and a step is a step of one of them. The posts of the loop that are still
-- to come are counted together.
use osvcp.Prelude.{ℕ, zero, suc, ◌+◌, ◌≡◌, ◌≢◌}
pub mod Meeting
pub mod Children
pub mod Passage

pub record State : Type 0 where
  -- `barrier_t`
  pub total : ℕ
  pub arrived : ℕ
  pub mutex : ℕ
  pub barrier : ℕ
  -- the places
  pub arriving : ℕ  -- before `b->arrived++`
  pub counted : ℕ  -- before the test
  pub last : ℕ  -- `last` is 1, before the post of `mutex`
  pub other : ℕ  -- `last` is 0, before the post of `mutex`
  pub posting : ℕ  -- in the loop
  pub posts : ℕ  -- the posts still to come
  pub waiting : ℕ  -- before the wait for `barrier`
  pub passed : ℕ

-- `barrier_init`, with no thread inside.
abbrev pub barrier_init : ℕ → State
barrier_init num_threads = record {
  total = num_threads;
  arrived = 0;
  mutex = 1;
  barrier = 0;
  arriving = 0;
  counted = 0;
  last = 0;
  other = 0;
  posting = 0;
  posts = 0;
  waiting = 0;
  passed = 0;
}

pub data Step : State → State → Type 0 where
  wait_mutex :
      (s : State) (n : ℕ)
      → s.mutex ≡ suc n
      → Step s (record s { mutex = n; arriving = s.arriving + 1 })
  arrive :
      (s : State) (n : ℕ)
      → s.arriving ≡ suc n
      → Step s (record s { arriving = n; arrived = s.arrived + 1; counted = s.counted + 1 })
  is_last :
      (s : State) (n : ℕ)
      → s.counted ≡ suc n
      → s.arrived ≡ s.total
      → Step s (record s { counted = n; last = s.last + 1 })
  not_last :
      (s : State) (n : ℕ)
      → s.counted ≡ suc n
      → s.arrived ≢ s.total
      → Step s (record s { counted = n; other = s.other + 1 })
  start_posting :
      (s : State) (n : ℕ)
      → s.last ≡ suc n
      → Step s (record s {
        last = n;
        mutex = s.mutex + 1;
        posting = s.posting + 1;
        posts = s.posts + s.total;
      })
  start_waiting :
      (s : State) (n : ℕ)
      → s.other ≡ suc n
      → Step s (record s { other = n; mutex = s.mutex + 1; waiting = s.waiting + 1 })
  post_barrier :
      (s : State) (n : ℕ)
      → s.posts ≡ suc n
      → Step s (record s { posts = n; barrier = s.barrier + 1 })
  stop_posting :
      (s : State) (n : ℕ)
      → s.posting ≡ suc n
      → s.posts ≡ 0
      → Step s (record s { posting = n; waiting = s.waiting + 1 })
  pass :
      (s : State) (n m : ℕ)
      → s.waiting ≡ suc n
      → s.barrier ≡ suc m
      → Step s (record s { waiting = n; barrier = m; passed = s.passed + 1 })

-- A run of `barrier` by threads for a barrier of that many.
pub data Reachable : ℕ → State → Type 0 where
  init : (num_threads : ℕ) → Reachable num_threads (barrier_init num_threads)
  step : {n : ℕ} {s t : State} → Reachable n s → Step s t → Reachable n t
