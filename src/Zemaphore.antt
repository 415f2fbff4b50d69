-- ===== src/Zemaphore.antt =====
-- exersises/concurrency/semaphores/how-to-implement-semaphores/zemaphore.h (lines 4 to 29): a
-- semaphore made of a mutex and a condition variable. The threads are anonymous, any number of
-- them: the state has how many of them are at each place of `Zem_wait` and `Zem_post`, and a step
-- is a step of one of them. As documented for condition variables, `Cond_wait` lets the mutex go and
-- sleeps in one step, takes the mutex again before it returns, and may return without a signal.
-- `value` starts at 0 or more, and is a number without a sign, as nothing takes 1 from 0.
use osvcp.Prelude.{ℕ, zero, suc, ◌+◌, ◌≡◌, Bool, true, false}
pub mod Promise
pub mod Instance

pub record State : Type 0 where
  -- `Zem_t`; the condition variable is the threads that sleep on it
  pub value : ℕ
  pub lock : Bool  -- whether the mutex is held
  -- the places in `Zem_wait`
  pub calling_wait : ℕ  -- before `Mutex_lock`
  pub testing : ℕ  -- before the test of `value`
  pub sleeping : ℕ  -- in `Cond_wait`, without the mutex
  pub woken : ℕ  -- in `Cond_wait`, before it has the mutex again
  pub taking : ℕ  -- before `z->value--`
  pub leaving : ℕ  -- before `Mutex_unlock`
  pub waited : ℕ
  -- the places in `Zem_post`
  pub calling_post : ℕ  -- before `Mutex_lock`
  pub adding : ℕ  -- before `z->value++`
  pub signalling : ℕ  -- before `Cond_signal`
  pub finishing : ℕ  -- before `Mutex_unlock`
  pub posted : ℕ

-- `Zem_init`, with no thread inside.
abbrev pub zem_init : ℕ → State
zem_init value = record {
  value = value;
  lock = false;
  calling_wait = 0;
  testing = 0;
  sleeping = 0;
  woken = 0;
  taking = 0;
  leaving = 0;
  waited = 0;
  calling_post = 0;
  adding = 0;
  signalling = 0;
  finishing = 0;
  posted = 0;
}

-- The steps of a thread inside.
pub data Inner : State → State → Type 0 where
  lock_wait :
      (s : State) (n : ℕ)
      → s.calling_wait ≡ suc n
      → s.lock ≡ false
      → Inner s (record s { lock = true; calling_wait = n; testing = s.testing + 1 })
  sleep :
      (s : State) (n : ℕ)
      → s.testing ≡ suc n
      → s.value ≡ 0
      → Inner s (record s { lock = false; testing = n; sleeping = s.sleeping + 1 })
  lock_again :
      (s : State) (n : ℕ)
      → s.woken ≡ suc n
      → s.lock ≡ false
      → Inner s (record s { lock = true; woken = n; testing = s.testing + 1 })
  find_value :
      (s : State) (n m : ℕ)
      → s.testing ≡ suc n
      → s.value ≡ suc m
      → Inner s (record s { testing = n; taking = s.taking + 1 })
  take :
      (s : State) (n m : ℕ)
      → s.taking ≡ suc n
      → s.value ≡ suc m
      → Inner s (record s { value = m; taking = n; leaving = s.leaving + 1 })
  unlock_wait :
      (s : State) (n : ℕ)
      → s.leaving ≡ suc n
      → Inner s (record s { lock = false; leaving = n; waited = s.waited + 1 })
  lock_post :
      (s : State) (n : ℕ)
      → s.calling_post ≡ suc n
      → s.lock ≡ false
      → Inner s (record s { lock = true; calling_post = n; adding = s.adding + 1 })
  add :
      (s : State) (n : ℕ)
      → s.adding ≡ suc n
      → Inner s (record s { value = s.value + 1; adding = n; signalling = s.signalling + 1 })
  signal :
      (s : State) (n m : ℕ)
      → s.signalling ≡ suc n
      → s.sleeping ≡ suc m
      → Inner s (record s {
        signalling = n;
        finishing = s.finishing + 1;
        sleeping = m;
        woken = s.woken + 1;
      })
  signal_nobody :
      (s : State) (n : ℕ)
      → s.signalling ≡ suc n
      → s.sleeping ≡ 0
      → Inner s (record s { signalling = n; finishing = s.finishing + 1 })
  unlock_post :
      (s : State) (n : ℕ)
      → s.finishing ≡ suc n
      → Inner s (record s { lock = false; finishing = n; posted = s.posted + 1 })

-- These, and what comes from outside: calls, and returns of `Cond_wait` without a signal.
pub data Step : State → State → Type 0 where
  inner : {s t : State} → Inner s t → Step s t
  call_wait : (s : State) → Step s (record s { calling_wait = s.calling_wait + 1 })
  call_post : (s : State) → Step s (record s { calling_post = s.calling_post + 1 })
  wake :
      (s : State) (n : ℕ)
      → s.sleeping ≡ suc n
      → Step s (record s { sleeping = n; woken = s.woken + 1 })

pub data Reachable : ℕ → State → Type 0 where
  init : (value : ℕ) → Reachable value (zem_init value)
  step : {value : ℕ} {s t : State} → Reachable value s → Step s t → Reachable value t
