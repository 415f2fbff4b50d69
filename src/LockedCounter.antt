-- ===== src/LockedCounter.antt =====
-- exersises/concurrency/locked-data-structures/1/timer.c: threads that count on one variable under
-- a mutex. `counter++` reads the variable and then writes it, two steps; the lock and the unlock are
-- a step each. `counter` is an `unsigned long long`: it wraps at 2 ^ 64, the limit of the program; the
-- steps have the limit as a parameter.
use osvcp.Prelude.{
  ℕ, zero, suc, ◌+◌, ◌%◌, ◌≡◌, Bool, true, false, some, List, [], ◌∷◌, get_elem?, set,
}
pub mod Laws

-- Where a thread is in the loop of `thread_function`.
pub data Place : Type 0 where
  outside : Place  -- before the lock, or at the end
  locked : Place  -- before `counter` is read
  loaded : ℕ → Place  -- it has read this value
  stored : Place  -- before the unlock

-- `thread_args`, less the iterations that the thread has started.
pub record Thread : Type 0 where
  pub increments : ℕ
  pub place : Place

pub record State : Type 0 where
  pub counter : ℕ
  pub mutex : Bool  -- whether it is held
  pub threads : List Thread

abbrev pub goes_to : ℕ → Thread → Place → State → State
goes_to i t p s = record s { threads = set s.threads i (record t { place = p }) }

-- A thread, the `i`-th, at a place.
abbrev pub At : State → ℕ → Thread → Place → Type 0
At s i t p = (get_elem? s.threads i ≡ some t) × (t.place ≡ p)

pub data Step (limit : ℕ) : State → State → Type 0 where
  lock :
      (s : State) (i n : ℕ) (t : Thread)
      → At s i t outside
      → t.increments ≡ suc n
      → s.mutex ≡ false
      → Step limit s (record s {
        mutex = true;
        threads = set s.threads i (record { increments = n; place = locked });
      })
  load :
      (s : State) (i : ℕ) (t : Thread)
      → At s i t locked
      → Step limit s (goes_to i t (loaded s.counter) s)
  store :
      (s : State) (i value : ℕ) (t : Thread)
      → At s i t (loaded value)
      → Step limit s (goes_to i t stored (record s { counter = (value + 1) % limit }))
  unlock :
      (s : State) (i : ℕ) (t : Thread)
      → At s i t stored
      → Step limit s (goes_to i t outside (record s { mutex = false }))

-- The threads that `main` creates.
abbrev pub threads : ℕ → ℕ → List Thread
threads zero increments = []
threads (suc n) increments =
    record { increments = increments; place = outside } ∷ threads n increments

abbrev pub start : ℕ → ℕ → State
start num_threads increments = record {
  counter = 0;
  mutex = false;
  threads = threads num_threads increments;
}

pub data Reachable (limit num_threads increments : ℕ) : State → Type 0 where
  begin : Reachable limit num_threads increments (start num_threads increments)
  step :
      {s t : State}
      → Reachable limit num_threads increments s
      → Step limit s t
      → Reachable limit num_threads increments t
