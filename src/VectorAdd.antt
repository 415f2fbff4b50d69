-- ===== src/VectorAdd.antt =====
-- exersises/concurrency/concurrency-bugs: the four versions of `vector_add` with locks
-- (vector-deadlock.c, vector-global-order.c, vector-avoid-hold-and-wait.c, vector-try-wait.c) and
-- the threads of main-common.c that call it. A thread is the list of the calls on locks, and of the
-- loops over the values, that it still has to make; each is a step, which a lock that is held delays.
-- The loop over the values is one step, as it runs with both locks held. Vectors are known by their
-- index in `v`, and so are their locks; an `int` is its bit pattern, below 2 ^ 32.
use osvcp.Prelude.{
  ℕ, zero, suc, ◌+◌, ◌*◌, ◌%◌, ◌^◌, ◌≡◌, Bool, true, false, ◌&&◌, Option, none, some, List, [], ◌∷◌,
  ◌++◌, map, get_elem?, set, ltb, ◌==◌, if◌then◌else◌,
}
pub mod Owed
pub mod Rules
pub mod Blocks
pub mod Workers
pub mod Races
pub mod Progress
pub mod Deadlock
pub mod Totals
pub mod NoLock

abbrev pub vector_size : ℕ
vector_size = 100

abbrev pub max_threads : ℕ
max_threads = 100

-- The locks that are not a vector's.
abbrev pub print_lock : ℕ
print_lock = 200

abbrev pub global : ℕ
global = 201

pub data Action : Type 0 where
  lock : ℕ → Action
  -- `pthread_mutex_trylock` of the second vector; on failure the first is unlocked, and both locks
  -- are tried again
  try_lock : ℕ → ℕ → Action
  add : ℕ → ℕ → Action  -- the loop over the values
  unlock : ℕ → Action

pub data Version : Type 0 where
  deadlock : Version
  global_order : Version
  avoid_hold_and_wait : Version
  try_wait : Version

-- `vector_add` of vector-deadlock.c
abbrev pub add_deadlock : ℕ → ℕ → List Action
add_deadlock dst src = lock dst ∷ lock src ∷ add dst src ∷ unlock dst ∷ unlock src ∷ []

-- The locks that vector-global-order.c takes.
abbrev pub lock_in_order : ℕ → ℕ → List Action
lock_in_order dst src =
    if ltb dst src
    then lock dst ∷ lock src ∷ []
    else (if ltb src dst then lock src ∷ lock dst ∷ [] else lock src ∷ [])

-- `vector_add` of vector-global-order.c
abbrev pub add_in_order : ℕ → ℕ → List Action
add_in_order dst src =
    lock_in_order dst src
    ++ (add dst src ∷ unlock src ∷ (if dst == src then [] else unlock dst ∷ []))

-- `vector_add` of vector-avoid-hold-and-wait.c
abbrev pub add_global_lock : ℕ → ℕ → List Action
add_global_lock dst src =
    lock global ∷ lock dst ∷ lock src ∷ unlock global ∷ add dst src ∷ unlock dst ∷ unlock src ∷ []

-- `vector_add` of vector-try-wait.c
abbrev pub add_try_wait : ℕ → ℕ → List Action
add_try_wait dst src = lock dst ∷ try_lock dst src ∷ add dst src ∷ unlock dst ∷ unlock src ∷ []

unfoldable pub vector_add : Version → ℕ → ℕ → List Action
vector_add deadlock dst src = add_deadlock dst src
vector_add global_order dst src = add_in_order dst src
vector_add avoid_hold_and_wait dst src = add_global_lock dst src
vector_add try_wait dst src = add_try_wait dst src

unfoldable pub print_info : Bool → List Action
print_info verbose = if verbose then lock print_lock ∷ unlock print_lock ∷ [] else []

-- `worker`, for the vectors in the order that `vector_add_order` gives.
unfoldable pub worker : Version → Bool → ℕ → ℕ × ℕ → List Action
worker version verbose zero (v0, v1) = []
worker version verbose (suc loops) (v0, v1) =
    print_info verbose
    ++ (vector_add version v0 v1 ++ (print_info verbose ++ worker version verbose loops (v0, v1)))

-- The arguments of thread `i`: the vectors, exchanged if `vector_add_order` is 1.
unfoldable pub thread_arg : Bool → Bool → ℕ → ℕ × ℕ
thread_arg enable_parallelism cause_deadlock i =
    let vector_0 = if enable_parallelism then i * 2 else 0 in
    let vector_1 = if enable_parallelism then i * 2 + 1 else 1 in
    if cause_deadlock && (i % 2 == 1) then (vector_1, vector_0) else (vector_0, vector_1)

-- The threads that `main` starts, `n` of them from thread `i` on.
unfoldable pub threads_from : (ℕ → ℕ × ℕ) → (ℕ × ℕ → List Action) → ℕ → ℕ → List (List Action)
threads_from args body i zero = []
threads_from args body i (suc n) = body (args i) ∷ threads_from args body (suc i) n

pub record State : Type 0 where
  pub held : ℕ → Bool
  pub v : List (List ℕ)
  pub retry : ℕ
  pub threads : List (List Action)

abbrev pub with_lock : ℕ → Bool → (ℕ → Bool) → ℕ → Bool
with_lock l b held x = if x == l then b else held x

-- Word by word, with the wrap-around of the machine.
abbrev pub sums : List ℕ → List ℕ → List ℕ
sums [] ys = []
sums (x ∷ xs) [] = x ∷ xs
sums (x ∷ xs) (y ∷ ys) = ((x + y) % 2 ^ 32) ∷ sums xs ys

abbrev pub values : List (List ℕ) → ℕ → List ℕ
values v i = elim (get_elem? v i) [ none ↦ [] | some xs ↦ xs ]

abbrev pub copies : ℕ → ℕ → List ℕ
copies zero value = []
copies (suc n) value = value ∷ copies n value

-- `vector_init` of the vectors from `i` on
unfoldable pub vectors_from : ℕ → ℕ → List (List ℕ)
vectors_from i zero = []
vectors_from i (suc n) = copies vector_size i ∷ vectors_from (suc i) n

pub data Step : State → State → Type 0 where
  take :
      (s : State) (i l : ℕ) (rest : List Action)
      → get_elem? s.threads i ≡ some (lock l ∷ rest)
      → s.held l ≡ false
      → Step s (record s { held = with_lock l true s.held; threads = set s.threads i rest })
  try_succeeds :
      (s : State) (i dst src : ℕ) (rest : List Action)
      → get_elem? s.threads i ≡ some (try_lock dst src ∷ rest)
      → s.held src ≡ false
      → Step s (record s { held = with_lock src true s.held; threads = set s.threads i rest })
  try_fails :
      (s : State) (i dst src : ℕ) (rest : List Action)
      → get_elem? s.threads i ≡ some (try_lock dst src ∷ rest)
      → s.held src ≡ true
      → Step s (record s {
        retry = s.retry + 1;
        threads = set s.threads i (unlock dst ∷ lock dst ∷ try_lock dst src ∷ rest);
      })
  add_values :
      (s : State) (i dst src : ℕ) (rest : List Action)
      → get_elem? s.threads i ≡ some (add dst src ∷ rest)
      → Step s (record s {
        v = set s.v dst (sums (values s.v dst) (values s.v src));
        threads = set s.threads i rest;
      })
  let_go :
      (s : State) (i l : ℕ) (rest : List Action)
      → get_elem? s.threads i ≡ some (unlock l ∷ rest)
      → Step s (record s { held = with_lock l false s.held; threads = set s.threads i rest })

-- What `main` starts with: no lock is held, and vector `i` holds `i` everywhere.
abbrev pub start : List (List Action) → State
start threads = record {
  held = λ l. false;
  v = vectors_from 0 (2 * max_threads);
  retry = 0;
  threads = threads;
}

pub data Reachable (threads : List (List Action)) : State → Type 0 where
  begin : Reachable threads (start threads)
  step : {s t : State} → Reachable threads s → Step s t → Reachable threads t

-- The threads of `main`.
unfoldable pub main_threads : Version → Bool → Bool → Bool → ℕ → ℕ → List (List Action)
main_threads version verbose enable_parallelism cause_deadlock loops num_threads =
    threads_from (thread_arg enable_parallelism cause_deadlock) (worker version verbose loops) 0
      num_threads
