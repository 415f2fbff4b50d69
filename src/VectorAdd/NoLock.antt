-- ===== src/VectorAdd/NoLock.antt =====
-- exersises/concurrency/concurrency-bugs/vector-nolock.c: the version of `vector_add` without locks,
-- under the threads of main-common.c. A thread is the list of the values that it still has to add.
-- To add one, it reads the value of the source, a step, and adds it by `fetch_and_add`, another
-- step, which the machine makes atomic. Other threads may run between any two steps. The calls of
-- `print_info` touch no vector, and are left out.
use osvcp.Prelude.{
  ℕ, zero, suc, ◌+◌, ◌%◌, ◌^◌, ◌≡◌, Bool, some, List, [], ◌∷◌, ◌++◌, ◌&&◌, get_elem?, set, ◌==◌,
  if◌then◌else◌,
}
use osvcp.VectorAdd.{vector_size, thread_arg}
pub mod Totals
pub mod Result

pub data Action : Type 0 where
  load : ℕ → ℕ → ℕ → Action  -- destination, source, and index of the value
  add : ℕ → ℕ → ℕ → Action  -- destination, index, and the value that was read

-- `v[vector].values[index]`
abbrev pub Memory : Type 0
Memory = ℕ → ℕ → ℕ

pub record State : Type 0 where
  pub v : Memory
  pub threads : List (List Action)

abbrev pub write : ℕ → ℕ → ℕ → Memory → Memory
write vector index value v x i = if vector == x && index == i then value else v x i

-- An `int` is its bit pattern.
unfoldable pub fetch_and_add : ℕ → ℕ → ℕ → Memory → Memory
fetch_and_add vector index value v = write vector index ((v vector index + value) % 2 ^ 32) v

-- The loop of `vector_add` over the values from index `i` on, `n` of them.
unfoldable pub adds_from : ℕ → ℕ → ℕ → ℕ → List Action
adds_from dst src i zero = []
adds_from dst src i (suc n) = load dst src i ∷ adds_from dst src (suc i) n

abbrev pub vector_add : ℕ → ℕ → List Action
vector_add dst src = adds_from dst src 0 vector_size

-- The loop of `worker`
unfoldable pub worker : ℕ → ℕ × ℕ → List Action
worker zero vectors = []
worker (suc loops) vectors = vector_add vectors.0 vectors.1 ++ worker loops vectors

pub data Step : State → State → Type 0 where
  read :
      (s : State) (thread dst src i : ℕ) (rest : List Action)
      → get_elem? s.threads thread ≡ some (load dst src i ∷ rest)
      → Step s (record s { threads = set s.threads thread (add dst i (s.v src i) ∷ rest) })
  fetch :
      (s : State) (thread dst i value : ℕ) (rest : List Action)
      → get_elem? s.threads thread ≡ some (add dst i value ∷ rest)
      → Step s (record s { v = fetch_and_add dst i value s.v; threads = set s.threads thread rest })

-- The threads that `main` starts, `n` of them from thread `i` on.
unfoldable pub threads_from : Bool → Bool → ℕ → ℕ → ℕ → List (List Action)
threads_from enable_parallelism cause_deadlock loops i zero = []
threads_from enable_parallelism cause_deadlock loops i (suc n) =
    worker loops (thread_arg enable_parallelism cause_deadlock i)
    ∷ threads_from enable_parallelism cause_deadlock loops (suc i) n

-- Vector `i` holds `i` everywhere.
abbrev pub start : List (List Action) → State
start threads = record { v = λ vector i. vector; threads = threads }

pub data Reachable (threads : List (List Action)) : State → Type 0 where
  begin : Reachable threads (start threads)
  step : {s t : State} → Reachable threads s → Step s t → Reachable threads t
