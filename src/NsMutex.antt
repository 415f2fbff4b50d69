-- ===== src/NsMutex.antt =====
-- exersises/concurrency/semaphores/exercise/mutex-nostarve.c (lines 13 to 67): a mutex with a queue
-- of nodes, each with a semaphore of its own. A node is the index of its cell in `nodes`, which has
-- one for each call of `ns_mutex_acquire`, in the order of the calls of `malloc`; memory that was
-- freed is not used again. The cell has the fields of `node_t`, and the place in the code of the
-- thread that made the call. Each statement that touches the mutex is a step of its own; `malloc`
-- with the two statements behind it is one, and so is the end of a wait with the `free` behind it.
use osvcp.Prelude.{
  ℕ, zero, suc, ◌+◌, ◌≡◌, Bool, true, false, Option, none, some, List, [], ◌∷◌, ◌++◌, length,
  get_elem?, adjust,
}
pub mod Exclusion
pub mod LostWakeup

pub data Place : Type 0 where
  -- `ns_mutex_acquire`
  created : Place  -- before the wait for `guard`
  testing : Place  -- before the test of `locked`
  found_free : Place  -- before `m->locked = 1`
  took : Place  -- before the post of `guard`
  found_locked : Place  -- before the test of `tail`
  linked : Place  -- before `m->tail = n`
  queued : Place  -- before the post of `guard`
  waiting : Place  -- before the wait for the node's semaphore
  holding : Place  -- after `ns_mutex_acquire`, until `ns_mutex_release` has `guard`
  -- `ns_mutex_release`
  releasing : Place  -- before the test of `head`
  found_empty : Place  -- before `m->locked = 0`
  found_next : ℕ → Place  -- before `m->head = next->next`
  posting : ℕ → Place  -- before the post of the semaphore of `next`
  released : Place  -- before the post of `guard`
  gone : Place

pub record Node : Type 0 where
  pub sem : ℕ
  pub next : Option ℕ
  pub place : Place

pub record Mutex : Type 0 where
  pub locked : Bool
  pub head : Option ℕ
  pub tail : Option ℕ
  pub guard : ℕ
  pub nodes : List Node

abbrev pub ns_mutex_init : Mutex
ns_mutex_init = record { locked = false; head = none; tail = none; guard = 1; nodes = [] }

abbrev pub new_node : Node
new_node = record { sem = 0; next = none; place = created }

abbrev pub goes_to : Place → Node → Node
goes_to p n = record n { place = p }

abbrev pub points_to : ℕ → Node → Node
points_to i n = record n { next = some i }

abbrev pub posted : Node → Node
posted n = record n { sem = n.sem + 1 }

abbrev pub woken : ℕ → Node → Node
woken k n = record n { sem = k; place = holding }

-- The thread of a node goes from one place to another.
abbrev pub move : ℕ → Place → Mutex → Mutex
move i p m = record m { nodes = adjust (goes_to p) i m.nodes }

-- The thread of a node is at a place.
abbrev pub At : Mutex → ℕ → Place → Type 0
At m i p = (n : Node) × (get_elem? m.nodes i ≡ some n) × (n.place ≡ p)

pub data Step : Mutex → Mutex → Type 0 where
  -- `ns_mutex_acquire`
  create : (m : Mutex) → Step m (record m { nodes = m.nodes ++ new_node ∷ [] })
  wait_guard :
      (m : Mutex) (i k : ℕ)
      → At m i created
      → m.guard ≡ suc k
      → Step m (record (move i testing m) { guard = k })
  find_free : (m : Mutex) (i : ℕ) → At m i testing → m.locked ≡ false → Step m (move i found_free m)
  take : (m : Mutex) (i : ℕ) → At m i found_free → Step m (record (move i took m) { locked = true })
  post_taken :
      (m : Mutex) (i : ℕ) → At m i took → Step m (record (move i holding m) { guard = m.guard + 1 })
  find_locked :
      (m : Mutex) (i : ℕ) → At m i testing → m.locked ≡ true → Step m (move i found_locked m)
  link_tail :
      (m : Mutex) (i t : ℕ)
      → At m i found_locked
      → m.tail ≡ some t
      → Step m (record m { nodes = adjust (points_to i) t (adjust (goes_to linked) i m.nodes) })
  link_head :
      (m : Mutex) (i : ℕ)
      → At m i found_locked
      → m.tail ≡ none
      → Step m (record (move i linked m) { head = some i })
  set_tail :
      (m : Mutex) (i : ℕ) → At m i linked → Step m (record (move i queued m) { tail = some i })
  post_queued :
      (m : Mutex) (i : ℕ)
      → At m i queued
      → Step m (record (move i waiting m) { guard = m.guard + 1 })
  wake :
      (m : Mutex) (i k : ℕ) (n : Node)
      → get_elem? m.nodes i ≡ some n
      → n.place ≡ waiting
      → n.sem ≡ suc k
      → Step m (record m { nodes = adjust (woken k) i m.nodes })
  -- `ns_mutex_release`
  release :
      (m : Mutex) (i k : ℕ)
      → At m i holding
      → m.guard ≡ suc k
      → Step m (record (move i releasing m) { guard = k })
  find_empty :
      (m : Mutex) (i : ℕ) → At m i releasing → m.head ≡ none → Step m (move i found_empty m)
  unlock :
      (m : Mutex) (i : ℕ)
      → At m i found_empty
      → Step m (record (move i released m) { locked = false })
  find_next :
      (m : Mutex) (i h : ℕ) → At m i releasing → m.head ≡ some h → Step m (move i (found_next h) m)
  pop :
      (m : Mutex) (i h : ℕ) (n : Node)
      → At m i (found_next h)
      → get_elem? m.nodes h ≡ some n
      → Step m (record (move i (posting h) m) { head = n.next })
  post_next :
      (m : Mutex) (i h : ℕ) (n : Node)
      → At m i (posting h)
      → get_elem? m.nodes h ≡ some n
      → Step m (record m { nodes = adjust posted h (adjust (goes_to released) i m.nodes) })
  post_released :
      (m : Mutex) (i : ℕ)
      → At m i released
      → Step m (record (move i gone m) { guard = m.guard + 1 })

pub data Steps : Mutex → Mutex → Type 0 where
  stay : (m : Mutex) → Steps m m
  more : {m n o : Mutex} → Steps m n → Step n o → Steps m o
