-- ===== src/NsMutex/Exclusion.antt =====
-- At most one thread has the mutex of
-- exersises/concurrency/semaphores/exercise/mutex-nostarve.c.
use osvcp.Prelude.{
  bit, ℕ, ◌+◌, ◌≤◌, ◌≡◌, refl, ap, false, [], ◌∷◌, arith, sum, sum-append, sum-adjust,
  sum-adjust_same, sum-le-sum, get_elem?-adjust_any,
}
use osvcp.NsMutex.{
  Place, created, testing, found_free, took, found_locked, linked, queued, waiting, holding,
  releasing, found_empty, found_next, posting, released, gone, Node, Mutex, ns_mutex_init, new_node,
  goes_to, points_to, posted, woken, move, At, Step, create, wait_guard, find_free, take,
  post_taken, find_locked, link_tail, link_head, set_tail, post_queued, wake, release, find_empty,
  unlock, find_next, pop, post_next, post_released, Steps, stay, more,
}

-- The thread has `guard`.
abbrev inside : Place → ℕ
inside created = 0
inside testing = 1
inside found_free = 1
inside took = 1
inside found_locked = 1
inside linked = 1
inside queued = 1
inside waiting = 0
inside holding = 0
inside releasing = 1
inside found_empty = 1
inside (found_next h) = 1
inside (posting h) = 1
inside released = 1
inside gone = 0

-- The mutex is the thread's, or the thread's to hand over.
abbrev owns : Place → ℕ
owns created = 0
owns testing = 0
owns found_free = 0
owns took = 1
owns found_locked = 0
owns linked = 0
owns queued = 0
owns waiting = 0
owns holding = 1
owns releasing = 1
owns found_empty = 1
owns (found_next h) = 1
owns (posting h) = 1
owns released = 0
owns gone = 0

abbrev will_take : Place → ℕ
will_take found_free = 1
will_take _ = 0

-- What a node weighs, by its thread's place.
abbrev pub by : (Place → ℕ) → Node → ℕ
by f n = f n.place

-- The mutex is handed over through the semaphore of a node.
abbrev owned : Node → ℕ
owned n = owns n.place + n.sem

pub record IsMutex (m : Mutex) : Type 0 where
  guard : m.guard + sum (by inside) m.nodes ≡ 1
  owner : sum owned m.nodes ≡ bit m.locked
  free : sum (by will_take) m.nodes + bit m.locked ≤ 1

-- A move, by what the two places weigh.
module _ (i : ℕ) (p q : Place) (m : Mutex) where
  pub move-by :
      (f : Place → ℕ) → At m i p → sum (by f) (move i q m).nodes + f p ≡ sum (by f) m.nodes + f q
  move-by f (n, e, r) = rw r at (sum-adjust (by f) (goes_to q) i m.nodes n e)

  move-owned : At m i p → sum owned (move i q m).nodes + owns p ≡ sum owned m.nodes + owns q
  move-owned (n, e, r) =
      let s = sum-adjust owned (goes_to q) i m.nodes n e in omega (arith, s, ap owns r)

-- What a move changes.
record Moved (p q : Place) (m m' : Mutex) : Type 0 where
  inside_sum : sum (by inside) m'.nodes + inside p ≡ sum (by inside) m.nodes + inside q
  owned_sum : sum owned m'.nodes + owns p ≡ sum owned m.nodes + owns q
  take_sum : sum (by will_take) m'.nodes + will_take p ≡ sum (by will_take) m.nodes + will_take q

moved : (i : ℕ) (p q : Place) (m : Mutex) → At m i p → Moved p q m (move i q m)
moved i p q m a = record {
  inside_sum = move-by i p q m inside a;
  owned_sum = move-owned i p q m a;
  take_sum = move-by i p q m will_take a;
}

will_take-le_inside : (p : Place) → will_take p ≤ inside p
will_take-le_inside created = omega arith
will_take-le_inside testing = omega arith
will_take-le_inside found_free = omega arith
will_take-le_inside took = omega arith
will_take-le_inside found_locked = omega arith
will_take-le_inside linked = omega arith
will_take-le_inside queued = omega arith
will_take-le_inside waiting = omega arith
will_take-le_inside holding = omega arith
will_take-le_inside releasing = omega arith
will_take-le_inside found_empty = omega arith
will_take-le_inside (found_next h) = omega arith
will_take-le_inside (posting h) = omega arith
will_take-le_inside released = omega arith
will_take-le_inside gone = omega arith

Step-IsMutex : {m m' : Mutex} → Step m m' → IsMutex m → IsMutex m'
Step-IsMutex (create m) i = record {
  guard = omega (arith, i.guard, sum-append (by inside) m.nodes (new_node ∷ []));
  owner = omega (arith, i.owner, sum-append owned m.nodes (new_node ∷ []));
  free = omega (arith, i.free, sum-append (by will_take) m.nodes (new_node ∷ []));
}
Step-IsMutex (wait_guard m j k a e) i = let f = moved j created testing m a in ground arith
Step-IsMutex (find_free m j a e) i =
    let f = moved j testing found_free m a in
    let few =
      sum-le-sum (by will_take) (by inside) (move j found_free m).nodes
        (λ n. will_take-le_inside n.place) in
    ground (arith, few)
Step-IsMutex (take m j a) i = let f = moved j found_free took m a in ground arith
Step-IsMutex (post_taken m j a) i = let f = moved j took holding m a in ground arith
Step-IsMutex (find_locked m j a e) i = let f = moved j testing found_locked m a in ground arith
Step-IsMutex (link_tail m j t a e) i =
    let f = moved j found_locked linked m a in
    let nodes = (move j linked m).nodes in
    ground (
      arith,
      sum-adjust_same (by inside) (points_to j) t nodes (λ n. refl),
      sum-adjust_same owned (points_to j) t nodes (λ n. refl),
      sum-adjust_same (by will_take) (points_to j) t nodes (λ n. refl),
    )
Step-IsMutex (link_head m j a e) i = let f = moved j found_locked linked m a in ground arith
Step-IsMutex (set_tail m j a) i = let f = moved j linked queued m a in ground arith
Step-IsMutex (post_queued m j a) i = let f = moved j queued waiting m a in ground arith
Step-IsMutex (wake m j k n e w s) i = ground (
  arith,
  sum-adjust (by inside) (woken k) j m.nodes n e,
  sum-adjust owned (woken k) j m.nodes n e,
  sum-adjust (by will_take) (woken k) j m.nodes n e,
  ap inside w,
  ap owns w,
  ap will_take w,
)
Step-IsMutex (release m j k a e) i = let f = moved j holding releasing m a in ground arith
Step-IsMutex (find_empty m j a e) i = let f = moved j releasing found_empty m a in ground arith
Step-IsMutex (unlock m j a) i = let f = moved j found_empty released m a in ground arith
Step-IsMutex (find_next m j h a e) i = let f = moved j releasing (found_next h) m a in ground arith
Step-IsMutex (pop m j h n a e) i = let f = moved j (found_next h) (posting h) m a in ground arith
Step-IsMutex (post_next m j h n a e) i =
    let f = moved j (posting h) released m a in
    let nodes = (move j released m).nodes in
    let (n', e') = get_elem?-adjust_any (goes_to released) j h m.nodes n e in
    ground (
      arith,
      sum-adjust_same (by inside) posted h nodes (λ n. refl),
      sum-adjust owned posted h nodes n' e',
      sum-adjust_same (by will_take) posted h nodes (λ n. refl),
    )
Step-IsMutex (post_released m j a) i = let f = moved j released gone m a in ground arith

Steps-IsMutex : {m m' : Mutex} → Steps m m' → IsMutex m → IsMutex m'
Steps-IsMutex (stay m) i = i
Steps-IsMutex (more r s) i = Step-IsMutex s (Steps-IsMutex r i)

-- The thread is between `ns_mutex_acquire` and `ns_mutex_release`.
abbrev pub holds : Place → ℕ
holds holding = 1
holds _ = 0

holds-le_owns : (p : Place) → holds p ≤ owns p
holds-le_owns created = omega arith
holds-le_owns testing = omega arith
holds-le_owns found_free = omega arith
holds-le_owns took = omega arith
holds-le_owns found_locked = omega arith
holds-le_owns linked = omega arith
holds-le_owns queued = omega arith
holds-le_owns waiting = omega arith
holds-le_owns holding = omega arith
holds-le_owns releasing = omega arith
holds-le_owns found_empty = omega arith
holds-le_owns (found_next h) = omega arith
holds-le_owns (posting h) = omega arith
holds-le_owns released = omega arith
holds-le_owns gone = omega arith

init-IsMutex : IsMutex ns_mutex_init
init-IsMutex = record { guard = refl; owner = refl; free = omega arith }

-- However many threads call them and however they interleave, at most one thread is between
-- `ns_mutex_acquire` and `ns_mutex_release`, and none while the mutex is not locked.
pub Steps-exclusive :
    (m : Mutex)
    → Steps ns_mutex_init m
    → (sum (by holds) m.nodes ≤ 1) × (m.locked ≡ false → sum (by holds) m.nodes ≡ 0)
Steps-exclusive m r =
    let i = Steps-IsMutex r init-IsMutex in
    let few = sum-le-sum (by holds) owned m.nodes (λ n. omega (arith, holds-le_owns n.place)) in
    (ground (arith, few), λ e. ground (arith, few))
