-- ===== src/Zemaphore/Instance.antt =====
-- The semaphore of exersises/concurrency/semaphores/how-to-implement-semaphores/zemaphore.h fills the
-- interface of its users.
use osvcp.Prelude.{ℕ, suc, ◌+◌, ◌≡◌, refl, arith, inl, inr, leb, Bool-cases}
use osvcp.Semaphore.{Operations, Used, waited, posted, went_on, disturbed, IsSemaphore}
use osvcp.Semaphore
use osvcp.Zemaphore.{
  State, zem_init, Inner, lock_wait, sleep, lock_again, find_value, take, unlock_wait, lock_post,
  add, signal, signal_nobody, unlock_post, inner, call_wait, call_post, wake, Reachable, init, step,
}
use osvcp.Zemaphore.Promise.{awake, Reachable-semaphore}

-- A return of `Cond_wait` without a signal.
pub data Early : State → State → Type 0 where
  woken_early :
      (s : State) (n : ℕ)
      → s.sleeping ≡ suc n
      → Early s (record s { sleeping = n; woken = s.woken + 1 })

abbrev pub zem : Operations
zem = record {
  State = State;
  sem_init = zem_init;
  call_wait = λ s. record s { calling_wait = s.calling_wait + 1 };
  call_post = λ s. record s { calling_post = s.calling_post + 1 };
  Step = Inner;
  Wake = Early;
  returned = λ s. s.waited;
}

-- The threads that have called the wait, and the post.
abbrev waiters : State → ℕ
waiters s = s.calling_wait + s.testing + s.sleeping + s.woken + s.taking + s.leaving + s.waited

abbrev posters : State → ℕ
posters s = s.calling_post + s.adding + s.signalling + s.finishing + s.posted

record IsUsed (value w p : ℕ) (s : State) : Type 0 where
  reached : Reachable value s
  all_waits : waiters s ≡ w
  all_posts : posters s ≡ p

Inner-same : {s t : State} → Inner s t → (waiters t ≡ waiters s) × (posters t ≡ posters s)
Inner-same (lock_wait s n e f) = (omega (arith, e), refl)
Inner-same (sleep s n e f) = (omega (arith, e), refl)
Inner-same (lock_again s n e f) = (omega (arith, e), refl)
Inner-same (find_value s n m e f) = (omega (arith, e), refl)
Inner-same (take s n m e f) = (omega (arith, e), refl)
Inner-same (unlock_wait s n e) = (omega (arith, e), refl)
Inner-same (lock_post s n e f) = (refl, omega (arith, e))
Inner-same (add s n e) = (refl, omega (arith, e))
Inner-same (signal s n m e f) = (omega (arith, f), omega (arith, e))
Inner-same (signal_nobody s n e f) = (refl, omega (arith, e))
Inner-same (unlock_post s n e) = (refl, omega (arith, e))

Inner-IsUsed : {value w p : ℕ} {s t : State} → Inner s t → IsUsed value w p s → IsUsed value w p t
Inner-IsUsed t u =
    let (a, b) = Inner-same t in
    record {
      reached = step u.reached (inner t);
      all_waits = omega (arith, a, u.all_waits);
      all_posts = omega (arith, b, u.all_posts);
    }

Early-IsUsed : {value w p : ℕ} {s t : State} → Early s t → IsUsed value w p s → IsUsed value w p t
Early-IsUsed (woken_early s n e) u = record {
  reached = step u.reached (wake s n e);
  all_waits = omega (arith, e, u.all_waits);
  all_posts = u.all_posts;
}

Used-IsUsed : {value w p : ℕ} {s : State} → Used zem value w p s → IsUsed value w p s
Used-IsUsed {value} Semaphore.init = record {
  reached = init value;
  all_waits = refl;
  all_posts = refl;
}
Used-IsUsed (waited {s = s} u) =
    let i = Used-IsUsed u in
    record {
      reached = step i.reached (call_wait s);
      all_waits = omega (arith, i.all_waits);
      all_posts = i.all_posts;
    }
Used-IsUsed (posted {s = s} u) =
    let i = Used-IsUsed u in
    record {
      reached = step i.reached (call_post s);
      all_waits = i.all_waits;
      all_posts = omega (arith, i.all_posts);
    }
Used-IsUsed (went_on u t) = Inner-IsUsed t (Used-IsUsed u)
Used-IsUsed (disturbed u t) = Early-IsUsed t (Used-IsUsed u)

pub zem-IsSemaphore : IsSemaphore zem
zem-IsSemaphore = record {
  safe = λ value w p s u.
      let i = Used-IsUsed u in
      omega (arith, i.all_posts, (Reachable-semaphore value s i.reached).0);
  live = λ value w p s u h k.
      let i = Used-IsUsed u in
      let (count, go, none) = Reachable-semaphore value s i.reached in
      elim (Bool-cases (leb 1 (awake s))) [
        | inl e ↦ go (ground (arith, e))
        | inr e ↦
            let still : awake s ≡ 0 = ground (arith, e) in
            absurd (
              omega (
                arith,
                count,
                still,
                i.all_waits,
                i.all_posts,
                h,
                k,
                none still (omega (arith, still, i.all_waits, h)),
              ))
      ];
}
