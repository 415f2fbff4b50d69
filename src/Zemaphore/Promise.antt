-- ===== src/Zemaphore/Promise.antt =====
-- What the semaphore of exersises/concurrency/semaphores/how-to-implement-semaphores/zemaphore.h
-- promises.
use osvcp.Prelude.{ℕ, zero, suc, ◌+◌, ◌≤◌, ◌≡◌, refl, ◌⊎◌, inl, inr, true, false, Bool-cases, arith}
use osvcp.Zemaphore.{
  State, Inner, lock_wait, sleep, lock_again, find_value, take, unlock_wait, lock_post, add, signal,
  signal_nobody, unlock_post, Step, inner, call_wait, call_post, wake, Reachable, init, step,
}

-- The threads with the mutex.
abbrev inside : State → ℕ
inside s = s.testing + s.taking + s.leaving + s.adding + s.signalling + s.finishing

-- The threads that are in a call and not asleep.
abbrev pub awake : State → ℕ
awake s = s.calling_wait + s.woken + s.calling_post + inside s

-- The posts that have been added to the value, and the waits that have been taken from it.
abbrev pub posts : State → ℕ
posts s = s.signalling + s.finishing + s.posted

abbrev pub waits : State → ℕ
waits s = s.leaving + s.waited

record IsZem (v : ℕ) (s : State) : Type 0 where
  one : inside s ≤ 1
  held : s.lock ≡ true → inside s ≡ 1
  free : s.lock ≡ false → inside s ≡ 0
  count : s.value + waits s ≡ v + posts s
  ready : 1 ≤ s.taking → 1 ≤ s.value
  woken : 1 ≤ s.sleeping → s.value ≤ s.woken + s.testing + s.taking + s.signalling

Inner-IsZem : {v : ℕ} {s t : State} → Inner s t → IsZem v s → IsZem v t
Inner-IsZem (lock_wait s n e f) i = ground (arith, i.one, i.held, i.free, i.count, i.ready, i.woken)
Inner-IsZem (sleep s n e f) i = ground (arith, i.one, i.held, i.free, i.count, i.ready, i.woken)
Inner-IsZem (lock_again s n e f) i =
    ground (arith, i.one, i.held, i.free, i.count, i.ready, i.woken)
Inner-IsZem (find_value s n m e f) i =
    ground (arith, i.one, i.held, i.free, i.count, i.ready, i.woken)
Inner-IsZem (take s n m e f) i = ground (arith, i.one, i.held, i.free, i.count, i.ready, i.woken)
Inner-IsZem (unlock_wait s n e) i = ground (arith, i.one, i.held, i.free, i.count, i.ready, i.woken)
Inner-IsZem (lock_post s n e f) i = ground (arith, i.one, i.held, i.free, i.count, i.ready, i.woken)
Inner-IsZem (add s n e) i = ground (arith, i.one, i.held, i.free, i.count, i.ready, i.woken)
Inner-IsZem (signal s n m e f) i = ground (arith, i.one, i.held, i.free, i.count, i.ready, i.woken)
Inner-IsZem (signal_nobody s n e f) i =
    ground (arith, i.one, i.held, i.free, i.count, i.ready, i.woken)
Inner-IsZem (unlock_post s n e) i = ground (arith, i.one, i.held, i.free, i.count, i.ready, i.woken)

Step-IsZem : {v : ℕ} {s t : State} → Step s t → IsZem v s → IsZem v t
Step-IsZem (inner t) i = Inner-IsZem t i
Step-IsZem (call_wait s) i = ground (arith, i.one, i.held, i.free, i.count, i.ready, i.woken)
Step-IsZem (call_post s) i = ground (arith, i.one, i.held, i.free, i.count, i.ready, i.woken)
Step-IsZem (wake s n e) i = ground (arith, i.one, i.held, i.free, i.count, i.ready, i.woken)

Reachable-IsZem : (v : ℕ) {s : State} → Reachable v s → IsZem v s
Reachable-IsZem v (init _) = record {
  one = omega arith;
  held = λ h. absurd (ground (arith, h));
  free = λ h. refl;
  count = refl;
  ready = λ h. absurd (omega (arith, h));
  woken = λ h. absurd (omega (arith, h));
}
Reachable-IsZem v (step r t) = Step-IsZem t (Reachable-IsZem v r)

Zero-cases : (n : ℕ) → (n ≡ 0) ⊎ ((m : ℕ) × (n ≡ suc m))
Zero-cases zero = inl refl
Zero-cases (suc n) = inr (n, refl)

abbrev CanGoOn : State → Type 0
CanGoOn s = (t : State) × Inner s t

-- The thread with the mutex goes on.
holder : {v : ℕ} → (s : State) → IsZem v s → 1 ≤ inside s → CanGoOn s
holder s i h = elim (Zero-cases s.testing) [
  | inr p ↦ elim (Zero-cases s.value) [
    | inl z ↦ (_, sleep s p.0 p.1 z)
    | inr q ↦ (_, find_value s p.0 q.0 p.1 q.1)
  ]
  | inl a ↦ elim (Zero-cases s.taking) [
    | inr p ↦ elim (Zero-cases s.value) [
      | inl z ↦ absurd (ground (arith, i.ready, p.1))
      | inr q ↦ (_, take s p.0 q.0 p.1 q.1)
    ]
    | inl b ↦ elim (Zero-cases s.leaving) [
      | inr p ↦ (_, unlock_wait s p.0 p.1)
      | inl c ↦ elim (Zero-cases s.adding) [
        | inr p ↦ (_, add s p.0 p.1)
        | inl d ↦ elim (Zero-cases s.signalling) [
          | inr p ↦ elim (Zero-cases s.sleeping) [
            | inl z ↦ (_, signal_nobody s p.0 p.1 z)
            | inr q ↦ (_, signal s p.0 q.0 p.1 q.1)
          ]
          | inl e ↦ elim (Zero-cases s.finishing) [
            | inr p ↦ (_, unlock_post s p.0 p.1)
            | inl f ↦ absurd (omega (arith, h, a, b, c, d, e, f))
          ]
        ]
      ]
    ]
  ]
]

-- A thread takes the mutex that nobody has.
taker : (s : State) → s.lock ≡ false → inside s ≡ 0 → 1 ≤ awake s → CanGoOn s
taker s free n h = elim (Zero-cases s.calling_wait) [
  | inr p ↦ (_, lock_wait s p.0 p.1 free)
  | inl a ↦ elim (Zero-cases s.woken) [
    | inr p ↦ (_, lock_again s p.0 p.1 free)
    | inl b ↦ elim (Zero-cases s.calling_post) [
      | inr p ↦ (_, lock_post s p.0 p.1 free)
      | inl c ↦ absurd (omega (arith, h, n, a, b, c))
    ]
  ]
]

-- However many threads call `Zem_wait` and `Zem_post` and however they interleave, with returns of
-- `Cond_wait` without a signal: the value is what it started with and the posts, less the waits
-- that have been let through, which so are never more than those. And as long as a thread is in a
-- call and not asleep some such thread can go on; when none is, nobody sleeps unless the value is 0.
pub Reachable-semaphore :
    (value : ℕ) (s : State)
    → Reachable value s
    → (s.value + waits s ≡ value + posts s)
      × (1 ≤ awake s → (t : State) × Inner s t)
      × (awake s ≡ 0 → 1 ≤ s.sleeping → s.value ≡ 0)
Reachable-semaphore v s r =
    let i = Reachable-IsZem v r in
    (
      i.count,
      λ h. elim (Bool-cases s.lock) [
        | inl e ↦ holder s i (omega (arith, i.held e))
        | inr e ↦ taker s e (i.free e) h
      ],
      λ h p. omega (arith, h, i.woken p),
    )
