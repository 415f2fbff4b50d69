-- ===== src/Barrier/Meeting.antt =====
-- Nobody passes the barrier of exersises/concurrency/semaphores/exercise/barrier.c before all have
-- arrived, and all who arrived can.
use osvcp.Prelude.{ℕ, ◌+◌, ◌≤◌, ◌<◌, ◌≡◌, refl, arith}
use osvcp.Barrier.{
  State, Step, wait_mutex, arrive, is_last, not_last, start_posting, start_waiting, post_barrier,
  stop_posting, pass, Reachable, init, step,
}

-- The posts that were made or are still to come, for a thread each.
abbrev granted : State → ℕ
granted s = s.barrier + s.passed + s.posts

pub record IsMeeting (n : ℕ) (s : State) : Type 0 where
  pub total : s.total ≡ n
  pub mutex : s.mutex + s.arriving + s.counted + s.last + s.other ≡ 1
  pub arrived : s.arrived ≡ s.counted + s.last + s.other + s.posting + s.waiting + s.passed
  pub before : s.arrived < n → granted s + s.last + s.posting ≡ 0
  pub deciding : s.arrived ≡ n → 0 < s.counted + s.last → granted s + s.posting ≡ 0
  -- once the last has gone on, everybody of the `n` is let through
  pub after : n ≤ s.arrived → s.counted + s.last ≡ 0 → granted s ≡ n
  pub beyond : n < s.arrived → (granted s ≡ n) × (s.last ≡ 0)

Step-IsMeeting : (n : ℕ) {s t : State} → 0 < n → Step s t → IsMeeting n s → IsMeeting n t
Step-IsMeeting k p (wait_mutex s n e) i =
    ground (arith, i.total, i.mutex, i.arrived, i.before, i.deciding, i.after, i.beyond)
Step-IsMeeting k p (arrive s n e) i =
    ground (arith, i.total, i.mutex, i.arrived, i.before, i.deciding, i.after, i.beyond)
Step-IsMeeting k p (is_last s n e f) i =
    ground (arith, i.total, i.mutex, i.arrived, i.before, i.deciding, i.after, i.beyond)
Step-IsMeeting k p (not_last s n e f) i =
    ground (arith, i.total, i.mutex, i.arrived, i.before, i.deciding, i.after, i.beyond)
Step-IsMeeting k p (start_posting s n e) i =
    ground (arith, i.total, i.mutex, i.arrived, i.before, i.deciding, i.after, i.beyond)
Step-IsMeeting k p (start_waiting s n e) i =
    ground (arith, i.total, i.mutex, i.arrived, i.before, i.deciding, i.after, i.beyond)
Step-IsMeeting k p (post_barrier s n e) i =
    ground (arith, i.total, i.mutex, i.arrived, i.before, i.deciding, i.after, i.beyond)
Step-IsMeeting k p (stop_posting s n e f) i =
    ground (arith, i.total, i.mutex, i.arrived, i.before, i.deciding, i.after, i.beyond)
Step-IsMeeting k p (pass s n m e f) i =
    ground (arith, i.total, i.mutex, i.arrived, i.before, i.deciding, i.after, i.beyond)

pub Reachable-IsMeeting : (n : ℕ) (s : State) → 0 < n → Reachable n s → IsMeeting n s
Reachable-IsMeeting n s p (init _) = record {
  total = refl;
  mutex = refl;
  arrived = refl;
  before = λ h. refl;
  deciding = λ h k. refl;
  after = λ h k. omega (arith, h, p);
  beyond = λ h. absurd (omega (arith, h));
}
Reachable-IsMeeting n s p (step {s = r} run t) =
    Step-IsMeeting n p t (Reachable-IsMeeting n r p run)

-- However many threads call it and however they interleave, none has passed a barrier for `n`
-- threads before `n` have arrived, and never do more than `n` pass.
pub Reachable-meet :
    (n : ℕ) (s : State) → 0 < n → Reachable n s → (0 < s.passed → n ≤ s.arrived) × (s.passed ≤ n)
Reachable-meet n s p r =
    let i = Reachable-IsMeeting n s p r in
    (
      λ h. ground (arith, i.before, h),
      ground (arith, i.total, i.mutex, i.arrived, i.before, i.deciding, i.after, i.beyond),
    )

-- When `n` threads have arrived and none is left in the first part or in the loop of posts, the
-- semaphore lets through exactly those that wait for it.
pub Reachable-all_pass :
    (n : ℕ) (s : State)
    → 0 < n
    → Reachable n s
    → s.arrived ≡ n
    → s.mutex ≡ 1
    → s.posting ≡ 0
    → s.posts ≡ 0
    → s.barrier ≡ s.waiting
Reachable-all_pass n s p r a m q z =
    let i = Reachable-IsMeeting n s p r in ground (arith, i.mutex, i.arrived, i.after)
