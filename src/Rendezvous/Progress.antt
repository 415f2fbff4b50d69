-- ===== src/Rendezvous/Progress.antt =====
-- The threads of exersises/concurrency/semaphores/exercise/rendezvous.c come to an end.
use osvcp.Prelude.{ℕ, zero, suc, ◌+◌, ◌≤◌, ◌≡◌, refl, ap, ◌⊎◌, inl, inr, arith}
use osvcp.Rendezvous.{
  Place, absent, before, post, wait, after, returned, Parent, create_1, create_2, join_1, join_2,
  ending, ended, State, Step, start_1, start_2, joined_1, joined_2, end, before_1, post_1, wait_1,
  after_1, before_2, post_2, wait_2, after_2, Reachable,
}
use osvcp.Rendezvous.Meeting.{
  said_before, has_posted, has_waited, said_after, created, created_1, created_2, seen_1, seen_2,
  order, IsMeeting, Reachable-IsMeeting,
}

abbrev pub CanStep : State → Type 0
CanStep s = (t : State) × Step s t

-- A child without a step is not yet there, or waits for a semaphore at 0, or has returned.
abbrev IsIdle : Place → ℕ → Type 0
IsIdle p sem =
    (has_posted p ≡ created p)
    × (said_after p ≡ has_waited p)
    × (created p ≡ 1 → has_waited p ≡ 0 → sem ≡ 0)

Zero-cases : (n : ℕ) → (n ≡ 0) ⊎ ((m : ℕ) × (n ≡ suc m))
Zero-cases zero = inl refl
Zero-cases (suc n) = inr (n, refl)

first : (s : State) (p : Place) → s.child_1 ≡ p → CanStep s ⊎ IsIdle p s.s2
first s absent e = inr (refl, refl, λ h. absurd (omega (arith, h)))
first s before e = inl (_, before_1 s e)
first s post e = inl (_, post_1 s e)
first s wait e = elim (Zero-cases s.s2) [
  | inl z ↦ inr (refl, refl, λ h k. z)
  | inr q ↦ inl (_, wait_1 s q.0 e q.1)
]
first s after e = inl (_, after_1 s e)
first s returned e = inr (refl, refl, λ h k. absurd (omega (arith, k)))

second : (s : State) (p : Place) → s.child_2 ≡ p → CanStep s ⊎ IsIdle p s.s1
second s absent e = inr (refl, refl, λ h. absurd (omega (arith, h)))
second s before e = inl (_, before_2 s e)
second s post e = inl (_, post_2 s e)
second s wait e = elim (Zero-cases s.s1) [
  | inl z ↦ inr (refl, refl, λ h k. z)
  | inr q ↦ inl (_, wait_2 s q.0 e q.1)
]
second s after e = inl (_, after_2 s e)
second s returned e = inr (refl, refl, λ h k. absurd (omega (arith, k)))

is_returned : (p : Place) → said_after p ≡ 1 → p ≡ returned
is_returned returned h = refl
is_returned absent h = absurd (omega (arith, h))
is_returned before h = absurd (omega (arith, h))
is_returned post h = absurd (omega (arith, h))
is_returned wait h = absurd (omega (arith, h))
is_returned after h = absurd (omega (arith, h))

-- Both children have returned, if they are there and neither has a step.
both_returned :
    (s : State)
    → IsMeeting s
    → created_1 s.parent ≡ 1
    → created_2 s.parent ≡ 1
    → IsIdle s.child_1 s.s2
    → IsIdle s.child_2 s.s1
    → (s.child_1 ≡ returned) × (s.child_2 ≡ returned)
both_returned s i c d a b = (
  is_returned s.child_1
      (ground (arith, i.posts_1, i.posts_2, i.there_1, i.there_2, c, d, a, b, order s.child_1)),
  is_returned s.child_2
      (ground (arith, i.posts_1, i.posts_2, i.there_1, i.there_2, c, d, a, b, order s.child_2)),
)

parent_goes_on :
    (s : State) (p : Parent)
    → s.parent ≡ p
    → IsMeeting s
    → IsIdle s.child_1 s.s2
    → IsIdle s.child_2 s.s1
    → (p ≡ ended) ⊎ CanStep s
parent_goes_on s create_1 e i a b = inr (_, start_1 s e)
parent_goes_on s create_2 e i a b = inr (_, start_2 s e)
parent_goes_on s join_1 e i a b =
    inr (_, joined_1 s e (both_returned s i (ap created_1 e) (ap created_2 e) a b).0)
parent_goes_on s join_2 e i a b =
    inr (_, joined_2 s e (both_returned s i (ap created_1 e) (ap created_2 e) a b).1)
parent_goes_on s ending e i a b = inr (_, end s e)
parent_goes_on s ended e i a b = inl refl

-- Neither child says "after" before both have said "before", nor does the parent say "end" before
-- both have said "after"; and until the parent has said it, some thread can go on.
pub Reachable-rendezvous :
    (s : State)
    → Reachable s
    → (1 ≤ said_after s.child_1 + said_after s.child_2
        → (said_before s.child_1 ≡ 1) × (said_before s.child_2 ≡ 1))
      × (s.parent ≡ ended → (said_after s.child_1 ≡ 1) × (said_after s.child_2 ≡ 1))
      × ((s.parent ≡ ended) ⊎ CanStep s)
Reachable-rendezvous s r =
    let i = Reachable-IsMeeting r in
    (
      λ h. (
        omega (arith, h, i.posts_1, i.posts_2, order s.child_1, order s.child_2),
        omega (arith, h, i.posts_1, i.posts_2, order s.child_1, order s.child_2),
      ),
      λ e. (
        omega (arith, i.back_1, ap seen_1 e, order s.child_1),
        omega (arith, i.back_2, ap seen_2 e, order s.child_2),
      ),
      elim (first s s.child_1 refl) [
        | inl c ↦ inr c
        | inr a ↦ elim (second s s.child_2 refl) [
          | inl c ↦ inr c
          | inr b ↦ parent_goes_on s s.parent refl i a b
        ]
      ],
    )
