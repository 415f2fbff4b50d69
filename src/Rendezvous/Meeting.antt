-- ===== src/Rendezvous/Meeting.antt =====
-- The children of exersises/concurrency/semaphores/exercise/rendezvous.c meet.
use osvcp.Prelude.{ℕ, ◌+◌, ◌≤◌, ◌≡◌, refl, ap, arith}
use osvcp.Rendezvous.{
  Place, absent, before, post, wait, after, returned, Parent, create_1, create_2, join_1, ending,
  ended, State, Step, start_1, start_2, joined_1, joined_2, end, before_1, post_1, wait_1, after_1,
  before_2, post_2, wait_2, after_2, Reachable, init, step,
}

-- How far a child is.
abbrev pub said_before : Place → ℕ
said_before absent = 0
said_before before = 0
said_before _ = 1

abbrev pub has_posted : Place → ℕ
has_posted absent = 0
has_posted before = 0
has_posted post = 0
has_posted _ = 1

abbrev pub has_waited : Place → ℕ
has_waited after = 1
has_waited returned = 1
has_waited _ = 0

abbrev pub said_after : Place → ℕ
said_after returned = 1
said_after _ = 0

abbrev pub created : Place → ℕ
created absent = 0
created _ = 1

-- Which children the parent has created, and which it has seen returned.
abbrev pub created_1 : Parent → ℕ
created_1 create_1 = 0
created_1 _ = 1

abbrev pub created_2 : Parent → ℕ
created_2 create_1 = 0
created_2 create_2 = 0
created_2 _ = 1

abbrev pub seen_1 : Parent → ℕ
seen_1 create_1 = 0
seen_1 create_2 = 0
seen_1 join_1 = 0
seen_1 _ = 1

abbrev pub seen_2 : Parent → ℕ
seen_2 ending = 1
seen_2 ended = 1
seen_2 _ = 0

pub record IsMeeting (s : State) : Type 0 where
  pub posts_1 : s.s1 + has_waited s.child_2 ≡ has_posted s.child_1
  pub posts_2 : s.s2 + has_waited s.child_1 ≡ has_posted s.child_2
  pub there_1 : created s.child_1 ≡ created_1 s.parent
  pub there_2 : created s.child_2 ≡ created_2 s.parent
  pub back_1 : seen_1 s.parent ≤ said_after s.child_1
  pub back_2 : seen_2 s.parent ≤ said_after s.child_2

pub order :
    (p : Place)
    → (has_waited p ≤ has_posted p)
      × (has_posted p ≤ said_before p)
      × (said_before p ≤ created p)
      × (said_after p ≤ has_waited p)
      × (created p ≤ 1)
order absent = (omega arith, omega arith, omega arith, omega arith, omega arith)
order before = (omega arith, omega arith, omega arith, omega arith, omega arith)
order post = (omega arith, omega arith, omega arith, omega arith, omega arith)
order wait = (omega arith, omega arith, omega arith, omega arith, omega arith)
order after = (omega arith, omega arith, omega arith, omega arith, omega arith)
order returned = (omega arith, omega arith, omega arith, omega arith, omega arith)

at :
    {p q : Place}
    → p ≡ q
    → (has_waited p ≡ has_waited q)
      × (has_posted p ≡ has_posted q)
      × (said_after p ≡ said_after q)
      × (created p ≡ created q)
at e = (ap has_waited e, ap has_posted e, ap said_after e, ap created e)

parent_at :
    {p q : Parent}
    → p ≡ q
    → (created_1 p ≡ created_1 q)
      × (created_2 p ≡ created_2 q)
      × (seen_1 p ≡ seen_1 q)
      × (seen_2 p ≡ seen_2 q)
parent_at e = (ap created_1 e, ap created_2 e, ap seen_1 e, ap seen_2 e)

Step-IsMeeting : {s t : State} → Step s t → IsMeeting s → IsMeeting t
Step-IsMeeting (start_1 s e) i = ground (
  arith,
  parent_at e,
  order s.child_1,
  order s.child_2,
  i.posts_1,
  i.posts_2,
  i.there_1,
  i.there_2,
  i.back_1,
  i.back_2,
)
Step-IsMeeting (start_2 s e) i = ground (
  arith,
  parent_at e,
  order s.child_1,
  order s.child_2,
  i.posts_1,
  i.posts_2,
  i.there_1,
  i.there_2,
  i.back_1,
  i.back_2,
)
Step-IsMeeting (joined_1 s e f) i =
    ground
      (arith, parent_at e, at f, i.posts_1, i.posts_2, i.there_1, i.there_2, i.back_1, i.back_2)
Step-IsMeeting (joined_2 s e f) i =
    ground
      (arith, parent_at e, at f, i.posts_1, i.posts_2, i.there_1, i.there_2, i.back_1, i.back_2)
Step-IsMeeting (end s e) i =
    ground (arith, parent_at e, i.posts_1, i.posts_2, i.there_1, i.there_2, i.back_1, i.back_2)
Step-IsMeeting (before_1 s e) i =
    ground (arith, at e, i.posts_1, i.posts_2, i.there_1, i.there_2, i.back_1, i.back_2)
Step-IsMeeting (post_1 s e) i =
    ground (arith, at e, i.posts_1, i.posts_2, i.there_1, i.there_2, i.back_1, i.back_2)
Step-IsMeeting (wait_1 s n e f) i =
    ground (arith, at e, f, i.posts_1, i.posts_2, i.there_1, i.there_2, i.back_1, i.back_2)
Step-IsMeeting (after_1 s e) i =
    ground (arith, at e, i.posts_1, i.posts_2, i.there_1, i.there_2, i.back_1, i.back_2)
Step-IsMeeting (before_2 s e) i =
    ground (arith, at e, i.posts_1, i.posts_2, i.there_1, i.there_2, i.back_1, i.back_2)
Step-IsMeeting (post_2 s e) i =
    ground (arith, at e, i.posts_1, i.posts_2, i.there_1, i.there_2, i.back_1, i.back_2)
Step-IsMeeting (wait_2 s n e f) i =
    ground (arith, at e, f, i.posts_1, i.posts_2, i.there_1, i.there_2, i.back_1, i.back_2)
Step-IsMeeting (after_2 s e) i =
    ground (arith, at e, i.posts_1, i.posts_2, i.there_1, i.there_2, i.back_1, i.back_2)

pub Reachable-IsMeeting : {s : State} → Reachable s → IsMeeting s
Reachable-IsMeeting init = record {
  posts_1 = refl;
  posts_2 = refl;
  there_1 = refl;
  there_2 = refl;
  back_1 = omega arith;
  back_2 = omega arith;
}
Reachable-IsMeeting (step r t) = Step-IsMeeting t (Reachable-IsMeeting r)
