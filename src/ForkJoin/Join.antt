-- ===== src/ForkJoin/Join.antt =====
-- The parent of exersises/concurrency/semaphores/exercise/fork-join.c and of zemaphore.c ends after
-- its child, and does end.
use osvcp.Prelude.{ℕ, ◌≤◌, ◌<◌, ◌≡◌, ◌≢◌, refl, ap, subst, ◌⊎◌, inl, inr, arith, leb, Bool-cases}
use osvcp.Semaphore.{Operations, Used, init, waited, posted, went_on, disturbed, IsSemaphore}
use osvcp.ForkJoin.{
  Child, absent, printing, posting, leaving, Parent, creating, calling, waiting, ended, State, Step,
  create, wait, end, print, post, inside, Reachable, begin, step, disturb,
}

-- The calls that the threads have made.
abbrev waits : Parent → ℕ
waits creating = 0
waits calling = 0
waits waiting = 1
waits ended = 1

abbrev posts : Child → ℕ
posts absent = 0
posts printing = 0
posts posting = 0
posts leaving = 1

abbrev created : Parent → ℕ
created creating = 0
created _ = 1

abbrev present : Child → ℕ
present absent = 0
present _ = 1

abbrev over : Parent → ℕ
over ended = 1
over _ = 0

posts_present : (k : Child) → posts k ≤ present k
posts_present absent = omega arith
posts_present printing = omega arith
posts_present posting = omega arith
posts_present leaving = omega arith

posted_leaving : (k : Child) → 1 ≤ posts k → k ≡ leaving
posted_leaving absent h = absurd (omega (arith, h))
posted_leaving printing h = absurd (omega (arith, h))
posted_leaving posting h = absurd (omega (arith, h))
posted_leaving leaving h = refl

module _ (o : Operations) (law : IsSemaphore o) where
  record IsForked (c : State o) : Type 0 where
    used : Used o 0 (waits c.parent) (posts c.child) c.s
    there : created c.parent ≡ present c.child
    last : over c.parent ≤ posts c.child

  abbrev Uses : Parent → Child → o.State → Type 0
  Uses p c s = Used o 0 (waits p) (posts c) s

  Step-IsForked : {c d : State o} → Step o c d → IsForked c → IsForked d
  Step-IsForked (create c e) i =
      let absent_post : posts c.child ≡ 0 =
        omega (arith, posts_present c.child, i.there, ap created e) in
      record {
        used = subst (λ n. Used o 0 0 n c.s) absent_post (subst (λ p. Uses p c.child c.s) e i.used);
        there = omega arith;
        last = omega arith;
      }
  Step-IsForked (wait c e) i = record {
    used = waited (subst (λ p. Uses p c.child c.s) e i.used);
    there = omega (arith, i.there, ap created e);
    last = omega arith;
  }
  Step-IsForked (end c e h) i = record {
    used = subst (λ p. Uses p c.child c.s) e i.used;
    there = omega (arith, i.there, ap created e);
    last = omega (arith, h, law.safe 0 (waits c.parent) (posts c.child) c.s i.used);
  }
  Step-IsForked (print c e) i = record {
    used = subst (λ k. Uses c.parent k c.s) e i.used;
    there = omega (arith, i.there, ap present e);
    last = omega (arith, i.last, ap posts e);
  }
  Step-IsForked (post c e) i = record {
    used = posted (subst (λ k. Uses c.parent k c.s) e i.used);
    there = omega (arith, i.there, ap present e);
    last = omega (arith, i.last, ap posts e);
  }
  Step-IsForked (inside c t q) i = record {
    used = went_on i.used q;
    there = i.there;
    last = i.last;
  }

  Reachable-IsForked : {c : State o} → Reachable o c → IsForked c
  Reachable-IsForked begin = record { used = init; there = refl; last = omega arith }
  Reachable-IsForked (step r t) = Step-IsForked t (Reachable-IsForked r)
  Reachable-IsForked (disturb t r q) =
      let i = Reachable-IsForked r in
      record { used = disturbed i.used q; there = i.there; last = i.last }

  -- A child that has not posted goes on; after that the semaphore does.
  child_goes_on :
      (c : State o) (k : Child)
      → c.child ≡ k
      → c.parent ≡ waiting
      → IsForked c
      → o.returned c.s < 1
      → (d : State o) × Step o c d
  child_goes_on c absent e f i h = absurd (omega (arith, i.there, ap created f, ap present e))
  child_goes_on c printing e f i h = (_, print c e)
  child_goes_on c posting e f i h = (_, post c e)
  child_goes_on c leaving e f i h =
      let (t, q) =
        law.live 0 (waits c.parent) (posts c.child) c.s i.used (omega (arith, h, ap waits f))
          (omega (arith, h, ap posts e)) in
      (_, inside c t q)

  goes_on :
      (c : State o) (p : Parent)
      → c.parent ≡ p
      → IsForked c
      → (c.parent ≡ ended) ⊎ ((d : State o) × Step o c d)
  goes_on c creating e i = inr (_, create c e)
  goes_on c calling e i = inr (_, wait c e)
  goes_on c waiting e i = elim (Bool-cases (leb 1 (o.returned c.s))) [
    | inl r ↦ inr (_, end c e (ground (arith, r)))
    | inr r ↦ inr (child_goes_on c c.child refl e i (ground (arith, r)))
  ]
  goes_on c ended e i = inl e

  -- With any semaphore that keeps its promises: the parent says that it ends only after the child
  -- has printed, and until it has said so some thread can go on.
  pub Reachable-ended :
      (c : State o)
      → Reachable o c
      → ((c.parent ≢ ended) ⊎ (c.child ≡ leaving))
        × ((c.parent ≡ ended) ⊎ ((d : State o) × Step o c d))
  Reachable-ended c r =
      let i = Reachable-IsForked r in (ends c.parent refl, goes_on c c.parent refl i)
    where
      ends : (p : Parent) → c.parent ≡ p → (c.parent ≢ ended) ⊎ (c.child ≡ leaving)
      ends creating e = inl (λ f. absurd (omega (arith, ap over f, ap over e)))
      ends calling e = inl (λ f. absurd (omega (arith, ap over f, ap over e)))
      ends waiting e = inl (λ f. absurd (omega (arith, ap over f, ap over e)))
      ends ended e =
          inr (posted_leaving c.child (omega (arith, (Reachable-IsForked r).last, ap over e)))
