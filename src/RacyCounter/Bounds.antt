-- ===== src/RacyCounter/Bounds.antt =====
-- What exersises/concurrency/uncontrolled-scheduling/t1.c can have counted.
use osvcp.Prelude.{ℕ, ◌+◌, ◌*◌, ◌≤◌, ◌<◌, ◌≡◌, ap, subst, arith}
use osvcp.RacyCounter.{
  Place, ready, loaded, State, Step, load_a, store_a, load_b, store_b, Reachable, begin, step,
}

-- The iterations that a thread has not finished.
abbrev left : Place → ℕ
left (ready n) = n
left (loaded value n) = n + 1

-- What a thread has read is at most what has been counted, and is not 0 if the thread has counted
-- before.
abbrev IsRead : ℕ → ℕ → Place → Type 0
IsRead max counted (ready n) = Unit {0}
IsRead max counted (loaded value n) = (value ≤ counted) × (n + 1 < max → 1 ≤ value)

record IsBounded (max : ℕ) (s : State) : Type 0 where
  counted : ℕ
  all : counted + left s.a + left s.b ≡ 2 * max
  most : s.counter ≤ counted
  some_a : left s.a < max → 1 ≤ s.counter
  some_b : left s.b < max → 1 ≤ s.counter
  read_a : IsRead max counted s.a
  read_b : IsRead max counted s.b
  end : left s.a ≡ 0 → left s.b ≡ 0 → 2 ≤ s.counter
  size_a : left s.a ≤ max
  size_b : left s.b ≤ max

IsRead-more : (max n : ℕ) (p : Place) → IsRead max n p → IsRead max (n + 1) p
IsRead-more max n (ready m) h = tt
IsRead-more max n (loaded value m) h = (omega (arith, h.0), h.1)

Step-IsBounded : {max : ℕ} {s t : State} → 2 ≤ max → Step s t → IsBounded max s → IsBounded max t
Step-IsBounded {max} m (load_a s n e) i =
    let l = ap left e in
    record {
      counted = i.counted;
      all = omega (arith, i.all, l);
      most = i.most;
      some_a = λ h. i.some_a (omega (arith, h, l));
      some_b = i.some_b;
      read_a = (i.most, λ h. i.some_a (omega (arith, h, l)));
      read_b = i.read_b;
      end = λ h. absurd (omega (arith, h));
      size_a = omega (arith, i.size_a, l);
      size_b = i.size_b;
    }
Step-IsBounded {max} m (load_b s n e) i =
    let l = ap left e in
    record {
      counted = i.counted;
      all = omega (arith, i.all, l);
      most = i.most;
      some_a = i.some_a;
      some_b = λ h. i.some_b (omega (arith, h, l));
      read_a = i.read_a;
      read_b = (i.most, λ h. i.some_b (omega (arith, h, l)));
      end = λ g h. absurd (omega (arith, h));
      size_a = i.size_a;
      size_b = omega (arith, i.size_b, l);
    }
Step-IsBounded {max} m (store_a s value n e fits) i =
    let l = ap left e in
    let r = subst (IsRead max i.counted) e i.read_a in
    record {
      counted = i.counted + 1;
      all = omega (arith, i.all, l);
      most = omega (arith, r.0);
      some_a = λ h. omega arith;
      some_b = λ h. omega arith;
      read_a = tt;
      read_b = IsRead-more max i.counted s.b i.read_b;
      end = λ g h. omega (arith, r.1 (omega (arith, g, m)));
      size_a = omega (arith, i.size_a, l);
      size_b = i.size_b;
    }
Step-IsBounded {max} m (store_b s value n e fits) i =
    let l = ap left e in
    let r = subst (IsRead max i.counted) e i.read_b in
    record {
      counted = i.counted + 1;
      all = omega (arith, i.all, l);
      most = omega (arith, r.0);
      some_a = λ h. omega arith;
      some_b = λ h. omega arith;
      read_a = IsRead-more max i.counted s.a i.read_a;
      read_b = tt;
      end = λ g h. omega (arith, r.1 (omega (arith, h, m)));
      size_a = i.size_a;
      size_b = omega (arith, i.size_b, l);
    }

Reachable-IsBounded : {max : ℕ} {s : State} → 2 ≤ max → Reachable max s → IsBounded max s
Reachable-IsBounded {max} m begin = record {
  counted = 0;
  all = omega arith;
  most = omega arith;
  some_a = λ h. absurd (omega (arith, h));
  some_b = λ h. absurd (omega (arith, h));
  read_a = tt;
  read_b = tt;
  end = λ g h. absurd (omega (arith, g, m));
  size_a = omega arith;
  size_b = omega arith;
}
Reachable-IsBounded m (step r t) = Step-IsBounded m t (Reachable-IsBounded m r)

pub Reachable-bounds :
    {max : ℕ} {s : State}
    → 2 ≤ max
    → Reachable max s
    → s.a ≡ ready 0
    → s.b ≡ ready 0
    → (2 ≤ s.counter) × (s.counter ≤ 2 * max)
Reachable-bounds m r e f =
    let i = Reachable-IsBounded m r in (i.end (ap left e) (ap left f), omega (arith, i.most, i.all))
