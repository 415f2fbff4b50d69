-- ===== src/LockedCounter/Laws.antt =====
-- What exersises/concurrency/locked-data-structures/1/timer.c counts.
use native.Mathlib.Nat.{suc-mul, mod-add-mod, zero-mod}
use osvcp.Prelude.{
  ℕ, zero, suc, ◌+◌, ◌-◌, ◌*◌, ◌%◌, ◌^◌, ◌≤◌, ◌≡◌, ◌≢◌, refl, sym, ap, subst, ◌∙◌, ◌⊎◌, inl, inr,
  some, arith, get_elem?, set, sum, sum-set, bit, bit-le_one, weight-le_sum, unique_weight,
  find_weight, Zero-cases, Bool-cases,
}
use osvcp.Table.Slots.{All, All-get_elem?, All-set, All-set_other}
use osvcp.LockedCounter.{
  Place, outside, locked, loaded, stored, Thread, State, At, Step, lock, load, store, unlock,
  threads, Reachable, begin, step,
}

abbrev pub in_section : Place → ℕ
in_section outside = 0
in_section locked = 1
in_section (loaded value) = 1
in_section stored = 1

abbrev pub holds : Thread → ℕ
holds t = in_section t.place

-- The iteration that a thread has not counted yet.
abbrev pub uncounted : Place → ℕ
uncounted outside = 0
uncounted locked = 1
uncounted (loaded value) = 1
uncounted stored = 0

abbrev pub todo : Thread → ℕ
todo t = t.increments + uncounted t.place

-- What was read is still there.
abbrev pub Current : ℕ → Place → Type 0
Current counter outside = Unit {0}
Current counter locked = Unit {0}
Current counter (loaded value) = value ≡ counter
Current counter stored = Unit {0}

abbrev pub IsCurrent : ℕ → Thread → Type 0
IsCurrent counter t = Current counter t.place

pub record IsCounted (limit total : ℕ) (s : State) : Type 0 where
  pub counted : ℕ
  pub balance : counted + sum todo s.threads ≡ total
  pub count : s.counter ≡ counted % limit
  pub one : bit s.mutex ≡ sum holds s.threads
  pub current : All (IsCurrent s.counter) s.threads

-- A thread outside of the section has read nothing.
outside_Current : (c : ℕ) (p : Place) → in_section p ≡ 0 → Current c p
outside_Current c outside h = tt
outside_Current c locked h = tt
outside_Current c (loaded value) h = absurd (omega (arith, h))
outside_Current c stored h = tt

-- A step that leaves the counter alone.
moved :
    (limit total : ℕ) (s s' : State) (i : ℕ) (t t' : Thread)
    → IsCounted limit total s
    → get_elem? s.threads i ≡ some t
    → s'.threads ≡ set s.threads i t'
    → s'.counter ≡ s.counter
    → todo t' ≡ todo t
    → bit s'.mutex + holds t ≡ bit s.mutex + holds t'
    → IsCurrent s.counter t'
    → IsCounted limit total s'
moved limit total s s' i t t' h e f g a b c = record {
  counted = h.counted;
  balance = rw f (omega (arith, h.balance, a, sum-set todo i s.threads t t' e));
  count = g ∙ h.count;
  one = rw f (omega (arith, h.one, b, sum-set holds i s.threads t t' e));
  current = rw (f, g) (All-set (IsCurrent s.counter) s.threads i t' c h.current);
}

-- While a thread is in the section, no other one is.
alone :
    (limit total : ℕ) (s : State) (i j : ℕ) (t u : Thread)
    → IsCounted limit total s
    → get_elem? s.threads i ≡ some t
    → 1 ≤ holds t
    → j ≢ i
    → get_elem? s.threads j ≡ some u
    → holds u ≡ 0
alone limit total s i j t u h e w n f = elim (Zero-cases (holds u)) [
  | inl z ↦ z
  | inr v ↦
      absurd (
        n (
          unique_weight holds s.threads j i u t (omega (arith, h.one, bit-le_one s.mutex)) f e v w))
]

wraps : (limit c k : ℕ) → c ≡ k % limit → (c + 1) % limit ≡ (k + 1) % limit
wraps limit c k h = ap (λ x. (x + 1) % limit) h ∙ mod-add-mod k limit 1

Step-IsCounted :
    {limit total : ℕ} {s s' : State}
    → Step limit s s'
    → IsCounted limit total s
    → IsCounted limit total s'
Step-IsCounted {limit} {total} (lock s i n t a e free) h =
    moved limit total s _ i t (record { increments = n; place = locked }) h a.0 refl refl
      (omega (arith, e, ap uncounted a.1)) (omega (arith, ap in_section a.1, ap bit free)) tt
Step-IsCounted {limit} {total} (load s i t a) h =
    moved limit total s _ i t (record t { place = loaded s.counter }) h a.0 refl refl
      (omega (arith, ap uncounted a.1)) (omega (arith, ap in_section a.1)) refl
Step-IsCounted {limit} {total} (unlock s i t a) h =
    moved limit total s _ i t (record t { place = outside }) h a.0 refl refl
      (omega (arith, ap uncounted a.1))
      (omega (
        arith,
        ap in_section a.1,
        h.one,
        bit-le_one s.mutex,
        weight-le_sum holds s.threads i t a.0,
      ))
      tt
Step-IsCounted {limit} {total} (store s i value t a) h =
    let t' = record t { place = stored } in
    let there = All-get_elem? (IsCurrent s.counter) s.threads i t a.0 h.current in
    let same = subst (Current s.counter) a.1 there in
    let inside = ap in_section a.1 in
    record {
      counted = h.counted + 1;
      balance = omega (arith, h.balance, ap uncounted a.1, sum-set todo i s.threads t t' a.0);
      count = ap (λ v. (v + 1) % limit) same ∙ wraps limit s.counter h.counted h.count;
      one = omega (arith, h.one, inside, sum-set holds i s.threads t t' a.0);
      current =
          All-set_other (IsCurrent ((value + 1) % limit)) s.threads i t'
            (λ j u n e.
              outside_Current _ u.place
                (alone limit total s i j t u h a.0 (omega (arith, inside)) n e))
            tt;
    }

sum-threads : (n m : ℕ) → sum todo (threads n m) ≡ n * m
sum-threads zero m = omega arith
sum-threads (suc n) m = omega (arith, sum-threads n m, suc-mul n m)

outside-threads : (c n m : ℕ) → (sum holds (threads n m) ≡ 0) × All (IsCurrent c) (threads n m)
outside-threads c zero m = (refl, tt)
outside-threads c (suc n) m =
    (omega (arith, (outside-threads c n m).0), (tt, (outside-threads c n m).1))

pub Reachable-IsCounted :
    {limit n m : ℕ} {s : State} → Reachable limit n m s → IsCounted limit (n * m) s
Reachable-IsCounted {limit} {n} {m} begin = record {
  counted = 0;
  balance = omega (arith, sum-threads n m);
  count = sym (zero-mod limit);
  one = sym (outside-threads 0 n m).0;
  current = (outside-threads 0 n m).1;
}
Reachable-IsCounted (step r t) = Step-IsCounted t (Reachable-IsCounted r)

abbrev CanStep : ℕ → State → Type 0
CanStep limit s = (t : State) × Step limit s t

section_goes_on :
    (limit : ℕ) (s : State) (i : ℕ) (t : Thread) (p : Place)
    → At s i t p
    → 1 ≤ in_section p
    → CanStep limit s
section_goes_on limit s i t outside a h = absurd (omega (arith, h))
section_goes_on limit s i t locked a h = (_, load s i t a)
section_goes_on limit s i t (loaded value) a h = (_, store s i value t a)
section_goes_on limit s i t stored a h = (_, unlock s i t a)

-- A thread that has something to do goes on, or the one in the section does.
goes_on :
    (limit : ℕ) (s : State) (i : ℕ) (t : Thread) (p : Place)
    → bit s.mutex ≡ sum holds s.threads
    → At s i t p
    → 1 ≤ todo t
    → CanStep limit s
goes_on limit s i t outside l a h = elim (Bool-cases s.mutex) [
  | inl e ↦
      let (j, u, f, w) = find_weight holds s.threads (omega (arith, l, ap bit e)) in
      section_goes_on limit s j u u.place (f, refl) w
  | inr e ↦ (_, lock s i (t.increments - 1) t a (omega (arith, h, ap uncounted a.1)) e)
]
goes_on limit s i t locked l a h = section_goes_on limit s i t locked a (omega arith)
goes_on limit s i t (loaded value) l a h =
    section_goes_on limit s i t (loaded value) a (omega arith)
goes_on limit s i t stored l a h = section_goes_on limit s i t stored a (omega arith)

-- In every state that the threads of `main` reach, some thread can go on, or the counter is the
-- number of threads times the increments of each, with the wrap-around of 64 bits.
pub Reachable-counter :
    (num_threads increments : ℕ) (s : State)
    → Reachable (2 ^ 64) num_threads increments s
    → ((t : State) × Step (2 ^ 64) s t) ⊎ (s.counter ≡ (num_threads * increments) % 2 ^ 64)
Reachable-counter n m s r =
    let h = Reachable-IsCounted r in
    elim (Zero-cases (sum todo s.threads)) [
      | inl z ↦ inr (h.count ∙ ap (λ k. k % 2 ^ 64) (omega (arith, h.balance, z)))
      | inr w ↦
          let (i, t, e, v) = find_weight todo s.threads w in
          inl (goes_on (2 ^ 64) s i t t.place h.one (e, refl) v)
    ]
