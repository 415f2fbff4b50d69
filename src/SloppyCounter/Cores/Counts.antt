-- ===== src/SloppyCounter/Cores/Counts.antt =====
-- No count is lost in
-- exersises/concurrency/locked-data-structures/2/cpu_based/sloppy_counter_cpu_based.c.
use osvcp.Prelude.{
  ℕ, zero, suc, ◌+◌, ◌≤◌, ◌<◌, ◌≡◌, ◌≢◌, refl, ap, sym, subst, ◌∙◌, some, List, [], ◌∷◌, arith,
  get_elem?, set, length, length-set, hit, sum, sum-set, sum-set_both,
}
use osvcp.Table.Slots.{All, All-get_elem?, All-set}
use osvcp.SloppyCounter.{count_at}
use osvcp.SloppyCounter.Totals
use osvcp.SloppyCounter.Totals.{total}
use osvcp.SloppyCounter.Cores.{
  Place, between, counting, testing, wanting, moving, releasing, resetting, unlocking, Thread,
  State, set_count, At, Step, lock_local, count_up, find_enough, find_less, lock_global, move,
  unlock_global, reset, unlock_local,
}
use osvcp.SloppyCounter.Cores.Locks.{local_weight, hit_self, IsLocked, one_holder}

-- The updates that a thread has not yet counted.
abbrev pub uncounted : Place → ℕ
uncounted counting = 1
uncounted _ = 0

abbrev pub todo : Thread → ℕ
todo t = t.increments + uncounted t.place

-- A local count that has been added to the global one, and not been reset.
abbrev pub twice : Place → ℕ → ℕ
twice releasing n = n
twice resetting n = n
twice _ n = 0

abbrev pub debt : List ℕ → Thread → ℕ
debt counts t = twice t.place (count_at counts t.cpu_core)

pub record IsCounted (num_cpus updates : ℕ) (s : State) : Type 0 where
  pub cores : All (λ t. t.cpu_core < num_cpus) s.threads
  pub size : length s.counter.local_counts ≡ num_cpus
  pub balance :
      total s.counter + sum todo s.threads ≡ updates + sum (debt s.counter.local_counts) s.threads

pub count_there : (xs : List ℕ) (k : ℕ) → k < length xs → get_elem? xs k ≡ some (count_at xs k)
count_there [] k h = absurd (omega (arith, h))
count_there (x ∷ xs) zero h = refl
count_there (x ∷ xs) (suc k) h = count_there xs k (omega (arith, h))

pub count_at-set : (xs : List ℕ) (k j n : ℕ) → j ≢ k → count_at (set xs k n) j ≡ count_at xs j
count_at-set [] k j n h = refl
count_at-set (x ∷ xs) zero zero n h = absurd (h refl)
count_at-set (x ∷ xs) zero (suc j) n h = refl
count_at-set (x ∷ xs) (suc k) zero n h = refl
count_at-set (x ∷ xs) (suc k) (suc j) n h = count_at-set xs k j n (λ e. h (ap suc e))

-- What depends on a local count only under its lock.
under_lock :
    (f : Place → ℕ → ℕ) (p : Place) (x y : ℕ)
    → ((n : ℕ) → f between n ≡ 0)
    → (1 ≤ local_weight p 1 → x ≡ y)
    → f p x ≡ f p y
under_lock f between x y z g = z x ∙ sym (z y)
under_lock f counting x y z g = ap (f counting) (g (omega arith))
under_lock f testing x y z g = ap (f testing) (g (omega arith))
under_lock f wanting x y z g = ap (f wanting) (g (omega arith))
under_lock f moving x y z g = ap (f moving) (g (omega arith))
under_lock f releasing x y z g = ap (f releasing) (g (omega arith))
under_lock f resetting x y z g = ap (f resetting) (g (omega arith))
under_lock f unlocking x y z g = ap (f unlocking) (g (omega arith))

-- Whoever has the lock of a local count changes nothing that depends on the others' counts.
pub others :
    (f : Place → ℕ → ℕ) (s : State) (i n : ℕ) (t : Thread)
    → ((m : ℕ) → f between m ≡ 0)
    → IsLocked s
    → get_elem? s.threads i ≡ some t
    → 1 ≤ local_weight t.place 1
    → (j : ℕ) (u : Thread) → j ≢ i
    → get_elem? s.threads j ≡ some u
    → f u.place (count_at (set s.counter.local_counts t.cpu_core n) u.cpu_core)
      ≡ f u.place (count_at s.counter.local_counts u.cpu_core)
others f s i n t z h e w j u ne g = under_lock f u.place _ _ z (λ v.
    count_at-set s.counter.local_counts t.cpu_core u.cpu_core n (λ same. ne (
      one_holder s j i t.cpu_core u t h g e
        (subst (λ m. 1 ≤ local_weight u.place m)
          (sym (ap (λ c. hit t.cpu_core c) same ∙ hit_self t.cpu_core)) v)
        (subst (λ m. 1 ≤ local_weight t.place m) (sym (hit_self t.cpu_core)) w))))

-- A step that changes no count.
same_counts :
    (c m : ℕ) (s s' : State) (i : ℕ) (t t' : Thread)
    → IsCounted c m s
    → get_elem? s.threads i ≡ some t
    → s'.threads ≡ set s.threads i t'
    → s'.counter ≡ s.counter
    → t'.cpu_core ≡ t.cpu_core
    → todo t' ≡ todo t
    → debt s.counter.local_counts t' ≡ debt s.counter.local_counts t
    → IsCounted c m s'
same_counts c m s s' i t t' h e f g k a b = record {
  cores = rw f (
      All-set (λ t. t.cpu_core < c) s.threads i t'
        (rw k (All-get_elem? (λ t. t.cpu_core < c) s.threads i t e h.cores)) h.cores);
  size = rw g h.size;
  balance =
      rw (f, g)
        (omega (
          arith,
          h.balance,
          a,
          b,
          sum-set todo i s.threads t t' e,
          sum-set (debt s.counter.local_counts) i s.threads t t' e,
        ));
}

only_place :
    (c m : ℕ) (s s' : State) (i : ℕ) (t : Thread) (p q : Place)
    → IsCounted c m s
    → At s i t p
    → s'.threads ≡ set s.threads i (record t { place = q })
    → s'.counter ≡ s.counter
    → uncounted q ≡ uncounted p
    → ((n : ℕ) → twice q n ≡ twice p n)
    → IsCounted c m s'
only_place c m s s' i t p q h a f g x y =
    let n = count_at s.counter.local_counts t.cpu_core in
    same_counts c m s s' i t (record t { place = q }) h a.0 f g refl
      (omega (arith, x, ap uncounted a.1)) (y n ∙ sym (ap (λ p. twice p n) a.1))

-- A step of the thread with the lock that changes its local count.
new_count :
    (c m : ℕ) (s s' : State) (i n : ℕ) (t t' : Thread)
    → IsCounted c m s
    → IsLocked s
    → get_elem? s.threads i ≡ some t
    → 1 ≤ local_weight t.place 1
    → s'.threads ≡ set s.threads i t'
    → s'.counter ≡ set_count t.cpu_core n s.counter
    → t'.cpu_core ≡ t.cpu_core
    → n + todo t' + debt s.counter.local_counts t
      ≡ count_at s.counter.local_counts t.cpu_core
        + todo t
        + debt (set s.counter.local_counts t.cpu_core n) t'
    → IsCounted c m s'
new_count c m s s' i n t t' h l e w f g k a =
    let xs = s.counter.local_counts in
    let there = All-get_elem? (λ t. t.cpu_core < c) s.threads i t e h.cores in
    record {
      cores = rw f (All-set (λ t. t.cpu_core < c) s.threads i t' (rw k there) h.cores);
      size = rw g (length-set xs t.cpu_core n ∙ h.size);
      balance =
          rw (f, g)
            (omega (
              arith,
              h.balance,
              a,
              sum-set todo i s.threads t t' e,
              Totals.sum-set xs t.cpu_core (count_at xs t.cpu_core) n
                  (count_there xs t.cpu_core (omega (arith, there, h.size))),
              sum-set_both (debt (set xs t.cpu_core n)) (debt xs) i s.threads t t' e
                  (others twice s i n t (λ m. refl) l e w),
            ));
    }

pub Step-IsCounted :
    {limit c m : ℕ} {s s' : State}
    → Step limit s s'
    → IsLocked s
    → IsCounted c m s
    → IsCounted c m s'
Step-IsCounted {c = c} {m = m} (lock_local s i n t a e free) l h =
    same_counts c m s _ i t (record t { increments = n; place = counting }) h a.0 refl refl refl
      (omega (arith, e, ap uncounted a.1))
      (sym (ap (λ p. twice p (count_at s.counter.local_counts t.cpu_core)) a.1))
Step-IsCounted {c = c} {m = m} (count_up s i t a fits) l h =
    new_count c m s _ i (count_at s.counter.local_counts t.cpu_core + 1) t
      (record t { place = testing }) h l a.0 (omega (arith, ap (λ p. local_weight p 1) a.1)) refl
      refl refl
      (omega (
        arith,
        ap uncounted a.1,
        ap (λ p. twice p (count_at s.counter.local_counts t.cpu_core)) a.1,
      ))
Step-IsCounted {c = c} {m = m} (find_enough s i t a e) l h =
    only_place c m s _ i t testing wanting h a refl refl refl (λ n. refl)
Step-IsCounted {c = c} {m = m} (find_less s i t a e) l h =
    only_place c m s _ i t testing unlocking h a refl refl refl (λ n. refl)
Step-IsCounted {c = c} {m = m} (lock_global s i t a free) l h =
    only_place c m s _ i t wanting moving h a refl refl refl (λ n. refl)
Step-IsCounted {c = c} {m = m} (move s i t a fits) l h =
    let t' = record t { place = releasing } in
    record {
      cores =
          All-set (λ t. t.cpu_core < c) s.threads i t'
            (All-get_elem? (λ t. t.cpu_core < c) s.threads i t a.0 h.cores) h.cores;
      size = h.size;
      balance = omega (
        arith,
        h.balance,
        ap uncounted a.1,
        ap (λ p. twice p (count_at s.counter.local_counts t.cpu_core)) a.1,
        sum-set todo i s.threads t t' a.0,
        sum-set (debt s.counter.local_counts) i s.threads t t' a.0,
      );
    }
Step-IsCounted {c = c} {m = m} (unlock_global s i t a) l h =
    only_place c m s _ i t releasing resetting h a refl refl refl (λ n. refl)
Step-IsCounted {c = c} {m = m} (reset s i t a) l h =
    new_count c m s _ i 0 t (record t { place = unlocking }) h l a.0
      (omega (arith, ap (λ p. local_weight p 1) a.1)) refl refl refl
      (omega (
        arith,
        ap uncounted a.1,
        ap (λ p. twice p (count_at s.counter.local_counts t.cpu_core)) a.1,
      ))
Step-IsCounted {c = c} {m = m} (unlock_local s i t a) l h =
    only_place c m s _ i t unlocking between h a refl refl refl (λ n. refl)
