-- ===== src/SloppyCounter/Cores/Locks.antt =====
-- Who has which lock in
-- exersises/concurrency/locked-data-structures/2/cpu_based/sloppy_counter_cpu_based.c.
use osvcp.Prelude.{
  ℕ, zero, suc, ◌+◌, ◌≤◌, ◌≡◌, refl, ap, sym, some, arith, get_elem?, set, hit, sum, sum-set, bit,
  bit-le_one, held_true, bit-taken, bit-dropped, weight-le_sum, unique_weight,
}
use osvcp.SloppyCounter.Cores.{
  Place, between, counting, testing, wanting, moving, releasing, resetting, unlocking, Thread,
  State, At, Step, lock_local, count_up, find_enough, find_less, lock_global, move, unlock_global,
  reset, unlock_local, threads_from, Reachable, begin, step,
}

-- What a place with the lock of the local count weighs.
abbrev pub local_weight : Place → ℕ → ℕ
local_weight between n = 0
local_weight counting n = n
local_weight testing n = n
local_weight wanting n = n
local_weight moving n = n
local_weight releasing n = n
local_weight resetting n = n
local_weight unlocking n = n

abbrev pub has_local : ℕ → Thread → ℕ
has_local core t = local_weight t.place (hit core t.cpu_core)

abbrev pub global_weight : Place → ℕ
global_weight moving = 1
global_weight releasing = 1
global_weight _ = 0

abbrev pub has_global : Thread → ℕ
has_global t = global_weight t.place

pub record IsLocked (s : State) : Type 0 where
  pub locals : (core : ℕ) → bit (s.local_locks core) ≡ sum (has_local core) s.threads
  pub globals : bit s.global_lock ≡ sum has_global s.threads

-- A step of one thread.
moved :
    (s s' : State) (i : ℕ) (t t' : Thread) (p : Place)
    → At s i t p
    → s'.threads ≡ set s.threads i t'
    → ((core : ℕ)
        → bit (s.local_locks core) ≡ sum (has_local core) s.threads
        → bit (s'.local_locks core) + local_weight p (hit core t.cpu_core)
          ≡ bit (s.local_locks core) + has_local core t')
    → (bit s.global_lock ≡ sum has_global s.threads
        → bit s'.global_lock + global_weight p ≡ bit s.global_lock + has_global t')
    → IsLocked s
    → IsLocked s'
moved s s' i t t' p a e f g h = record {
  locals = λ core. rw e (
      omega (
        arith,
        sum-set (has_local core) i s.threads t t' a.0,
        f core (h.locals core),
        h.locals core,
        ap (λ q. local_weight q (hit core t.cpu_core)) a.1,
      ));
  globals = rw e (
      omega (
        arith,
        sum-set has_global i s.threads t t' a.0,
        g h.globals,
        h.globals,
        ap global_weight a.1,
      ));
}

-- Where no lock changes.
stays :
    (s s' : State) (i : ℕ) (t : Thread) (p q : Place)
    → At s i t p
    → s'.threads ≡ set s.threads i (record t { place = q })
    → s'.local_locks ≡ s.local_locks
    → s'.global_lock ≡ s.global_lock
    → ((n : ℕ) → local_weight p n ≡ local_weight q n)
    → global_weight p ≡ global_weight q
    → IsLocked s
    → IsLocked s'
stays s s' i t p q a e l g x y h =
    moved s s' i t (record t { place = q }) p a e
      (λ core w. rw l (omega (arith, x (hit core t.cpu_core)))) (λ w. rw g (omega (arith, y))) h

pub hit_self : (k : ℕ) → hit k k ≡ 1
hit_self k = ground arith

Step-IsLocked : {limit : ℕ} {s s' : State} → Step limit s s' → IsLocked s → IsLocked s'
Step-IsLocked (lock_local s i n t a e free) h =
    moved s _ i t (record t { increments = n; place = counting }) between a refl
      (λ core w. omega (arith, bit-taken core t.cpu_core (s.local_locks core) (λ q. rw q free)))
      (λ w. refl) h
Step-IsLocked (count_up s i t a fits) h =
    stays s _ i t counting testing a refl refl refl (λ n. refl) refl h
Step-IsLocked (find_enough s i t a e) h =
    stays s _ i t testing wanting a refl refl refl (λ n. refl) refl h
Step-IsLocked (find_less s i t a e) h =
    stays s _ i t testing unlocking a refl refl refl (λ n. refl) refl h
Step-IsLocked (lock_global s i t a free) h =
    moved s _ i t (record t { place = moving }) wanting a refl (λ core w. refl)
      (λ w. ground (arith, free)) h
Step-IsLocked (move s i t a fits) h =
    stays s _ i t moving releasing a refl refl refl (λ n. refl) refl h
Step-IsLocked (unlock_global s i t a) h =
    moved s _ i t (record t { place = resetting }) releasing a refl (λ core w. refl)
      (λ w. omega (
        arith,
        bit-le_one s.global_lock,
        w,
        weight-le_sum has_global s.threads i t a.0,
        ap global_weight a.1,
      ))
      h
Step-IsLocked (reset s i t a) h =
    stays s _ i t resetting unlocking a refl refl refl (λ n. refl) refl h
Step-IsLocked (unlock_local s i t a) h =
    moved s _ i t (record t { place = between }) unlocking a refl
      (λ core w. omega (
        arith,
        bit-dropped core t.cpu_core (s.local_locks core) (λ q. rw q (
            held_true (s.local_locks t.cpu_core) (
              omega (
                arith,
                h.locals t.cpu_core,
                hit_self t.cpu_core,
                weight-le_sum (has_local t.cpu_core) s.threads i t a.0,
                ap (λ q. local_weight q (hit t.cpu_core t.cpu_core)) a.1,
              )))),
      ))
      (λ w. omega arith) h

pub sum-threads_from :
    (w : Thread → ℕ) (num_cpus increments i n : ℕ)
    → ((t : Thread) → t.place ≡ between → w t ≡ 0)
    → sum w (threads_from num_cpus increments i n) ≡ 0
sum-threads_from w c m i zero z = refl
sum-threads_from w c m i (suc n) z = omega (
  arith,
  z (record { cpu_core = _; increments = m; place = between }) refl,
  sum-threads_from w c m (suc i) n z,
)

pub Reachable-IsLocked :
    (limit num_cpus increments n : ℕ) {s : State}
    → Reachable limit num_cpus (threads_from num_cpus increments 0 n) s
    → IsLocked s
Reachable-IsLocked limit c m n begin = record {
  locals = λ core. sym (
      sum-threads_from (has_local core) c m 0 n
        (λ t e. ap (λ q. local_weight q (hit core t.cpu_core)) e));
  globals = sym (sum-threads_from has_global c m 0 n (λ t e. ap global_weight e));
}
Reachable-IsLocked limit c m n (step r t) = Step-IsLocked t (Reachable-IsLocked limit c m n r)

-- Two threads with the lock of one local count are one thread.
pub one_holder :
    (s : State) (i j core : ℕ) (t u : Thread)
    → IsLocked s
    → get_elem? s.threads i ≡ some t
    → get_elem? s.threads j ≡ some u
    → 1 ≤ has_local core t
    → 1 ≤ has_local core u
    → i ≡ j
one_holder s i j core t u h e f a b =
    unique_weight (has_local core) s.threads i j t u
      (omega (arith, h.locals core, bit-le_one (s.local_locks core))) e f a b
