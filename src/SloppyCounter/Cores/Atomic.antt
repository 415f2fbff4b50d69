-- ===== src/SloppyCounter/Cores/Atomic.antt =====
-- How the counts of
-- exersises/concurrency/locked-data-structures/2/cpu_based/sloppy_counter_cpu_based.c stand to those
-- of a counter whose updates are atomic. An update counts there when its thread increments the local
-- count: the transfer that it may have to make is then already made there.
use osvcp.Prelude.{
  ℕ, zero, suc, ◌+◌, ◌≤◌, ◌<◌, ◌≡◌, ◌≢◌, refl, ap, sym, ◌∙◌, inl, inr, List, [], ◌∷◌, arith, set,
  length, length-set, sum, sum-set, sum-set_both, ◌==◌, ==_iff, leb, Bool-cases, if◌then◌else◌,
}
use osvcp.SloppyCounter.{Counter, count_at}
use osvcp.SloppyCounter.Cores.{
  Place, between, counting, testing, wanting, moving, releasing, resetting, unlocking, Thread,
  State, set_count, At,
}
use osvcp.SloppyCounter.Cores.Locks.{local_weight, IsLocked}
use osvcp.SloppyCounter.Cores.Counts.{count_at-set, others}

-- What the atomic counter has transferred already, and what it has reset already.
abbrev pub moved_there : ℕ → Place → ℕ → ℕ
moved_there limit between n = 0
moved_there limit counting n = 0
moved_there limit testing n = if leb limit n then n else 0
moved_there limit wanting n = n
moved_there limit moving n = n
moved_there limit releasing n = 0
moved_there limit resetting n = 0
moved_there limit unlocking n = 0

abbrev pub reset_there : ℕ → Place → ℕ → ℕ
reset_there limit between n = 0
reset_there limit counting n = 0
reset_there limit testing n = if leb limit n then n else 0
reset_there limit wanting n = n
reset_there limit moving n = n
reset_there limit releasing n = n
reset_there limit resetting n = n
reset_there limit unlocking n = 0

abbrev pub ahead : ℕ → List ℕ → Thread → ℕ
ahead limit counts t = moved_there limit t.place (count_at counts t.cpu_core)

abbrev pub behind : ℕ → ℕ → List ℕ → Thread → ℕ
behind limit core counts t =
    if t.cpu_core == core then reset_there limit t.place (count_at counts t.cpu_core) else 0

pub record IsAtomic (limit : ℕ) (s : State) (a : Counter) : Type 0 where
  pub global :
      a.global_count ≡ s.counter.global_count + sum (ahead limit s.counter.local_counts) s.threads
  pub locals :
      (core : ℕ)
      → count_at s.counter.local_counts core
        ≡ count_at a.local_counts core + sum (behind limit core s.counter.local_counts) s.threads
  pub size : length a.local_counts ≡ length s.counter.local_counts

-- A step of one thread that changes no local count.
pub same_counts :
    (limit : ℕ) (s s' : State) (i : ℕ) (t t' : Thread) (p : Place) (a : Counter)
    → IsAtomic limit s a
    → At s i t p
    → s'.threads ≡ set s.threads i t'
    → s'.counter.local_counts ≡ s.counter.local_counts
    → t'.cpu_core ≡ t.cpu_core
    → reset_there limit t'.place (count_at s.counter.local_counts t.cpu_core)
      ≡ reset_there limit p (count_at s.counter.local_counts t.cpu_core)
    → s'.counter.global_count + ahead limit s.counter.local_counts t'
      ≡ s.counter.global_count + moved_there limit p (count_at s.counter.local_counts t.cpu_core)
    → IsAtomic limit s' a
same_counts limit s s' i t t' p a h at f g k r m =
    let xs = s.counter.local_counts in
    let n = count_at xs t.cpu_core in
    record {
      global =
          rw (f, g)
            (omega (
              arith,
              h.global,
              m,
              ap (λ p. moved_there limit p n) at.1,
              sum-set (ahead limit xs) i s.threads t t' at.0,
            ));
      locals = λ core.
          rw (f, g)
            (omega (
              arith,
              h.locals core,
              sum-set (behind limit core xs) i s.threads t t' at.0,
              ap (λ c. if c == core then reset_there limit t'.place (count_at xs c) else 0) k,
              ap (λ v. if t.cpu_core == core then v else 0)
                  (r ∙ sym (ap (λ p. reset_there limit p n) at.1)),
            ));
      size = rw g h.size;
    }

pub only_place :
    (limit : ℕ) (s s' : State) (i : ℕ) (t : Thread) (p q : Place) (a : Counter)
    → IsAtomic limit s a
    → At s i t p
    → s'.threads ≡ set s.threads i (record t { place = q })
    → s'.counter ≡ s.counter
    → reset_there limit q (count_at s.counter.local_counts t.cpu_core)
      ≡ reset_there limit p (count_at s.counter.local_counts t.cpu_core)
    → moved_there limit q (count_at s.counter.local_counts t.cpu_core)
      ≡ moved_there limit p (count_at s.counter.local_counts t.cpu_core)
    → IsAtomic limit s' a
only_place limit s s' i t p q a h at f g r m =
    same_counts limit s s' i t (record t { place = q }) p a h at f (ap (λ c. c.local_counts) g) refl
      r (omega (arith, m, ap (λ c. c.global_count) g))

pub count_at-set_same : (xs : List ℕ) (k n : ℕ) → k < length xs → count_at (set xs k n) k ≡ n
count_at-set_same [] k n h = absurd (omega (arith, h))
count_at-set_same (x ∷ xs) zero n h = refl
count_at-set_same (x ∷ xs) (suc k) n h = count_at-set_same xs k n (omega (arith, h))

-- A step of the thread with the lock that changes its local count, and what the atomic counter makes
-- of it.
pub new_count :
    (limit : ℕ) (s s' : State) (i n : ℕ) (t : Thread) (p q : Place) (a a' : Counter)
    → IsAtomic limit s a
    → IsLocked s
    → At s i t p
    → 1 ≤ local_weight p 1
    → t.cpu_core < length s.counter.local_counts
    → s'.threads ≡ set s.threads i (record t { place = q })
    → s'.counter ≡ set_count t.cpu_core n s.counter
    → length a'.local_counts ≡ length a.local_counts
    → a'.global_count + moved_there limit p (count_at s.counter.local_counts t.cpu_core)
      ≡ a.global_count + moved_there limit q n
    → n
        + count_at a.local_counts t.cpu_core
        + reset_there limit p (count_at s.counter.local_counts t.cpu_core)
      ≡ count_at s.counter.local_counts t.cpu_core
        + count_at a'.local_counts t.cpu_core
        + reset_there limit q n
    → ((core : ℕ)
        → core ≢ t.cpu_core
        → count_at a'.local_counts core ≡ count_at a.local_counts core)
    → IsAtomic limit s' a'
new_count limit s s' i n t p q a a' h l at w there f g k gs ls os =
    let xs = s.counter.local_counts in
    let ys = set xs t.cpu_core n in
    let t' = record t { place = q } in
    let old = count_at xs t.cpu_core in
    let new : count_at ys t.cpu_core ≡ n = count_at-set_same xs t.cpu_core n there in
    let held : 1 ≤ local_weight t.place 1 = omega (arith, w, ap (λ p. local_weight p 1) at.1) in
    record {
      global =
          rw (f, g)
            (omega (
              arith,
              h.global,
              gs,
              ap (λ p. moved_there limit p old) at.1,
              ap (moved_there limit q) new,
              sum-set_both (ahead limit ys) (ahead limit xs) i s.threads t t' at.0
                  (others (moved_there limit) s i n t (λ m. refl) l at.0 held),
            ));
      locals = λ core.
          let both =
            sum-set_both (behind limit core ys) (behind limit core xs) i s.threads t t' at.0
              (λ j u ne e.
                ap (λ v. if u.cpu_core == core then v else 0)
                  (others (reset_there limit) s i n t (λ m. refl) l at.0 held j u ne e)) in
          let gone = ap (λ p. reset_there limit p old) at.1 in
          let here = ap (reset_there limit q) new in
          rw (f, g)
            (elim (Bool-cases (t.cpu_core == core)) [
              | inl e ↦
                  let same = (==_iff t.cpu_core core).0 e in
                  let x = ap (count_at xs) same in
                  let y = ap (count_at ys) same in
                  let z = ap (count_at a.local_counts) same in
                  let z' = ap (count_at a'.local_counts) same in
                  ground (arith, e, same, x, y, z, z', both, gone, here, new, ls, h.locals core)
              | inr e ↦
                  let ne : core ≢ t.cpu_core = λ q. absurd (ground (arith, e, q)) in
                  let o = os core ne in
                  let x = count_at-set xs t.cpu_core core n ne in
                  ground (arith, e, o, x, both, h.locals core)
            ]);
      size = rw g (k ∙ h.size ∙ sym (length-set xs t.cpu_core n));
    }
