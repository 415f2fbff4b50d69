-- ===== src/SloppyCounter/Cores/Refinement.antt =====
-- exersises/concurrency/locked-data-structures/2/cpu_based/sloppy_counter_cpu_based.c does what a
-- counter does whose updates are atomic.
use osvcp.Prelude.{
  ℕ, ◌+◌, ◌≤◌, ◌<◌, ◌≡◌, ◌≢◌, refl, ap, sym, subst, ◌∙◌, some, inl, inr, List, [], ◌∷◌, arith,
  get_elem?, set, length, hit, sum, sum-set, find_weight, Zero-cases, ◌==◌, ==_iff, leb, Bool-cases,
  if◌then◌else◌,
}
use osvcp.Table.Slots.{All-get_elem?}
use osvcp.SloppyCounter.{Counter, count_at}
use osvcp.SloppyCounter.Exact.{exact_transfer, exact_update, exact_updates}
use osvcp.SloppyCounter.Totals.{InRange, length-update}
use osvcp.SloppyCounter.Cores.{
  Place, between, counting, testing, wanting, moving, releasing, resetting, unlocking, Thread,
  State, set_count, goes_to, At, Step, lock_local, count_up, find_enough, find_less, lock_global,
  move, unlock_global, reset, unlock_local,
}
use osvcp.SloppyCounter.Cores.Locks.{local_weight, has_local, hit_self, IsLocked, one_holder}
use osvcp.SloppyCounter.Cores.Counts.{IsCounted, count_there, count_at-set, todo, uncounted}
use osvcp.SloppyCounter.Cores.Atomic.{
  reset_there, behind, IsAtomic, same_counts, only_place, count_at-set_same, new_count,
}

-- A thread that is behind has the lock.
behind_locked :
    (limit core : ℕ) (counts : List ℕ) (t : Thread)
    → 1 ≤ behind limit core counts t
    → 1 ≤ has_local core t
behind_locked limit core counts t h = elim (Bool-cases (t.cpu_core == core)) [
  | inr e ↦ absurd (ground (arith, e, h))
  | inl e ↦
      subst (λ n. 1 ≤ local_weight t.place n)
        (sym (ap (hit core) ((==_iff t.cpu_core core).0 e) ∙ hit_self core))
        (at_place t.place (count_at counts t.cpu_core) (ground (arith, e, h)))
]
  where
    at_place : (p : Place) (n : ℕ) → 1 ≤ reset_there limit p n → 1 ≤ local_weight p 1
    at_place between n h = h
    at_place p n h = omega arith

-- While a thread is about to increment a local count, the atomic counter has the same.
pub nobody_behind :
    (limit : ℕ) (s : State) (i : ℕ) (t : Thread)
    → IsLocked s
    → At s i t counting
    → sum (behind limit t.cpu_core s.counter.local_counts) s.threads ≡ 0
nobody_behind limit s i t l at =
    let w = behind limit t.cpu_core s.counter.local_counts in
    elim (Zero-cases (sum w s.threads)) [
      | inl z ↦ z
      | inr q ↦
          let (j, u, e, b) = find_weight w s.threads q in
          let mine : 1 ≤ has_local t.cpu_core t = omega (
            arith,
            hit_self t.cpu_core,
            ap (λ p. local_weight p (hit t.cpu_core t.cpu_core)) at.1,
          ) in
          let same =
            one_holder s j i t.cpu_core u t l e at.0
              (behind_locked limit t.cpu_core s.counter.local_counts u b) mine in
          let both : some u ≡ some t = sym e ∙ ap (get_elem? s.threads) same ∙ at.0 in
          let there : u.place ≡ counting = ground (arith, both, at.1) in
          let none =
            ap (λ p. reset_there limit p (count_at s.counter.local_counts u.cpu_core)) there in
          absurd (ground (arith, b, none))
    ]

-- What an update does, in one step.
update-at :
    (limit core : ℕ) (a : Counter)
    → core < length a.local_counts
    → let n = count_at a.local_counts core + 1 in
      let a' = exact_update limit core a in
      (a'.global_count ≡ a.global_count + (if leb limit n then n else 0))
      × (count_at a'.local_counts core + (if leb limit n then n else 0) ≡ n)
      × ((other : ℕ)
          → other ≢ core
          → count_at a'.local_counts other ≡ count_at a.local_counts other)
unfolding exact_update exact_transfer
update-at limit core a h =
    let xs = a.local_counts in
    let n = count_at xs core + 1 in
    elim (Bool-cases (leb limit n)) [
      | inl e ↦
          rw (count_there xs core h, exact_update)
            (rw e (
              refl,
              omega (arith, count_at-set_same xs core 0 h),
              λ other ne. count_at-set xs core other 0 ne,
            ))
      | inr e ↦
          rw (count_there xs core h, exact_update)
            (rw e (
              omega arith,
              omega (arith, count_at-set_same xs core n h),
              λ other ne. count_at-set xs core other n ne,
            ))
    ]

-- A step is a step of the atomic counter, or nothing there.
abbrev pub Follows : ℕ → State → State → Counter → Type 0
Follows limit s s' a =
    (ids : List ℕ) × InRange (length a.local_counts) ids
    × IsAtomic limit s' (exact_updates limit ids a)
    × (length ids + sum todo s'.threads ≡ sum todo s.threads)

nothing :
    (limit : ℕ) (s s' : State) (i : ℕ) (t t' : Thread) (a : Counter)
    → get_elem? s.threads i ≡ some t
    → s'.threads ≡ set s.threads i t'
    → todo t' ≡ todo t
    → IsAtomic limit s' a
    → Follows limit s s' a
unfolding exact_updates
nothing limit s s' i t t' a e f k h =
    ([], tt, h, rw f (omega (arith, k, sum-set todo i s.threads t t' e)))

module _ (limit num_cpus total : ℕ) where
  counts_up :
      (s : State) (i : ℕ) (t : Thread) (a : Counter)
      → At s i t counting
      → IsLocked s
      → IsCounted num_cpus total s
      → IsAtomic limit s a
      → Follows limit s
          (goes_to i t testing (record s {
            counter =
                set_count t.cpu_core (count_at s.counter.local_counts t.cpu_core + 1) s.counter;
          }))
          a
  unfolding exact_updates
  counts_up s i t a at l c h =
      let core = t.cpu_core in
      let xs = s.counter.local_counts in
      let n = count_at xs core + 1 in
      let there : core < length xs = omega (
        arith,
        c.size,
        All-get_elem? (λ (t : Thread). t.cpu_core < num_cpus) s.threads i t at.0 c.cores,
      ) in
      let z = nobody_behind limit s i t l at in
      let same : count_at a.local_counts core ≡ count_at xs core =
        omega (arith, h.locals core, z) in
      let (x, y, o) = update-at limit core a (omega (arith, h.size, there)) in
      let w = ap (λ c. if leb limit (c + 1) then c + 1 else 0) same in
      (
        core ∷ [],
        (omega (arith, h.size, there), tt),
        new_count limit s _ i n t counting testing a (exact_update limit core a) h l at
            (omega arith) there refl refl (length-update limit core a) (omega (arith, x, w))
            (omega (arith, y, w, same)) o,
        omega (
          arith,
          sum-set todo i s.threads t (record t { place = testing }) at.0,
          ap uncounted at.1,
        ),
      )

  pub Step-Follows :
      {s s' : State} (a : Counter)
      → Step limit s s'
      → IsLocked s
      → IsCounted num_cpus total s
      → IsAtomic limit s a
      → Follows limit s s' a
  Step-Follows a (lock_local s i n t at e free) l c h =
      let t' = record t { increments = n; place = counting } in
      nothing limit s _ i t t' a at.0 refl (omega (arith, e, ap uncounted at.1))
        (same_counts limit s _ i t t' between a h at refl refl refl refl refl)
  Step-Follows a (count_up s i t at fits) l c h = counts_up s i t a at l c h
  Step-Follows a (find_enough s i t at e) l c h =
      nothing limit s _ i t (record t { place = wanting }) a at.0 refl
        (omega (arith, ap uncounted at.1))
        (only_place limit s _ i t testing wanting a h at refl refl (rw e refl) (rw e refl))
  Step-Follows a (find_less s i t at e) l c h =
      nothing limit s _ i t (record t { place = unlocking }) a at.0 refl
        (omega (arith, ap uncounted at.1))
        (only_place limit s _ i t testing unlocking a h at refl refl (rw e refl) (rw e refl))
  Step-Follows a (lock_global s i t at free) l c h =
      nothing limit s _ i t (record t { place = moving }) a at.0 refl
        (omega (arith, ap uncounted at.1))
        (only_place limit s _ i t wanting moving a h at refl refl refl refl)
  Step-Follows a (move s i t at fits) l c h =
      let t' = record t { place = releasing } in
      nothing limit s _ i t t' a at.0 refl (omega (arith, ap uncounted at.1))
        (same_counts limit s _ i t t' moving a h at refl refl refl refl (omega arith))
  Step-Follows a (unlock_global s i t at) l c h =
      nothing limit s _ i t (record t { place = resetting }) a at.0 refl
        (omega (arith, ap uncounted at.1))
        (only_place limit s _ i t releasing resetting a h at refl refl refl refl)
  Step-Follows a (reset s i t at) l c h =
      let there : t.cpu_core < length s.counter.local_counts = omega (
        arith,
        c.size,
        All-get_elem? (λ (t : Thread). t.cpu_core < num_cpus) s.threads i t at.0 c.cores,
      ) in
      nothing limit s _ i t (record t { place = unlocking }) a at.0 refl
        (omega (arith, ap uncounted at.1))
        (new_count limit s _ i 0 t resetting unlocking a a h l at (omega arith) there refl refl refl
          refl (omega arith) (λ core ne. refl))
  Step-Follows a (unlock_local s i t at) l c h =
      nothing limit s _ i t (record t { place = between }) a at.0 refl
        (omega (arith, ap uncounted at.1))
        (only_place limit s _ i t unlocking between a h at refl refl refl refl)
