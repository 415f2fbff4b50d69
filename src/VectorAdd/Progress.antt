-- ===== src/VectorAdd/Progress.antt =====
-- Whether a thread of exersises/concurrency/concurrency-bugs can always go on.
use osvcp.Prelude.{
  bit, ℕ, zero, suc, ◌+◌, ◌≤◌, ◌<◌, ◌≡◌, refl, ◌⊎◌, inl, inr, Bool, true, false, none, some, List,
  [], ◌∷◌, arith, get_elem?, find_weight, Bool-cases, subst, sym, ◌∙◌, ap,
}
use osvcp.Table.Slots.{All, All-get_elem?}
use osvcp.VectorAdd.{
  Action, lock, try_lock, add, unlock, global, Version, deadlock, global_order, avoid_hold_and_wait,
  try_wait, max_threads, State, Step, take, try_succeeds, try_fails, add_values, let_go, Reachable,
  main_threads,
}
use osvcp.VectorAdd.Owed.{
  Rule, owes, IsDisciplined, IsLocked, Reachable-IsLocked, one_holder, hit_self,
}
use osvcp.VectorAdd.Rules.{ascending, gated, rule}
use osvcp.VectorAdd.Workers.{main_threads-IsClosed}

abbrev pub CanStep : State → Type 0
CanStep s = (t : State) × Step s t

-- A thread can go on, or waits for a lock that is held.
abbrev Waits : State → List Action → Type 0
Waits s p = (k : ℕ) × (rest : List Action) × (p ≡ lock k ∷ rest) × (s.held k ≡ true)

goes_on :
    (s : State) (i : ℕ) (a : Action) (rest : List Action)
    → get_elem? s.threads i ≡ some (a ∷ rest)
    → CanStep s ⊎ Waits s (a ∷ rest)
goes_on s i (lock k) rest e = elim (Bool-cases (s.held k)) [
  | inl busy ↦ inr (k, rest, refl, busy)
  | inr free ↦ inl (_, take s i k rest e free)
]
goes_on s i (try_lock dst src) rest e = elim (Bool-cases (s.held src)) [
  | inl busy ↦ inl (_, try_fails s i dst src rest e busy)
  | inr free ↦ inl (_, try_succeeds s i dst src rest e free)
]
goes_on s i (add dst src) rest e = inl (_, add_values s i dst src rest e)
goes_on s i (unlock k) rest e = inl (_, let_go s i k rest e)

-- Who has a lock that is held goes on, or waits for another.
holder :
    (R : Rule) (s : State) (k : ℕ)
    → IsLocked R s
    → s.held k ≡ true
    → CanStep s
      ⊎ ((j m : ℕ) × (rest : List Action) × (get_elem? s.threads j ≡ some (lock m ∷ rest))
          × (1 ≤ owes k (lock m ∷ rest))
          × (s.held m ≡ true))
holder R s k h busy =
    let (j, q, e, o) = find_weight (owes k) s.threads (omega (arith, h.holders k, ap bit busy)) in
    first j q e o
  where
    first :
        (j : ℕ) (q : List Action)
        → get_elem? s.threads j ≡ some q
        → 1 ≤ owes k q
        → CanStep s
          ⊎ ((j m : ℕ) × (rest : List Action) × (get_elem? s.threads j ≡ some (lock m ∷ rest))
              × (1 ≤ owes k (lock m ∷ rest))
              × (s.held m ≡ true))
    first j [] e o = absurd (omega (arith, o))
    first j (a ∷ q) e o = elim (goes_on s j a q e) [
      | inl c ↦ inl c
      | inr w ↦
          let (m, rest, eq, b) = w in
          inr (j, m, rest, e ∙ ap some eq, subst (λ p. 1 ≤ owes k p) eq o, b)
    ]

-- Along ascending locks, some holder goes on.
ascends :
    (fuel : ℕ) (s : State) (k : ℕ)
    → IsLocked ascending s
    → s.held k ≡ true
    → k < 202
    → 202 ≤ fuel + k
    → CanStep s
ascends zero s k h busy b f = absurd (omega (arith, b, f))
ascends (suc fuel) s k h busy b f = elim (holder ascending s k h busy) [
  | inl c ↦ c
  | inr w ↦
      let (j, m, rest, e, o, busy') = w in
      let d = All-get_elem? (IsDisciplined ascending) s.threads j _ e h.disciplined in
      ascends fuel s m h busy' d.1.1 (omega (arith, f, d.1.0 k o))
]

-- With `global` held while waiting, the second holder goes on.
passes_gate : (s : State) (k : ℕ) → IsLocked gated s → s.held k ≡ true → CanStep s
passes_gate s k h busy = elim (holder gated s k h busy) [
  | inl c ↦ c
  | inr w ↦
      let (i, m, rest, e, o, busy') = w in
      elim (holder gated s m h busy') [
        | inl c ↦ c
        | inr w' ↦
            let (j, m', rest', e', o', busy'') = w' in
            let di = All-get_elem? (IsDisciplined gated) s.threads i _ e h.disciplined in
            let dj = All-get_elem? (IsDisciplined gated) s.threads j _ e' h.disciplined in
            let gi = has_gate m k rest o di.1 in
            let gj = has_gate m' m rest' o' dj.1 in
            -- both have `global`, so they are one thread, which does not wait for its own lock
            let same = one_holder gated s i j global _ _ h e e' gi gj in
            absurd (
              not_itself i m m' rest rest' e
                (subst (λ x. get_elem? s.threads x ≡ some (lock m' ∷ rest')) (sym same) e') di.0 o')
      ]
]
  where
    has_gate :
        (m k : ℕ) (rest : List Action)
        → 1 ≤ owes k (lock m ∷ rest)
        → gated m (λ l. owes l (lock m ∷ rest))
        → 1 ≤ owes global (lock m ∷ rest)
    has_gate m k rest o (inl z) = absurd (omega (arith, o, z k))
    has_gate m k rest o (inr g) = omega (arith, g)

    not_itself :
        (i m m' : ℕ) (rest rest' : List Action)
        → get_elem? s.threads i ≡ some (lock m ∷ rest)
        → get_elem? s.threads i ≡ some (lock m' ∷ rest')
        → owes m rest ≡ 1
        → 1 ≤ owes m (lock m' ∷ rest')
        → ⊥
    not_itself i m m' rest rest' e f a b =
        let here = hit_self m in
        let c : owes m (lock m' ∷ rest') ≡ owes m (lock m ∷ rest) =
          ap (λ o. elim o [ none ↦ 0 | some p ↦ owes m p ]) (sym f ∙ e) in
        omega (arith, a, b, c)

goes_on-rule :
    (version : Version) (d : Bool) (s : State) (k : ℕ) (h : ℕ → ℕ)
    → (version ≡ deadlock → d ≡ false)
    → IsLocked (rule version d) s
    → s.held k ≡ true
    → rule version d k h
    → CanStep s
goes_on-rule deadlock true s k h c l busy r = absurd (ground (arith, c refl))
goes_on-rule deadlock false s k h c l busy r = ascends 202 s k l busy r.1 (omega arith)
goes_on-rule global_order d s k h c l busy r = ascends 202 s k l busy r.1 (omega arith)
goes_on-rule avoid_hold_and_wait d s k h c l busy r = passes_gate s k l busy
goes_on-rule try_wait d s k h c l busy r = ascends 202 s k l busy r.1 (omega arith)

abbrev pub IsFinished : List Action → Type 0
IsFinished p = p ≡ []

-- In every state that the threads of `main` reach, fewer than 100 being started, unless the version
-- is that of vector-deadlock.c and the option `-d` is given: all threads have finished, or some
-- thread can go on (in vector-try-wait.c also by another attempt that fails).
pub main_threads-progress :
    (version : Version) (verbose enable_parallelism cause_deadlock : Bool) (loops num_threads : ℕ)
    (s : State)
    → num_threads < max_threads
    → (version ≡ deadlock → cause_deadlock ≡ false)
    → Reachable (main_threads version verbose enable_parallelism cause_deadlock loops num_threads) s
    → All IsFinished s.threads ⊎ CanStep s
main_threads-progress version verbose p c loops n s b d r = elim (unfinished s.threads) [
  | inl f ↦ inl f
  | inr w ↦
      let (i, a, rest, e) = w in
      inr (elim (goes_on s i a rest e) [
        | inl t ↦ t
        | inr w ↦
            let (k, q, same, busy) = w in
            let held =
              All-get_elem? (IsDisciplined (rule version c)) s.threads i (lock k ∷ q)
                (e ∙ ap some same) l.disciplined in
            goes_on-rule version c s k _ d l busy held.1
      ])
]
  where
    l : IsLocked (rule version c) s
    l = Reachable-IsLocked (rule version c) (main_threads-IsClosed version verbose p c loops n b) r

    unfinished :
        (ps : List (List Action))
        → All IsFinished ps
          ⊎ ((i : ℕ) × (a : Action) × (rest : List Action) × (get_elem? ps i ≡ some (a ∷ rest)))
    unfinished [] = inl tt
    unfinished ((a ∷ p) ∷ ps) = inr (zero, a, p, refl)
    unfinished ([] ∷ ps) = elim (unfinished ps) [
      | inl f ↦ inl (refl, f)
      | inr w ↦ let (i, a, rest, e) = w in inr (suc i, a, rest, e)
    ]
