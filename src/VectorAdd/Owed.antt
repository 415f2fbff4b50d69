-- ===== src/VectorAdd/Owed.antt =====
-- Which locks a thread of exersises/concurrency/concurrency-bugs has: those that it will unlock
-- before it locks them.
use osvcp.Prelude.{
  bit, bit-le_one, held_true, ℕ, ◌+◌, ◌-◌, ◌≤◌, ◌≡◌, ◌≢◌, ◌∙◌, refl, ap, sym, inl, inr, Bool, true,
  false, some, List, [], ◌∷◌, arith, hit, get_elem?, set, sum, sum-set, unique_weight,
  weight-le_sum, ◌==◌, ==_iff, if◌then◌else◌, Bool-cases,
}
use osvcp.Table.Slots.{All, All-get_elem?, All-set}
use osvcp.VectorAdd.{
  Action, lock, try_lock, add, unlock, State, start, Step, take, try_succeeds, try_fails,
  add_values, let_go, Reachable, begin, step,
}

abbrev pub owes : ℕ → List Action → ℕ
owes l [] = 0
owes l (lock k ∷ rest) = owes l rest - hit l k
owes l (try_lock dst src ∷ rest) = owes l rest - hit l src
owes l (add dst src ∷ rest) = owes l rest
owes l (unlock k ∷ rest) = hit l k + owes l rest

-- What a lock that a thread may wait for has to do with those that the thread has then.
abbrev pub Rule : Type 1
Rule = ℕ → (ℕ → ℕ) → Type 0

-- Every lock is unlocked again and none is locked twice, the values are added with both locks held,
-- and a thread waits for a lock only as the rule allows.
abbrev pub IsDisciplined : Rule → List Action → Type 0
IsDisciplined R [] = Unit {0}
IsDisciplined R (lock k ∷ rest) =
    (owes k rest ≡ 1) × R k (λ l. owes l rest - hit l k) × IsDisciplined R rest
IsDisciplined R (try_lock dst src ∷ rest) =
    (owes src rest ≡ 1)
    × (owes dst rest ≡ 1)
    × (dst ≢ src)
    × R dst (λ l. (owes l rest - hit l src) - hit l dst)
    × IsDisciplined R rest
IsDisciplined R (add dst src ∷ rest) =
    (owes dst rest ≡ 1) × (owes src rest ≡ 1) × IsDisciplined R rest
IsDisciplined R (unlock k ∷ rest) = (owes k rest ≡ 0) × IsDisciplined R rest

-- Without a lock before and after.
abbrev pub IsClosed : Rule → List Action → Type 0
IsClosed R p = IsDisciplined R p × ((l : ℕ) → owes l p ≡ 0)

-- The locks are held by the threads that have them.
pub record IsLocked (R : Rule) (s : State) : Type 0 where
  pub disciplined : All (IsDisciplined R) s.threads
  pub holders : (l : ℕ) → bit (s.held l) ≡ sum (owes l) s.threads

-- Each lock by itself, before and after it is taken, let go or tried in vain.
taken :
    (l k : ℕ) (b : Bool) (n : ℕ)
    → (l ≡ k → b ≡ false)
    → (l ≡ k → n ≡ 1)
    → bit (if l == k then true else b) + (n - hit l k) ≡ bit b + n
taken l k b n f o = elim (Bool-cases (l == k)) [
  | inl e ↦ ground (arith, f ((==_iff l k).0 e), o ((==_iff l k).0 e))
  | inr e ↦ ground arith
]

dropped :
    (l k : ℕ) (b : Bool) (n : ℕ)
    → (l ≡ k → b ≡ true)
    → bit (if l == k then false else b) + (hit l k + n) ≡ bit b + n
dropped l k b n f = elim (Bool-cases (l == k)) [
  | inl e ↦ ground (arith, f ((==_iff l k).0 e))
  | inr e ↦ ground arith
]

pub differ : (a b : ℕ) → a ≢ b → (a == b) ≡ false
differ a b h = elim (Bool-cases (a == b)) [ inl e ↦ absurd (h ((==_iff a b).0 e)) | inr e ↦ e ]

tried : (l d s n : ℕ) → (l ≡ d → n ≡ 1) → d ≢ s → n - hit l s ≡ hit l d + (n - hit l s - hit l d)
tried l d s n o ne = elim (Bool-cases (l == d)) [
  | inl e ↦
      let q = (==_iff l d).0 e in
      let other : (s == l) ≡ false = differ s l (λ h. ne (sym (h ∙ q))) in
      rw other (ground (arith, o q))
  | inr e ↦ ground arith
]

pub hit_self : (k : ℕ) → hit k k ≡ 1
hit_self k = ground arith

hit_other : (k l : ℕ) → k ≢ l → hit k l ≡ 0
hit_other k l h = ground (arith, differ l k (λ e. h (sym e)))

module _ (R : Rule) where
  -- The holders of a lock after a step of a thread.
  after :
      (s : State) (i : ℕ) (x y : List Action) (l : ℕ) (b : Bool)
      → get_elem? s.threads i ≡ some x
      → bit (s.held l) ≡ sum (owes l) s.threads
      → bit b + owes l x ≡ bit (s.held l) + owes l y
      → bit b ≡ sum (owes l) (set s.threads i y)
  after s i x y l b e h c = omega (arith, sum-set (owes l) i s.threads x y e, h, c)

  Step-IsLocked : {s t : State} → Step s t → IsLocked R s → IsLocked R t
  Step-IsLocked (take s i k rest e free) h =
      let d = All-get_elem? (IsDisciplined R) s.threads i _ e h.disciplined in
      record {
        disciplined = All-set (IsDisciplined R) s.threads i rest d.2 h.disciplined;
        holders = λ l.
            after s i (lock k ∷ rest) rest l _ e (h.holders l)
              (taken l k (s.held l) (owes l rest) (λ q. rw q free) (λ q. rw q d.0));
      }
  Step-IsLocked (try_succeeds s i dst src rest e free) h =
      let d = All-get_elem? (IsDisciplined R) s.threads i _ e h.disciplined in
      record {
        disciplined = All-set (IsDisciplined R) s.threads i rest d.4 h.disciplined;
        holders = λ l.
            after s i (try_lock dst src ∷ rest) rest l _ e (h.holders l)
              (taken l src (s.held l) (owes l rest) (λ q. rw q free) (λ q. rw q d.0));
      }
  Step-IsLocked (try_fails s i dst src rest e busy) h =
      let d = All-get_elem? (IsDisciplined R) s.threads i _ e h.disciplined in
      let again = unlock dst ∷ lock dst ∷ try_lock dst src ∷ rest in
      let here = hit_self dst in
      let other = hit_other dst src d.2 in
      record {
        disciplined =
            All-set (IsDisciplined R) s.threads i again
              (omega (arith, d.1), (omega (arith, d.1), d.3, d)) h.disciplined;
        holders = λ l.
            after s i (try_lock dst src ∷ rest) again l (s.held l) e (h.holders l)
              (ap (◌+◌ (bit (s.held l))) (tried l dst src (owes l rest) (λ q. rw q d.1) d.2));
      }
  Step-IsLocked (add_values s i dst src rest e) h =
      let d = All-get_elem? (IsDisciplined R) s.threads i _ e h.disciplined in
      record {
        disciplined = All-set (IsDisciplined R) s.threads i rest d.2 h.disciplined;
        holders = λ l. after s i (add dst src ∷ rest) rest l (s.held l) e (h.holders l) refl;
      }
  Step-IsLocked (let_go s i k rest e) h =
      let d = All-get_elem? (IsDisciplined R) s.threads i _ e h.disciplined in
      record {
        disciplined = All-set (IsDisciplined R) s.threads i rest d.1 h.disciplined;
        holders = λ l. after s i (unlock k ∷ rest) rest l _ e (h.holders l) (
            dropped l k (s.held l) (owes l rest) (λ q. rw q (
              held_true (s.held k) (
                omega (
                  arith,
                  h.holders k,
                  weight-le_sum (owes k) s.threads i (unlock k ∷ rest) e,
                  hit_self k,
                )))));
      }

  -- A thread starts and ends without a lock.
  pub start-IsLocked :
      (threads : List (List Action)) → All (IsClosed R) threads → IsLocked R (start threads)
  start-IsLocked threads h = record {
    disciplined = rules threads h;
    holders = λ l. sym (none_owed l threads h);
  }
    where
      rules : (ps : List (List Action)) → All (IsClosed R) ps → All (IsDisciplined R) ps
      rules [] h = tt
      rules (p ∷ ps) (a, b) = (a.0, rules ps b)

      none_owed : (l : ℕ) (ps : List (List Action)) → All (IsClosed R) ps → sum (owes l) ps ≡ 0
      none_owed l [] h = refl
      none_owed l (p ∷ ps) (a, b) = omega (arith, a.1 l, none_owed l ps b)

  pub Reachable-IsLocked :
      {threads : List (List Action)} {s : State}
      → All (IsClosed R) threads
      → Reachable threads s
      → IsLocked R s
  Reachable-IsLocked {threads} h begin = start-IsLocked threads h
  Reachable-IsLocked h (step r t) = Step-IsLocked t (Reachable-IsLocked h r)

  -- A lock that two threads have, they are one thread.
  pub one_holder :
      (s : State) (i j l : ℕ) (p q : List Action)
      → IsLocked R s
      → get_elem? s.threads i ≡ some p
      → get_elem? s.threads j ≡ some q
      → 1 ≤ owes l p
      → 1 ≤ owes l q
      → i ≡ j
  one_holder s i j l p q h e f a b =
      unique_weight (owes l) s.threads i j p q (omega (arith, h.holders l, bit-le_one (s.held l))) e
        f a b
