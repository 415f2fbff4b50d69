-- ===== src/VectorAdd/Races.antt =====
-- Two threads of exersises/concurrency/concurrency-bugs that both add: the vectors that they use.
use osvcp.Prelude.{ℕ, ◌<◌, ◌≡◌, ◌≢◌, Bool, some, List, ◌∷◌, arith, get_elem?, sym, subst}
use osvcp.Table.Slots.{All-get_elem?}
use osvcp.VectorAdd.{Action, add, Version, max_threads, State, Reachable, main_threads}
use osvcp.VectorAdd.Owed.{Rule, owes, IsDisciplined, IsLocked, Reachable-IsLocked, one_holder}
use osvcp.VectorAdd.Rules.{rule}
use osvcp.VectorAdd.Workers.{main_threads-IsClosed}

-- The locks of one thread are not those of another.
other_locks :
    (R : Rule) (s : State) (i j : ℕ) (p q : List Action)
    → IsLocked R s
    → get_elem? s.threads i ≡ some p
    → get_elem? s.threads j ≡ some q
    → i ≢ j
    → (l k : ℕ) → owes l p ≡ 1
    → owes k q ≡ 1
    → l ≢ k
other_locks R s i j p q h e f ne l k a b same =
    let c : owes l q ≡ 1 = subst (λ x. owes x q ≡ 1) (sym same) b in
    ne (one_holder R s i j l p q h e f (omega (arith, a)) (omega (arith, c)))

-- In every state that the threads of `main` reach, in each version of `vector_add` and with any of
-- the options, fewer than 100 threads being started: when two different threads are both in the
-- loop over the values, the vector that one of them writes is neither written nor read by the other.
pub main_threads-no_race :
    (version : Version) (verbose enable_parallelism cause_deadlock : Bool) (loops num_threads : ℕ)
    (s : State) (i j dst src dst' src' : ℕ) (rest rest' : List Action)
    → num_threads < max_threads
    → Reachable (main_threads version verbose enable_parallelism cause_deadlock loops num_threads) s
    → get_elem? s.threads i ≡ some (add dst src ∷ rest)
    → get_elem? s.threads j ≡ some (add dst' src' ∷ rest')
    → i ≢ j
    → (dst ≢ dst') × (dst ≢ src') × (src ≢ dst')
main_threads-no_race version verbose p c loops n s i j dst src dst' src' rest rest' h r e f ne =
    let R = rule version c in
    let k = Reachable-IsLocked R (main_threads-IsClosed version verbose p c loops n h) r in
    let a = All-get_elem? (IsDisciplined R) s.threads i _ e k.disciplined in
    let b = All-get_elem? (IsDisciplined R) s.threads j _ f k.disciplined in
    let apart = other_locks R s i j _ _ k e f ne in
    (apart dst dst' a.0 b.0, apart dst src' a.0 b.1, apart src dst' a.1 b.0)
