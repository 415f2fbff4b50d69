-- ===== src/VectorAdd/NoLock/Result.antt =====
-- What the threads of main-common.c get with exersises/concurrency/concurrency-bugs/vector-nolock.c.
use native.Mathlib.Nat.{suc-mul}
use osvcp.Prelude.{
  ℕ, zero, suc, ◌+◌, ◌*◌, ◌/◌, ◌%◌, ◌^◌, ◌<◌, ◌≡◌, refl, ap, Bool, true, false, not, ◌&&◌, inl, inr,
  List, [], ◌∷◌, ◌++◌, arith, sum, sum-append, ◌==◌, leb, ltb, Bool-cases, if◌then◌else◌,
}
use osvcp.Table.Slots.{All}
use osvcp.VectorAdd.{thread_arg, vector_size}
use osvcp.VectorAdd.NoLock.{
  Action, State, adds_from, vector_add, worker, threads_from, Reachable, begin, step,
}
use osvcp.VectorAdd.NoLock.Totals.{owed, owed_by, Reads, IsCounted, Step-IsCounted}

All-join : {A : Type 0} (Q : A → Type 0) (xs ys : List A) → All Q xs → All Q ys → All Q (xs ++ ys)
All-join Q [] ys a b = b
All-join Q (x ∷ xs) ys a b = (a.0, All-join Q xs ys a.1 b)

owed-adds_none :
    (dst src x i j n : ℕ) → (dst == x) ≡ false → owed_by x i (adds_from dst src j n) ≡ 0
unfolding adds_from
owed-adds_none dst src x i j zero e = refl
owed-adds_none dst src x i j (suc n) e = ground (arith, e, owed-adds_none dst src x i (suc j) n e)

owed-adds_from :
    (dst src x i j n : ℕ)
    → (dst == x) ≡ true
    → owed_by x i (adds_from dst src j n) ≡ (if leb j i && ltb i (j + n) then src else 0)
unfolding adds_from
owed-adds_from dst src x i j zero e = ground arith
owed-adds_from dst src x i j (suc n) e = ground (arith, e, owed-adds_from dst src x i (suc j) n e)

-- What one call of `vector_add` adds to each value of vector `x`.
abbrev share : ℕ → ℕ × ℕ → ℕ
share x vectors = if vectors.0 == x then vectors.1 else 0

owed-vector_add :
    (dst src x i : ℕ) → i < vector_size → owed_by x i (vector_add dst src) ≡ share x (dst, src)
owed-vector_add dst src x i h = elim (Bool-cases (dst == x)) [
  | inl e ↦ ground (arith, e, owed-adds_from dst src x i 0 100 e)
  | inr e ↦ ground (arith, e, owed-adds_none dst src x i 0 100 e)
]

owed-worker :
    (loops : ℕ) (vectors : ℕ × ℕ) (x i : ℕ)
    → i < vector_size
    → owed_by x i (worker loops vectors) ≡ loops * share x vectors
unfolding worker
owed-worker zero vectors x i h = omega arith
owed-worker (suc loops) vectors x i h =
    let rest = worker loops vectors in
    omega (
      arith,
      sum-append (owed x i) (vector_add vectors.0 vectors.1) rest,
      owed-vector_add vectors.0 vectors.1 x i h,
      owed-worker loops vectors x i h,
      suc-mul loops (share x vectors),
    )

-- What `n` threads from thread `t` on add to each value of vector `x`.
abbrev pub gains : (ℕ → ℕ × ℕ) → ℕ → ℕ → ℕ → ℕ → ℕ
gains args loops x t zero = 0
gains args loops x t (suc n) = loops * share x (args t) + gains args loops x (suc t) n

owed-threads_from :
    (par dead : Bool) (loops x i t n : ℕ)
    → i < vector_size
    → sum (owed_by x i) (threads_from par dead loops t n) ≡ gains (thread_arg par dead) loops x t n
unfolding threads_from
owed-threads_from par dead loops x i t zero h = refl
owed-threads_from par dead loops x i t (suc n) h = omega (
  arith,
  owed-worker loops (thread_arg par dead t) x i h,
  owed-threads_from par dead loops x i (suc t) n h,
)

-- The vectors that are only read: of each thread's pair the second, or the first where the order is
-- exchanged.
abbrev is_source : Bool → ℕ → Bool
is_source dead x = if dead && ((x / 2) % 2 == 1) then x % 2 == 0 else x % 2 == 1

thread_arg-Reads :
    (par dead : Bool) (t : ℕ)
    → (dead && not par) ≡ false
    → (is_source dead (thread_arg par dead t).0 ≡ false)
      × (is_source dead (thread_arg par dead t).1 ≡ true)
unfolding thread_arg
thread_arg-Reads false false t h = (refl, refl)
thread_arg-Reads false true t h = absurd (ground (arith, h))
thread_arg-Reads true false t h = (ground arith, ground arith)
thread_arg-Reads true true t h = elim (Bool-cases (t % 2 == 1)) [
  | inl e ↦ rw e (ground arith, ground arith)
  | inr e ↦ rw e (ground arith, ground arith)
]

module _ (par dead : Bool) (h : (dead && not par) ≡ false) where
  adds_from-Reads :
      (t i n : ℕ)
      → All
          (Reads (is_source dead))
          (adds_from (thread_arg par dead t).0 (thread_arg par dead t).1 i n)
  unfolding adds_from
  adds_from-Reads t i zero = tt
  adds_from-Reads t i (suc n) = (thread_arg-Reads par dead t h, adds_from-Reads t (suc i) n)

  worker-Reads : (loops t : ℕ) → All (Reads (is_source dead)) (worker loops (thread_arg par dead t))
  unfolding worker
  worker-Reads zero t = tt
  worker-Reads (suc loops) t =
      let vectors = thread_arg par dead t in
      All-join (Reads (is_source dead)) (vector_add vectors.0 vectors.1) (worker loops vectors)
        (adds_from-Reads t 0 vector_size) (worker-Reads loops t)

  threads_from-Reads :
      (loops t n : ℕ) → All (All (Reads (is_source dead))) (threads_from par dead loops t n)
  unfolding threads_from
  threads_from-Reads loops t zero = tt
  threads_from-Reads loops t (suc n) = (worker-Reads loops t, threads_from-Reads loops (suc t) n)

  -- The invariant, for the values of one index.
  Reachable-IsCounted :
      (loops n : ℕ) {s : State}
      → Reachable (threads_from par dead loops 0 n) s
      → IsCounted (is_source dead) (λ x i. sum (owed_by x i) (threads_from par dead loops 0 n)) s
  Reachable-IsCounted loops n begin = record {
    reads = threads_from-Reads loops 0 n;
    sources = λ x i e. refl;
    balance = λ x i. refl;
    words = λ x i e. e;
  }
  Reachable-IsCounted loops n (step r t) =
      Step-IsCounted (is_source dead) t (Reachable-IsCounted loops n r)

abbrev pub IsFinished : List Action → Type 0
IsFinished actions = actions ≡ []

finished-sum :
    (x i : ℕ) (threads : List (List Action))
    → All IsFinished threads
    → sum (owed_by x i) threads ≡ 0
finished-sum x i [] f = refl
finished-sum x i (p ∷ threads) f = omega (arith, ap (owed_by x i) f.0, finished-sum x i threads f.1)

-- Without -d, or with -d and -p: when all threads have finished, in whatever order they made their
-- steps, every value of every vector is its number and, for each thread whose destination it is, the
-- number of the source times the loops, with the wrap-around of 32 bits.
pub Reachable-totals :
    (par dead : Bool) (loops num_threads vector i : ℕ) (s : State)
    → (dead && not par) ≡ false
    → vector < 2 ^ 32
    → i < vector_size
    → Reachable (threads_from par dead loops 0 num_threads) s
    → All IsFinished s.threads
    → s.v vector i ≡ (vector + gains (thread_arg par dead) loops vector 0 num_threads) % 2 ^ 32
Reachable-totals par dead loops n x i s h w l r f =
    let c = Reachable-IsCounted par dead h loops n r in
    omega (
      arith,
      c.balance x i,
      c.words x i w,
      finished-sum x i s.threads f,
      owed-threads_from par dead loops x i 0 n l,
    )
