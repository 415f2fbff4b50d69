-- ===== src/VectorAdd/NoLock/Totals.antt =====
-- What exersises/concurrency/concurrency-bugs/vector-nolock.c computes.
use osvcp.Prelude.{
  ℕ, ◌+◌, ◌%◌, ◌^◌, ◌<◌, ◌≡◌, ◌≢◌, refl, ap, ◌∙◌, Bool, true, false, ◌&&◌, inl, inr, List, ◌∷◌,
  arith, sum, sum-set, ◌==◌, ==_iff, Bool-cases, if◌then◌else◌,
}
use osvcp.Table.Slots.{All, All-get_elem?, All-set}
use osvcp.VectorAdd.NoLock.{Action, load, add, Memory, State, fetch_and_add, Step, read, fetch}

-- `amount`, if a value is the one at this place.
abbrev pub pick : ℕ → ℕ → ℕ → ℕ → ℕ → ℕ
pick vector index x i amount = if vector == x && index == i then amount else 0

-- What an action still adds to a value; a source holds its own number.
abbrev pub owed : ℕ → ℕ → Action → ℕ
owed x i (load dst src index) = pick dst index x i src
owed x i (add dst index value) = pick dst index x i value

abbrev pub owed_by : ℕ → ℕ → List Action → ℕ
owed_by x i actions = sum (owed x i) actions

fetch_and_add-at :
    (vector index amount x i : ℕ) (v : Memory)
    → fetch_and_add vector index amount v x i % 2 ^ 32
      ≡ (v x i + pick vector index x i amount) % 2 ^ 32
unfolding fetch_and_add
fetch_and_add-at vector index amount x i v = elim (Bool-cases (vector == x)) [
  | inr e ↦ rw e (omega arith)
  | inl e ↦ elim (Bool-cases (index == i)) [
    | inr f ↦ rw (e, f) (omega arith)
    | inl f ↦
        let same : v vector index ≡ v x i =
          ap (λ k. v k index) ((==_iff vector x).0 e) ∙ ap (v x) ((==_iff index i).0 f) in
        rw (e, f) (omega (arith, same))
  ]
]

fetch_and_add-lt :
    (vector index amount x i : ℕ) (v : Memory)
    → v x i < 2 ^ 32
    → fetch_and_add vector index amount v x i < 2 ^ 32
unfolding fetch_and_add
fetch_and_add-lt vector index amount x i v h = elim (Bool-cases (vector == x && index == i)) [
  | inl e ↦ rw e (omega arith)
  | inr e ↦ rw e h
]

fetch_and_add-other :
    (vector index amount x i : ℕ) (v : Memory)
    → vector ≢ x
    → fetch_and_add vector index amount v x i ≡ v x i
unfolding fetch_and_add
fetch_and_add-other vector index amount x i v n = elim (Bool-cases (vector == x)) [
  | inl e ↦ absurd (n ((==_iff vector x).0 e))
  | inr e ↦ rw e refl
]

module _ (is_source : ℕ → Bool) where
  -- What is read is a source, and what is written is not.
  abbrev pub Reads : Action → Type 0
  Reads (load dst src index) = (is_source dst ≡ false) × (is_source src ≡ true)
  Reads (add dst index value) = is_source dst ≡ false

  pub record IsCounted (total : ℕ → ℕ → ℕ) (s : State) : Type 0 where
    pub reads : All (All Reads) s.threads
    pub sources : (x i : ℕ) → is_source x ≡ true → s.v x i ≡ x
    pub balance :
        (x i : ℕ) → (s.v x i + sum (owed_by x i) s.threads) % 2 ^ 32 ≡ (x + total x i) % 2 ^ 32
    pub words : (x i : ℕ) → x < 2 ^ 32 → s.v x i < 2 ^ 32

  pub Step-IsCounted :
      {total : ℕ → ℕ → ℕ} {s t : State} → Step s t → IsCounted total s → IsCounted total t
  Step-IsCounted {total} (read s k dst src i rest e) h =
      let a = All-get_elem? (All Reads) s.threads k (load dst src i ∷ rest) e h.reads in
      record {
        reads = All-set (All Reads) s.threads k (add dst i (s.v src i) ∷ rest) (a.0.0, a.1) h.reads;
        sources = h.sources;
        balance = λ x j. omega (
          arith,
          h.balance x j,
          sum-set (owed_by x j) k s.threads (load dst src i ∷ rest) (add dst i (s.v src i) ∷ rest)
              e,
          ap (pick dst i x j) (h.sources src i a.0.1),
        );
        words = h.words;
      }
  Step-IsCounted {total} (fetch s k dst i value rest e) h =
      let a = All-get_elem? (All Reads) s.threads k (add dst i value ∷ rest) e h.reads in
      record {
        reads = All-set (All Reads) s.threads k rest a.1 h.reads;
        sources = λ x j g.
            fetch_and_add-other dst i value x j s.v
              (λ q. absurd (ground (arith, a.0, ap is_source q, g)))
            ∙ h.sources x j g;
        balance = λ x j. omega (
          arith,
          h.balance x j,
          sum-set (owed_by x j) k s.threads (add dst i value ∷ rest) rest e,
          fetch_and_add-at dst i value x j s.v,
        );
        words = λ x j g. fetch_and_add-lt dst i value x j s.v (h.words x j g);
      }
