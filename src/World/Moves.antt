-- ===== src/World/Moves.antt =====
-- Steps that hand resources over: `P n w` says that the world `w` accounts for everything but `n`
-- units, which somebody else holds.
use osvcp.Prelude.{ℕ, ◌+◌, ◌≡◌, refl, sym, ◌∙◌, subst, ap, Bool, true, false, arith, if◌then◌else◌}
use osvcp.World.{World, Answer, value, waiting, M, ◌>>=◌, pure}
use osvcp.World.Ensures.{Ensures}

-- The step takes over `n` units, and its result holds `h` of them and has the property `Q`; what
-- others hold stays.
abbrev pub Moves : {A : Type 0} → (ℕ → World → Type 0) → ℕ → (A → Type 0) → (A → ℕ) → M A → Type 0
Moves {A} P n Q h m =
    (k : ℕ) (w u : World) (x : A) → m w ≡ (value x, u) → P (n + k) w → Q x × P (h x + k) u

-- No property.
abbrev pub Any : {A : Type 0} → A → Type 0
Any _ = Unit {0}

-- Nothing is held.
abbrev pub nothing : {A : Type 0} → A → ℕ
nothing _ = 0

value_of :
    {A : Type 0} {a b : A} {w u : World}
    → ◌≡◌ {A = Answer A × World} (value a, w) (value b, u)
    → a ≡ b
value_of h = ground arith

module _ (P : ℕ → World → Type 0) where
  pub pure-Moves :
      {A : Type 0} (n : ℕ) (Q : A → Type 0) (h : A → ℕ) (a : A)
      → Q a
      → h a ≡ n
      → Moves P n Q h (pure a)
  pure-Moves n Q h a q e k w u x r p = (
    subst Q (value_of r) q,
    subst (P (h x + k)) (ap (λ q. q.1) r) (subst (λ n. P (n + k) w) (sym e ∙ ap h (value_of r)) p),
  )

  after_first :
      {A B : Type 0} (S : A → Type 0) (g : A → ℕ) (Q : B → Type 0) (h : B → ℕ) (k : ℕ)
      (a : Answer A) (v u : World) (f : A → M B) (x : B)
      → ((y : A) → a ≡ value y → S y × P (g y + k) v)
      → ((y : A) → S y → Moves P (g y) Q h (f y))
      → ◌≡◌ {A = Answer B × World}
          (elim a [ value y ↦ f y v | waiting ↦ (waiting, v) ])
          (value x, u)
      → Q x × P (h x + k) u
  after_first S g Q h k (value y) v u f x first next r =
      let (s, p) = first y refl in next y s k v u x r p
  after_first S g Q h k waiting v u f x first next r = absurd (ground arith)

  pub bind-Moves :
      {A B : Type 0} (n : ℕ) (S : A → Type 0) (g : A → ℕ) (Q : B → Type 0) (h : B → ℕ) (m : M A)
      (f : A → M B)
      → Moves P n S g m
      → ((y : A) → S y → Moves P (g y) Q h (f y))
      → Moves P n Q h (m >>= f)
  bind-Moves n S g Q h m f first next k w u x r p =
      after_first S g Q h k (m w).0 (m w).1 u f x
        (λ y e. first k w (m w).1 y (λ i. (e i, (m w).1)) p) next r

  pub if-Moves :
      {A : Type 0} (n : ℕ) (Q : A → Type 0) (h : A → ℕ) (b : Bool) (m k : M A)
      → (b ≡ true → Moves P n Q h m)
      → (b ≡ false → Moves P n Q h k)
      → Moves P n Q h (if b then m else k)
  if-Moves n Q h true m k pm pk = pm refl
  if-Moves n Q h false m k pm pk = pk refl

  -- A step that takes over and holds nothing leaves what others hold.
  pub keep-Moves :
      {A : Type 0} (n : ℕ) (m : M A) → Moves P 0 Any nothing m → Moves P n Any (λ _. n) m
  keep-Moves n m first k w u x r p = (
    tt,
    subst (λ j. P j u) (omega arith) (first (n + k) w u x r (subst (λ j. P j w) (omega arith) p)).1,
  )

  -- Such a step, and then another.
  pub then-Moves :
      {A B : Type 0} (n : ℕ) (Q : B → Type 0) (h : B → ℕ) (m : M A) (f : A → M B)
      → Moves P 0 Any nothing m
      → ((y : A) → Moves P n Q h (f y))
      → Moves P n Q h (m >>= f)
  then-Moves n Q h m f first next =
      bind-Moves n Any (λ _. n) Q h m f (keep-Moves n m first) (λ y _. next y)

  -- What somebody else holds may be counted with what the step holds.
  pub frame-Moves :
      {A : Type 0} (j n n' : ℕ) (Q : A → Type 0) (h h' : A → ℕ) (m : M A)
      → n' ≡ n + j
      → ((x : A) → h' x ≡ h x + j)
      → Moves P n Q h m
      → Moves P n' Q h' m
  frame-Moves j n n' Q h h' m e f step k w u x r p =
      let (q, s) = step (j + k) w u x r (subst (λ i. P i w) (omega (arith, e)) p) in
      (q, subst (λ i. P i u) (omega (arith, f x)) s)

  -- What a step ensures besides.
  pub and-Moves :
      {A : Type 0} (n : ℕ) (Q R : A → Type 0) (h : A → ℕ) (m : M A)
      → Moves P n Q h m
      → Ensures R m
      → Moves P n (λ x. Q x × R x) h m
  and-Moves n Q R h m step also k w u x r p =
      let (q, s) = step k w u x r p in ((q, also w u x r), s)

  -- A step that holds the same whatever its result.
  pub act-Moves :
      {A : Type 0} (n j : ℕ) (m : M A)
      → ((k : ℕ) (w : World) → P (n + k) w → P (j + k) (m w).1)
      → Moves P n Any (λ _. j) m
  act-Moves n j m act k w u x r p = (tt, subst (P (j + k)) (ap (λ q. q.1) r) (act k w p))
