-- ===== src/World/Ensures.antt =====
-- Steps whose result, when they return, has a property.
use osvcp.Prelude.{◌≡◌, refl, subst, Bool, true, false, arith, if◌then◌else◌}
use osvcp.World.{World, Answer, value, waiting, M, ◌>>=◌, pure}

abbrev pub Ensures : {A : Type 0} → (A → Type 0) → M A → Type 0
Ensures {A} R m = (w u : World) (x : A) → m w ≡ (value x, u) → R x

value_of :
    {A : Type 0} {a b : A} {w u : World}
    → ◌≡◌ {A = Answer A × World} (value a, w) (value b, u)
    → a ≡ b
value_of h = ground arith

pub pure-Ensures : {A : Type 0} (R : A → Type 0) (a : A) → R a → Ensures R (pure a)
pure-Ensures R a r w u x h = subst R (value_of h) r

after_first :
    {A B : Type 0} (R : B → Type 0) (a : Answer A) (v u : World) (f : A → M B) (x : B)
    → ((y : A) → a ≡ value y → Ensures R (f y))
    → ◌≡◌ {A = Answer B × World} (elim a [ value y ↦ f y v | waiting ↦ (waiting, v) ]) (value x, u)
    → R x
after_first R (value y) v u f x k h = k y refl v u x h
after_first R waiting v u f x k h = absurd (ground arith)

pub bind-Ensures :
    {A B : Type 0} (S : A → Type 0) (R : B → Type 0) (m : M A) (f : A → M B)
    → Ensures S m
    → ((y : A) → S y → Ensures R (f y))
    → Ensures R (m >>= f)
bind-Ensures S R m f first k w u x h =
    after_first R (m w).0 (m w).1 u f x (λ y e. k y (first w (m w).1 y (λ i. (e i, (m w).1)))) h

pub if-Ensures :
    {A : Type 0} (R : A → Type 0) (b : Bool) (m k : M A)
    → Ensures R m
    → Ensures R k
    → Ensures R (if b then m else k)
if-Ensures R true m k rm rk = rm
if-Ensures R false m k rm rk = rk
