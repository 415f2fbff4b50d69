-- ===== src/World/Laws.antt =====
-- Equations between steps, at one world.
use osvcp.Prelude.{◌⊎◌, inl, inr, ◌≡◌, refl, ap}
use osvcp.World.{World, Answer, value, waiting, M, ◌>>=◌}

-- The second step of a bind, after what the first returned.
abbrev go_on : {A B : Type 0} → (A → M B) → Answer A × World → Answer B × World
go_on f r = elim r.0 [ value a ↦ f a r.1 | waiting ↦ (waiting, r.1) ]

pub bind_left :
    {A B : Type 0} (m m' : M A) (f : A → M B) (w w' : World)
    → m w ≡ m' w'
    → (m >>= f) w ≡ (m' >>= f) w'
bind_left m m' f w w' h = ap (λ r. go_on f r) h

after :
    {A B : Type 0} (a : Answer A) (f g : A → M B) (u : World)
    → ((x : A) → f x u ≡ g x u)
    → ◌≡◌ {A = Answer B × World}
        (elim a [ value x ↦ f x u | waiting ↦ (waiting, u) ])
        (elim a [ value x ↦ g x u | waiting ↦ (waiting, u) ])
after (value x) f g u h = h x
after waiting f g u h = refl

pub bind_right :
    {A B : Type 0} (m : M A) (f g : A → M B) (w : World)
    → ((x : A) → f x (m w).1 ≡ g x (m w).1)
    → (m >>= f) w ≡ (m >>= g) w
bind_right m f g w h = after (m w).0 f g (m w).1 h

then_assoc :
    {A B C : Type 0} (a : Answer A) (f : A → M B) (g : B → M C) (u : World)
    → ◌≡◌ {A = Answer C × World}
        (let r : Answer B × World = elim a [ value x ↦ f x u | waiting ↦ (waiting, u) ] in
          elim r.0 [ value y ↦ g y r.1 | waiting ↦ (waiting, r.1) ])
        (elim a [ value x ↦ (f x >>= g) u | waiting ↦ (waiting, u) ])
then_assoc (value x) f g u = refl
then_assoc waiting f g u = refl

pub bind_assoc :
    {A B C : Type 0} (m : M A) (f : A → M B) (g : B → M C) (w : World)
    → ((m >>= f) >>= g) w ≡ (m >>= λ x. f x >>= g) w
bind_assoc m f g w = then_assoc (m w).0 f g (m w).1

-- What a step returned, put in for the step.
pub bind_value :
    {A B : Type 0} (m : M A) (f : A → M B) (w : World) (x : A)
    → (m w).0 ≡ value x
    → (m >>= f) w ≡ f x (m w).1
bind_value m f w x h = rw (h, ◌>>=◌) refl

-- A step that waits.
pub bind_waiting :
    {A B : Type 0} (m : M A) (f : A → M B) (w : World)
    → (m w).0 ≡ waiting
    → ((m >>= f) w).0 ≡ waiting
bind_waiting m f w h = rw (h, ◌>>=◌) refl

-- A call returns or waits.
pub Answer-cases : {A : Type 0} → (a : Answer A) → (a ≡ waiting) ⊎ ((x : A) × (a ≡ value x))
Answer-cases (value x) = inr (x, refl)
Answer-cases waiting = inl refl

pub no_value : {A : Type 0} → (x : A) → ◌≡◌ {A = Answer A} waiting (value x) → ⊥
no_value x h = cc
