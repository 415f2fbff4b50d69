-- ===== src/World/Preserves.antt =====
-- Steps that keep a property of the world whenever they return.
use osvcp.Prelude.{◌≡◌, refl, subst, ap, Bool, true, false, arith, if◌then◌else◌}
use osvcp.World.{World, Answer, value, waiting, M, ◌>>=◌, pure}

abbrev pub Preserves : {A : Type 0} → (World → Type 0) → M A → Type 0
Preserves {A} P m = (w u : World) (x : A) → m w ≡ (value x, u) → P w → P u

module _ (P : World → Type 0) where
  pub pure-Preserves : {A : Type 0} (a : A) → Preserves P (pure a)
  pure-Preserves a w u x h p = subst P (ap (λ q. q.1) h) p

  after_first :
      {A B : Type 0} (a : Answer A) (v u : World) (f : A → M B) (x : B)
      → ((y : A) → a ≡ value y → P v)
      → ((y : A) → Preserves P (f y))
      → ◌≡◌ {A = Answer B × World}
          (elim a [ value y ↦ f y v | waiting ↦ (waiting, v) ])
          (value x, u)
      → P u
  after_first (value y) v u f x first k h = k y v u x h (first y refl)
  after_first waiting v u f x first k h = absurd (ground arith)

  pub bind-Preserves :
      {A B : Type 0} (m : M A) (f : A → M B)
      → Preserves P m
      → ((y : A) → Preserves P (f y))
      → Preserves P (m >>= f)
  bind-Preserves m f first k w u x h p =
      after_first (m w).0 (m w).1 u f x (λ y e. first w (m w).1 y (λ i. (e i, (m w).1)) p) k h

  pub if-Preserves :
      {A : Type 0} (b : Bool) (m k : M A)
      → Preserves P m
      → Preserves P k
      → Preserves P (if b then m else k)
  if-Preserves true m k pm pk = pm
  if-Preserves false m k pm pk = pk
