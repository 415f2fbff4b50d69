-- ===== src/Prelude/Sums.antt =====
-- Sums of what the elements of a list weigh, and changes of one element.
use Prim.Native.Nat.{ℕ, zero, suc, ◌+◌, ◌-◌, ◌≤◌}
use mathlib.Core.Path.{◌≡◌, refl, ap}
use mathlib.Core.Logic.{◌≢◌, ◌⊎◌, inl, inr}
use mathlib.Core.List.{List, [], ◌∷◌, ◌++◌}
use mathlib.Core.Option.{some}
use native.Mathlib.Omega.{arith}
use osvcp.Prelude.Lists.{get_elem?, set}

module _ {A : Type 0} (w : A → ℕ) where
  abbrev pub sum : List A → ℕ
  sum [] = 0
  sum (x ∷ xs) = w x + sum xs

  pub sum-append : (xs ys : List A) → sum (xs ++ ys) ≡ sum xs + sum ys
  sum-append [] ys = omega arith
  sum-append (x ∷ xs) ys = omega (arith, sum-append xs ys)

-- The element at an index, changed.
abbrev pub adjust : {A : Type 0} → (A → A) → ℕ → List A → List A
adjust f i [] = []
adjust f zero (x ∷ xs) = f x ∷ xs
adjust f (suc i) (x ∷ xs) = x ∷ adjust f i xs

pub sum-adjust :
    {A : Type 0}
    → (w : A → ℕ) (f : A → A) (i : ℕ) (xs : List A) (x : A) → get_elem? xs i ≡ some x
    → sum w (adjust f i xs) + w x ≡ sum w xs + w (f x)
sum-adjust w f i [] x h = absurd (ground arith)
sum-adjust w f zero (y ∷ xs) x h = ground arith
sum-adjust w f (suc i) (y ∷ xs) x h = omega (arith, sum-adjust w f i xs x h)

-- A change that keeps the weight.
pub sum-adjust_same :
    {A : Type 0}
    → (w : A → ℕ) (f : A → A) (i : ℕ) (xs : List A) → ((x : A) → w (f x) ≡ w x)
    → sum w (adjust f i xs) ≡ sum w xs
sum-adjust_same w f i [] h = refl
sum-adjust_same w f zero (x ∷ xs) h = omega (arith, h x)
sum-adjust_same w f (suc i) (x ∷ xs) h = omega (arith, sum-adjust_same w f i xs h)

pub get_elem?-adjust :
    {A : Type 0}
    → (f : A → A) (i : ℕ) (xs : List A) (x : A) → get_elem? xs i ≡ some x
    → get_elem? (adjust f i xs) i ≡ some (f x)
get_elem?-adjust f i [] x h = absurd (ground arith)
get_elem?-adjust f zero (y ∷ xs) x h = ground arith
get_elem?-adjust f (suc i) (y ∷ xs) x h = get_elem?-adjust f i xs x h

pub get_elem?-adjust_other :
    {A : Type 0}
    → (f : A → A) (i j : ℕ) (xs : List A) → i ≢ j
    → get_elem? (adjust f i xs) j ≡ get_elem? xs j
get_elem?-adjust_other f i j [] h = refl
get_elem?-adjust_other f zero zero (x ∷ xs) h = absurd (h refl)
get_elem?-adjust_other f zero (suc j) (x ∷ xs) h = refl
get_elem?-adjust_other f (suc i) zero (x ∷ xs) h = refl
get_elem?-adjust_other f (suc i) (suc j) (x ∷ xs) h =
    get_elem?-adjust_other f i j xs (λ e. h (ap suc e))

pub get_elem?-append :
    {A : Type 0}
    → (xs ys : List A) (i : ℕ) (x : A) → get_elem? xs i ≡ some x
    → get_elem? (xs ++ ys) i ≡ some x
get_elem?-append [] ys i x h = absurd (ground arith)
get_elem?-append (y ∷ xs) ys zero x h = h
get_elem?-append (y ∷ xs) ys (suc i) x h = get_elem?-append xs ys i x h

pub get_elem?-adjust_any :
    {A : Type 0}
    → (f : A → A) (i j : ℕ) (xs : List A) (x : A) → get_elem? xs j ≡ some x
    → (y : A) × (get_elem? (adjust f i xs) j ≡ some y)
get_elem?-adjust_any f i j [] x h = absurd (ground arith)
get_elem?-adjust_any f zero zero (z ∷ xs) x h = (f z, refl)
get_elem?-adjust_any f zero (suc j) (z ∷ xs) x h = (x, h)
get_elem?-adjust_any f (suc i) zero (z ∷ xs) x h = (x, h)
get_elem?-adjust_any f (suc i) (suc j) (z ∷ xs) x h = get_elem?-adjust_any f i j xs x h

pub sum-le-sum :
    {A : Type 0} → (v w : A → ℕ) (xs : List A) → ((x : A) → v x ≤ w x) → sum v xs ≤ sum w xs
sum-le-sum v w [] h = omega arith
sum-le-sum v w (x ∷ xs) h = omega (arith, h x, sum-le-sum v w xs h)

pub sum-set :
    {A : Type 0}
    → (w : A → ℕ) (i : ℕ) (xs : List A) (x y : A) → get_elem? xs i ≡ some x
    → sum w (set xs i y) + w x ≡ sum w xs + w y
sum-set w i [] x y h = absurd (ground arith)
sum-set w zero (z ∷ xs) x y h = ground arith
sum-set w (suc i) (z ∷ xs) x y h = omega (arith, sum-set w i xs x y h)

pub Zero-cases : (n : ℕ) → (n ≡ 0) ⊎ (1 ≤ n)
Zero-cases zero = inl refl
Zero-cases (suc n) = inr (omega arith)

pub one_less : (k : ℕ) → 1 ≤ k → k ≡ suc (k - 1)
one_less k h = omega (arith, h)

-- Whoever weighs something, if the sum is not 0.
pub find_weight :
    {A : Type 0}
    → (w : A → ℕ) (xs : List A) → 1 ≤ sum w xs
    → (i : ℕ) × (x : A) × (get_elem? xs i ≡ some x) × (1 ≤ w x)
find_weight w [] h = absurd (omega arith)
find_weight w (x ∷ xs) h = elim (Zero-cases (w x)) [
  | inl z ↦ let (i, y, e, f) = find_weight w xs (omega (arith, h, z)) in (suc i, y, e, f)
  | inr s ↦ (zero, x, refl, s)
]

pub weight-le_sum :
    {A : Type 0}
    → (w : A → ℕ) (xs : List A) (i : ℕ) (x : A) → get_elem? xs i ≡ some x
    → w x ≤ sum w xs
weight-le_sum w [] i x h = absurd (ground arith)
weight-le_sum w (y ∷ xs) zero x h = ground arith
weight-le_sum w (y ∷ xs) (suc i) x h = omega (arith, weight-le_sum w xs i x h)

-- No two elements weigh something, if the sum is at most 1.
pub unique_weight :
    {A : Type 0}
    → (w : A → ℕ) (xs : List A) (i j : ℕ) (x y : A) → sum w xs ≤ 1
    → get_elem? xs i ≡ some x
    → get_elem? xs j ≡ some y
    → 1 ≤ w x
    → 1 ≤ w y
    → i ≡ j
unique_weight w [] i j x y s e f p q = absurd (ground arith)
unique_weight w (z ∷ xs) zero zero x y s e f p q = refl
unique_weight w (z ∷ xs) zero (suc j) x y s e f p q =
    absurd (ground (arith, weight-le_sum w xs j y f))
unique_weight w (z ∷ xs) (suc i) zero x y s e f p q =
    absurd (ground (arith, weight-le_sum w xs i x e))
unique_weight w (z ∷ xs) (suc i) (suc j) x y s e f p q =
    ap suc (unique_weight w xs i j x y (omega (arith, s)) e f p q)

pub sum_cong :
    {A : Type 0}
    → (v w : A → ℕ) (xs : List A) → ((j : ℕ) (x : A) → get_elem? xs j ≡ some x → v x ≡ w x)
    → sum v xs ≡ sum w xs
sum_cong v w [] f = refl
sum_cong v w (x ∷ xs) f = omega (arith, f zero x refl, sum_cong v w xs (λ j. f (suc j)))

-- The same change of one element under another weight that agrees on the others.
pub sum-set_both :
    {A : Type 0}
    → (v w : A → ℕ) (i : ℕ) (xs : List A) (x y : A) → get_elem? xs i ≡ some x
    → ((j : ℕ) (z : A) → j ≢ i → get_elem? xs j ≡ some z → v z ≡ w z)
    → sum v (set xs i y) + w x ≡ sum w xs + v y
sum-set_both v w i [] x y h f = absurd (ground arith)
sum-set_both v w zero (z ∷ xs) x y h f =
    let same = sum_cong v w xs (λ j u e. f (suc j) u (λ q. absurd (omega (arith, q))) e) in
    ground arith
sum-set_both v w (suc i) (z ∷ xs) x y h f = omega (
  arith,
  f zero z (λ q. absurd (ground (arith, q))) refl,
  sum-set_both v w i xs x y h (λ j u n. f (suc j) u (λ q. n (omega (arith, q)))),
)
