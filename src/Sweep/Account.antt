-- ===== src/Sweep/Account.antt =====
-- The loop over the clients, lines 405 to 420 of
-- exersises/concurrency/event-based-concurrency/exercise/file-server.c, settles what its visits
-- settle.
use mathlib.Core.List.{Perm, Permᴰ}
use mathlib.Core.List.Permᴰ.{nil, cons, swap, trans}
use native.Mathlib.Nat.{ℕ_set}
use mathlib.Core.Logic.{∥∥₁_elim}
use osvcp.Prelude.{
  ℕ, ◌+◌, ◌≡◌, ap, sym, refl, subst, Option, none, some, List, [], ◌∷◌, ◌++◌, append-nil, ◌∙◌,
  arith, length, sum,
}
use osvcp.Table.Slots.{All}
use osvcp.World.{World, Answer, value, waiting, M}
use osvcp.World.Moves.{Moves, pure-Moves, bind-Moves, frame-Moves, Any}
use osvcp.Sweep.{sweep, onto, backwards, kept, visit_each, Extends, sweep-visit_each}
use osvcp.Sweep.Keeps.{Kept}

module _ {A : Type 0} (h : A → ℕ) where
  sum-onto : (rs back : List A) → sum h (onto rs back) ≡ sum h rs + sum h back
  sum-onto [] back = omega arith
  sum-onto (c ∷ rs) back = omega (arith, sum-onto rs (c ∷ back))

  sum-Permᴰ : {xs ys : List A} → Permᴰ xs ys → sum h xs ≡ sum h ys
  sum-Permᴰ nil = refl
  sum-Permᴰ (cons e p) = rw e (ap (◌+◌ _) (sum-Permᴰ p))
  sum-Permᴰ (swap e f) = rw (e, f) (omega arith)
  sum-Permᴰ (trans p q) = sum-Permᴰ p ∙ sum-Permᴰ q

  sum-Perm : {xs ys : List A} → Perm xs ys → sum h xs ≡ sum h ys
  sum-Perm {xs} {ys} p = ∥∥₁_elim p (ℕ_set (sum h xs) (sum h ys)) sum-Permᴰ

  -- What a client holds that may have been removed.
  abbrev pub opt : Option A → ℕ
  opt none = 0
  opt (some c) = h c

All-onto :
    {A : Type 0}
    → (Q : A → Type 0) (rs back : List A) → All Q rs
    → All Q back
    → All Q (onto rs back)
All-onto Q [] back a b = b
All-onto Q (c ∷ rs) back a b = All-onto Q rs (c ∷ back) a.1 (a.0, b)

module _ {A : Type 0} (P : ℕ → World → Type 0) (Q : A → Type 0) (h : A → ℕ)
    (body : A → M (Option A))
    (visit : (c : A) → Q c → Moves P (h c) (Kept Q) (opt h) (body c)) where
  visit_each-Moves : (cs : List A) → All Q cs → Moves P (sum h cs) Any (sum h) (visit_each body cs)
  unfolding visit_each
  visit_each-Moves [] a = pure-Moves P 0 Any (sum h) [] tt refl
  visit_each-Moves (c ∷ cs) a =
      bind-Moves P _ Any (λ r. opt h r + sum h cs) Any (sum h) (body c) _
        (frame-Moves P (sum h cs) (h c) _ Any (opt h) _ (body c) refl (λ _. refl)
          (λ k w u x r p. (tt, (visit c a.0 k w u x r p).1)))
        (λ r _.
          bind-Moves P _ Any (λ rest. opt h r + sum h rest) Any (sum h) (visit_each body cs) _
            (frame-Moves P (opt h r) (sum h cs) _ Any (sum h) _ _ (omega arith) (λ _. omega arith)
              (visit_each-Moves cs a.1))
            (λ rest _. pure-Moves P _ Any (sum h) (kept r ++ rest) tt (sum-kept r rest)))
    where
      sum-kept : (r : Option A) (rest : List A) → sum h (kept r ++ rest) ≡ opt h r + sum h rest
      sum-kept none rest = omega arith
      sum-kept (some c) rest = refl

  settled :
      (k : ℕ) (x : List A) (u : World) (a : Answer (List A)) (v : World)
      → Extends [] (value x, u) (a, v)
      → ((y : List A) → a ≡ value y → P (sum h y + k) v)
      → P (sum h x + k) u
  settled k x u (value y) v e p =
      subst (P (sum h x + k)) (sym e.world) (
        subst (λ n. P (n + k) v) (sym (sum-Perm h e.clients ∙ ap (sum h) (append-nil y)))
          (p y refl))
  settled k x u waiting v e p = absurd e.clients

  pub sweep-Moves :
      (cs : List A) → All Q cs → Moves P (sum h cs) Any (sum h) (sweep body (length cs) cs)
  sweep-Moves cs a k w u x r p =
      let s = visit_each body (backwards cs) w in
      let e = rw r at (sweep-visit_each body cs w) in
      let all = All-onto Q cs [] a tt in
      (
        tt,
        settled k x u s.0 s.1 e (λ y f.
            (visit_each-Moves (backwards cs) all k w s.1 y (λ i. (f i, s.1))
              (subst (λ n. P (n + k) w) (omega (arith, sum-onto h cs [])) p)).1),
      )
