-- ===== src/Sockets/Account.antt =====
-- An account of one descriptor: as often as it was got, it was closed or is held.
use osvcp.Prelude.{
  ℕ, ◌+◌, ◌≡◌, refl, ap, Bool, true, false, Option, none, some, List, [], ◌∷◌, ◌++◌, arith, count,
  hit, length, leb, sum, sum-append, if◌then◌else◌,
}
use osvcp.Table.{add_client, max_clients}
use osvcp.World.{World, M, ◌>>=◌, pure}
use osvcp.World.Preserves.{Preserves}
use osvcp.World.Ensures.{Ensures}
use osvcp.World.Moves.{Moves, Any, nothing, pure-Moves, bind-Moves, act-Moves}
use osvcp.Sweep.Keeps.{Kept}
use osvcp.Sweep.Account.{opt}
use osvcp.Sockets.{obtain, shut, shut_if, admit, close_dropped, closing, shut_all}

-- The descriptor `a`; `n` times it is held.
abbrev pub Held : ℕ → ℕ → World → Type 0
Held a n w = count a w.sockets ≡ count a w.closed + n

module _ (a : ℕ) where
  pub shut-Moves : (fd n : ℕ) → Moves (Held a) (hit a fd + n) Any (λ _. n) (shut fd)
  unfolding shut
  shut-Moves fd n = act-Moves (Held a) (hit a fd + n) n (shut fd) (λ k w p. omega (arith, p))

  pub obtain-Moves : (fd n : ℕ) → Moves (Held a) n Any (λ _. hit a fd + n) (obtain fd)
  unfolding obtain
  obtain-Moves fd n = act-Moves (Held a) n (hit a fd + n) (obtain fd) (λ k w p. omega (arith, p))

  module _ {A : Type 0} (fd : A → ℕ) where
    abbrev pub held : A → ℕ
    held c = hit a (fd c)

    -- The table with the new client, or its socket closed.
    placed :
        (full : Bool) (s : ℕ) (c : A) (cs : List A)
        → fd c ≡ s
        → Moves
            (Held a)
            (hit a s + sum held cs)
            Any
            (sum held)
            (shut_if full s >>= λ _. pure (if full then cs else cs ++ c ∷ []))
    unfolding shut_if
    placed true s c cs e =
        bind-Moves (Held a) _ Any (λ _. sum held cs) Any (sum held) (shut s) _
          (shut-Moves s (sum held cs)) (λ _ _. pure-Moves (Held a) _ Any (sum held) cs tt refl)
    placed false s c cs e =
        bind-Moves (Held a) _ Any (λ _. hit a s + sum held cs) Any (sum held) (pure tt) _
          (pure-Moves (Held a) _ Any (λ _. hit a s + sum held cs) tt tt refl)
          (λ _ _.
            pure-Moves (Held a) _ Any (sum held) (cs ++ c ∷ []) tt
              (omega (arith, sum-append held cs (c ∷ []), ap (hit a) e)))

    pub admit-Moves :
        (s : ℕ) (c : A) (cs : List A)
        → fd c ≡ s
        → Moves (Held a) (sum held cs) Any (sum held) (admit s c cs)
    unfolding admit add_client
    admit-Moves s c cs e =
        bind-Moves (Held a) _ Any (λ _. hit a s + sum held cs) Any (sum held) (obtain s) _
          (obtain-Moves s (sum held cs)) (λ _ _. placed (leb max_clients (length cs)) s c cs e)

    dropped :
        (s : ℕ) (o : Option A)
        → Kept (λ c. fd c ≡ s) o
        → Moves (Held a) (hit a s) Any (opt held) (close_dropped s o)
    unfolding close_dropped
    dropped s (some c) z = pure-Moves (Held a) _ Any (opt held) (some c) tt (ap (hit a) z)
    dropped s none z =
        bind-Moves (Held a) _ Any (λ _. 0) Any (opt held) (shut s) _
          (λ k w u x r p. shut-Moves s 0 k w u x r (omega (arith, p)))
          (λ _ _. pure-Moves (Held a) 0 Any (opt held) none tt refl)

    pub closing-Moves :
        (body : A → M (Option A)) (c : A)
        → ((k : ℕ) → Preserves (Held a k) (body c))
        → Ensures (Kept (λ c'. fd c' ≡ fd c)) (body c)
        → Moves (Held a) (held c) Any (opt held) (closing fd body c)
    unfolding closing
    closing-Moves body c quiet same =
        bind-Moves (Held a) _ (Kept (λ c'. fd c' ≡ fd c)) (λ _. held c) Any (opt held) (body c) _
          (λ k w u x r p. (same w u x r, quiet (held c + k) w u x r p)) (λ o z. dropped (fd c) o z)

  pub shut_all-Moves : (fds : List ℕ) → Moves (Held a) (sum (hit a) fds) Any nothing (shut_all fds)
  unfolding shut_all
  shut_all-Moves [] = pure-Moves (Held a) 0 Any nothing tt tt refl
  shut_all-Moves (fd ∷ fds) =
      bind-Moves (Held a) _ Any (λ _. sum (hit a) fds) Any nothing (shut fd) _
        (shut-Moves fd (sum (hit a) fds)) (λ _ _. shut_all-Moves fds)
