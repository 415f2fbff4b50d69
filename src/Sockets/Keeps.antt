-- ===== src/Sockets/Keeps.antt =====
-- What the table of clients and the world keep when sockets are got and closed.
use osvcp.Prelude.{ℕ, Option, none, some, List, length, leb}
use osvcp.Table.{add_client, max_clients}
use osvcp.Table.Slots.{IsTable, add_client-IsTable}
use osvcp.World.{M}
use osvcp.World.Ensures.{Ensures, pure-Ensures, bind-Ensures}
use osvcp.Sweep.Keeps.{Kept}
use osvcp.Sockets.{obtain, shut, shut_if, admit, close_dropped, closing}

pub admit-IsTable :
    {A : Type 0}
    → (Q : A → Type 0) (s : ℕ) (c : A) (cs : List A) → Q c
    → IsTable Q cs
    → Ensures (IsTable Q) (admit s c cs)
unfolding admit
admit-IsTable Q s c cs q t =
    bind-Ensures (λ _. Unit {0}) (IsTable Q) (obtain s) _ (λ w u x h. tt)
      (λ _ _.
        bind-Ensures (λ _. Unit {0}) (IsTable Q) (shut_if (leb max_clients (length cs)) s) _
          (λ w u x h. tt)
          (λ _ _. pure-Ensures (IsTable Q) (add_client c cs) (add_client-IsTable Q c cs q t)))

dropped :
    {A : Type 0}
    → (Q : A → Type 0) (s : ℕ) (o : Option A) → Kept Q o
    → Ensures (Kept Q) (close_dropped s o)
unfolding close_dropped
dropped Q s (some d) q = pure-Ensures (Kept Q) (some d) q
dropped Q s none q =
    bind-Ensures (λ _. Unit {0}) (Kept Q) (shut s) _ (λ w u x h. tt)
      (λ _ _. pure-Ensures (Kept Q) none tt)

pub closing-Kept :
    {A : Type 0}
    → (Q : A → Type 0) (fd : A → ℕ) (body : A → M (Option A)) (c : A) → Ensures (Kept Q) (body c)
    → Ensures (Kept Q) (closing fd body c)
unfolding closing
closing-Kept Q fd body c e =
    bind-Ensures (Kept Q) (Kept Q) (body c) _ e (λ o q. dropped Q (fd c) o q)
