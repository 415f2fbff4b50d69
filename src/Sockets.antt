-- ===== src/Sockets.antt =====
-- The descriptors of a server's clients: what `add_client` and `remove_client` of
-- exersises/concurrency/event-based-concurrency/exercise/select-server.c (lines 101 to 121) do
-- besides the change of the table.
use osvcp.Prelude.{
  ℕ, Bool, true, false, Option, none, some, List, [], ◌∷◌, length, leb, if◌then◌else◌,
}
use osvcp.Table.{add_client, max_clients}
use osvcp.World.{World, value, M, ◌>>=◌, ◌>>◌, pure}
pub mod Account
pub mod Keeps

-- A descriptor that the system has returned.
unfoldable pub obtain : ℕ → M (Unit {0})
obtain fd w = (value tt, record w { sockets = fd ∷ w.sockets })

-- `close(fd)`
unfoldable pub shut : ℕ → M (Unit {0})
shut fd w = (value tt, record w { closed = fd ∷ w.closed })

unfoldable pub shut_if : Bool → ℕ → M (Unit {0})
shut_if b fd = if b then shut fd else pure tt

-- `accept`, and `add_client`, which closes the socket when the table is full.
unfoldable pub admit : {A : Type 0} → ℕ → A → List A → M (List A)
admit fd c cs = do obtain fd; shut_if (leb max_clients (length cs)) fd; pure (add_client c cs)

unfoldable pub close_dropped : {A : Type 0} → ℕ → Option A → M (Option A)
close_dropped fd (some c) = pure (some c)
close_dropped fd none = do shut fd; pure none

-- The visit of a client, with the `close` of `remove_client` when it is removed.
unfoldable pub closing : {A : Type 0} → (A → ℕ) → (A → M (Option A)) → A → M (Option A)
closing fd body c = do r ← body c; close_dropped (fd c) r

-- The loop over the clients at the end of `main`.
unfoldable pub shut_all : List ℕ → M (Unit {0})
shut_all [] = pure tt
shut_all (fd ∷ fds) = do shut fd; shut_all fds
