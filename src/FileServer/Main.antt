-- ===== src/FileServer/Main.antt =====
-- `create_listen_socket` and `main` of
-- exersises/concurrency/event-based-concurrency/exercise/file-server.c (lines 148 to 170 and 433 to
-- 454). The arguments and the signal handlers are not modelled, nor is what is printed. The end of
-- the rounds stands for a `select` that fails: the loop ends there too.
use osvcp.Prelude.{
  ℕ, ◌≡◌, Bool, true, false, ◌&&◌, Option, none, some, List, [], ◌∷◌, ◌++◌, map, Bytes,
  if◌then◌else◌,
}
use osvcp.Wire.{WriteResult}
use osvcp.World.{World, Files, M, ◌>>=◌, ◌>>◌, pure}
use osvcp.FileServer.EventLoop.{Client, Round, Server, clear_cache, event_loop}
pub mod Shutdown

-- What the system answers before the loop.
pub record Setup : Type 0 where
  pub root : Option Bytes  -- `realpath(rootarg, docroot)`
  pub socket : Option ℕ
  pub bound : Bool  -- whether `bind` succeeds
  pub listening : Bool  -- whether `listen` succeeds

-- `none` for `exit(EXIT_FAILURE)`
abbrev pub create_listen_socket : Setup → Option ℕ
create_listen_socket s = if s.bound && s.listening then s.socket else none

-- How `main` ends: with the sockets that it has closed, in that order.
pub data Exit : Type 0 where
  failure : Exit
  success : List ℕ → Exit

-- The requests are served below the root that was resolved at the start.
abbrev pub below : Bytes → Round → Round
below root r = record r { files = record (r.files) { docroot = root } }

-- No client, no signal yet.
abbrev pub started : Server
started = record { running = true; cache_clear_requested = false; clients = [] }

-- What follows the loop.
unfoldable pub shut_down : ℕ → Server → M Exit
shut_down listen_fd s = do
  clear_cache
  pure (success (map (λ (c : Client). c.fd) s.clients ++ listen_fd ∷ []))

-- From the socket on.
unfoldable pub serve_all : List Round → Option ℕ → M Exit
serve_all rounds none = pure failure
serve_all rounds (some listen_fd) = do s ← event_loop rounds started; shut_down listen_fd s

unfoldable pub main : Setup → List Round → M Exit
main setup rounds = elim setup.root [
  | none ↦ pure failure
  | some root ↦ serve_all (map (below root) rounds) (create_listen_socket setup)
]

-- The memory that the process starts with.
abbrev pub fresh : List WriteResult → World
fresh writes = record {
  cache = [];
  writes = writes;
  out = [];
  mallocs = 0;
  allocated = [];
  freed = [];
  files = 0;
  sockets = [];
  closed = [];
}
