-- ===== src/AioServer/Main.antt =====
-- `main` of exersises/concurrency/event-based-concurrency/exercise/aio-file-server.c (lines 580 to
-- 615), with the start of the file server in FileServer/Main, which has the same
-- `create_listen_socket`. The end of the rounds stands for a `select` that fails.
use osvcp.Prelude.{
  ℕ, Bool, true, false, Option, none, some, List, [], ◌∷◌, ◌++◌, map, Bytes, if◌then◌else◌,
}
use osvcp.World.{M, ◌>>=◌, ◌>>◌, pure}
use osvcp.FileServer.Main.{Setup, create_listen_socket}
use osvcp.FileServer.EventLoop.{clear_cache}
use osvcp.AioServer.{Client}
use osvcp.AioServer.EventLoop.{Round, Server, event_loop}
pub mod Shutdown

-- What the system answers besides.
pub record SignalSetup : Type 0 where
  pub blocked : Bool  -- whether `sigprocmask` succeeds
  pub signalfd : Option ℕ

-- How `main` ends: with the clients that were still there, and the sockets and descriptors that it
-- has closed, in that order.
pub data Exit : Type 0 where
  failure : Exit
  success : List Client → List ℕ → Exit

abbrev pub below : Bytes → Round → Round
below root r = record r {
  system = record (r.system) { files = record (r.system.files) { docroot = root } };
}

abbrev pub started : Server
started = record { running = true; cache_clear_requested = false; clients = [] }

-- What follows the loop.
unfoldable pub shut_down : ℕ → ℕ → Server → M Exit
shut_down listen_fd aio_sfd s = do
  clear_cache
  pure (success s.clients (map (λ (c : Client). c.sock) s.clients ++ listen_fd ∷ aio_sfd ∷ []))

-- From the listening socket on.
unfoldable pub serve_all : List Round → Option ℕ → ℕ → M Exit
serve_all rounds none aio_sfd = pure failure
serve_all rounds (some listen_fd) aio_sfd = do
  s ← event_loop rounds started
  shut_down listen_fd aio_sfd s

-- From the signals on.
unfoldable pub with_signals : Setup → SignalSetup → List Round → M Exit
with_signals setup signals rounds =
    if signals.blocked
    then elim signals.signalfd [
      | none ↦ pure failure
      | some aio_sfd ↦ serve_all rounds (create_listen_socket setup) aio_sfd
    ]
    else pure failure

unfoldable pub main : Setup → SignalSetup → List Round → M Exit
main setup signals rounds = elim setup.root [
  | none ↦ pure failure
  | some root ↦ with_signals setup signals (map (below root) rounds)
]
