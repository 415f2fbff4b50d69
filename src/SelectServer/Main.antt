-- ===== src/SelectServer/Main.antt =====
-- `create_listen_socket` and `main` of
-- exersises/concurrency/event-based-concurrency/exercise/select-server.c (lines 74 to 98 and 251 to
-- 270). The argument and the signal handler are not modelled, nor is what is printed. The end of the
-- rounds stands for a `select` that fails: the loop ends there too.
use osvcp.Prelude.{ℕ, Bool, ◌&&◌, Option, none, some, List, [], map, Bytes, if◌then◌else◌}
use osvcp.Sockets.{obtain, shut, shut_all}
use osvcp.World.{M, ◌>>=◌, ◌>>◌, pure}
use osvcp.FileServer.EventLoop.{Client}
use osvcp.SelectServer.{Round, event_loop}

-- What `create_listen_socket` gets from the system; the answers to `setsockopt` and `fcntl` are not
-- looked at.
pub record Setup : Type 0 where
  pub socket : Option ℕ
  pub bound : Bool  -- whether `bind` succeeds
  pub listening : Bool  -- whether `listen` succeeds

-- `none` for `exit(EXIT_FAILURE)`
unfoldable pub create_listen_socket : Setup → Option ℕ
create_listen_socket s = if s.bound && s.listening then s.socket else none

-- How `main` ends.
pub data Exit : Type 0 where
  failure : Exit
  success : Exit

abbrev pub sockets_of : List Client → List ℕ
sockets_of cs = map (λ (c : Client). c.fd) cs

-- What follows the loop.
unfoldable pub shut_down : ℕ → List Client → M Exit
shut_down listen_fd cs = do shut_all (sockets_of cs); shut listen_fd; pure success

-- From the socket on.
unfoldable pub serve_all : (ℕ → Bytes) → List Round → Option ℕ → M Exit
serve_all clock rounds none = pure failure
serve_all clock rounds (some listen_fd) = do
  obtain listen_fd
  cs ← event_loop clock rounds []
  shut_down listen_fd cs

unfoldable pub main : (ℕ → Bytes) → Setup → List Round → M Exit
main clock setup rounds = serve_all clock rounds (create_listen_socket setup)
