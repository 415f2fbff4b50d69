-- ===== src/TimeServer.antt =====
-- exersises/concurrency/event-based-concurrency/exercise/tcp-time-server.c: the time server for one
-- connection at a time. What the system answers is the environment's, a round for each call of
-- `accept`; where the rounds end, the process still waits in `accept`. What the server does to
-- sockets is a list of events. The argument, the printing, and the text of the address are not
-- modelled. The time is the text of `current_time_str`, which the clock and `strftime` make.
use osvcp.Prelude.{
  ℕ, Bool, true, false, not, ◌&&◌, Option, none, some, List, [], ◌∷◌, ◌++◌, Bytes, codes, bounded,
  take, if◌then◌else◌,
}
use osvcp.Wire.{WriteResult, wrote, interrupted, unready, failed}
pub mod Sequence
pub mod Exits

abbrev pub buf_size : ℕ
buf_size = 256

-- What `accept` returns.
pub data Accept : Type 0 where
  connected : ℕ → Accept
  stopped : Accept  -- -1 with EINTR
  refused : Accept  -- -1 with another errno

-- A call of `accept`, and what follows it.
pub record Round : Type 0 where
  pub accept : Accept
  pub time : Bytes
  pub write : Option WriteResult  -- `none`: the process still waits in `write`
  pub sigint : Bool  -- whether SIGINT has come by the next test of `running`

pub data Event : Type 0 where
  accepted : ℕ → Event
  sent : ℕ → Bytes → Event  -- a socket, and what it has taken of a call of `write`
  closed : ℕ → Event

pub data Outcome : Type 0 where
  failure : Outcome  -- `exit(EXIT_FAILURE)`
  success : Outcome  -- `return 0`
  waiting : Outcome

pub record Run : Type 0 where
  pub events : List Event
  pub outcome : Outcome

-- What `snprintf` keeps of the response.
unfoldable pub response : Bytes → Bytes
response time = bounded buf_size (codes "Current time: " ++ (time ++ 10 ∷ []))

-- One call of `write`; its failure is only reported.
unfoldable pub serve_connection : Bytes → ℕ → WriteResult → Event
serve_connection time fd (wrote n) = sent fd (take n (response time))
serve_connection time fd interrupted = sent fd []
serve_connection time fd unready = sent fd []
serve_connection time fd failed = sent fd []

-- What `create_listen_socket` gets from the system.
pub record Setup : Type 0 where
  pub socket : Option ℕ
  pub reusable : Bool  -- whether `setsockopt` succeeds
  pub bound : Bool  -- whether `bind` succeeds
  pub listening : Bool  -- whether `listen` succeeds

-- `none` for `exit(EXIT_FAILURE)`
unfoldable pub create_listen_socket : Setup → Option ℕ
create_listen_socket s = if s.reusable && (s.bound && s.listening) then s.socket else none

-- What follows the loop.
abbrev pub shut_down : ℕ → Run
shut_down listen_fd = record { events = closed listen_fd ∷ []; outcome = success }

-- A connection whose write was answered, and what comes after it.
unfoldable pub serve : ℕ → Round → WriteResult → Run → Run
serve fd r answer more = record more {
  events = accepted fd ∷ serve_connection r.time fd answer ∷ closed fd ∷ more.events;
}

-- The body of the loop, from the return of `accept` on, with the rest of the run.
unfoldable pub on_accept : ℕ → Round → Run → Run
on_accept listen_fd r more = elim r.accept [
  | connected fd ↦ elim r.write [
    | none ↦ record { events = accepted fd ∷ []; outcome = waiting }
    | some answer ↦ serve fd r answer more
  ]
  | stopped ↦ shut_down listen_fd
  | refused ↦ more
]

-- `while (running)`
unfoldable pub accept_loop : ℕ → Bool → List Round → Run
accept_loop listen_fd false rounds = shut_down listen_fd
accept_loop listen_fd true [] = record { events = []; outcome = waiting }
accept_loop listen_fd true (r ∷ rounds) =
    let more = accept_loop listen_fd (not r.sigint) rounds in on_accept listen_fd r more

unfoldable pub main : Setup → List Round → Run
main setup rounds = elim (create_listen_socket setup) [
  | none ↦ record { events = []; outcome = failure }
  | some listen_fd ↦ accept_loop listen_fd true rounds
]
