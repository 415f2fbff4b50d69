-- ===== src/FileServer/EventLoop.antt =====
-- The event loop of
-- exersises/concurrency/event-based-concurrency/exercise/file-server.c (lines 359 to 422). Each
-- round is what the environment does to one iteration: the signals that arrive before `select`
-- returns, what `select` says, the connections that `accept` yields until it fails, and what `read`
-- returns for each ready socket. The bits of the fd_set and `max_fd` are not modelled: a socket is
-- ready if the round has an answer for it.
use osvcp.Prelude.{
  ℕ, zero, suc, ◌+◌, ◌-◌, ◌≤◌, ◌<◌, ◌≡◌, refl, Bool, true, false, not, Option, none, some, inl, inr,
  List, [], ◌∷◌, ◌++◌, arith, Bytes, length, get_elem?, set, take, leb, if◌then◌else◌,
}
use osvcp.Cache.{cache_clear}
use osvcp.Table.{add_client, remove_client}
use osvcp.Sweep.{sweep}
use osvcp.World.{World, Files, Answer, value, waiting, M, ◌>>=◌, ◌>>◌, pure}
use osvcp.FileServer.Requests.{
  Verdict, keep, tear_down, out_of_fuel, process_requests, req_buf_size,
}
pub mod Invariant
pub mod Buffers

pub record Client : Type 0 where
  pub fd : ℕ
  pub ip : ℕ
  pub port : ℕ
  pub buf : Bytes

-- What `accept` yields.
pub record Connection : Type 0 where
  pub socket : ℕ
  pub address : ℕ
  pub port : ℕ

-- The fields that `add_client` fills in.
abbrev pub new_client : Connection → Client
new_client k = record { fd = k.socket; ip = k.address; port = k.port; buf = [] }

pub data ReadResult : Type 0 where
  got : Bytes → ReadResult  -- no more than were asked for; 0 bytes at the end of the stream
  failed : ReadResult

-- `select` and what follows it.
pub data Poll : Type 0 where
  eintr : Poll  -- -1 with EINTR: `continue`
  broken : Poll  -- -1 with another errno: `break`
  ready : List Connection → (ℕ → Option ReadResult) → Poll

pub record Round : Type 0 where
  pub files : Files
  pub sigint : Bool
  pub sigusr1 : Bool
  pub poll : Poll

pub record Server : Type 0 where
  pub running : Bool
  pub cache_clear_requested : Bool
  pub clients : List Client

-- `running` and the `break` of a `select` that fails
pub data Next : Type 0 where
  again : Server → Next
  stop : Server → Next

unfoldable pub clear_cache : M (Unit {0})
clear_cache w =
    let (c, freed) = cache_clear w.cache in
    (value tt, record w { cache = c; freed = freed ++ w.freed })

-- The flag of SIGUSR1, at the top of an iteration.
unfoldable pub clear_if_requested : Server → M Server
clear_if_requested s =
    if s.cache_clear_requested
    then (do clear_cache; pure (record s { cache_clear_requested = false }))
    else pure s

-- The client after its bytes were read and its requests were served; `none` if it is to be removed.
unfoldable pub after_read : Client → Verdict → Option Client
after_read c (keep buf) = some (record c { buf = buf })
after_read c tear_down = none
after_read c out_of_fuel = none

-- What follows a `read`, by the bytes that it put into the buffer.
unfoldable pub on_bytes : Files → Client → Bytes → M (Option Client)
on_bytes fs c [] = pure none
on_bytes fs c (y ∷ read) = do
  v ← process_requests fs c.fd (c.buf ++ (y ∷ read))
  pure (after_read c v)

-- `read` is asked for the space that is left in the buffer, less the place of a NUL.
unfoldable pub on_readable : Files → Client → ReadResult → M (Option Client)
on_readable fs c failed = pure none
on_readable fs c (got bytes) = on_bytes fs c (take (req_buf_size - 1 - length c.buf) bytes)

-- The body of the loop over the clients.
unfoldable pub visit : Files → (ℕ → Option ReadResult) → Client → M (Option Client)
visit fs reads c = elim (reads c.fd) [ none ↦ pure (some c) | some r ↦ on_readable fs c r ]

-- The loop over `accept`.
unfoldable pub accept_all : List Connection → List Client → List Client
accept_all [] cs = cs
accept_all (k ∷ new) cs = accept_all new (add_client (new_client k) cs)

unfoldable pub on_poll : Files → Poll → Server → M Next
on_poll fs eintr s = pure (again s)
on_poll fs broken s = pure (stop s)
on_poll fs (ready new reads) s = do
  let cs = accept_all new s.clients
  swept ← sweep (visit fs reads) (length cs) cs
  pure (again (record s { clients = swept }))

-- The signals that arrive while an iteration waits in `select`.
abbrev pub deliver : Round → Server → Server
deliver r s = record s {
  running = if r.sigint then false else s.running;
  cache_clear_requested = if r.sigusr1 then true else s.cache_clear_requested;
}

unfoldable pub iteration : Round → Server → M Next
iteration r s = do cleared ← clear_if_requested s; on_poll r.files r.poll (deliver r cleared)

-- `while (running)`, over the rounds that the environment has in store.
unfoldable pub event_loop : List Round → Server → M Server
event_loop [] s = pure s
event_loop (r ∷ rounds) s =
    let go = (do n ← iteration r s; elim n [ again t ↦ event_loop rounds t | stop t ↦ pure t ]) in
    if s.running then go else pure s
