-- ===== src/AioServer/EventLoop.antt =====
-- The event loop of exersises/concurrency/event-based-concurrency/exercise/aio-file-server.c (lines
-- 422 to 569), over rounds as those of the event loop of file-server.c. The signals that
-- `aio_sfd` queues only wake `select` and are not modelled.
pub mod Keeps
pub mod Balance
use osvcp.Prelude.{
  ℕ, ◌<◌, Bool, true, false, Option, none, some, List, [], ◌∷◌, Bytes, length, ltb, if◌then◌else◌,
}
use osvcp.Table.{add_client, max_clients}
use osvcp.Sweep.{sweep}
use osvcp.World.{M, ◌>>=◌, ◌>>◌, pure}
use osvcp.FileServer.EventLoop.{Connection, clear_cache}
use osvcp.AioServer.{Client, reading, System, Events}
use osvcp.AioServer.Visit.{visit}

-- The fields that `add_client` fills in; the others are zero.
abbrev pub new_client : Connection → Client
new_client k = record {
  sock = k.socket;
  ip = k.address;
  port = k.port;
  req = [];
  state = reading;
  file_fd = none;
  resp = none;
  body = [];
  resp_size = 0;
  resp_sent = 0;
  data_at = 0;
  sf_fd = none;
  sf_offset = 0;
  sf_remaining = 0;
  cache_key = [];
}

pub data Poll : Type 0 where
  eintr : Poll  -- -1 with EINTR: `continue`
  broken : Poll  -- -1 with another errno: `break`
  ready : List Connection → (ℕ → Events) → Poll

pub record Round : Type 0 where
  pub system : System
  pub sigint : Bool
  pub sigusr1 : Bool
  pub poll : Poll

pub record Server : Type 0 where
  pub running : Bool
  pub cache_clear_requested : Bool
  pub clients : List Client

pub data Next : Type 0 where
  again : Server → Next
  stop : Server → Next

-- The loop over `accept` leaves the connections in the queue that find no slot.
unfoldable pub accept_all : List Connection → List Client → List Client
accept_all [] cs = cs
accept_all (k ∷ new) cs =
    if ltb (length cs) max_clients then accept_all new (add_client (new_client k) cs) else cs

unfoldable pub clear_if_requested : Server → M Server
clear_if_requested s =
    if s.cache_clear_requested
    then (do clear_cache; pure (record s { cache_clear_requested = false }))
    else pure s

unfoldable pub on_poll : System → Poll → Server → M Next
on_poll sys eintr s = pure (again s)
on_poll sys broken s = pure (stop s)
on_poll sys (ready new events) s = do
  let cs = accept_all new s.clients
  swept ← sweep (visit sys events) (length cs) cs
  pure (again (record s { clients = swept }))

-- The signals that arrive while an iteration waits in `select`.
abbrev pub deliver : Round → Server → Server
deliver r s = record s {
  running = if r.sigint then false else s.running;
  cache_clear_requested = if r.sigusr1 then true else s.cache_clear_requested;
}

unfoldable pub iteration : Round → Server → M Next
iteration r s = do cleared ← clear_if_requested s; on_poll r.system r.poll (deliver r cleared)

unfoldable pub event_loop : List Round → Server → M Server
event_loop [] s = pure s
event_loop (r ∷ rounds) s =
    let go = (do n ← iteration r s; elim n [ again t ↦ event_loop rounds t | stop t ↦ pure t ]) in
    if s.running then go else pure s
