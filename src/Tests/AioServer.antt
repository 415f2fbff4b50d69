-- ===== src/Tests/AioServer.antt =====
-- A run of the event loop of aio-file-server.c: a connection, a request, the end of the read, and
-- the response.
use osvcp.Prelude.{map, ◌≡◌, refl, true, false, none, some, List, [], ◌∷◌, ◌++◌, arith, codes}
use osvcp.Table.Slots.{IsTable}
use osvcp.Wire.{wrote}
use osvcp.World.{World, value}
use osvcp.AioServer.Visit.Delivery.{on_writes, Gets}
use osvcp.AioServer.Visit.Completion
use osvcp.AioServer.{Client, System, Events, reading, writing, completed, data_there, got, full}
use osvcp.AioServer.Ledger.{IsReady}
use osvcp.AioServer.Serve.{
  sock_send, complain, write_at, start_aio, serve_small, serve_open, serve_disk, serve_path,
  begin_relative, begin_file_serve, store, check_aio,
}
use osvcp.AioServer.Visit.{
  remove, emit, take_lines, check_room, on_bytes, on_read, after_write, on_write, visit,
}
use osvcp.AioServer.EventLoop.{
  Poll, Round, Server, ready, accept_all, clear_if_requested, on_poll, iteration, event_loop,
}
use osvcp.AioServer.EventLoop.Keeps
use osvcp.AioServer.EventLoop.Balance
use osvcp.AioServer.EventLoop.Balance.{IsBalanced}
use osvcp.Table.{add_client, remove_client}
use osvcp.Lines.{split_line, strip_cr, request_name}
use osvcp.Sweep.{sweep}
use osvcp.Cache.{cache_clear}
use osvcp.FileServer.EventLoop.{clear_cache}
use osvcp.FileServer.Main.{Setup, fresh}
use osvcp.AioServer.Main.{SignalSetup, success, main, with_signals, serve_all, shut_down}
use osvcp.AioServer.Main.Shutdown
use osvcp.AioServer.Main.Shutdown.{IsLeft}
use osvcp.Tests.FileServer.{files, start, program}

unfoldable loop : Unit {0}
unfolding program split_line strip_cr request_name event_loop sweep visit iteration on_poll
    accept_all clear_if_requested add_client remove_client sock_send complain write_at start_aio
    serve_small serve_open serve_disk serve_path begin_relative begin_file_serve store check_aio
    remove emit take_lines check_room on_bytes on_read after_write on_write
loop = tt

abbrev system : System
system = record {
  files = files;
  aio_read = λ p. true;
  memory = λ b. 255 ∷ 255 ∷ 255 ∷ [];
  stale_regular = false;
}

abbrev event : Events
event = record {
  readable = true;
  writable = true;
  peek = data_there;
  read = got (codes "a" ++ (10 ∷ []));
  aio = completed (codes "hi");
  write = wrote 5;
  transfer = full;
}

abbrev round : Poll → Round
round p = record { system = system; sigint = false; sigusr1 = false; poll = p }

abbrev rounds : List Round
rounds =
    round (ready (record { socket = 7; address = 0; port = 0 } ∷ []) (λ fd. event))
    ∷ round (ready [] (λ fd. event))
    ∷ round (ready [] (λ fd. event))
    ∷ []

abbrev server : Server
server = record { running = true; cache_clear_requested = false; clients = [] }

abbrev last_world : World
last_world = (event_loop rounds server start).1

abbrev last_client : Client
last_client = record {
  sock = 7;
  ip = 0;
  port = 0;
  req = [];
  state = writing;
  file_fd = none;
  resp = some 0;
  body = codes "+OK 2" ++ (10 ∷ codes "hi");
  resp_size = 8;
  resp_sent = 5;
  data_at = 6;
  sf_fd = none;
  sf_offset = 0;
  sf_remaining = 0;
  cache_key = codes "/srv/a";
}

abbrev last_server : Server
last_server = record server { clients = last_client ∷ [] }

run : event_loop rounds server start ≡ (value last_server, last_world)
unfolding loop
run = refl

event_loop-IsReady_example : IsTable IsReady last_server.clients
event_loop-IsReady_example =
    Keeps.event_loop-IsReady rounds server last_server start last_world run (tt, omega arith)

event_loop-IsBalanced_example : IsBalanced 0 last_server.clients last_world
event_loop-IsBalanced_example =
    Balance.event_loop-IsBalanced 0 rounds server last_server start last_world run (tt, omega arith)
      (record { files = refl; balanced = λ a. refl; once = λ a. omega arith })

-- A client of which four bytes of six have been sent.
abbrev half_sent : Client
half_sent = record {
  sock = 7;
  ip = 0;
  port = 0;
  req = [];
  state = writing;
  file_fd = none;
  resp = some 0;
  body = codes "+OK 0" ++ (10 ∷ 255 ∷ []);
  resp_size = 6;
  resp_sent = 4;
  data_at = 6;
  sf_fd = none;
  sf_offset = 0;
  sf_remaining = 0;
  cache_key = [];
}

on_writes_complete_example :
    (d : Client) × (u : World) × (on_writes (map wrote (1 ∷ 3 ∷ [])) half_sent start
      ≡ (value (some d), u))
    × (d.state ≡ reading)
    × Gets 7 (codes "0" ++ (10 ∷ [])) start u
on_writes_complete_example =
    Completion.on_writes_complete (1 ∷ 3 ∷ []) half_sent start (omega arith, (omega arith, tt))
      (refl, omega arith, omega arith) (omega arith)

-- The whole program over the same rounds: the response that is half sent at the end is not freed.
abbrev setup : Setup
setup = record { root = some (codes "/srv"); socket = some 3; bound = true; listening = true }

abbrev signals : SignalSetup
signals = record { blocked = true; signalfd = some 4 }

abbrev left_behind : World
left_behind = (main setup signals rounds (fresh start.writes)).1

whole_run :
    main setup signals rounds (fresh start.writes)
    ≡ (value (success (last_client ∷ []) (7 ∷ 3 ∷ 4 ∷ [])), left_behind)
unfolding loop main with_signals serve_all shut_down clear_cache cache_clear
whole_run = refl

not_freed : (left_behind.allocated ≡ 1 ∷ 0 ∷ []) × (left_behind.freed ≡ 1 ∷ [])
unfolding loop main with_signals serve_all shut_down clear_cache cache_clear
not_freed = (refl, refl)

main-IsLeft_example : IsLeft (last_client ∷ []) left_behind
main-IsLeft_example =
    Shutdown.main-IsLeft setup signals rounds start.writes
      (success (last_client ∷ []) (7 ∷ 3 ∷ 4 ∷ [])) left_behind whole_run
