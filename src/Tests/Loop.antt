-- ===== src/Tests/Loop.antt =====
-- Buffers of requests, and rounds of the event loop.
use osvcp.Prelude.{
  ℕ, ◌≡◌, refl, true, false, Option, none, some, List, [], ◌∷◌, ◌++◌, arith, Bytes, codes,
  if◌then◌else◌, ◌==◌,
}
use osvcp.Lines.{split_line, strip_cr, request_name, lines, has_newline}
use osvcp.Cache.{cache_clear}
use osvcp.World.{World, value, pure, ◌>>=◌}
use osvcp.FileServer.Serve.Resources.{IsOwned}
use osvcp.FileServer.Requests.{keep, process_requests, check_length, serve_lines}
use osvcp.FileServer.Requests.Loop
use osvcp.FileServer.Requests.Loop.{serve_each}
use osvcp.FileServer.Requests.Chunks
use osvcp.FileServer.EventLoop.{
  Client, Poll, Round, Server, ready, got, event_loop, visit, iteration, on_poll, on_readable,
  on_bytes, after_read, accept_all, clear_if_requested, clear_cache, ReadResult,
}
use osvcp.FileServer.Main.{Setup, success, serve_all, shut_down, main, fresh}
use osvcp.FileServer.Main.Shutdown
use osvcp.FileServer.Main.Shutdown.{IsClean}
use osvcp.Sweep
use osvcp.Sweep.{sweep, Extends, visit_each, backwards}
use osvcp.FileServer.EventLoop.Invariant
use osvcp.FileServer.EventLoop.Buffers
use osvcp.FileServer.EventLoop.Buffers.{IsReady}
use osvcp.Table.Slots.{IsTable}
use osvcp.Table.{add_client, remove_client}
use osvcp.Tests.FileServer.{files, start, program, start-IsOwned}

unfoldable loop : Unit {0}
unfolding program split_line strip_cr request_name lines serve_lines process_requests event_loop
    sweep visit iteration on_poll on_readable on_bytes after_read accept_all clear_if_requested
    clear_cache cache_clear add_client remove_client
loop = tt

-- A whole request, and the start of the next.
abbrev part : Bytes
part = codes "a" ++ (13 ∷ 10 ∷ codes "b")

abbrev after_part : World
after_part = (process_requests files 5 part start).1

kept_part : process_requests files 5 part start ≡ (value (keep (codes "b")), after_part)
unfolding loop
kept_part = refl

reply_to_part : after_part.out ≡ (5, codes "+OK 2" ++ (10 ∷ codes "hi")) ∷ []
unfolding loop
reply_to_part = refl

process_requests-lines_example :
    process_requests files 5 part start
    ≡ (serve_each files 5 (lines part).0 (lines part).1 >>= λ v. pure (check_length v)) start
process_requests-lines_example = Loop.process_requests-lines files 5 part start

process_requests-append_example :
    process_requests files 5 (codes "b" ++ (10 ∷ [])) after_part
    ≡ process_requests files 5 (part ++ (10 ∷ [])) start
process_requests-append_example =
    Chunks.process_requests-append files 5 part (10 ∷ []) (codes "b") start after_part kept_part

-- Two clients; the first has a request, the second has closed.
abbrev pair : List Client
pair =
    record { fd = 5; ip = 0; port = 0; buf = codes "a" }
    ∷ record { fd = 6; ip = 0; port = 1; buf = [] }
    ∷ []

abbrev reads : ℕ → Option ReadResult
reads fd = if fd == 5 then some (got (10 ∷ [])) else (if fd == 6 then some (got []) else none)

sweep-visit_each_example :
    Extends []
      (sweep (visit files reads) 2 pair start)
      (visit_each (visit files reads) (backwards pair) start)
sweep-visit_each_example = Sweep.sweep-visit_each (visit files reads) pair start

abbrev server : Server
server = record { running = true; cache_clear_requested = false; clients = pair }

-- The requests are served, and SIGUSR1 arrives; then the cache is cleared, and SIGINT arrives.
abbrev rounds : List Round
rounds =
    record { files = files; sigint = false; sigusr1 = true; poll = ready [] reads }
    ∷ record { files = files; sigint = true; sigusr1 = false; poll = Poll.eintr }
    ∷ []

abbrev last_server : Server
last_server = record {
  running = false;
  cache_clear_requested = false;
  clients = record { fd = 5; ip = 0; port = 0; buf = [] } ∷ [];
}

abbrev last_world : World
last_world = (event_loop rounds server start).1

run : event_loop rounds server start ≡ (value last_server, last_world)
unfolding loop
run = refl

last_freed : (last_world.freed ≡ 0 ∷ []) × (last_world.cache ≡ [])
unfolding loop
last_freed = (refl, refl)

event_loop-IsOwned_example : IsOwned last_world × (last_world.files ≡ 0)
event_loop-IsOwned_example =
    Invariant.event_loop-IsOwned rounds server last_server start last_world run start-IsOwned

event_loop-IsTable_example : IsTable IsReady last_server.clients
unfolding has_newline
event_loop-IsTable_example =
    Buffers.event_loop-IsTable rounds server last_server start last_world run (
      (
        record { drained = refl; room = omega arith },
        (record { drained = refl; room = omega arith }, tt),
      ),
      omega arith,
    )

-- A client connects and sends a request, which is served from disk and cached; then SIGINT arrives.
abbrev setup : Setup
setup = record { root = some (codes "/srv"); socket = some 3; bound = true; listening = true }

abbrev two_rounds : List Round
two_rounds =
    record {
      files = files;
      sigint = false;
      sigusr1 = false;
      poll =
          ready (record { socket = 5; address = 0; port = 0 } ∷ [])
            (λ fd. if fd == 5 then some (got (codes "a" ++ (10 ∷ []))) else none);
    }
    ∷ record { files = files; sigint = true; sigusr1 = false; poll = Poll.eintr }
    ∷ []

abbrev left_behind : World
left_behind = (main setup two_rounds (fresh start.writes)).1

whole_run : main setup two_rounds (fresh start.writes) ≡ (value (success (5 ∷ 3 ∷ [])), left_behind)
unfolding loop main serve_all shut_down
whole_run = refl

one_freed : left_behind.freed ≡ 0 ∷ []
unfolding loop main serve_all shut_down
one_freed = refl

main-IsClean_example : IsClean left_behind
main-IsClean_example =
    Shutdown.main-IsClean setup two_rounds start.writes (success (5 ∷ 3 ∷ [])) left_behind whole_run
