-- ===== src/Tests/SelectServer.antt =====
-- A run of the time server: a connection, and two requests at once.
use osvcp.Prelude.{ℕ, count, ◌≡◌, refl, true, false, some, List, [], ◌∷◌, ◌++◌, Bytes, codes}
use osvcp.Lines.{lines, split_line}
use osvcp.Table.{add_client, remove_client}
use osvcp.Sweep.{sweep}
use osvcp.World.{World, value, ◌>>=◌, pure}
use osvcp.FileServer.EventLoop.{Client, got}
use osvcp.SelectServer.{
  Round, ready, broken, check_flood, process_client_data, answer_lines, respond, write, response,
  after_data, on_bytes, on_readable, visit, accept_all, on_poll, event_loop,
}
use osvcp.SelectServer.Replies
use osvcp.SelectServer.Replies.{answer_each}
use osvcp.SelectServer.Main.{Setup, success, main, serve_all, shut_down, create_listen_socket}
use osvcp.SelectServer.Descriptors
use osvcp.FileServer.Main.{fresh}
use osvcp.Wire.{WriteResult, wrote}
use osvcp.Sockets.{obtain, shut, shut_if, admit, close_dropped, closing, shut_all}
use osvcp.Tests.FileServer.{start}

abbrev noon : ℕ → Bytes
noon n = codes "12:00"

abbrev two : Bytes
two = codes "x" ++ (10 ∷ codes "y" ++ (10 ∷ codes "z"))

process_client_data-lines_example :
    process_client_data noon 5 two start
    ≡ (answer_each noon 5 (lines two).0 (lines two).1 >>= λ v. pure (check_flood v)) start
process_client_data-lines_example = Replies.process_client_data-lines noon 5 two start

abbrev rounds : List Round
rounds =
    record {
      sigint = false;
      poll = ready (record { socket = 5; address = 0; port = 0 } ∷ []) (λ fd. some (got two));
    }
    ∷ record { sigint = false; poll = broken }
    ∷ []

abbrev last_world : World
last_world = (event_loop noon rounds [] start).1

abbrev last_clients : List Client
last_clients = record { fd = 5; ip = 0; port = 0; buf = codes "z" } ∷ []

run : event_loop noon rounds [] start ≡ (value last_clients, last_world)
unfolding event_loop on_poll accept_all admit obtain shut shut_if close_dropped closing visit
    on_readable on_bytes after_data process_client_data answer_lines respond write response sweep
    add_client remove_client split_line
run = refl

abbrev many : List WriteResult
many = wrote 200 ∷ wrote 200 ∷ []

abbrev setup : Setup
setup = record { socket = some 3; bound = true; listening = true }

abbrev whole_world : World
whole_world = (main noon setup rounds (fresh many)).1

whole_run : main noon setup rounds (fresh many) ≡ (value success, whole_world)
unfolding main serve_all create_listen_socket shut_down shut_all shut obtain event_loop on_poll
    accept_all admit shut_if close_dropped closing visit on_readable on_bytes after_data
    process_client_data answer_lines respond write response sweep add_client remove_client
    split_line
whole_run = refl

closed_in_order : whole_world.closed ≡ 3 ∷ 5 ∷ []
unfolding main serve_all create_listen_socket shut_down shut_all shut obtain event_loop on_poll
    accept_all admit shut_if close_dropped closing visit on_readable on_bytes after_data
    process_client_data answer_lines respond write response sweep add_client remove_client
    split_line
closed_in_order = refl

main-IsClosed_example : count 5 whole_world.sockets ≡ count 5 whole_world.closed
main-IsClosed_example = Descriptors.main-IsClosed 5 noon setup rounds many whole_world whole_run
