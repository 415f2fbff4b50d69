-- ===== src/Tests/TimeServer.antt =====
-- Runs of the time server for one connection at a time.
use osvcp.Prelude.{◌≡◌, refl, true, false, some, inl, inr, List, [], ◌∷◌, codes}
use osvcp.Wire.{wrote}
use osvcp.TimeServer.{
  Round, connected, refused, accepted, sent, closed, Setup, create_listen_socket, response,
  serve_connection, serve, on_accept, accept_loop, main,
}
use osvcp.TimeServer.Sequence
use osvcp.TimeServer.Sequence.{IsOrderly}
use osvcp.TimeServer.Exits
use osvcp.TimeServer.Exits.{IsDone}

abbrev setup : Setup
setup = record { socket = some 3; reusable = true; bound = true; listening = true }

-- A connection that takes four bytes, an error, a connection during which SIGINT comes, and one
-- that is not accepted any more.
abbrev rounds : List Round
rounds =
    record { accept = connected 4; time = codes "noon"; write = some (wrote 4); sigint = false }
    ∷ record { accept = refused; time = []; write = some (wrote 0); sigint = false }
    ∷ record { accept = connected 5; time = codes "noon"; write = some (wrote 3); sigint = true }
    ∷ record { accept = connected 6; time = []; write = some (wrote 1); sigint = false }
    ∷ []

socket : create_listen_socket setup ≡ some 3
unfolding create_listen_socket
socket = refl

run :
    (main setup rounds).events
    ≡ accepted 4
      ∷ sent 4 (codes "Curr")
      ∷ closed 4
      ∷ accepted 5
      ∷ sent 5 (codes "Cur")
      ∷ closed 5
      ∷ closed 3
      ∷ []
unfolding main create_listen_socket accept_loop on_accept serve serve_connection response
run = refl

main-IsOrderly_example : IsOrderly 3 (main setup rounds).events (main setup rounds).outcome
main-IsOrderly_example = Sequence.main-IsOrderly setup rounds 3 socket

main-IsDone_example : IsDone 3 (main setup rounds)
main-IsDone_example =
    Exits.main-IsDone setup rounds 3 socket
      (inr (wrote 4, refl, inr (inr (wrote 0, refl, inr (inr (wrote 3, refl, inl refl))))))
