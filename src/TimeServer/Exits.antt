-- ===== src/TimeServer/Exits.antt =====
-- When exersises/concurrency/event-based-concurrency/exercise/tcp-time-server.c ends, and which
-- sockets it has closed then.
use osvcp.Prelude.{
  ℕ, ◌≡◌, refl, ap, Bool, true, false, not, some, ◌⊎◌, inl, inr, List, [], ◌∷◌, ◌++◌,
}
use osvcp.Wire.{WriteResult, wrote, interrupted, unready, failed}
use osvcp.TimeServer.{
  Accept, connected, stopped, refused, Round, Event, accepted, sent, closed, success, Run,
  serve_connection, Setup, create_listen_socket, serve, on_accept, accept_loop, main,
}

-- The sockets that were accepted, and those that were closed, in the order of the events.
abbrev pub accepted_by : List Event → List ℕ
accepted_by [] = []
accepted_by (accepted fd ∷ es) = fd ∷ accepted_by es
accepted_by (sent fd bytes ∷ es) = accepted_by es
accepted_by (closed fd ∷ es) = accepted_by es

abbrev pub closed_by : List Event → List ℕ
closed_by [] = []
closed_by (accepted fd ∷ es) = closed_by es
closed_by (sent fd bytes ∷ es) = closed_by es
closed_by (closed fd ∷ es) = fd ∷ closed_by es

-- SIGINT comes in a round, before or after the return of `accept`, and until then every call of
-- `write` is answered.
abbrev pub Interrupts : List Round → Type 0
Interrupts [] = ⊥
Interrupts (r ∷ rounds) =
    (r.accept ≡ stopped)
    ⊎ ((a : WriteResult) × (r.write ≡ some a) × ((r.sigint ≡ true) ⊎ Interrupts rounds))

-- The process returns, with every socket closed.
abbrev pub IsDone : ℕ → Run → Type 0
IsDone listen_fd run =
    (run.outcome ≡ success) × (closed_by run.events ≡ accepted_by run.events ++ listen_fd ∷ [])

serve-IsDone :
    (l fd : ℕ) (r : Round) (a : WriteResult) (more : Run)
    → IsDone l more
    → IsDone l (serve fd r a more)
unfolding serve serve_connection
serve-IsDone l fd r (wrote n) more h = (h.0, ap (◌∷◌ fd) h.1)
serve-IsDone l fd r interrupted more h = (h.0, ap (◌∷◌ fd) h.1)
serve-IsDone l fd r unready more h = (h.0, ap (◌∷◌ fd) h.1)
serve-IsDone l fd r failed more h = (h.0, ap (◌∷◌ fd) h.1)

on_accept-IsDone :
    (l : ℕ) (accept : Accept) (r : Round) (a : WriteResult) (more : Run)
    → r.accept ≡ accept
    → r.write ≡ some a
    → IsDone l more
    → IsDone l (on_accept l r more)
unfolding on_accept
on_accept-IsDone l (connected fd) r a more e w h =
    rw (e, w, on_accept) (serve-IsDone l fd r a more h)
on_accept-IsDone l stopped r a more e w h = rw (e, on_accept) (refl, refl)
on_accept-IsDone l refused r a more e w h = rw (e, on_accept) h

accept_loop-IsDone :
    (l : ℕ) (running : Bool) (rounds : List Round)
    → Interrupts rounds
    → IsDone l (accept_loop l running rounds)
unfolding accept_loop on_accept
accept_loop-IsDone l false rounds h = (refl, refl)
accept_loop-IsDone l true [] h = absurd h
accept_loop-IsDone l true (r ∷ rounds) (inl e) = rw (e, on_accept) (refl, refl)
accept_loop-IsDone l true (r ∷ rounds) (inr (a, e, inl s)) =
    on_accept-IsDone l r.accept r a (accept_loop l (not r.sigint) rounds) refl e (rw s (refl, refl))
accept_loop-IsDone l true (r ∷ rounds) (inr (a, e, inr h)) =
    on_accept-IsDone l r.accept r a (accept_loop l (not r.sigint) rounds) refl e
      (accept_loop-IsDone l (not r.sigint) rounds h)

-- If SIGINT comes at some time, as an error of `accept` or during a round, and every call of `write`
-- before then is answered, then the server returns from `main`, and has closed exactly the sockets
-- that it accepted, in that order, and the listening socket at the end.
pub main-IsDone :
    (setup : Setup) (rounds : List Round) (listen_fd : ℕ)
    → create_listen_socket setup ≡ some listen_fd
    → Interrupts rounds
    → IsDone listen_fd (main setup rounds)
unfolding main
main-IsDone setup rounds listen_fd h i = rw (h, main) (accept_loop-IsDone listen_fd true rounds i)
