-- ===== src/TimeServer/Sequence.antt =====
-- In which order exersises/concurrency/event-based-concurrency/exercise/tcp-time-server.c accepts,
-- answers and closes.
use osvcp.Prelude.{
  ℕ, ◌<◌, ◌≡◌, refl, Bool, true, false, not, Option, none, some, ◌⊎◌, inl, inr, List, [], ◌∷◌, ◌++◌,
  Bytes, codes, take, length, length-take_le, arith,
}
use osvcp.Wire.{WriteResult, wrote, interrupted, unready, failed}
use osvcp.TimeServer.{
  buf_size, Accept, connected, stopped, refused, Round, Event, accepted, sent, closed, Outcome,
  failure, success, waiting, Run, response, serve_connection, Setup, create_listen_socket, serve,
  on_accept, accept_loop, main,
}

-- What the server is doing.
pub data Phase : Type 0 where
  idle : Phase
  busy : ℕ → Phase
  answered : ℕ → Phase
  over : Phase

-- What an event may follow: a connection is accepted only when there is none, and is answered with
-- at most 255 bytes and then closed; the listening socket is closed last.
abbrev pub Next : ℕ → Phase → Event → Phase → Type 0
Next listen_fd idle (accepted fd) p = p ≡ busy fd
Next listen_fd idle (sent fd bytes) p = ⊥
Next listen_fd idle (closed fd) p = (fd ≡ listen_fd) × (p ≡ over)
Next listen_fd (busy fd) (accepted other) p = ⊥
Next listen_fd (busy fd) (sent to bytes) p =
    (to ≡ fd) × (length bytes < buf_size) × (p ≡ answered fd)
Next listen_fd (busy fd) (closed other) p = ⊥
Next listen_fd (answered fd) (accepted other) p = ⊥
Next listen_fd (answered fd) (sent to bytes) p = ⊥
Next listen_fd (answered fd) (closed other) p = (other ≡ fd) × (p ≡ idle)
Next listen_fd over e p = ⊥

-- The events lead from one phase to another.
abbrev pub Leads : ℕ → Phase → List Event → Phase → Type 0
Leads listen_fd p [] q = p ≡ q
Leads listen_fd p (e ∷ es) q = (m : Phase) × Next listen_fd p e m × Leads listen_fd m es q

-- A run that returns has closed the listening socket, and one that waits does so with no connection
-- or before the answer to one.
abbrev pub IsOrderly : ℕ → List Event → Outcome → Type 0
IsOrderly listen_fd es failure = ⊥
IsOrderly listen_fd es success = Leads listen_fd idle es over
IsOrderly listen_fd es waiting =
    Leads listen_fd idle es idle ⊎ ((fd : ℕ) × Leads listen_fd idle es (busy fd))

served :
    (l fd : ℕ) (bytes : Bytes) (es : List Event) (q : Phase)
    → length bytes < buf_size
    → Leads l idle es q
    → Leads l idle (accepted fd ∷ sent fd bytes ∷ closed fd ∷ es) q
served l fd bytes es q k h =
    (busy fd, refl, (answered fd, (refl, k, refl), (idle, (refl, refl), h)))

serve_connection-Leads :
    (l fd : ℕ) (time : Bytes) (a : WriteResult) (es : List Event) (q : Phase)
    → Leads l idle es q
    → Leads l idle (accepted fd ∷ serve_connection time fd a ∷ closed fd ∷ es) q
unfolding serve_connection response
serve_connection-Leads l fd time (wrote n) es q h =
    let whole = codes "Current time: " ++ (time ++ 10 ∷ []) in
    let (a, b) = length-take_le n (take 255 whole) in
    served l fd _ es q (omega (arith, b, (length-take_le 255 whole).0)) h
serve_connection-Leads l fd time interrupted es q h = served l fd [] es q (omega arith) h
serve_connection-Leads l fd time unready es q h = served l fd [] es q (omega arith) h
serve_connection-Leads l fd time failed es q h = served l fd [] es q (omega arith) h

serve-IsOrderly :
    (l fd : ℕ) (time : Bytes) (a : WriteResult) (es : List Event) (o : Outcome)
    → IsOrderly l es o
    → IsOrderly l (accepted fd ∷ serve_connection time fd a ∷ closed fd ∷ es) o
serve-IsOrderly l fd time a es failure h = h
serve-IsOrderly l fd time a es success h = serve_connection-Leads l fd time a es over h
serve-IsOrderly l fd time a es waiting (inl h) = inl (serve_connection-Leads l fd time a es idle h)
serve-IsOrderly l fd time a es waiting (inr (other, h)) =
    inr (other, serve_connection-Leads l fd time a es (busy other) h)

shut_down-IsOrderly : (l : ℕ) → IsOrderly l (closed l ∷ []) success
shut_down-IsOrderly l = (over, (refl, refl), refl)

on_accept-IsOrderly :
    (l : ℕ) (accept : Accept) (time : Bytes) (write : Option WriteResult) (sigint : Bool)
    (more : Run)
    → IsOrderly l more.events more.outcome
    → let run =
        on_accept l
          (record { accept = accept; time = time; write = write; sigint = sigint })
          more in
      IsOrderly l run.events run.outcome
unfolding on_accept serve
on_accept-IsOrderly l (connected fd) time none sigint more h = inr (fd, (busy fd, refl, refl))
on_accept-IsOrderly l (connected fd) time (some a) sigint more h =
    serve-IsOrderly l fd time a more.events more.outcome h
on_accept-IsOrderly l stopped time write sigint more h = shut_down-IsOrderly l
on_accept-IsOrderly l refused time write sigint more h = h

accept_loop-IsOrderly :
    (l : ℕ) (running : Bool) (rounds : List Round)
    → IsOrderly l (accept_loop l running rounds).events (accept_loop l running rounds).outcome
unfolding accept_loop
accept_loop-IsOrderly l false rounds = shut_down-IsOrderly l
accept_loop-IsOrderly l true [] = inl refl
accept_loop-IsOrderly l true (r ∷ rounds) =
    on_accept-IsOrderly l r.accept r.time r.write r.sigint (accept_loop l (not r.sigint) rounds)
      (accept_loop-IsOrderly l (not r.sigint) rounds)

-- Once the server listens: whatever connections, errors and signals come, it accepts a connection
-- only when it has no other, answers it with at most 255 bytes, and closes it before the next; when
-- `main` returns, the last thing it has done is to close the listening socket.
pub main-IsOrderly :
    (setup : Setup) (rounds : List Round) (listen_fd : ℕ)
    → create_listen_socket setup ≡ some listen_fd
    → IsOrderly listen_fd (main setup rounds).events (main setup rounds).outcome
unfolding main
main-IsOrderly setup rounds listen_fd h = rw (h, main) (accept_loop-IsOrderly listen_fd true rounds)
