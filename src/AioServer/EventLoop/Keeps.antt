-- ===== src/AioServer/EventLoop/Keeps.antt =====
-- What the event loop of
-- exersises/concurrency/event-based-concurrency/exercise/aio-file-server.c keeps: the states of its
-- clients, and the account of what they hold.
use osvcp.Prelude.{
  ℕ, ◌≡◌, ◌∙◌, refl, inl, inr, false, Option, none, some, List, [], ◌∷◌, arith, sum, sum-append,
  length, leb, ltb, Bool-cases,
}
use osvcp.Table.{add_client, max_clients}
use osvcp.Table.Slots.{IsTable, add_client-IsTable}
use osvcp.Sweep.{sweep}
use osvcp.Sweep.Keeps.{Kept, sweep-IsTable}
use osvcp.Sweep.Account.{opt, sweep-Moves}
use osvcp.World.{World, value, M, pure}
use osvcp.World.Ensures.{Ensures}
use osvcp.World.Moves.{Moves, pure-Moves, bind-Moves, if-Moves, then-Moves}
use osvcp.FileServer.EventLoop.{Connection, clear_cache}
use osvcp.AioServer.{Client, System, Events}
use osvcp.AioServer.Ledger.{Ledger, IsReady, held, held_opt}
use osvcp.AioServer.Visit.{visit}
use osvcp.AioServer.Visit.Keeps.{visit-Keeps}
use osvcp.AioServer.EventLoop.{
  new_client, Poll, eintr, broken, ready, Round, Server, Next, again, stop, accept_all,
  clear_if_requested, on_poll, deliver, iteration, event_loop,
}

-- The account of nothing.
abbrev unit_ledger : Ledger
unit_ledger = record {
  P = λ _ _. Unit {0};
  block = λ _. 0;
  file = 0;
  on_malloc = λ _ _ _ _ _ _ _. (tt, tt);
  on_free = λ _ _ _ _ _ _ _. (tt, tt);
  on_open = λ _ _ _ _ _ _. (tt, tt);
  on_close = λ _ _ _ _ _ _. (tt, tt);
  on_send = λ _ _ _ _ _ _ _ _. (tt, tt);
  on_emit = λ _ _ _ _ _ _ _ _. (tt, tt);
  on_insert = λ _ _ _ _ _ _ _ _ _ _. (tt, tt);
  on_clear = λ _ _ _ _ _ _. (tt, tt);
}

visit-Kept :
    (sys : System) (events : ℕ → Events) (c : Client)
    → IsReady c
    → Ensures (Kept IsReady) (visit sys events c)
visit-Kept sys events c q w u x h = (visit-Keeps unit_ledger sys events c q 0 w u x h tt).0

accept_all-IsTable :
    (new : List Connection) (cs : List Client)
    → IsTable IsReady cs
    → IsTable IsReady (accept_all new cs)
unfolding accept_all
accept_all-IsTable [] cs t = t
accept_all-IsTable (k ∷ new) cs t = elim (Bool-cases (ltb (length cs) max_clients)) [
  | inl e ↦
      rw (e, accept_all)
        (accept_all-IsTable new (add_client (new_client k) cs) (
          add_client-IsTable IsReady (new_client k) cs
            (record { consistent = record { fields = tt; progress = tt }; room = omega arith }) t))
  | inr e ↦ rw (e, accept_all) t
]

abbrev NextTable : Next → Type 0
NextTable (again s) = IsTable IsReady s.clients
NextTable (stop s) = IsTable IsReady s.clients

abbrev ServerTable : Server → Type 0
ServerTable s = IsTable IsReady s.clients

module _ (l : Ledger) where
  -- What all the clients hold.
  abbrev all_held : List Client → ℕ
  all_held cs = sum (held l.block l.file) cs

  abbrev server_held : Server → ℕ
  server_held s = all_held s.clients

  abbrev next_held : Next → ℕ
  next_held (again s) = all_held s.clients
  next_held (stop s) = all_held s.clients

  held-add_client :
      (k : Connection) (cs : List Client) → all_held (add_client (new_client k) cs) ≡ all_held cs
  unfolding add_client
  held-add_client k cs = elim (Bool-cases (leb max_clients (length cs))) [
    | inl e ↦ rw (e, add_client) refl
    | inr e ↦
        rw (e, add_client) (sum-append (held l.block l.file) cs (new_client k ∷ []) ∙ omega arith)
  ]

  held-accept_all :
      (new : List Connection) (cs : List Client) → all_held (accept_all new cs) ≡ all_held cs
  unfolding accept_all
  held-accept_all [] cs = refl
  held-accept_all (k ∷ new) cs = elim (Bool-cases (ltb (length cs) max_clients)) [
    | inl e ↦
        rw (e, accept_all)
          (held-accept_all new (add_client (new_client k) cs) ∙ held-add_client k cs)
    | inr e ↦ rw (e, accept_all) refl
  ]

  sweep-Keeps :
      (sys : System) (events : ℕ → Events) (cs : List Client)
      → IsTable IsReady cs
      → Moves l.P (all_held cs) (IsTable IsReady) all_held (sweep (visit sys events) (length cs) cs)
  sweep-Keeps sys events cs t k w u x r p =
      let step =
        sweep-Moves l.P IsReady (held l.block l.file) (visit sys events) (visit_opt sys events) cs
          t.0 in
      (
        sweep-IsTable IsReady (visit sys events) (visit-Kept sys events) (length cs) cs t w u x r,
        (step k w u x r p).1,
      )
    where
      same : (o : Option Client) → opt (held l.block l.file) o ≡ held_opt l.block l.file o
      same none = refl
      same (some c) = refl

      visit_opt :
          (sys : System) (events : ℕ → Events) (c : Client)
          → IsReady c
          → Moves l.P
              (held l.block l.file c)
              (Kept IsReady)
              (opt (held l.block l.file))
              (visit sys events c)
      visit_opt sys events c q k w u x r p =
          let (z, s) = visit-Keeps l sys events c q k w u x r p in (z, rw (same x) s)

  on_poll-Keeps :
      (sys : System) (p : Poll) (s : Server)
      → ServerTable s
      → Moves l.P (server_held s) NextTable next_held (on_poll sys p s)
  unfolding on_poll
  on_poll-Keeps sys eintr s t = pure-Moves l.P _ NextTable next_held (again s) t refl
  on_poll-Keeps sys broken s t = pure-Moves l.P _ NextTable next_held (stop s) t refl
  on_poll-Keeps sys (ready new events) s t =
      let cs = accept_all new s.clients in
      bind-Moves l.P _ (IsTable IsReady) all_held NextTable next_held
        (sweep (visit sys events) (length cs) cs) _
        (rw⁻¹ (held-accept_all new s.clients)
          (sweep-Keeps sys events cs (accept_all-IsTable new s.clients t)))
        (λ swept q.
          pure-Moves l.P _ NextTable next_held (again (record s { clients = swept })) q refl)

  clear_if_requested-Keeps :
      (s : Server)
      → ServerTable s
      → Moves l.P (server_held s) ServerTable server_held (clear_if_requested s)
  unfolding clear_if_requested
  clear_if_requested-Keeps s t =
      if-Moves l.P _ ServerTable server_held s.cache_clear_requested _ (pure s)
        (λ _. then-Moves l.P _ ServerTable server_held clear_cache _ l.on_clear (λ _.
          pure-Moves l.P _ ServerTable server_held (record s { cache_clear_requested = false }) t
            refl))
        (λ _. pure-Moves l.P _ ServerTable server_held s t refl)

  iteration-Keeps :
      (r : Round) (s : Server)
      → ServerTable s
      → Moves l.P (server_held s) NextTable next_held (iteration r s)
  unfolding iteration
  iteration-Keeps r s t =
      bind-Moves l.P _ ServerTable server_held NextTable next_held (clear_if_requested s) _
        (clear_if_requested-Keeps s t) (λ c q. on_poll-Keeps r.system r.poll (deliver r c) q)

  pub event_loop-Keeps :
      (rounds : List Round) (s : Server)
      → ServerTable s
      → Moves l.P (server_held s) ServerTable server_held (event_loop rounds s)
  unfolding event_loop
  event_loop-Keeps [] s t = pure-Moves l.P _ ServerTable server_held s t refl
  event_loop-Keeps (r ∷ rounds) s t =
      if-Moves l.P _ ServerTable server_held s.running _ (pure s)
        (λ _.
          bind-Moves l.P _ NextTable next_held ServerTable server_held (iteration r s) _
            (iteration-Keeps r s t)
            λ n.
              elim n
                as (λ n.
                  NextTable n
                  → Moves l.P (next_held n) ServerTable server_held (elim n as (λ _. M Server) [
                    | again v ↦ event_loop rounds v
                    | stop v ↦ pure v
                  ])) [
                    | again v ↦ λ q. event_loop-Keeps rounds v q
                    | stop v ↦ λ q. pure-Moves l.P _ ServerTable server_held v q refl
                  ])
        (λ _. pure-Moves l.P _ ServerTable server_held s t refl)

-- Whatever happens, each client is in one of four conditions: STATE_READING without a response,
-- STATE_AIO or STATE_WRITING with one and no more than all of it sent, STATE_SENDFILE with its file
-- open and bytes left to send; its buffer has room for a byte, and there are no more than
-- MAX_CLIENTS clients.
pub event_loop-IsReady :
    (rounds : List Round) (s t : Server) (w u : World)
    → event_loop rounds s w ≡ (value t, u)
    → IsTable IsReady s.clients
    → IsTable IsReady t.clients
event_loop-IsReady rounds s t w u h q = (event_loop-Keeps unit_ledger rounds s q 0 w u t h tt).0
