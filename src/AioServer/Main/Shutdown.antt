-- ===== src/AioServer/Main/Shutdown.antt =====
-- What exersises/concurrency/event-based-concurrency/exercise/aio-file-server.c leaves behind.
use osvcp.Prelude.{
  ℕ, ◌+◌, ◌≤◌, ◌≡◌, refl, sym, ap, subst, Option, none, some, inl, inr, List, [], map, arith, count,
  count-append, hit, sum, Option-cases, Bool-cases,
}
use osvcp.Wire.{WriteResult}
use osvcp.Cache.{blocks, cache_clear}
use osvcp.World.{World, Answer, value, waiting, ◌>>=◌}
use osvcp.World.Laws.{bind_value, bind_waiting, Answer-cases, no_value}
use osvcp.FileServer.EventLoop.{clear_cache}
use osvcp.FileServer.Main.{Setup, create_listen_socket, fresh}
use osvcp.AioServer.{Client}
use osvcp.AioServer.Ledger.{held}
use osvcp.AioServer.EventLoop.{Round, Server, event_loop}
use osvcp.AioServer.EventLoop.Balance.{IsBalanced, event_loop-IsBalanced}
use osvcp.AioServer.Main.{
  SignalSetup, Exit, failure, success, below, started, shut_down, serve_all, with_signals, main,
}

-- The clients that were there at the end.
abbrev pub remaining : Exit → List Client
remaining failure = []
remaining (success cs fds) = cs

-- The cache is empty. A block that was allocated was freed once, or is a response of such a client;
-- the files that are open are those of such clients.
pub record IsLeft (cs : List Client) (w : World) : Type 0 where
  freed : (a : ℕ) → count a w.allocated ≡ count a w.freed + sum (held (hit a) 0) cs
  once : (a : ℕ) → count a w.allocated ≤ 1
  cache : w.cache ≡ []
  files : w.files ≡ sum (held (λ _. 0) 1) cs

fresh-IsLeft : (writes : List WriteResult) → IsLeft [] (fresh writes)
fresh-IsLeft writes = record {
  freed = λ a. refl;
  once = λ a. omega arith;
  cache = refl;
  files = refl;
}

fresh-IsBalanced : (writes : List WriteResult) → IsBalanced 0 [] (fresh writes)
fresh-IsBalanced writes = record { files = refl; balanced = λ a. refl; once = λ a. omega arith }

-- Of a result with its state, if there is one.
abbrev Leaves : Answer Exit × World → Type 0
Leaves (value e, u) = IsLeft (remaining e) u
Leaves (waiting, u) = Unit {0}

shut_down-Leaves :
    (listen_fd aio_sfd : ℕ) (s : Server) (w : World)
    → IsBalanced 0 s.clients w
    → Leaves (shut_down listen_fd aio_sfd s w)
unfolding shut_down clear_cache cache_clear
shut_down-Leaves fd sfd s w b = record {
  freed = λ a. omega (arith, b.balanced a, count-append a (blocks w.cache) w.freed);
  once = λ a. ground (arith, b.once a);
  cache = refl;
  files = omega (arith, b.files);
}

waits : (q : Answer Exit × World) → q.0 ≡ waiting → Leaves q
waits (value e, u) h = absurd (no_value e (sym h))
waits (waiting, u) h = tt

serve_all-Leaves :
    (rounds : List Round) (listen_fd : Option ℕ) (aio_sfd : ℕ) (writes : List WriteResult)
    → Leaves (serve_all rounds listen_fd aio_sfd (fresh writes))
unfolding serve_all
serve_all-Leaves rounds none sfd writes = fresh-IsLeft writes
serve_all-Leaves rounds (some fd) sfd writes =
    let w = fresh writes in
    let loop = event_loop rounds started w in
    elim (Answer-cases loop.0) [
      | inl z ↦
          waits ((event_loop rounds started >>= shut_down fd sfd) w)
            (bind_waiting (event_loop rounds started) (shut_down fd sfd) w z)
      | inr (s, z) ↦
          let left =
            event_loop-IsBalanced 0 rounds started s w loop.1 (ap (λ a. (a, loop.1)) z)
              (tt, omega arith) (fresh-IsBalanced writes) in
          subst Leaves (sym (bind_value (event_loop rounds started) (shut_down fd sfd) w s z))
            (shut_down-Leaves fd sfd s loop.1 left)
    ]

with_signals-Leaves :
    (setup : Setup) (signals : SignalSetup) (rounds : List Round) (writes : List WriteResult)
    → Leaves (with_signals setup signals rounds (fresh writes))
unfolding with_signals
with_signals-Leaves setup signals rounds writes = elim (Bool-cases signals.blocked) [
  | inr e ↦ rw (e, with_signals) (fresh-IsLeft writes)
  | inl e ↦ elim (Option-cases signals.signalfd) [
    | inl z ↦ rw (e, z, with_signals) (fresh-IsLeft writes)
    | inr (sfd, z) ↦
        rw (e, z, with_signals) (serve_all-Leaves rounds (create_listen_socket setup) sfd writes)
  ]
]

main-Leaves :
    (setup : Setup) (signals : SignalSetup) (rounds : List Round) (writes : List WriteResult)
    → Leaves (main setup signals rounds (fresh writes))
unfolding main
main-Leaves setup signals rounds writes = elim (Option-cases setup.root) [
  | inl z ↦ rw (z, main) (fresh-IsLeft writes)
  | inr (root, z) ↦
      rw (z, main) (with_signals-Leaves setup signals (map (below root) rounds) writes)
]

-- Whatever the system answers, before the loop and in any number of rounds, whatever clients,
-- signals, failed calls and unfinished transfers they bring: when `main` returns, the cache is
-- empty, and every block that was allocated has been freed exactly once but for the responses of the
-- clients that were still there; the files left open are those that these clients read or send.
pub main-IsLeft :
    (setup : Setup) (signals : SignalSetup) (rounds : List Round) (writes : List WriteResult)
    (e : Exit) (u : World)
    → main setup signals rounds (fresh writes) ≡ (value e, u)
    → IsLeft (remaining e) u
main-IsLeft setup signals rounds writes e u h =
    subst Leaves h (main-Leaves setup signals rounds writes)
