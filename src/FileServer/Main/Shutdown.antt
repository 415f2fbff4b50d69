-- ===== src/FileServer/Main/Shutdown.antt =====
-- What exersises/concurrency/event-based-concurrency/exercise/file-server.c leaves behind.
use osvcp.Prelude.{
  ℕ, ◌≤◌, ◌≡◌, refl, sym, ◌∙◌, ap, subst, Option, none, some, inl, inr, List, [], map, arith, count,
  count-append, Option-cases,
}
use osvcp.Wire.{WriteResult}
use osvcp.Cache.{blocks, cache_clear}
use osvcp.World.{World, value}
use osvcp.World.Laws.{bind_value, bind_waiting, Answer-cases, no_value}
use osvcp.FileServer.Serve.Resources.{IsOwned}
use osvcp.FileServer.EventLoop.{Round, Server, clear_cache, event_loop}
use osvcp.FileServer.EventLoop.Invariant.{event_loop-IsOwned}
use osvcp.FileServer.Main.{
  Setup, create_listen_socket, Exit, failure, below, started, shut_down, serve_all, main, fresh,
}

-- Every block was freed exactly once, the cache is empty and no file is open.
pub record IsClean (w : World) : Type 0 where
  freed : (a : ℕ) → count a w.freed ≡ count a w.allocated
  once : (a : ℕ) → count a w.freed ≤ 1
  cache : w.cache ≡ []
  files : w.files ≡ 0

fresh-IsClean : (writes : List WriteResult) → IsClean (fresh writes)
fresh-IsClean writes = record {
  freed = λ a. refl;
  once = λ a. omega arith;
  cache = refl;
  files = refl;
}

fresh-IsOwned : (writes : List WriteResult) → IsOwned (fresh writes)
fresh-IsOwned writes = record { balanced = λ a. refl; once = λ a. omega arith }

shut_down-IsClean :
    (listen_fd : ℕ) (s : Server) (w : World)
    → IsOwned w
    → w.files ≡ 0
    → IsClean (shut_down listen_fd s w).1
unfolding shut_down clear_cache cache_clear
shut_down-IsClean fd s w o f = record {
  freed = λ a. omega (arith, o.balanced a, count-append a (blocks w.cache) w.freed);
  once = λ a. ground (arith, o.balanced a, o.once a, count-append a (blocks w.cache) w.freed);
  cache = refl;
  files = f;
}

serve_all-IsClean :
    (rounds : List Round) (listen_fd : Option ℕ) (writes : List WriteResult) (e : Exit) (u : World)
    → serve_all rounds listen_fd (fresh writes) ≡ (value e, u)
    → IsClean u
unfolding serve_all
serve_all-IsClean rounds none writes e u h = subst IsClean (ap (λ q. q.1) h) (fresh-IsClean writes)
serve_all-IsClean rounds (some fd) writes e u h =
    let loop = event_loop rounds started (fresh writes) in
    elim (Answer-cases loop.0) [
      | inl z ↦
          let stuck = bind_waiting (event_loop rounds started) (shut_down fd) (fresh writes) z in
          absurd (no_value e (sym stuck ∙ ap (λ q. q.0) h))
      | inr (s, z) ↦
          let o =
            event_loop-IsOwned rounds started s (fresh writes) loop.1 (ap (λ a. (a, loop.1)) z)
              (fresh-IsOwned writes) in
          let same = bind_value (event_loop rounds started) (shut_down fd) (fresh writes) s z in
          subst IsClean (ap (λ q. q.1) (sym same ∙ h)) (shut_down-IsClean fd s loop.1 o.0 o.1)
    ]

-- Whatever the system answers, before the loop and in any number of rounds, whatever clients,
-- signals and errors they bring: when `main` returns, every block that was allocated has been freed
-- exactly once, the cache is empty, and no file is open.
pub main-IsClean :
    (setup : Setup) (rounds : List Round) (writes : List WriteResult) (e : Exit) (u : World)
    → main setup rounds (fresh writes) ≡ (value e, u)
    → IsClean u
unfolding main
main-IsClean setup rounds writes e u h = elim (Option-cases setup.root) [
  | inl z ↦
      let same : main setup rounds (fresh writes) ≡ (value failure, fresh writes) =
        rw (z, main) refl in
      subst IsClean (ap (λ q. q.1) (sym same ∙ h)) (fresh-IsClean writes)
  | inr (root, z) ↦
      let there = map (below root) rounds in
      let same : main setup rounds (fresh writes)
          ≡ serve_all there (create_listen_socket setup) (fresh writes) =
        rw (z, main) refl in
      serve_all-IsClean there (create_listen_socket setup) writes e u (sym same ∙ h)
]
