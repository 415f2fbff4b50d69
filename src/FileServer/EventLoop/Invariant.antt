-- ===== src/FileServer/EventLoop/Invariant.antt =====
-- What every iteration keeps.
use osvcp.Prelude.{
  ℕ, zero, suc, ◌≡◌, ◌∙◌, ap, refl, subst, false, Option, none, some, inl, inr, List, [], ◌∷◌, ◌++◌,
  arith, Bytes, length, Option-cases, count-append,
}
use osvcp.Cache.{blocks, cache_clear}
use osvcp.World.{World, Files, value, M, pure}
use osvcp.World.Preserves.{Preserves, pure-Preserves, bind-Preserves, if-Preserves}
use osvcp.FileServer.Serve.{serve_file}
use osvcp.FileServer.Serve.Resources.{IsOwned, serve_file-IsOwned, serve_file-files}
use osvcp.FileServer.Requests.{
  Verdict, keep, tear_down, process_requests, serve_lines, check_length,
}
use osvcp.Sweep.{sweep}
use osvcp.Sweep.Keeps.{sweep-Preserves}
use osvcp.FileServer.EventLoop.{
  Client, ReadResult, got, failed, Poll, eintr, broken, ready, Round, Server, again, stop,
  clear_cache, clear_if_requested, on_bytes, on_readable, visit, on_poll, iteration, event_loop,
  deliver, after_read, accept_all,
}
use osvcp.Lines.{split_line, request_name}

module _ (P : World → Type 0)
    (serve : (fs : Files) (fd : ℕ) (name : Bytes) → Preserves P (serve_file fs fd name))
    (clear : Preserves P clear_cache) where
  serve_lines-Preserves :
      (fs : Files) (fd fuel : ℕ) (buf : Bytes) → Preserves P (serve_lines fs fd fuel buf)
  unfolding serve_lines
  serve_lines-Preserves fs fd zero buf = pure-Preserves P Verdict.out_of_fuel
  serve_lines-Preserves fs fd (suc fuel) buf = elim (Option-cases (split_line buf)) [
    | inl e ↦ rw (e, serve_lines) (pure-Preserves P (keep buf))
    | inr ((line, rest), e) ↦
        rw (e, serve_lines)
          (bind-Preserves P (serve_file fs fd (request_name line)) _
            (serve fs fd (request_name line))
            λ served.
              if-Preserves P served (serve_lines fs fd fuel rest) (pure tear_down)
                (serve_lines-Preserves fs fd fuel rest) (pure-Preserves P tear_down))
  ]

  process_requests-Preserves :
      (fs : Files) (fd : ℕ) (buf : Bytes) → Preserves P (process_requests fs fd buf)
  unfolding process_requests
  process_requests-Preserves fs fd buf =
      bind-Preserves P (serve_lines fs fd (suc (length buf)) buf) _
        (serve_lines-Preserves fs fd (suc (length buf)) buf)
        (λ v. pure-Preserves P (check_length v))

  on_bytes-Preserves : (fs : Files) (c : Client) (read : Bytes) → Preserves P (on_bytes fs c read)
  unfolding on_bytes
  on_bytes-Preserves fs c [] = pure-Preserves P none
  on_bytes-Preserves fs c (y ∷ read) =
      bind-Preserves P (process_requests fs c.fd (c.buf ++ (y ∷ read))) _
        (process_requests-Preserves fs c.fd (c.buf ++ (y ∷ read)))
        (λ v. pure-Preserves P (after_read c v))

  on_readable-Preserves :
      (fs : Files) (c : Client) (r : ReadResult) → Preserves P (on_readable fs c r)
  unfolding on_readable
  on_readable-Preserves fs c failed = pure-Preserves P none
  on_readable-Preserves fs c (got bytes) = on_bytes-Preserves fs c _

  visit-Preserves :
      (fs : Files) (reads : ℕ → Option ReadResult) (c : Client) → Preserves P (visit fs reads c)
  unfolding visit
  visit-Preserves fs reads c = elim (Option-cases (reads c.fd)) [
    | inl e ↦ rw (e, visit) (pure-Preserves P (some c))
    | inr (r, e) ↦ rw (e, visit) (on_readable-Preserves fs c r)
  ]

  on_poll-Preserves : (fs : Files) (p : Poll) (s : Server) → Preserves P (on_poll fs p s)
  unfolding on_poll
  on_poll-Preserves fs eintr s = pure-Preserves P (again s)
  on_poll-Preserves fs broken s = pure-Preserves P (stop s)
  on_poll-Preserves fs (ready new reads) s =
      let cs = accept_all new s.clients in
      bind-Preserves P (sweep (visit fs reads) (length cs) cs) _
        (sweep-Preserves P (visit fs reads) (visit-Preserves fs reads) (length cs) cs)
        (λ swept. pure-Preserves P (again (record s { clients = swept })))

  clear_if_requested-Preserves : (s : Server) → Preserves P (clear_if_requested s)
  unfolding clear_if_requested
  clear_if_requested-Preserves s =
      if-Preserves P s.cache_clear_requested _ (pure s)
        (bind-Preserves P clear_cache _ clear
          (λ _. pure-Preserves P (record s { cache_clear_requested = false })))
        (pure-Preserves P s)

  iteration-Preserves : (r : Round) (s : Server) → Preserves P (iteration r s)
  unfolding iteration
  iteration-Preserves r s =
      bind-Preserves P (clear_if_requested s) _ (clear_if_requested-Preserves s)
        (λ cleared. on_poll-Preserves r.files r.poll (deliver r cleared))

  event_loop-Preserves : (rounds : List Round) (s : Server) → Preserves P (event_loop rounds s)
  unfolding event_loop
  event_loop-Preserves [] s = pure-Preserves P s
  event_loop-Preserves (r ∷ rounds) s =
      if-Preserves P s.running _ (pure s)
        (bind-Preserves P (iteration r s) _ (iteration-Preserves r s) λ n.
          elim n
            as (λ n.
              Preserves P
                (elim n as (λ _. M Server) [ again t ↦ event_loop rounds t | stop t ↦ pure t ])) [
                  | again t ↦ event_loop-Preserves rounds t
                  | stop t ↦ pure-Preserves P t
                ])
        (pure-Preserves P s)

-- Nothing is lost over a whole run: no leak, no double free, and as many files open as at the start.
abbrev Sound : ℕ → World → Type 0
Sound n w = IsOwned w × (w.files ≡ n)

clear_cache-Sound : (n : ℕ) → Preserves (Sound n) clear_cache
unfolding clear_cache cache_clear
clear_cache-Sound n w u x h s = subst (Sound n) (ap (λ q. q.1) h) (
  record {
    balanced = λ a. omega (arith, s.0.balanced a, count-append a (blocks w.cache) w.freed);
    once = s.0.once;
  },
  s.1,
)

serve_file-Sound :
    (n : ℕ) (fs : Files) (fd : ℕ) (name : Bytes) → Preserves (Sound n) (serve_file fs fd name)
serve_file-Sound n fs fd name w u x h s =
    let a = ap (λ q. q.0) h in
    subst (Sound n) (ap (λ q. q.1) h)
      (serve_file-IsOwned fs fd name w x a s.0, serve_file-files fs fd name w x a ∙ s.1)

-- However many rounds the server runs, and whatever clients, signals and errors they bring, when it
-- waits in `select` again or has stopped, every block it ever allocated is held by one entry of the
-- cache or was freed exactly once, and no file is left open.
pub event_loop-IsOwned :
    (rounds : List Round) (s t : Server) (w u : World)
    → event_loop rounds s w ≡ (value t, u)
    → IsOwned w
    → IsOwned u × (u.files ≡ w.files)
event_loop-IsOwned rounds s t w u h o =
    event_loop-Preserves (Sound w.files) (serve_file-Sound w.files) (clear_cache-Sound w.files)
      rounds s w u t h (o, refl)
