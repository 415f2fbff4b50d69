-- ===== src/AioServer/EventLoop/Balance.antt =====
-- Blocks and files over a whole run of the event loop of
-- exersises/concurrency/event-based-concurrency/exercise/aio-file-server.c.
use osvcp.Prelude.{
  sum, ℕ, ◌+◌, ◌≤◌, ◌≡◌, refl, inl, inr, none, some, List, ◌∷◌, subst, arith, ltb, count-append,
  hit, Bool-cases, if◌then◌else◌,
}
use osvcp.Cache.{cache_insert, cache_clear, blocks}
use osvcp.Cache.Ownership.{count-insert}
use osvcp.Table.Slots.{IsTable}
use osvcp.World.{World, Files, value, malloc, free, opened, close, send, insert}
use osvcp.World.Moves.{Moves, Any, pure-Moves, act-Moves}
use osvcp.FileServer.EventLoop.{clear_cache}
use osvcp.FileServer.Serve.Resources.{gained, settled}
use osvcp.AioServer.{Client}
use osvcp.AioServer.Ledger.{Ledger, IsReady, held, held_block}
use osvcp.AioServer.Visit.{emit}
use osvcp.AioServer.EventLoop.{Round, Server, event_loop}
use osvcp.AioServer.EventLoop.Keeps.{event_loop-Keeps}

-- `malloc`, whether it fails or not.
malloc-Moves :
    (P : ℕ → World → Type 0) (cost : ℕ → ℕ)
    → ((k : ℕ) (w : World) → P k w → P k (record w { mallocs = w.mallocs + 1 }))
    → ((k : ℕ) (w : World)
        → P k w
        → P
            (cost w.mallocs + k)
            (record w { mallocs = w.mallocs + 1; allocated = w.mallocs ∷ w.allocated }))
    → (fs : Files) → Moves P 0 Any (held_block cost) (malloc fs)
unfolding malloc
malloc-Moves P cost fails works fs k w u x h p =
    let p' : P k w = subst (λ n. P n w) (omega arith) p in
    elim (Bool-cases (fs.malloc w.mallocs)) [
      | inl e ↦
          pure-Moves P (cost w.mallocs) Any (held_block cost) (some w.mallocs) tt refl k _ u x
            (rw (e, malloc) at h) (works k w p')
      | inr e ↦
          pure-Moves P 0 Any (held_block cost) none tt refl k _ u x (rw (e, malloc) at h)
            (subst (λ n. P n (record w { mallocs = w.mallocs + 1 })) (omega arith) (fails k w p'))
    ]

-- The files that are open besides those that were open at the start.
module _ (base : ℕ) where
  abbrev Open : ℕ → World → Type 0
  Open n w = w.files ≡ base + n

  unfoldable open_files : Ledger
  unfolding malloc free opened close send insert emit clear_cache
  open_files = record {
    P = Open;
    block = λ _. 0;
    file = 1;
    on_malloc = malloc-Moves Open (λ _. 0) (λ k w p. p) (λ k w p. omega (arith, p));
    on_free = λ b. act-Moves Open 0 0 (free b) (λ k w p. p);
    on_open = act-Moves Open 0 1 opened (λ k w p. omega (arith, p));
    on_close = act-Moves Open 1 0 close (λ k w p. omega (arith, p));
    on_send = λ fd buf. act-Moves Open 0 0 (send fd buf) (λ k w p. p);
    on_emit = λ fd buf. act-Moves Open 0 0 (emit fd buf) (λ k w p. p);
    on_insert = λ key b r n. act-Moves Open 0 0 (insert key b r n) (λ k w p. p);
    on_clear = act-Moves Open 0 0 clear_cache (λ k w p. p);
  }

-- The blocks at an address, and that none is handed out twice.
module _ (a : ℕ) where
  abbrev Lent : ℕ → World → Type 0
  Lent n w = (gained a w ≡ settled a w + n) × (gained a w ≤ (if ltb a w.mallocs then 1 else 0))

  once-later :
      (g m : ℕ)
      → g ≤ (if ltb a m then 1 else 0)
      → (g ≤ (if ltb a (m + 1) then 1 else 0)) × (hit a m + g ≤ (if ltb a (m + 1) then 1 else 0))
  once-later g m h = ground arith

  unfoldable lent_blocks : Ledger
  unfolding malloc free opened close send insert emit clear_cache cache_clear
  lent_blocks = record {
    P = Lent;
    block = hit a;
    file = 0;
    on_malloc =
        malloc-Moves Lent (hit a) (λ k w p. (p.0, (once-later (gained a w) w.mallocs p.1).0))
          (λ k w p. (omega (arith, p.0), (once-later (gained a w) w.mallocs p.1).1));
    on_free = λ b. act-Moves Lent (hit a b) 0 (free b) (λ k w p. (omega (arith, p.0), p.1));
    on_open = act-Moves Lent 0 0 opened (λ k w p. p);
    on_close = act-Moves Lent 0 0 close (λ k w p. p);
    on_send = λ fd buf. act-Moves Lent 0 0 (send fd buf) (λ k w p. p);
    on_emit = λ fd buf. act-Moves Lent 0 0 (emit fd buf) (λ k w p. p);
    on_insert = λ key b r n. act-Moves Lent (hit a b) 0 (insert key b r n) (λ k w p. (
      omega (
        arith,
        p.0,
        count-insert a key b r n w.cache,
        count-append a (cache_insert key b r n w.cache).1 w.freed,
      ),
      p.1,
    ));
    on_clear =
        act-Moves Lent 0 0 clear_cache
          (λ k w p. (omega (arith, p.0, count-append a (blocks w.cache) w.freed), p.1));
  }

-- Every block that was allocated is held by one entry of the cache or by one client, or was freed
-- once; the files that are open are those of the clients in STATE_AIO and STATE_SENDFILE, besides
-- `base` others.
pub record IsBalanced (base : ℕ) (cs : List Client) (w : World) : Type 0 where
  pub files : w.files ≡ base + sum (held (λ _. 0) 1) cs
  pub balanced : (a : ℕ) → gained a w ≡ settled a w + sum (held (hit a) 0) cs
  pub once : (a : ℕ) → gained a w ≤ (if ltb a w.mallocs then 1 else 0)

-- However many rounds the server runs, and whatever clients, signals, failed calls and unfinished
-- transfers they bring, when it waits in `select` again or has stopped, every block it ever
-- allocated is held by one entry of the cache or one client, or was freed exactly once, and the open
-- files are those of its clients that read or send one.
pub event_loop-IsBalanced :
    (base : ℕ) (rounds : List Round) (s t : Server) (w u : World)
    → event_loop rounds s w ≡ (value t, u)
    → IsTable IsReady s.clients
    → IsBalanced base s.clients w
    → IsBalanced base t.clients u
unfolding open_files lent_blocks
event_loop-IsBalanced base rounds s t w u h q b = record {
  files =
      omega (
        arith,
        (event_loop-Keeps (open_files base) rounds s q 0 w u t h (omega (arith, b.files))).1,
      );
  balanced = λ a. omega (arith, (lent a b).0);
  once = λ a. (lent a b).1;
}
  where
    lent : (a : ℕ) → IsBalanced base s.clients w → Lent a (sum (held (hit a) 0) t.clients + 0) u
    lent a b =
        (event_loop-Keeps (lent_blocks a) rounds s q 0 w u t h
          (omega (arith, b.balanced a), b.once a)).1
