-- ===== src/FileServer/Serve/Resources.antt =====
-- What a request leaves behind: no open file, no lost block, and no block freed twice.
use osvcp.Prelude.{
  ℕ, ◌+◌, ◌-◌, ◌≤◌, ◌≡◌, refl, inl, inr, Bool, ◌&&◌, List, [], ◌∷◌, ◌++◌, arith, Bytes, leb, ltb,
  length, take, if◌then◌else◌, Option-cases, count, count-append,
}
use osvcp.World.{World, Files, value, malloc, free, opened, close, send, insert}
use osvcp.FileServer.Serve.{
  serve_file, serve_relative, serve_resolved, serve_from_disk, serve_opened, fill_block, whole,
  stream, stream_chunks, refuse, candidate, access_denied, send_whole, header, Reason, stat_failed,
  not_regular, open_failed, not_found, empty_filename, absolute_path,
}
use osvcp.Cache.{cache_insert, blocks}
use osvcp.Cache.Ownership.{count-insert}

-- How often a block was allocated, and how often it is accounted for: freed, or held by the cache.
abbrev pub gained : ℕ → World → ℕ
gained a w = count a w.allocated

abbrev pub settled : ℕ → World → ℕ
settled a w = count a w.freed + count a (blocks w.cache)

-- No address is handed out twice, and every block that was allocated is either held by one entry of
-- the cache or was freed once.
pub record IsOwned (w : World) : Type 0 where
  pub balanced : (a : ℕ) → gained a w ≡ settled a w
  pub once : (a : ℕ) → gained a w ≤ (if ltb a w.mallocs then 1 else 0)

-- `w'` has `n` files fewer open than `w`, and accounts for the block `b` besides what `w` does.
record Closes (n : ℕ) (extra : List ℕ) (a : ℕ) (w w' : World) : Type 0 where
  files : w'.files ≡ w.files - n
  gain : gained a w' ≡ gained a w
  settle : settled a w' ≡ settled a w + count a extra
  mallocs : w'.mallocs ≡ w.mallocs

-- `w'` has `n` files fewer open than `w`, and accounts for all the blocks that it has more.
record Even (n a : ℕ) (w w' : World) : Type 0 where
  files : w'.files ≡ w.files - n
  even : gained a w' + settled a w ≡ gained a w + settled a w'
  mallocs : w.mallocs ≤ w'.mallocs
  fresh : gained a w' ≤ gained a w + (if leb w.mallocs a && ltb a w'.mallocs then 1 else 0)

module _ (fs : Files) (fd a : ℕ) where
  stream_chunks-Closes :
      (chunks : List Bytes) (w : World) (r : Bool)
      → (stream_chunks fd chunks w).0 ≡ value r
      → Closes 1 [] a w (stream_chunks fd chunks w).1
  unfolding stream_chunks close send
  stream_chunks-Closes [] w r h = omega arith
  stream_chunks-Closes ([] ∷ rest) w r h = omega arith
  stream_chunks-Closes ((x ∷ chunk) ∷ rest) w r h =
      ground (arith, stream_chunks-Closes rest (send fd (x ∷ chunk) w).1 r)

  stream-Closes :
      (p : Bytes) (size : ℕ) (w : World) (r : Bool)
      → (stream fs fd p size w).0 ≡ value r
      → Closes 1 [] a w (stream fs fd p size w).1
  unfolding stream send close
  stream-Closes p size w r h =
      ground (arith, stream_chunks-Closes (fs.reads p) (send fd (header size) w).1 r)

  insert-Closes :
      (p : Bytes) (block : ℕ) (resp : Bytes) (size : ℕ) (w : World)
      → Closes 0 (block ∷ []) a w (insert p block resp size w).1
  unfolding insert
  insert-Closes p block resp size w = omega (
    arith,
    count-insert a p block resp size w.cache,
    count-append a (cache_insert p block resp size w.cache).1 w.freed,
  )

  insert-value :
      (p : Bytes) (block : ℕ) (resp : Bytes) (size : ℕ) (w : World)
      → (insert p block resp size w).0 ≡ value tt
  unfolding insert
  insert-value p block resp size w = refl

  send_whole-Closes :
      (p : Bytes) (size block : ℕ) (content : Bytes) (w : World) (r : Bool)
      → (send_whole fs fd p size block content w).0 ≡ value r
      → Closes 1 (block ∷ []) a w (send_whole fs fd p size block content w).1
  unfolding send_whole send close free
  send_whole-Closes p size block content w r h =
      let resp = header size ++ content in
      let n = length (header size) + size in
      let w' = (send fd (take n resp) (close w).1).1 in
      ground (arith, insert-value p block resp n w', insert-Closes p block resp n w')

  fill_block-Closes :
      (p : Bytes) (size block : ℕ) (w : World) (r : Bool)
      → (fill_block fs fd p size block w).0 ≡ value r
      → Closes 1 (block ∷ []) a w (fill_block fs fd p size block w).1
  unfolding fill_block free
  fill_block-Closes p size block w r h = elim (Option-cases (whole fs p size)) [
    | inl e ↦ ground (arith, stream-Closes p size (free block w).1 r)
    | inr (content, e) ↦
        ground (
          arith,
          stream-Closes p size (free block w).1 r,
          send_whole-Closes p size block content w r,
        )
  ]

  serve_opened-Even :
      (p : Bytes) (size : ℕ) (w : World) (r : Bool)
      → (serve_opened fs fd p size w).0 ≡ value r
      → Even 1 a w (serve_opened fs fd p size w).1
  unfolding serve_opened malloc
  serve_opened-Even p size w r h = ground (
    arith,
    stream-Closes p size w r,
    stream-Closes p size (malloc fs w).1 r,
    fill_block-Closes p size w.mallocs (malloc fs w).1 r,
  )

  refuse-Even : (why : Reason) (w : World) → Even 0 a w (refuse fd why w).1
  unfolding refuse send
  refuse-Even why w = ground arith

  serve_from_disk-Even :
      (p : Bytes) (w : World) (r : Bool)
      → (serve_from_disk fs fd p w).0 ≡ value r
      → Even 0 a w (serve_from_disk fs fd p w).1
  unfolding serve_from_disk opened
  serve_from_disk-Even p w r h = elim (Option-cases (fs.stat p)) [
    | inl e ↦ ground (arith, refuse-Even stat_failed w)
    | inr (st, e) ↦ ground (
      arith,
      refuse-Even not_regular w,
      refuse-Even open_failed w,
      serve_opened-Even p st.size (opened w).1 r,
    )
  ]

  serve_relative-Even :
      (name : Bytes) (w : World) (r : Bool)
      → (serve_relative fs fd name w).0 ≡ value r
      → Even 0 a w (serve_relative fs fd name w).1
  unfolding serve_relative serve_resolved send
  serve_relative-Even name w r h = elim (Option-cases (fs.realpath (candidate fs.docroot name))) [
    | inl e ↦ ground (arith, refuse-Even not_found w)
    | inr (p, e) ↦ ground (arith, refuse-Even access_denied w, serve_from_disk-Even p w r)
  ]

  serve_file-Even :
      (name : Bytes) (w : World) (r : Bool)
      → (serve_file fs fd name w).0 ≡ value r
      → Even 0 a w (serve_file fs fd name w).1
  unfolding serve_file
  serve_file-Even [] w r h = refuse-Even empty_filename w
  serve_file-Even (c ∷ name) w r h =
      ground (arith, refuse-Even absolute_path w, serve_relative-Even (c ∷ name) w r)

-- When `serve_file` returns, on whatever branch, as many files are open as before.
pub serve_file-files :
    (fs : Files) (fd : ℕ) (name : Bytes) (w : World) (r : Bool)
    → (serve_file fs fd name w).0 ≡ value r
    → (serve_file fs fd name w).1.files ≡ w.files
serve_file-files fs fd name w r h = omega (arith, serve_file-Even fs fd 0 name w r h)

-- When `serve_file` returns, on whatever branch, every block ever allocated is either held by exactly
-- one entry of the cache or was freed exactly once, if that was so before: no leak, no double free.
pub serve_file-IsOwned :
    (fs : Files) (fd : ℕ) (name : Bytes) (w : World) (r : Bool)
    → (serve_file fs fd name w).0 ≡ value r
    → IsOwned w
    → IsOwned (serve_file fs fd name w).1
serve_file-IsOwned fs fd name w r h o = record {
  balanced = λ a. omega (arith, serve_file-Even fs fd a name w r h, o.balanced a);
  once = λ a. ground (arith, serve_file-Even fs fd a name w r h, o.once a);
}
