-- ===== src/FileServer/Serve/Confinement.antt =====
-- Only files below the document root are read.
use osvcp.Prelude.{
  ℕ, ◌≡◌, ◌≢◌, ◌↔◌, ◌⊎◌, refl, inl, inr, true, false, some, [], ◌∷◌, ◌++◌, append-nil, arith, Bytes,
  length, drop, starts_with, Option-cases,
}
use osvcp.World.{World, Files, malloc, free, opened}
use osvcp.FileServer.Serve.{
  inside_root, ends_or_slash, serve_file, serve_relative, serve_resolved, serve_from_disk,
  serve_opened, fill_block, whole, stream, refuse, candidate, access_denied, send_whole,
}

starts_with-split : (p s : Bytes) → starts_with p s ≡ true → p ++ drop (length p) s ≡ s
unfolding starts_with
starts_with-split [] s h = refl
starts_with-split (x ∷ p) [] h = cc
starts_with-split (x ∷ p) (y ∷ s) h = ground (arith, starts_with-split p s)

starts_with-append : (p s : Bytes) → starts_with p (p ++ s) ≡ true
unfolding starts_with
starts_with-append [] s = refl
starts_with-append (x ∷ p) s = ground (arith, starts_with-append p s)

drop-append : (p s : Bytes) → drop (length p) (p ++ s) ≡ s
drop-append [] s = refl
drop-append (x ∷ p) s = drop-append p s

drop-root : (p : Bytes) → drop (length p) p ≡ []
drop-root [] = refl
drop-root (x ∷ p) = drop-root p

-- A path that lies below a root in the sense of the file system.
abbrev pub Below : Bytes → Bytes → Type 0
Below root path = (path ≡ root) ⊎ ((rest : Bytes) × (path ≡ root ++ b'/' ∷ rest))

Below-of_tail : (root tail : Bytes) → ends_or_slash tail ≡ true → Below root (root ++ tail)
Below-of_tail root [] h = inl (append-nil root)
Below-of_tail root (c ∷ tail) h = let e : c ≡ b'/' = ground arith in inr (tail, rw e)

-- The prefix test of `serve_file` accepts exactly the root itself and the paths below it.
pub inside_root_iff : (root path : Bytes) → (inside_root root path ≡ true) ↔ Below root path
unfolding inside_root
inside_root_iff root path = (
  λ h.
      let s : starts_with root path ≡ true = ground arith in
      rw (starts_with-split root path s) at
        (Below-of_tail root (drop (length root) path) (ground arith)),
  λ b. elim b [
    | inl e ↦
        let s : starts_with root root ≡ true = rw append-nil at (starts_with-append root []) in
        let d : drop (length root) root ≡ [] = drop-root root in rw (e, s, d) refl
    | inr (rest, e) ↦
        rw (e, starts_with-append root (b'/' ∷ rest), drop-append root (b'/' ∷ rest)) refl
  ],
)

inside_root_slash :
    (c : ℕ) (rest : Bytes) → c ≢ b'/' → inside_root (b'/' ∷ []) (b'/' ∷ c ∷ rest) ≡ false
unfolding inside_root starts_with
inside_root_slash c rest h = ground arith

-- Two file systems that agree on the root, on how names resolve, and on all that lies below the root.
pub record AgreeBelow (fs gs : Files) : Type 0 where
  pub docroot : fs.docroot ≡ gs.docroot
  pub realpath : (p : Bytes) → fs.realpath p ≡ gs.realpath p
  pub malloc : (n : ℕ) → fs.malloc n ≡ gs.malloc n
  pub stat : (p : Bytes) → inside_root fs.docroot p ≡ true → fs.stat p ≡ gs.stat p
  pub open_read : (p : Bytes) → inside_root fs.docroot p ≡ true → fs.open_read p ≡ gs.open_read p
  pub pread : (p : Bytes) (n : ℕ) → inside_root fs.docroot p ≡ true → fs.pread p n ≡ gs.pread p n
  pub reads : (p : Bytes) → inside_root fs.docroot p ≡ true → fs.reads p ≡ gs.reads p

module _ (fs gs : Files) (agree : AgreeBelow fs gs) (fd : ℕ) where
  stream-agree :
      (p : Bytes) (size : ℕ) (w : World)
      → inside_root fs.docroot p ≡ true
      → stream fs fd p size w ≡ stream gs fd p size w
  unfolding stream
  stream-agree p size w h = rw (agree.reads p h) refl

  whole-agree :
      (p : Bytes) (size : ℕ) → inside_root fs.docroot p ≡ true → whole fs p size ≡ whole gs p size
  unfolding whole
  whole-agree p size h = rw (agree.pread p size h) refl

  fill_block-agree :
      (p : Bytes) (size block : ℕ) (w : World)
      → inside_root fs.docroot p ≡ true
      → fill_block fs fd p size block w ≡ fill_block gs fd p size block w
  unfolding fill_block send_whole free
  fill_block-agree p size block w h =
      ground (arith, whole-agree p size h, stream-agree p size (free block w).1 h)

  serve_opened-agree :
      (p : Bytes) (size : ℕ) (w : World)
      → inside_root fs.docroot p ≡ true
      → serve_opened fs fd p size w ≡ serve_opened gs fd p size w
  unfolding serve_opened malloc
  serve_opened-agree p size w h = ground (
    arith,
    agree.malloc w.mallocs,
    stream-agree p size w h,
    stream-agree p size (malloc fs w).1 h,
    fill_block-agree p size w.mallocs (malloc fs w).1 h,
  )

  serve_from_disk-agree :
      (p : Bytes) (w : World)
      → inside_root fs.docroot p ≡ true
      → serve_from_disk fs fd p w ≡ serve_from_disk gs fd p w
  unfolding serve_from_disk
  serve_from_disk-agree p w h = elim (Option-cases (gs.stat p)) [
    | inl e ↦ ground (arith, agree.stat p h)
    | inr (st, e) ↦
        ground
          (arith, agree.stat p h, agree.open_read p h, serve_opened-agree p st.size (opened w).1 h)
  ]

  serve_relative-agree :
      (name : Bytes) (w : World) → serve_relative fs fd name w ≡ serve_relative gs fd name w
  unfolding serve_relative serve_resolved
  serve_relative-agree name w =
      rw (← agree.docroot) (elim (Option-cases (gs.realpath (candidate fs.docroot name))) [
        | inl e ↦ ground (arith, agree.realpath (candidate fs.docroot name))
        | inr (p, e) ↦
            ground (arith, agree.realpath (candidate fs.docroot name), serve_from_disk-agree p w)
      ])

  -- The answer to a request depends on nothing outside the document root: with two file systems
  -- that agree below the root and in how names resolve, `serve_file` sends the same bytes, returns
  -- the same and leaves the same cache, whatever the request.
  pub serve_file-agree :
      (name : Bytes) (w : World) → serve_file fs fd name w ≡ serve_file gs fd name w
  unfolding serve_file
  serve_file-agree [] w = refl
  serve_file-agree (c ∷ name) w = ground (arith, serve_relative-agree (c ∷ name) w)

-- With "/" as the document root no file below it can be served: whenever the name resolves to a path
-- other than "/" itself, the answer is "access denied".
pub serve_file_root_slash :
    (fs : Files) (fd c d : ℕ) (name rest : Bytes) (w : World)
    → fs.docroot ≡ b'/' ∷ []
    → fs.realpath (candidate fs.docroot (c ∷ name)) ≡ some (b'/' ∷ d ∷ rest)
    → c ≢ b'/'
    → d ≢ b'/'
    → serve_file fs fd (c ∷ name) w ≡ refuse fd access_denied w
unfolding serve_file serve_relative
serve_file_root_slash fs fd c d name rest w root found cs ds =
    let denied : inside_root fs.docroot (b'/' ∷ d ∷ rest) ≡ false =
      rw root (inside_root_slash d rest ds) in
    ground (arith, denied, found)
