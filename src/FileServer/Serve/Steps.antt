-- ===== src/FileServer/Serve/Steps.antt =====
-- What `serve_opened` goes on with, by the size of the file and the answer of `malloc`, and
-- `serve_file`, by the first byte of the name.
use osvcp.Prelude.{ℕ, ◌+◌, ◌≡◌, refl, true, false, ◌∷◌, arith, Bytes, leb, ◌==◌}
use osvcp.Cache.{max_cache_file_size}
use osvcp.World.{World, Files, malloc}
use osvcp.FileServer.Serve.{
  serve_file, serve_relative, refuse, absolute_path, serve_opened, fill_block, stream,
}

-- The world after a `malloc` that fails.
abbrev pub refused_block : World → World
refused_block w = record w { mallocs = w.mallocs + 1 }

-- The world after a `malloc` that succeeds.
abbrev pub taken_block : World → World
taken_block w = record w { mallocs = w.mallocs + 1; allocated = w.mallocs ∷ w.allocated }

module _ (fs : Files) (fd : ℕ) (p : Bytes) (size : ℕ) (w : World) where
  pub serve_opened_large :
      leb size max_cache_file_size ≡ false → serve_opened fs fd p size w ≡ stream fs fd p size w
  unfolding serve_opened
  serve_opened_large h = ground arith

  pub serve_opened_refused :
      leb size max_cache_file_size ≡ true
      → fs.malloc w.mallocs ≡ false
      → serve_opened fs fd p size w ≡ stream fs fd p size (refused_block w)
  unfolding serve_opened malloc
  serve_opened_refused h m = ground arith

  pub serve_opened_taken :
      leb size max_cache_file_size ≡ true
      → fs.malloc w.mallocs ≡ true
      → serve_opened fs fd p size w ≡ fill_block fs fd p size w.mallocs (taken_block w)
  unfolding serve_opened malloc
  serve_opened_taken h m = ground arith

module _ (fs : Files) (fd : ℕ) (w : World) where
  pub serve_file_slash :
      (c : ℕ) (name : Bytes)
      → (c == b'/') ≡ true
      → serve_file fs fd (c ∷ name) w ≡ refuse fd absolute_path w
  unfolding serve_file
  serve_file_slash c name h = rw h refl

  pub serve_file_relative :
      (c : ℕ) (name : Bytes)
      → (c == b'/') ≡ false
      → serve_file fs fd (c ∷ name) w ≡ serve_relative fs fd (c ∷ name) w
  unfolding serve_file
  serve_file_relative c name h = rw h refl
