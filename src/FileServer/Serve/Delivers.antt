-- ===== src/FileServer/Serve/Delivers.antt =====
-- A step that sends given bytes on one socket, and how such steps follow one another.
use osvcp.Prelude.{
  ℕ, ◌+◌, ◌≤◌, ◌≡◌, refl, ◌∙◌, Bool, true, List, [], ◌∷◌, ◌++◌, append_assoc, append-nil, arith,
  Bytes, length, length-append, ◌==◌, if◌then◌else◌,
}
use osvcp.Wire.Delivery.{grants, write_all-done}
use osvcp.World.{World, Answer, value, M, ◌>>=◌, close, send}
use osvcp.FileServer.Serve.{stream_chunks}

-- What a socket has received, of all that was sent.
unfoldable pub received : ℕ → List (ℕ × Bytes) → Bytes
received fd [] = []
received fd ((f, b) ∷ out) = if f == fd then b ++ received fd out else received fd out

pub received-append :
    (fd : ℕ) (out : List (ℕ × Bytes)) (f : ℕ) (b : Bytes)
    → received fd (out ++ (f, b) ∷ []) ≡ (if f == fd then received fd out ++ b else received fd out)
unfolding received
received-append fd [] f b = rw append-nil refl
received-append fd ((g, c) ∷ out) f b =
    ground (arith, received-append fd out f b, append_assoc c (received fd out) b)

-- The step returns 0 having sent `b` on `fd` and nothing elsewhere, and uses up no more answers
-- than `b` has bytes.
pub record Delivers (fd : ℕ) (b : Bytes) (w : World) (r : Answer Bool × World) : Type 0 where
  pub returns : r.0 ≡ value true
  pub sent :
      (socket : ℕ)
      → received socket r.1.out ≡ received socket w.out ++ (if fd == socket then b else [])
  pub left : grants w.writes ≤ grants r.1.writes + length b

pub send-Delivers :
    (fd : ℕ) (b : Bytes) (w : World) → length b ≤ grants w.writes → Delivers fd b w (send fd b w)
unfolding send
send-Delivers fd b w h =
    let (ends, all, left) = write_all-done w.writes b h in
    record {
      returns = rw ends refl;
      sent = λ socket.
          rw all
            (ground (arith, received-append socket w.out fd b, append-nil (received socket w.out)));
      left = left;
    }

-- Two sends in a row, the second if the first returned 0.
pub Delivers-then :
    (fd : ℕ) (a b : Bytes) (w : World) (m k e : M Bool)
    → Delivers fd a w (m w)
    → Delivers fd b (m w).1 (k (m w).1)
    → Delivers fd (a ++ b) w ((m >>= λ sent. if sent then k else e) w)
Delivers-then fd a b w m k e f s =
    rw (f.returns, ◌>>=◌)
      (record {
        returns = s.returns;
        sent = λ socket. s.sent socket ∙ rw (f.sent socket) (both socket);
        left = omega (arith, f.left, s.left, length-append a b);
      })
  where
    both :
        (socket : ℕ)
        → (received socket w.out ++ (if fd == socket then a else []))
            ++ (if fd == socket then b else [])
          ≡ received socket w.out ++ (if fd == socket then a ++ b else [])
    both socket =
        ground (arith, append_assoc (received socket w.out) a b, append-nil (received socket w.out))

-- A send that is followed by what sends nothing and returns 0.
pub Delivers-quiet :
    (fd : ℕ) (b : Bytes) (w : World) (m : M Bool) (k : Bool → M Bool)
    → Delivers fd b w (m w)
    → (k true (m w).1).0 ≡ value true
    → (k true (m w).1).1.out ≡ (m w).1.out
    → (k true (m w).1).1.writes ≡ (m w).1.writes
    → Delivers fd b w ((m >>= k) w)
Delivers-quiet fd b w m k f e o ws =
    rw (f.returns, ◌>>=◌)
      (record { returns = e; sent = λ socket. rw o (f.sent socket); left = rw ws f.left })

-- What a run of `read`s returns, up to the one that returns 0.
unfoldable pub until_end : List Bytes → Bytes
until_end [] = []
until_end ([] ∷ rest) = []
until_end ((x ∷ chunk) ∷ rest) = (x ∷ chunk) ++ until_end rest

pub stream_chunks-Delivers :
    (fd : ℕ) (chunks : List Bytes) (w : World)
    → length (until_end chunks) ≤ grants w.writes
    → Delivers fd (until_end chunks) w (stream_chunks fd chunks w)
unfolding stream_chunks until_end close
stream_chunks-Delivers fd [] w h = record {
  returns = refl;
  sent = λ socket. ground (arith, append-nil (received socket w.out));
  left = omega arith;
}
stream_chunks-Delivers fd ([] ∷ rest) w h = record {
  returns = refl;
  sent = λ socket. ground (arith, append-nil (received socket w.out));
  left = omega arith;
}
stream_chunks-Delivers fd ((x ∷ chunk) ∷ rest) w h =
    let sent =
      send-Delivers fd (x ∷ chunk) w (omega (arith, length-append chunk (until_end rest))) in
    Delivers-then fd (x ∷ chunk) (until_end rest) w (send fd (x ∷ chunk)) (stream_chunks fd rest) _
      sent
      (stream_chunks-Delivers fd rest (send fd (x ∷ chunk) w).1
        (omega (arith, length-append chunk (until_end rest), sent.left)))
