-- ===== src/AioServer/Visit/Completion.antt =====
-- That a client in STATE_WRITING of
-- exersises/concurrency/event-based-concurrency/exercise/aio-file-server.c gets its whole response.
use osvcp.Prelude.{
  ℕ, zero, suc, ◌+◌, ◌≤◌, ◌<◌, ◌≡◌, refl, sym, ◌∙◌, ap, subst, true, false, inl, inr, Option, none,
  some, List, [], ◌∷◌, ◌++◌, append-nil, map, arith, Bytes, length, length-drop, length-take_le,
  take, ◌==◌, Bool-cases,
}
use osvcp.Table.Slots.{All}
use osvcp.Wire.{WriteResult, wrote}
use osvcp.World.{World, value, M, pure}
use osvcp.World.Laws.{bind_value}
use osvcp.AioServer.{Client, reading, writing}
use osvcp.AioServer.Visit.{emit, after_write, on_write, is_writing, ◌>=>◌}
use osvcp.AioServer.Visit.Delivery.{
  on_writes, left_in, left, Gets, Sent, after, after_write-last, after_write-more, on_writes-Sent,
}

length-take : (n : ℕ) (xs : Bytes) → n ≤ length xs → length (take n xs) ≡ n
length-take zero xs h = refl
length-take (suc n) [] h = absurd (omega (arith, h))
length-take (suc n) (x ∷ xs) h = omega (arith, length-take n xs (omega (arith, h)))

take_some : (n : ℕ) (xs : Bytes) → 1 ≤ n → 1 ≤ length xs → 1 ≤ length (take n xs)
take_some zero xs h k = absurd (omega (arith, h))
take_some (suc n) [] h k = absurd (omega (arith, k))
take_some (suc n) (x ∷ xs) h k = omega arith

-- A response in the middle of its transfer.
abbrev pub IsSending : Client → Type 0
IsSending c = (c.state ≡ writing) × (c.resp_sent < c.resp_size) × (c.resp_size ≤ length c.body)

-- The next write takes something, and no more than is left.
step_size :
    (c : Client) (n : ℕ)
    → IsSending c
    → 1 ≤ n
    → (1 ≤ length (take n (left_in writing c)))
      × (c.resp_sent + length (take n (left_in writing c)) ≤ c.resp_size)
step_size c n s h =
    let whole = length-take c.resp_size c.body s.2 in
    let size = length-drop c.resp_sent (take c.resp_size c.body) in
    (
      take_some n (left_in writing c) h (omega (arith, size, whole, s.1)),
      omega (arith, (length-take_le n (left_in writing c)).1, size, whole, s.1),
    )

then_some :
    (m : M (Option Client)) (k : Client → M (Option Client)) (w v : World) (d : Client)
    → m w ≡ (value (some d), v)
    → (m >=> k) w ≡ k d v
then_some m k w v d h =
    bind_value m (λ r. elim r as (λ _. M (Option Client)) [ some c ↦ k c | none ↦ pure none ]) w
      (some d) (ap (λ q. q.0) h)
    ∙ ap (λ q. k d q.1) h

-- Another visit, when the write took some bytes.
on_writes-suc :
    (n : ℕ) (rs : List WriteResult) (c d : Client) (w v : World)
    → c.state ≡ writing
    → after_write c (take n (left_in writing c)) w ≡ (value (some d), v)
    → on_writes (wrote n ∷ rs) c w ≡ on_writes rs d v
unfolding on_writes on_write
on_writes-suc n rs c d w v e h =
    let there : is_writing c.state ≡ true = ap is_writing e in
    let next = then_some (on_write (wrote n) c) (on_writes rs) w v d h in rw (there, on_writes) next

on_writes_stop :
    (rs : List WriteResult) (d : Client) (v : World)
    → d.state ≡ reading
    → on_writes rs d v ≡ (value (some d), v)
unfolding on_writes
on_writes_stop [] d v e = refl
on_writes_stop (r ∷ rs) d v e =
    let there : is_writing d.state ≡ false = ap is_writing e in rw (there, on_writes) refl

on_writes_ends :
    (ns : List ℕ) (c : Client) (w : World)
    → All (λ n. 1 ≤ n) ns
    → IsSending c
    → c.resp_size ≤ c.resp_sent + length ns
    → (d : Client) × (u : World) × (on_writes (map wrote ns) c w ≡ (value (some d), u))
      × (d.state ≡ reading)
on_writes_ends [] c w a s h = absurd (omega (arith, h, s.1))
on_writes_ends (n ∷ ns) c w a s h =
    let b = take n (left_in writing c) in
    let (one, fits) = step_size c n s a.0 in
    elim (Bool-cases (c.resp_sent + length b == c.resp_size)) [
      | inl q ↦
          let (v, same, out) = after_write-last c b w q in
          let d = record (after c b) { resp = none; state = reading } in
          (
            d,
            v,
            on_writes-suc n (map wrote ns) c d w v s.0 same
                ∙ on_writes_stop (map wrote ns) d v refl,
            refl,
          )
      | inr q ↦
          let v = (emit c.sock b w).1 in
          let (d, u, same, e) =
            on_writes_ends ns (after c b) v a.1 (s.0, ground (arith, fits, q), s.2)
              (omega (arith, h, one)) in
          (
            d,
            u,
            on_writes-suc n (map wrote ns) c (after c b) w v s.0 (after_write-more c b w q) ∙ same,
            e,
          )
    ]

-- A client in STATE_WRITING, with some of its response still to be sent, gets all of it in as many
-- visits as bytes are left, if each write takes at least a byte: it goes back to STATE_READING, and
-- its socket has then got exactly what was left, in order and with no byte twice, however the writes
-- were cut up; no other socket has got anything.
pub on_writes_complete :
    (ns : List ℕ) (c : Client) (w : World)
    → All (λ n. 1 ≤ n) ns
    → IsSending c
    → c.resp_size ≤ c.resp_sent + length ns
    → (d : Client) × (u : World) × (on_writes (map wrote ns) c w ≡ (value (some d), u))
      × (d.state ≡ reading)
      × Gets c.sock (left c) w u
on_writes_complete ns c w a s h =
    let (d, u, same, e) = on_writes_ends ns c w a s h in
    let (b, rest, whole, gets, k) = subst (Sent c w) same (on_writes-Sent (map wrote ns) c w) in
    let none_left : rest ≡ [] = sym k.0 ∙ ap (λ t. left_in t d) e in
    let all_sent : b ≡ left c = sym (append-nil b) ∙ ap (λ t. b ++ t) (sym none_left) ∙ whole in
    (d, u, same, e, subst (λ t. Gets c.sock t w u) all_sent gets)
