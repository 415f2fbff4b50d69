-- ===== src/AioServer/Visit/Delivery.antt =====
-- What a client in STATE_WRITING of
-- exersises/concurrency/event-based-concurrency/exercise/aio-file-server.c receives.
use osvcp.Prelude.{
  ℕ, zero, suc, ◌+◌, ◌≡◌, refl, sym, ◌∙◌, ap, subst, true, false, inl, inr, Option, none, some,
  List, [], ◌∷◌, ◌++◌, append_assoc, append-nil, arith, Bytes, length, drop, take, ◌==◌, ==_iff,
  if◌then◌else◌, Bool-cases,
}
use osvcp.Wire.{WriteResult, wrote, interrupted, unready}
use osvcp.Wire
use osvcp.World.{World, Answer, value, waiting, M, ◌>>◌, pure, free}
use osvcp.FileServer.Serve.Delivers.{received, received-append}
use osvcp.AioServer.{Client, ClientState, reading, aio, writing, sendfile}
use osvcp.AioServer.Serve.{free_block}
use osvcp.AioServer.Visit.{remove, emit, after_write, on_write, is_writing, ◌>=>◌}

-- One visit after the other in STATE_WRITING, with what `write` returns in each, until the client is
-- removed or goes on to another state.
unfoldable pub on_writes : List WriteResult → Client → M (Option Client)
on_writes [] c = pure (some c)
on_writes (r ∷ rs) c =
    let go = on_write r c >=> on_writes rs in if is_writing c.state then go else pure (some c)

-- What is still to be sent.
abbrev pub left_in : ClientState → Client → Bytes
left_in writing c = drop c.resp_sent (take c.resp_size c.body)
left_in reading c = []
left_in aio c = []
left_in sendfile c = []

abbrev pub left : Client → Bytes
left c = left_in c.state c

-- What is still to be sent if the client was not removed.
abbrev pub Rest : ℕ → Bytes → Option Client → Type 0
Rest fd rest none = Unit {0}
Rest fd rest (some c) = (left c ≡ rest) × (c.sock ≡ fd)

-- The socket has got `b`, and no other socket anything.
abbrev pub Gets : ℕ → Bytes → World → World → Type 0
Gets fd b w u =
    (socket : ℕ) → received socket u.out ≡ received socket w.out ++ (if fd == socket then b else [])

abbrev pub Sends : Client → World → Option Client → World → Type 0
Sends c w r u = (b rest : Bytes) × (b ++ rest ≡ left c) × Gets c.sock b w u × Rest c.sock rest r

drop-take : (n : ℕ) (xs : Bytes) → drop n (take n xs) ≡ []
drop-take zero xs = refl
drop-take (suc n) [] = refl
drop-take (suc n) (x ∷ xs) = drop-take n xs

drop-nil : (n : ℕ) → drop {A = ℕ} n [] ≡ []
drop-nil zero = refl
drop-nil (suc n) = refl

drop_add : (m n : ℕ) (xs : Bytes) → drop (m + n) xs ≡ drop n (drop m xs)
drop_add zero n xs = let e : 0 + n ≡ n = omega arith in ap (λ k. drop k xs) e
drop_add (suc m) n [] = drop-nil (suc m + n) ∙ sym (drop-nil n)
drop_add (suc m) n (x ∷ xs) =
    let e : suc m + n ≡ suc (m + n) = omega arith in ap (λ k. drop k (x ∷ xs)) e ∙ drop_add m n xs

take-drop : (n : ℕ) (xs : Bytes) → take n xs ++ drop (length (take n xs)) xs ≡ xs
take-drop zero xs = refl
take-drop (suc n) [] = refl
take-drop (suc n) (x ∷ xs) = ap (◌∷◌ x) (take-drop n xs)

-- The block is freed, and the sockets stay as they are.
freed :
    {A : Type 0}
    → (block : Option ℕ) (a : A) (w : World)
    → (u : World) × ((free_block block >> pure a) w ≡ (value a, u)) × (u.out ≡ w.out)
unfolding free
freed none a w = (w, refl, refl)
freed (some b) a w = (record w { freed = b ∷ w.freed }, refl, refl)

abbrev pub after : Client → Bytes → Client
after c b = record c { resp_sent = c.resp_sent + length b }

pub after_write-last :
    (c : Client) (b : Bytes) (w : World)
    → (c.resp_sent + length b == c.resp_size) ≡ true
    → (u : World) × (after_write c b w
        ≡ (value (some (record (after c b) { resp = none; state = reading })), u))
      × (u.out ≡ w.out ++ (c.sock, b) ∷ [])
unfolding after_write emit
after_write-last c b w q =
    let done = record (after c b) { resp = none; state = reading } in
    let f = freed c.resp (some done) (emit c.sock b w).1 in (f.0, rw (q, after_write) f.1, f.2)

pub after_write-more :
    (c : Client) (b : Bytes) (w : World)
    → (c.resp_sent + length b == c.resp_size) ≡ false
    → after_write c b w ≡ (value (some (after c b)), (emit c.sock b w).1)
unfolding after_write emit
after_write-more c b w q = rw (q, after_write) refl

Gets-out : (fd : ℕ) (b : Bytes) (w u : World) → u.out ≡ w.out ++ (fd, b) ∷ [] → Gets fd b w u
Gets-out fd b w u e socket =
    rw e (ground (arith, received-append socket w.out fd b, append-nil (received socket w.out)))

-- The same of a step's result, if it returns.
abbrev SentAs : Client → World → World → Answer (Option Client) → Type 0
SentAs c w u (value r) = Sends c w r u
SentAs c w u waiting = Unit {0}

abbrev pub Sent : Client → World → Answer (Option Client) × World → Type 0
Sent c w q = SentAs c w q.1 q.0

-- A write of the next bytes.
after_write-Sent :
    (c : Client) (n : ℕ) (w : World)
    → c.state ≡ writing
    → Sent c w (after_write c (take n (left_in writing c)) w)
unfolding emit
after_write-Sent c n w e =
    let xs = left_in writing c in
    let b = take n xs in
    let text = take c.resp_size c.body in
    let whole : b ++ drop (c.resp_sent + length b) text ≡ left c =
      ap (λ t. b ++ t) (drop_add c.resp_sent (length b) text)
      ∙ take-drop n xs
      ∙ sym (ap (λ s. left_in s c) e) in
    elim (Bool-cases (c.resp_sent + length b == c.resp_size)) [
      | inl q ↦
          let (u, same, out) = after_write-last c b w q in
          let end : drop (c.resp_sent + length b) text ≡ [] =
            ap (λ k. drop k text) ((==_iff _ _).0 q) ∙ drop-take c.resp_size c.body in
          subst (Sent c w) (sym same)
            (b, [], subst (λ t. b ++ t ≡ left c) end whole, Gets-out c.sock b w u out, (refl, refl))
      | inr q ↦ subst (Sent c w) (sym (after_write-more c b w q)) (
        b,
        drop (c.resp_sent + length b) text,
        whole,
        Gets-out c.sock b w (emit c.sock b w).1 refl,
        (ap (λ s. left_in s (after c b)) e, refl),
      )
    ]

removed :
    (c : Client) (w : World)
    → c.state ≡ writing
    → (u : World) × (remove c w ≡ (value none, u)) × (u.out ≡ w.out)
unfolding remove
removed c w e =
    let (u, same, out) = freed {A = Option Client} c.resp none w in (u, rw (e, remove) same, out)

remove-Sent : (c : Client) (w : World) → c.state ≡ writing → Sent c w (remove c w)
remove-Sent c w e =
    let (u, same, out) = removed c w e in
    subst (Sent c w) (sym same) (
      [],
      left c,
      refl,
      (λ socket. rw out (ground (arith, append-nil (received socket w.out)))),
      tt,
    )

on_write-Sent :
    (r : WriteResult) (c : Client) (w : World) → c.state ≡ writing → Sent c w (on_write r c w)
unfolding on_write
on_write-Sent (wrote n) c w e = after_write-Sent c n w e
on_write-Sent unready c w e = after_write-Sent c zero w e
on_write-Sent interrupted c w e = remove-Sent c w e
on_write-Sent Wire.failed c w e = remove-Sent c w e

Gets-nothing : (fd : ℕ) (w u : World) → u.out ≡ w.out → Gets fd [] w u
Gets-nothing fd w u e socket = rw e (ground (arith, append-nil (received socket w.out)))

Gets-both :
    (fd : ℕ) (a b : Bytes) (w v u : World) → Gets fd a w v → Gets fd b v u → Gets fd (a ++ b) w u
Gets-both fd a b w v u f g socket =
    g socket
    ∙ rw (f socket) (elim (Bool-cases (fd == socket)) [
      | inl e ↦ rw e (append_assoc (received socket w.out) a b)
      | inr e ↦ rw (e, append-nil) refl
    ])

-- What follows a write that leaves the client there.
Sent-then :
    (c d : Client) (w v : World) (q : Answer (Option Client) × World)
    → Sends c w (some d) v
    → Sent d v q
    → Sent c w q
Sent-then c d w v (waiting, u) s t = tt
Sent-then c d w v (value r, u) (b, rest, whole, gets, (same, fd)) (b', rest', whole', gets', k) = (
  b ++ b',
  rest',
  append_assoc b b' rest' ∙ ap (λ t. b ++ t) (whole' ∙ same) ∙ whole,
  Gets-both c.sock b b' w v u gets (subst (λ f. Gets f b' v u) fd gets'),
  subst (λ f. Rest f rest' r) fd k,
)

stays : (c : Client) (w : World) → Sent c w (value (some c), w)
stays c w = ([], left c, refl, Gets-nothing c.sock w w refl, (refl, refl))

is_writing-state : (s : ClientState) → is_writing s ≡ true → s ≡ writing
is_writing-state writing h = refl
is_writing-state reading h = absurd (ground arith)
is_writing-state aio h = absurd (ground arith)
is_writing-state sendfile h = absurd (ground arith)

-- What is done with the result of a write.
resume :
    (c : Client) (w : World) (rs : List WriteResult) (q : Answer (Option Client) × World)
    → ((d : Client) (v : World) → Sent d v (on_writes rs d v))
    → Sent c w q
    → Sent c w (elim q.0 [
      | value x ↦
          (elim x as (λ _. M (Option Client)) [ none ↦ pure none | some d ↦ on_writes rs d ]) q.1
      | waiting ↦ (waiting, q.1)
    ])
resume c w rs (waiting, v) k s = tt
resume c w rs (value none, v) k s = s
resume c w rs (value (some d), v) k s = Sent-then c d w v (on_writes rs d v) s (k d v)

pub on_writes-Sent : (rs : List WriteResult) (c : Client) (w : World) → Sent c w (on_writes rs c w)
unfolding on_writes
on_writes-Sent [] c w = stays c w
on_writes-Sent (r ∷ rs) c w = elim (Bool-cases (is_writing c.state)) [
  | inr e ↦ rw (e, on_writes) (stays c w)
  | inl e ↦
      let s = on_write-Sent r c w (is_writing-state c.state e) in
      let t = resume c w rs (on_write r c w) (on_writes-Sent rs) s in rw (e, on_writes) t
]
