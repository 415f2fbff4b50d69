-- ===== src/FileServer/Serve/RoundTrip.antt =====
-- The replies of file-server.c (lines 206 to 211 and 279 to 291) as a client reads them, by the
-- protocol at the top of that file.
use osvcp.Prelude.{
  ℕ, zero, suc, ◌+◌, ◌-◌, ◌*◌, ◌/◌, ◌%◌, ◌^◌, ◌≤◌, ◌<◌, ◌≡◌, refl, ap, ◌∙◌, true, ◌&&◌, inl, inr,
  Option, none, some, List, [], ◌∷◌, ◌++◌, append_assoc, arith, Bytes, codes, starts_with, decimal,
  decimal_from, length, length-append, take, drop, take_of_length-le, take-append_length,
  drop-append_length, leb, ltb, ◌==◌, if◌then◌else◌, Bool-cases, map,
}
use osvcp.Table.Slots.{All}
use osvcp.Lines.{split_line}
use osvcp.FileServer.Serve.{
  Reason, empty_filename, absolute_path, not_found, access_denied, stat_failed, not_regular,
  open_failed, reason_text, error_text, header,
}
use osvcp.FileServer.Serve.Coherence.{response_text}

-- What a client learns from one reply.
pub data Outcome : Type 0 where
  received : Bytes → Outcome
  failed : Bytes → Outcome

-- A number up to the end of the line.
unfoldable read_number : ℕ → Bytes → Option (ℕ × Bytes)
read_number m [] = none
read_number m (c ∷ b) =
    let rest = read_number (m * 10 + (c - 48)) b in
    if c == 10 then some (m, b) else if leb 48 c && leb c 57 then rest else none

unfoldable read_content : Option (ℕ × Bytes) → Option (Outcome × Bytes)
read_content none = none
read_content (some (n, b)) = if leb n (length b) then some (received (take n b), drop n b) else none

unfoldable read_reason : Option (Bytes × Bytes) → Option (Outcome × Bytes)
read_reason none = none
read_reason (some (line, b)) = some (failed line, b)

-- One reply, and what follows it.
unfoldable pub read_reply : Bytes → Option (Outcome × Bytes)
unfolding read_number read_content read_reason
read_reply b =
    if starts_with (codes "+OK ") b
    then read_content (read_number 0 (drop 4 b))
    else if starts_with (codes "-ERR ") b
    then read_reason (split_line (drop 5 b))
    else none

-- As many replies as requests were sent.
unfoldable pub read_replies : ℕ → Bytes → Option (List Outcome × Bytes)
read_replies zero b = some ([], b)
read_replies (suc n) b = elim (read_reply b) [
  | none ↦ none
  | some (o, rest) ↦ elim (read_replies n rest) [
    | none ↦ none
    | some (os, rest) ↦ some (o ∷ os, rest)
  ]
]

-- What the server answers with.
pub data Reply : Type 0 where
  file : Bytes → Reply
  error : Reason → Reply

abbrev pub reply_text : Reply → Bytes
reply_text (file content) = response_text content
reply_text (error r) = error_text r

abbrev pub meaning : Reply → Outcome
meaning (file content) = received content
meaning (error r) = failed (reason_text r)

abbrev pub reply_texts : List Reply → Bytes
reply_texts [] = []
reply_texts (r ∷ rs) = reply_text r ++ reply_texts rs

-- A file's size is an `off_t`.
abbrev pub IsSized : Reply → Type 0
IsSized (file content) = length content < 2 ^ 63
IsSized (error r) = Unit {0}

-- 10 to a power, without the native one.
abbrev tens : ℕ → ℕ
tens zero = 1
tens (suc k) = 10 * tens k

length-decimal_from :
    (fuel k n : ℕ) (acc : Bytes)
    → n < tens k
    → 1 ≤ k
    → length (decimal_from fuel n acc) ≤ k + length acc
unfolding decimal_from
length-decimal_from zero k n acc h p = omega arith
length-decimal_from (suc fuel) zero n acc h p = absurd (omega (arith, p))
length-decimal_from (suc fuel) (suc zero) n acc h p = ground arith
length-decimal_from (suc fuel) (suc (suc k)) n acc h p = ground (
  arith,
  length-decimal_from fuel (suc k) (n / 10) ((48 + n % 10) ∷ acc) (omega (arith, h)) (omega arith),
)

read_number-digit :
    (m d n : ℕ) (b : Bytes)
    → d < 10
    → m * 10 + d ≡ n
    → read_number m ((48 + d) ∷ b) ≡ read_number n b
unfolding read_number
read_number-digit m d n b h e =
    let digit : m * 10 + (48 + d - 48) ≡ n = omega (arith, e) in rw digit (ground (arith, h))

-- The digits of a number, read from 0 on.
read_number-decimal_from :
    (fuel n : ℕ) (acc b : Bytes)
    → n < fuel
    → read_number 0 (decimal_from fuel n acc ++ b) ≡ read_number n (acc ++ b)
unfolding decimal_from
read_number-decimal_from zero n acc b h = absurd (omega (arith, h))
read_number-decimal_from (suc fuel) n acc b h = elim (Bool-cases (ltb n 10)) [
  | inl e ↦
      let low : n % 10 ≡ n = ground (arith, e) in
      rw (e, low) (read_number-digit 0 n n (acc ++ b) (ground (arith, e)) (omega arith))
  | inr e ↦ rw e (
      read_number-decimal_from fuel (n / 10) ((48 + n % 10) ∷ acc) b (ground (arith, h, e))
      ∙ read_number-digit (n / 10) (n % 10) n (acc ++ b) (omega arith) (omega arith))
]

read_number-decimal : (n : ℕ) (b : Bytes) → read_number 0 (decimal n ++ (10 ∷ b)) ≡ some (n, b)
unfolding decimal read_number
read_number-decimal n b = read_number-decimal_from (suc n) n [] (10 ∷ b) (omega arith)

header-whole : (n : ℕ) → n < 2 ^ 63 → header n ≡ codes "+OK " ++ (decimal n ++ 10 ∷ [])
unfolding header decimal
header-whole n h = take_of_length-le 63 (codes "+OK " ++ (decimal n ++ 10 ∷ [])) (
    omega (
      arith,
      length-append (decimal n) (10 ∷ []),
      length-decimal_from (suc n) 19 n [] (omega (arith, h)) (omega arith),
    ))

read_content-append : (c b : Bytes) → read_content (some (length c, c ++ b)) ≡ some (received c, b)
unfolding read_content
read_content-append c b =
    let enough : leb (length c) (length (c ++ b)) ≡ true = ground (arith, length-append c b) in
    rw (enough, take-append_length c b, drop-append_length c b) refl

read_reply-file :
    (c b : Bytes) → length c < 2 ^ 63 → read_reply (response_text c ++ b) ≡ some (received c, b)
unfolding read_reply starts_with
read_reply-file c b h =
    let n = length c in
    let text : response_text c ++ b ≡ codes "+OK " ++ (decimal n ++ (10 ∷ (c ++ b))) =
      rw (header-whole n h) (
        ap (λ x. codes "+OK " ++ x)
          (append_assoc (decimal n ++ 10 ∷ []) c b
            ∙ append_assoc (decimal n) (10 ∷ []) (c ++ b))) in
    rw text (ap read_content (read_number-decimal n (c ++ b)) ∙ read_content-append c b)

read_reply-error :
    (r : Reason) (b : Bytes) → read_reply (error_text r ++ b) ≡ some (failed (reason_text r), b)
unfolding read_reply starts_with error_text split_line read_reason
read_reply-error empty_filename b = refl
read_reply-error absolute_path b = refl
read_reply-error not_found b = refl
read_reply-error access_denied b = refl
read_reply-error stat_failed b = refl
read_reply-error not_regular b = refl
read_reply-error open_failed b = refl

read_reply-text :
    (r : Reply) (b : Bytes) → IsSized r → read_reply (reply_text r ++ b) ≡ some (meaning r, b)
read_reply-text (file content) b h = read_reply-file content b h
read_reply-text (error r) b h = read_reply-error r b

read_replies-suc :
    (n : ℕ) (b rest : Bytes) (o : Outcome) (os : List Outcome)
    → read_reply b ≡ some (o, rest)
    → read_replies n rest ≡ some (os, [])
    → read_replies (suc n) b ≡ some (o ∷ os, [])
unfolding read_replies read_reply starts_with
read_replies-suc n b rest o os e f = rw (e, f) refl

-- From the bytes of any number of replies, one after the other, a client reads by the protocol of
-- the file servers what each was, the content of a file or the reason of a refusal, and no byte is
-- left over, whatever bytes the files have; their sizes are below 2 ^ 63.
pub read_replies-texts :
    (rs : List Reply)
    → All IsSized rs
    → read_replies (length rs) (reply_texts rs) ≡ some (map meaning rs, [])
unfolding read_replies
read_replies-texts [] h = refl
read_replies-texts (r ∷ rs) h =
    read_replies-suc (length rs) (reply_text r ++ reply_texts rs) (reply_texts rs) (meaning r)
      (map meaning rs) (read_reply-text r (reply_texts rs) h.0) (read_replies-texts rs h.1)
