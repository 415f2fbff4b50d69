-- ===== src/Lines.antt =====
-- Requests in a buffer: the newline search and the shift of `process_requests` in
-- exersises/concurrency/event-based-concurrency/exercise/file-server.c (lines 331 to 347), of
-- `process_client_data` in select-server.c (lines 130 to 151) and of the event loop of
-- aio-file-server.c (lines 514 to 523). A buffer is the list of its first `buf_len` bytes.
use osvcp.Prelude.{
  ℕ, ◌<◌, ◌≡◌, refl, Bool, true, false, Option, none, some, inl, inr, List, [], ◌∷◌, ◌++◌, arith,
  Bytes, c_string, length, ◌==◌, if◌then◌else◌, Bool-cases, Option-cases,
}

abbrev pub newline : ℕ
newline = 10

-- `memchr(buf, '\n', buf_len)`: the bytes before the first newline, and those behind it.
unfoldable pub split_line : Bytes → Option (Bytes × Bytes)
split_line [] = none
split_line (x ∷ buf) =
    if x == newline
    then some ([], buf)
    else elim (split_line buf) [ none ↦ none | some (line, rest) ↦ some (x ∷ line, rest) ]

-- `if (len > 0 && buf[len - 1] == '\r') buf[--len] = '\0'`
unfoldable pub strip_cr : Bytes → Bytes
strip_cr [] = []
strip_cr (x ∷ []) = if x == 13 then [] else x ∷ []
strip_cr (x ∷ y ∷ line) = x ∷ strip_cr (y ∷ line)

-- The name that is passed on: the C string that starts the buffer.
unfoldable pub request_name : Bytes → Bytes
request_name line = c_string (strip_cr line)

-- A byte in front of the first line, or of the rest if there is no line.
abbrev pub before : ℕ → List Bytes → Bytes → List Bytes × Bytes
before x [] rest = ([], x ∷ rest)
before x (l ∷ ls) rest = ((x ∷ l) ∷ ls, rest)

-- All the lines of a text, and what follows the last newline.
unfoldable pub lines : Bytes → List Bytes × Bytes
lines [] = ([], [])
lines (x ∷ buf) =
    if x == newline
    then ([] ∷ (lines buf).0, (lines buf).1)
    else before x (lines buf).0 (lines buf).1

-- No byte is a newline.
unfoldable pub has_newline : Bytes → Bool
has_newline [] = false
has_newline (x ∷ buf) = if x == newline then true else has_newline buf

-- The search takes at least the newline off the buffer.
pub length-split_line :
    (buf line rest : Bytes) → split_line buf ≡ some (line, rest) → length rest < length buf
unfolding split_line
length-split_line [] line rest h = cc
length-split_line (x ∷ buf) line rest h = elim (Option-cases (split_line buf)) [
  | inl e ↦ ground arith
  | inr (found, e) ↦ ground (arith, length-split_line buf found.0 found.1 e)
]

-- The first line is the one that `split_line` finds.
pub lines-split_some :
    (buf line rest : Bytes)
    → split_line buf ≡ some (line, rest)
    → lines buf ≡ (line ∷ (lines rest).0, (lines rest).1)
unfolding split_line lines
lines-split_some [] line rest h = cc
lines-split_some (x ∷ buf) line rest h = elim (Option-cases (split_line buf)) [
  | inl e ↦ ground arith
  | inr (found, e) ↦ ground (arith, lines-split_some buf found.0 found.1 e)
]

pub lines-split_none : (buf : Bytes) → split_line buf ≡ none → lines buf ≡ ([], buf)
unfolding split_line lines
lines-split_none [] h = refl
lines-split_none (x ∷ buf) h = ground (arith, lines-split_none buf)

lines-cons : (x : ℕ) (a b : Bytes) → lines a ≡ lines b → lines (x ∷ a) ≡ lines (x ∷ b)
unfolding lines
lines-cons x a b h = rw h refl

lines-cons_line :
    (x : ℕ) (buf l : Bytes) (ls : List Bytes) (r : Bytes)
    → (x == newline) ≡ false
    → lines buf ≡ (l ∷ ls, r)
    → lines (x ∷ buf) ≡ ((x ∷ l) ∷ ls, r)
unfolding lines
lines-cons_line x buf l ls r n e = ground arith

lines-cons_rest :
    (x : ℕ) (buf r : Bytes)
    → (x == newline) ≡ false
    → lines buf ≡ ([], r)
    → lines (x ∷ buf) ≡ ([], x ∷ r)
unfolding lines
lines-cons_rest x buf r n e = ground arith

lines-newline :
    (x : ℕ) (buf : Bytes)
    → (x == newline) ≡ true
    → lines (x ∷ buf) ≡ ([] ∷ (lines buf).0, (lines buf).1)
unfolding lines
lines-newline x buf e = ground arith

-- The lines of a text that comes in two parts: those of the first, then those of its rest with the
-- second part behind it.
abbrev Joined : Bytes → Bytes → Type 0
Joined a b =
    lines (a ++ b) ≡ ((lines a).0 ++ (lines ((lines a).1 ++ b)).0, (lines ((lines a).1 ++ b)).1)

Joined-cons :
    (x : ℕ) (a b : Bytes) (ls : List Bytes) (r : Bytes)
    → (x == newline) ≡ false
    → lines a ≡ (ls, r)
    → Joined a b
    → Joined (x ∷ a) b
Joined-cons x a b [] r n e ih =
    let same : lines (a ++ b) ≡ lines (r ++ b) = rw e at ih in
    rw (lines-cons_rest x a r n e) (lines-cons x (a ++ b) (r ++ b) same)
Joined-cons x a b (l ∷ ls) r n e ih =
    let split : lines (a ++ b) ≡ (l ∷ (ls ++ (lines (r ++ b)).0), (lines (r ++ b)).1) =
      rw e at ih in
    rw
      (
        lines-cons_line x a l ls r n e,
        lines-cons_line x (a ++ b) l (ls ++ (lines (r ++ b)).0) (lines (r ++ b)).1 n split,
      )
      refl

pub lines-append : (a b : Bytes) → Joined a b
unfolding lines
lines-append [] b = refl
lines-append (x ∷ a) b = elim (Bool-cases (x == newline)) [
  | inl e ↦ rw (lines-newline x a e, lines-newline x (a ++ b) e, lines-append a b) refl
  | inr n ↦ Joined-cons x a b (lines a).0 (lines a).1 n refl (lines-append a b)
]

before-has_newline :
    (x : ℕ) (ls : List Bytes) (r : Bytes)
    → (x == newline) ≡ false
    → has_newline r ≡ false
    → has_newline (before x ls r).1 ≡ false
unfolding has_newline
before-has_newline x [] r n h = rw n h
before-has_newline x (l ∷ ls) r n h = h

pub lines_rest-has_newline : (buf : Bytes) → has_newline (lines buf).1 ≡ false
unfolding lines
lines_rest-has_newline [] = unfold has_newline in refl
lines_rest-has_newline (x ∷ buf) = elim (Bool-cases (x == newline)) [
  | inl e ↦ rw e (lines_rest-has_newline buf)
  | inr n ↦ rw n (before-has_newline x (lines buf).0 (lines buf).1 n (lines_rest-has_newline buf))
]
