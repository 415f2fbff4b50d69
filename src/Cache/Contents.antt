-- ===== src/Cache/Contents.antt =====
-- What a lookup finds after an insertion.
use osvcp.Prelude.{
  ℕ, ◌-◌, ◌<◌, ◌≡◌, refl, inl, inr, Bool, false, ◌&&◌, Option, none, some, [], ◌∷◌, ◌++◌, arith,
  Bytes, str_eq, str_eq_iff, length, take_of_length-le, ◌==◌, if◌then◌else◌, Bool-cases,
  Option-cases,
}
use osvcp.Cache.{
  Entry, Cache, cache_lookup, cache_update, make_room, cache_append, cache_insert,
  max_cache_entries, path_max,
}

-- The response that a client would get for a key.
abbrev pub response : Option Entry → Option (Bytes × ℕ)
response none = none
response (some e) = some (e.resp, e.resp_size)

-- Whether the insertion of `key` evicts the entry of `q`: the key is new, the table is full, and
-- `q` is the key of slot 0.
unfoldable pub evicts : Cache → Bytes → Bytes → Bool
evicts [] key q = false
evicts (e ∷ c) key q = elim (cache_lookup key (e ∷ c)) [
  | some _ ↦ false
  | none ↦ length (e ∷ c) == max_cache_entries && str_eq e.key q
]

abbrev pub Absent : Bytes → Cache → Type 0
Absent k [] = Unit {0}
Absent k (e ∷ c) = (str_eq e.key k ≡ false) × Absent k c

-- No two slots hold the same key.
abbrev pub Distinct : Cache → Type 0
Distinct [] = Unit {0}
Distinct (e ∷ c) = Absent e.key c × Distinct c

pub lookup-Absent : (k : Bytes) (c : Cache) → Absent k c → cache_lookup k c ≡ none
unfolding cache_lookup
lookup-Absent k [] a = refl
lookup-Absent k (e ∷ c) a = ground (arith, lookup-Absent k c)

pub Absent-of_lookup : (k : Bytes) (c : Cache) → cache_lookup k c ≡ none → Absent k c
unfolding cache_lookup
Absent-of_lookup k [] h = tt
Absent-of_lookup k (e ∷ c) h = elim (Bool-cases (str_eq e.key k)) [
  | inl t ↦ absurd (ground arith)
  | inr f ↦ (f, Absent-of_lookup k c (ground arith))
]

lookup-append :
    (q : Bytes) (c : Cache) (e : Entry)
    → cache_lookup q (c ++ e ∷ []) ≡ (elim (cache_lookup q c) [
      | some f ↦ some f
      | none ↦ if str_eq e.key q then some e else none
    ])
unfolding cache_lookup
lookup-append q [] e = ground arith
lookup-append q (f ∷ c) e = ground (arith, lookup-append q c e)

lookup-update :
    (q key : Bytes) (b : ℕ) (r : Bytes) (n : ℕ) (c : Cache) (e : Entry)
    → cache_lookup key c ≡ some e
    → response (cache_lookup q (cache_update key b r n c))
      ≡ (if str_eq key q then some (r, n) else response (cache_lookup q c))
unfolding cache_lookup cache_update
lookup-update q key b r n [] e h = cc
lookup-update q key b r n (f ∷ c) e h = ground (
  arith,
  str_eq_iff f.key key,
  str_eq_iff f.key q,
  str_eq_iff key q,
  lookup-update q key b r n c e,
)

-- After the eviction the key of slot 0 is gone, and the others are found as before.
lookup-make_room :
    (q : Bytes) (e : Entry) (c : Cache)
    → Distinct (e ∷ c)
    → cache_lookup q (make_room (e ∷ c)).0 ≡ (
        if length (e ∷ c) == max_cache_entries && str_eq e.key q
        then none
        else cache_lookup q (e ∷ c))
unfolding cache_lookup make_room
lookup-make_room q e c d = ground (arith, str_eq_iff e.key q, lookup-Absent e.key c d.0)

lookup-append_nil :
    (q key : Bytes) (b : ℕ) (r : Bytes) (n : ℕ)
    → length key < path_max
    → response (cache_lookup q (cache_append key b r n []).0) ≡ (
        if str_eq key q
        then some (r, n)
        else (if evicts [] key q then none else response (cache_lookup q [])))
unfolding cache_append make_room cache_lookup evicts
lookup-append_nil q key b r n short = ground (arith, take_of_length-le (path_max - 1) key)

evicts_hit :
    (c : Cache) (key q : Bytes) (e : Entry) → cache_lookup key c ≡ some e → evicts c key q ≡ false
unfolding evicts
evicts_hit [] key q e h = refl
evicts_hit (f ∷ c) key q e h = ground arith

lookup-append_lem :
    (q key : Bytes) (b : ℕ) (r : Bytes) (n : ℕ) (c : Cache)
    → Distinct c
    → length key < path_max
    → cache_lookup key c ≡ none
    → response (cache_lookup q (cache_append key b r n c).0) ≡ (
        if str_eq key q
        then some (r, n)
        else (if evicts c key q then none else response (cache_lookup q c)))
unfolding cache_append evicts
lookup-append_lem q key b r n [] d short h = lookup-append_nil q key b r n short
lookup-append_lem q key b r n (e ∷ c) d short h = ground (
  arith,
  take_of_length-le (path_max - 1) key,
  str_eq_iff key q,
  lookup-make_room q e c d,
  lookup-append q (make_room (e ∷ c)).0 (record { key = key; block = b; resp = r; resp_size = n }),
)

-- An insertion stores the response under its key; of every other key the response stays what it
-- was, except of the key of slot 0 when the table is full and the key is new, which is forgotten.
-- The keys in the table differ, and the new key fits into a slot with its NUL.
pub lookup-insert :
    (q key : Bytes) (b : ℕ) (r : Bytes) (n : ℕ) (c : Cache)
    → Distinct c
    → length key < path_max
    → response (cache_lookup q (cache_insert key b r n c).0) ≡ (
        if str_eq key q
        then some (r, n)
        else (if evicts c key q then none else response (cache_lookup q c)))
unfolding cache_insert
lookup-insert q key b r n c d short = elim (Option-cases (cache_lookup key c)) [
  | inl new ↦ ground (arith, lookup-append_lem q key b r n c d short new)
  | inr (e, old) ↦ ground (arith, lookup-update q key b r n c e old, evicts_hit c key q e old)
]
