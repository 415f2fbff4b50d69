-- ===== src/Cache/Shape.antt =====
-- The size of the table, and its keys.
use osvcp.Prelude.{
  ℕ, ◌-◌, ◌≤◌, ◌<◌, ◌≡◌, refl, inl, inr, false, [], ◌∷◌, ◌++◌, arith, Bytes, str_eq, str_eq_iff,
  length, length-append, take_of_length-le, ◌==◌, Bool-cases, Option-cases,
}
use osvcp.Cache.{
  Entry, Cache, cache_lookup, cache_update, make_room, cache_append, cache_insert,
  max_cache_entries, path_max,
}
use osvcp.Cache.Contents.{Absent, Distinct, Absent-of_lookup}

pub record IsValid (c : Cache) : Type 0 where
  pub fits : length c ≤ max_cache_entries
  pub distinct : Distinct c

length-update :
    (key : Bytes) (b : ℕ) (r : Bytes) (n : ℕ) (c : Cache)
    → length (cache_update key b r n c) ≡ length c
unfolding cache_update
length-update key b r n [] = refl
length-update key b r n (e ∷ c) = ground (arith, length-update key b r n c)

Absent-update :
    (k key : Bytes) (b : ℕ) (r : Bytes) (n : ℕ) (c : Cache)
    → Absent k c
    → Absent k (cache_update key b r n c)
unfolding cache_update
Absent-update k key b r n [] a = tt
Absent-update k key b r n (e ∷ c) a = elim (Bool-cases (str_eq e.key key)) [
  | inl t ↦ rw t a
  | inr f ↦ rw f (a.0, Absent-update k key b r n c a.1)
]

Distinct-update :
    (key : Bytes) (b : ℕ) (r : Bytes) (n : ℕ) (c : Cache)
    → Distinct c
    → Distinct (cache_update key b r n c)
unfolding cache_update
Distinct-update key b r n [] d = tt
Distinct-update key b r n (e ∷ c) d = elim (Bool-cases (str_eq e.key key)) [
  | inl t ↦ rw t d
  | inr f ↦ rw f (Absent-update e.key key b r n c d.0, Distinct-update key b r n c d.1)
]

Absent-append :
    (k : Bytes) (c : Cache) (e : Entry)
    → Absent k c
    → str_eq e.key k ≡ false
    → Absent k (c ++ e ∷ [])
Absent-append k [] e a h = (h, tt)
Absent-append k (f ∷ c) e a h = (a.0, Absent-append k c e a.1 h)

str_eq_comm : (a b : Bytes) → str_eq a b ≡ false → str_eq b a ≡ false
str_eq_comm a b h = ground (arith, str_eq_iff a b, str_eq_iff b a)

Distinct-append : (c : Cache) (e : Entry) → Distinct c → Absent e.key c → Distinct (c ++ e ∷ [])
Distinct-append [] e d a = (tt, tt)
Distinct-append (f ∷ c) e d a =
    (Absent-append f.key c e d.0 (str_eq_comm f.key e.key a.0), Distinct-append c e d.1 a.1)

Absent-make_room : (k : Bytes) (c : Cache) → Absent k c → Absent k (make_room c).0
unfolding make_room
Absent-make_room k [] a = tt
Absent-make_room k (e ∷ c) a = elim (Bool-cases (length (e ∷ c) == max_cache_entries)) [
  | inl t ↦ rw t a.1
  | inr f ↦ rw f a
]

make_room-IsValid :
    (c : Cache)
    → IsValid c
    → (length (make_room c).0 < max_cache_entries) × Distinct (make_room c).0
unfolding make_room
make_room-IsValid [] v = (omega arith, tt)
make_room-IsValid (e ∷ c) v = elim (Bool-cases (length (e ∷ c) == max_cache_entries)) [
  | inl t ↦ rw t (ground arith, v.distinct.1)
  | inr f ↦ rw f (ground arith, v.distinct)
]

cache_append-IsValid :
    (key : Bytes) (b : ℕ) (r : Bytes) (n : ℕ) (c : Cache)
    → length key < path_max
    → Absent key c
    → IsValid c
    → IsValid (cache_append key b r n c).0
unfolding cache_append
cache_append-IsValid key b r n c short a v = record {
  fits = omega (arith, length-append {0} (make_room c).0, make_room-IsValid c v);
  distinct = rw (take_of_length-le (path_max - 1) key (omega arith)) (
      Distinct-append (make_room c).0 (record { key = key; block = b; resp = r; resp_size = n })
        (make_room-IsValid c v).1 (Absent-make_room key c a));
}

-- An insertion keeps the table within its 16 slots and its keys distinct, whether it updates a
-- slot, takes a free one or evicts. The key fits into a slot with its NUL.
pub cache_insert-IsValid :
    (key : Bytes) (b : ℕ) (r : Bytes) (n : ℕ) (c : Cache)
    → length key < path_max
    → IsValid c
    → IsValid (cache_insert key b r n c).0
unfolding cache_insert
cache_insert-IsValid key b r n c short v = elim (Option-cases (cache_lookup key c)) [
  | inl new ↦
      rw (new, cache_insert) (cache_append-IsValid key b r n c short (Absent-of_lookup key c new) v)
  | inr (e, old) ↦
      rw (old, cache_insert)
        (record {
          fits = omega (arith, length-update key b r n c, v.fits);
          distinct = Distinct-update key b r n c v.distinct;
        })
]
