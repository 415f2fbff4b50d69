-- ===== src/Cache/Ownership.antt =====
-- Who frees which block: the cache owns the blocks of its entries, each exactly once.
use osvcp.Prelude.{
  ℕ, ◌+◌, ◌≡◌, refl, inl, inr, some, [], ◌∷◌, ◌++◌, arith, Bytes, count, count-append, Option-cases,
}
use osvcp.Cache.{
  Entry, Cache, cache_lookup, cache_update, make_room, cache_append, cache_insert, blocks,
}

blocks-append : (c : Cache) (e : Entry) → blocks (c ++ e ∷ []) ≡ blocks c ++ e.block ∷ []
blocks-append [] e = refl
blocks-append (f ∷ c) e = rw (blocks-append c e)

count-update :
    (a : ℕ) (key : Bytes) (b : ℕ) (r : Bytes) (n : ℕ) (c : Cache) (e : Entry)
    → cache_lookup key c ≡ some e
    → count a (blocks (cache_update key b r n c)) + count a (e.block ∷ [])
      ≡ count a (blocks c) + count a (b ∷ [])
unfolding cache_lookup cache_update
count-update a key b r n [] e h = cc
count-update a key b r n (f ∷ c) e h = ground (arith, count-update a key b r n c e)

count-make_room :
    (a : ℕ) (c : Cache)
    → count a (blocks (make_room c).0) + count a (make_room c).1 ≡ count a (blocks c)
unfolding make_room
count-make_room a [] = refl
count-make_room a (e ∷ c) = ground arith

count-cache_append :
    (a : ℕ) (key : Bytes) (b : ℕ) (r : Bytes) (n : ℕ) (c : Cache)
    → count a (blocks (cache_append key b r n c).0) + count a (cache_append key b r n c).1
      ≡ count a (blocks c) + count a (b ∷ [])
unfolding cache_append
count-cache_append a key b r n c =
    rw (blocks-append (make_room c).0)
      (omega (arith, count-append a (blocks (make_room c).0) (b ∷ []), count-make_room a c))

-- An insertion takes over the new block and frees what it drops: every block is afterwards either
-- held by the cache or freed, as often as it was held or handed over before.
pub count-insert :
    (a : ℕ) (key : Bytes) (b : ℕ) (r : Bytes) (n : ℕ) (c : Cache)
    → count a (blocks (cache_insert key b r n c).0) + count a (cache_insert key b r n c).1
      ≡ count a (blocks c) + count a (b ∷ [])
unfolding cache_insert
count-insert a key b r n c = elim (Option-cases (cache_lookup key c)) [
  | inl new ↦ rw (new, cache_insert) (count-cache_append a key b r n c)
  | inr (e, old) ↦ rw (old, cache_insert) (count-update a key b r n c e old)
]
