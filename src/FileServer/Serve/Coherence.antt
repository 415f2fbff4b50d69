-- ===== src/FileServer/Serve/Coherence.antt =====
-- The cache holds what the disk holds, as long as the files do not change.
use osvcp.Prelude.{
  ℕ, ◌+◌, ◌-◌, ◌<◌, ◌≡◌, ◌⊎◌, refl, inl, inr, true, some, List, [], ◌∷◌, ◌++◌, arith, Bytes, length,
  length-append, take_of_length-le, ◌==◌, leb, ltb, Bool-cases, Option-cases, str_eq, str_eq→eq,
  ==_iff,
}
use osvcp.Cache.{
  Entry, Cache, cache_lookup, cache_update, make_room, cache_append, cache_insert, path_max,
  max_cache_file_size,
}
use osvcp.World.{World, Stat, Files, malloc, free, opened, close, send, insert}
use osvcp.FileServer.Serve.{
  Reason, empty_filename, absolute_path, refuse, header, stream, stream_chunks, whole, send_whole,
  fill_block, serve_opened, serve_from_disk, serve_resolved, serve_relative, serve_file, candidate,
  inside_root,
}
use osvcp.FileServer.Serve.Steps.{
  taken_block, serve_opened_large, serve_opened_taken, serve_opened_refused,
}
use osvcp.FileServer.Serve.Delivers.{until_end}

-- A regular file that can be opened.
pub record Servable (fs : Files) (p : Bytes) (st : Stat) : Type 0 where
  pub stat : fs.stat p ≡ some st
  pub regular : st.regular ≡ true
  pub open_read : fs.open_read p ≡ true

-- The files keep still: one that can be served has as many bytes as `stat` says, one `pread` returns
-- them all, the successive `read`s return the same, and the paths that `realpath` returns fit into
-- PATH_MAX with their NUL.
pub record IsStable (fs : Files) (content : Bytes → Bytes) : Type 0 where
  pub size : (p : Bytes) (st : Stat) → Servable fs p st → length (content p) ≡ st.size
  pub pread : (p : Bytes) (st : Stat) → Servable fs p st → fs.pread p st.size ≡ some (content p)
  pub reads : (p : Bytes) (st : Stat) → Servable fs p st → until_end (fs.reads p) ≡ content p
  pub short : (name p : Bytes) → fs.realpath name ≡ some p → length p < path_max

-- The response for a path, by the protocol of the server.
abbrev pub response_text : Bytes → Bytes
response_text b = header (length b) ++ b

-- The entry stands for a file that can be served, and holds its response.
pub record Reflects (fs : Files) (content : Bytes → Bytes) (e : Entry) : Type 0 where
  pub served : (st : Stat) × Servable fs e.key st
  pub resp : e.resp ≡ response_text (content e.key)
  pub resp_size : e.resp_size ≡ length e.resp

module _ (fs : Files) (content : Bytes → Bytes) where
  abbrev pub IsCoherent : Cache → Type 0
  IsCoherent [] = Unit {0}
  IsCoherent (e ∷ c) = Reflects fs content e × IsCoherent c

  pub lookup-Reflects :
      (p : Bytes) (c : Cache) (e : Entry)
      → cache_lookup p c ≡ some e
      → IsCoherent c
      → Reflects fs content e × (e.key ≡ p)
  unfolding cache_lookup
  lookup-Reflects p [] e h k = cc
  lookup-Reflects p (f ∷ c) e h k = elim (Bool-cases (str_eq f.key p)) [
    | inl t ↦ let same : f ≡ e = ground arith in rw (← same) (k.0, str_eq→eq f.key p t)
    | inr n ↦ lookup-Reflects p c e (ground arith) k.1
  ]

  IsCoherent-append :
      (c : Cache) (e : Entry) → IsCoherent c → Reflects fs content e → IsCoherent (c ++ e ∷ [])
  IsCoherent-append [] e k r = (r, tt)
  IsCoherent-append (f ∷ c) e k r = (k.0, IsCoherent-append c e k.1 r)

  make_room-IsCoherent : (c : Cache) → IsCoherent c → IsCoherent (make_room c).0
  unfolding make_room
  make_room-IsCoherent [] k = tt
  make_room-IsCoherent (e ∷ c) k = elim (Bool-cases (length (e ∷ c) == 16)) [
    | inl t ↦ rw t k.1
    | inr n ↦ rw n k
  ]

  module _ (p : Bytes) (b : ℕ) (r : Bytes) (n : ℕ)
      (new : Reflects fs content (record { key = p; block = b; resp = r; resp_size = n })) where
    update-IsCoherent : (c : Cache) → IsCoherent c → IsCoherent (cache_update p b r n c)
    unfolding cache_update
    update-IsCoherent [] k = tt
    update-IsCoherent (f ∷ c) k = elim (Bool-cases (str_eq f.key p)) [
      | inl t ↦ rw (t, str_eq→eq f.key p t) (new, k.1)
      | inr n ↦ rw n (k.0, update-IsCoherent c k.1)
    ]

    insert-IsCoherent :
        (c : Cache) → length p < path_max → IsCoherent c → IsCoherent (cache_insert p b r n c).0
    unfolding cache_insert cache_append
    insert-IsCoherent c short k = elim (Option-cases (cache_lookup p c)) [
      | inl e ↦
          rw (e, cache_insert, take_of_length-le (path_max - 1) p (omega arith))
            (IsCoherent-append (make_room c).0 _ (make_room-IsCoherent c k) new)
      | inr (f, e) ↦ rw (e, cache_insert) (update-IsCoherent c k)
    ]

refuse-cache : (fd : ℕ) (r : Reason) (w : World) → (refuse fd r w).1.cache ≡ w.cache
unfolding refuse send
refuse-cache fd r w = ground arith

stream_chunks-cache :
    (fd : ℕ) (chunks : List Bytes) (w : World) → (stream_chunks fd chunks w).1.cache ≡ w.cache
unfolding stream_chunks close send
stream_chunks-cache fd [] w = refl
stream_chunks-cache fd ([] ∷ rest) w = refl
stream_chunks-cache fd ((x ∷ chunk) ∷ rest) w =
    ground (arith, stream_chunks-cache fd rest (send fd (x ∷ chunk) w).1)

module _ (fs : Files) (fd : ℕ) (p : Bytes) where
  stream-cache : (size : ℕ) (w : World) → (stream fs fd p size w).1.cache ≡ w.cache
  unfolding stream send close
  stream-cache size w =
      ground (arith, stream_chunks-cache fd (fs.reads p) (send fd (header size) w).1)

  send_whole-cache :
      (size block : ℕ) (body : Bytes) (w : World)
      → ((send_whole fs fd p size block body w).1.cache ≡ w.cache)
        ⊎ ((send_whole fs fd p size block body w).1.cache
            ≡ (cache_insert p block (header size ++ body) (length (header size) + size) w.cache).0)
  unfolding send_whole send close insert free
  send_whole-cache size block body w = ground arith

nil_of_length : (b : Bytes) → length b ≡ 0 → b ≡ []
nil_of_length [] h = refl
nil_of_length (x ∷ b) h = absurd (omega arith)

module _ (fs : Files) (content : Bytes → Bytes) (stable : IsStable fs content) where
  pub whole-content :
      (p : Bytes) (st : Stat) → Servable fs p st → whole fs p st.size ≡ some (content p)
  unfolding whole
  whole-content p st sv = elim (Bool-cases (ltb 0 st.size)) [
    | inl some_bytes ↦ rw some_bytes (stable.pread p st sv)
    | inr none_there ↦
        rw (none_there, nil_of_length (content p) (ground (arith, stable.size p st sv))) refl
  ]

  module _ (fd : ℕ) (p : Bytes) (st : Stat) (short : length p < path_max)
      (sv : Servable fs p st) where
    new-Reflects :
        (block : ℕ)
        → Reflects fs content (record {
          key = p;
          block = block;
          resp = header st.size ++ content p;
          resp_size = length (header st.size) + st.size;
        })
    new-Reflects block = record {
      served = (st, sv);
      resp = rw (stable.size p st sv) refl;
      resp_size = omega (arith, length-append (header st.size) (content p), stable.size p st sv);
    }

    fill_block-IsCoherent :
        (block : ℕ) (w : World)
        → IsCoherent fs content w.cache
        → IsCoherent fs content (fill_block fs fd p st.size block w).1.cache
    unfolding fill_block
    fill_block-IsCoherent block w k =
        rw
          (
            whole-content p st sv,
            fill_block,
            (==_iff (length (content p)) st.size).1 (stable.size p st sv),
          )
          (elim (send_whole-cache fs fd p st.size block (content p) w) [
            | inl same ↦ rw same k
            | inr new ↦
                rw new
                  (insert-IsCoherent fs content p block _ _ (new-Reflects block) w.cache short k)
          ])

    serve_opened-IsCoherent :
        (w : World)
        → IsCoherent fs content w.cache
        → IsCoherent fs content (serve_opened fs fd p st.size w).1.cache
    unfolding serve_opened malloc
    serve_opened-IsCoherent w k = elim (Bool-cases (leb st.size max_cache_file_size)) [
      | inr large ↦ rw (serve_opened_large fs fd p st.size w large, stream-cache fs fd p) k
      | inl small ↦ elim (Bool-cases (fs.malloc w.mallocs)) [
        | inl taken ↦
            rw (serve_opened_taken fs fd p st.size w small taken)
              (fill_block-IsCoherent w.mallocs (taken_block w) k)
        | inr refused ↦
            rw (serve_opened_refused fs fd p st.size w small refused, stream-cache fs fd p) k
      ]
    ]

  module _ (fd : ℕ) where
    serve_from_disk-IsCoherent :
        (p : Bytes) (w : World)
        → length p < path_max
        → IsCoherent fs content w.cache
        → IsCoherent fs content (serve_from_disk fs fd p w).1.cache
    unfolding serve_from_disk opened
    serve_from_disk-IsCoherent p w short k = elim (Option-cases (fs.stat p)) [
      | inl e ↦ rw (e, serve_from_disk, refuse-cache) k
      | inr (st, e) ↦ elim (Bool-cases st.regular) [
        | inr odd ↦ rw (e, serve_from_disk, odd, refuse-cache) k
        | inl regular ↦ elim (Bool-cases (fs.open_read p)) [
          | inr closed ↦ rw (e, serve_from_disk, regular, closed, refuse-cache) k
          | inl readable ↦
              rw (e, serve_from_disk, regular, readable)
                (serve_opened-IsCoherent fd p st short
                  (record { stat = e; regular = regular; open_read = readable }) (opened w).1 k)
        ]
      ]
    ]

    serve_relative-IsCoherent :
        (name : Bytes) (w : World)
        → IsCoherent fs content w.cache
        → IsCoherent fs content (serve_relative fs fd name w).1.cache
    unfolding serve_relative serve_resolved send
    serve_relative-IsCoherent name w k =
        elim (Option-cases (fs.realpath (candidate fs.docroot name))) [
          | inl e ↦ rw (e, serve_relative, refuse-cache) k
          | inr (p, e) ↦ elim (Bool-cases (inside_root fs.docroot p)) [
            | inr outside ↦ rw (e, serve_relative, outside, refuse-cache) k
            | inl inside ↦ elim (Option-cases (cache_lookup p w.cache)) [
              | inr (hit, cached) ↦ rw (e, serve_relative, inside) (rw (cached, serve_resolved) k)
              | inl miss ↦
                  rw (e, serve_relative, inside)
                    (rw (miss, serve_resolved)
                      (serve_from_disk-IsCoherent p w (stable.short _ p e) k))
            ]
          ]
        ]

    -- While the files keep still, every request, on whatever branch it ends and also when it is
    -- still waiting for the socket, leaves in the cache only responses that the files would give.
    pub serve_file-IsCoherent :
        (name : Bytes) (w : World)
        → IsCoherent fs content w.cache
        → IsCoherent fs content (serve_file fs fd name w).1.cache
    unfolding serve_file
    serve_file-IsCoherent [] w k = rw (refuse-cache fd empty_filename w) k
    serve_file-IsCoherent (c ∷ name) w k = elim (Bool-cases (c == b'/')) [
      | inl slash ↦ rw (slash, refuse-cache fd absolute_path w) k
      | inr other ↦ rw other (serve_relative-IsCoherent (c ∷ name) w k)
    ]
