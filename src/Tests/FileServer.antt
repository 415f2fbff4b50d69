-- ===== src/Tests/FileServer.antt =====
-- One small file below a document root, and the server over it.
use osvcp.Prelude.{
  List, map, ◌<◌, ◌≡◌, refl, Bool, true, false, none, some, inl, inr, [], ◌∷◌, ◌++◌, arith, Bytes,
  codes, str_eq, str_eq→eq, decimal, length, if◌then◌else◌, Bool-cases, starts_with, c_string,
}
use osvcp.Cache.{cache_lookup, cache_insert, cache_append, make_room}
use osvcp.Wire.{wrote, interrupted, write_all}
use osvcp.Wire.Delivery.{grants}
use osvcp.World.{World, Files, send, malloc, free, opened, close, insert}
use osvcp.FileServer.Serve.{
  serve_file, serve_relative, serve_resolved, serve_from_disk, serve_opened, fill_block, send_whole,
  whole, stream, header, refuse, error_text, access_denied, candidate, inside_root,
}
use osvcp.FileServer.Serve.Confinement
use osvcp.FileServer.Serve.Confinement.{AgreeBelow, Below}
use osvcp.FileServer.Serve.Coherence
use osvcp.FileServer.Serve.Coherence.{IsStable, Servable, IsCoherent}
use osvcp.FileServer.Serve.Delivers.{Delivers, until_end}
use osvcp.FileServer.Serve.Resources.{IsOwned}
use osvcp.FileServer.Serve.Replies
use osvcp.FileServer.Serve.RoundTrip
use osvcp.FileServer.Serve.RoundTrip.{Reply, file, error, read_replies, reply_texts, meaning}
use osvcp.FileServer.Serve.Replies.{reply, file_reply}

abbrev pub greeting : Bytes
greeting = codes "/srv/a"

-- `/srv/a` holds "hi"; the name `../etc` resolves to `/etc`; nothing else is there.
abbrev pub files : Files
files = record {
  docroot = codes "/srv";
  realpath = λ p.
      if str_eq p greeting
      then some greeting
      else (if str_eq p (codes "/srv/../etc") then some (codes "/etc") else none);
  stat = λ p. if str_eq p greeting then some (record { regular = true; size = 2 }) else none;
  open_read = λ p. true;
  pread = λ p n. some (codes "hi");
  reads = λ p. codes "hi" ∷ [];
  malloc = λ n. true;
}

-- A socket that takes one byte a call.
abbrev pub start : World
start = record {
  cache = [];
  writes =
      wrote 1
      ∷ wrote 1
      ∷ wrote 1
      ∷ wrote 1
      ∷ interrupted
      ∷ wrote 1
      ∷ wrote 1
      ∷ wrote 1
      ∷ wrote 1
      ∷ [];
  out = [];
  mallocs = 0;
  allocated = [];
  freed = [];
  files = 0;
  sockets = [];
  closed = [];
}

unfoldable pub program : Unit {0}
unfolding write_all cache_lookup cache_insert cache_append make_room send malloc free opened close
    insert serve_file serve_relative serve_resolved serve_from_disk serve_opened fill_block
    send_whole whole stream header refuse error_text candidate inside_root str_eq decimal
    starts_with c_string
program = tt

served : (serve_file files 5 (codes "a") start).1.out ≡ (5, codes "+OK 2" ++ (10 ∷ codes "hi")) ∷ []
unfolding program
served = refl

short_greeting : (p : Bytes) → some greeting ≡ some p → length p < 4096
short_greeting p h = let e : greeting ≡ p = ground arith in rw (← e) (omega arith)

short_etc : (p : Bytes) → some (codes "/etc") ≡ some p → length p < 4096
short_etc p h = let e : codes "/etc" ≡ p = ground arith in rw (← e) (omega arith)

stable : IsStable files (λ p. codes "hi")
unfolding until_end
stable = record {
  size = λ p st sv. elim (Bool-cases (str_eq p greeting)) [
    | inl e ↦ ground (arith, sv.stat)
    | inr n ↦ absurd (ground (arith, sv.stat))
  ];
  pread = λ p st sv. refl;
  reads = λ p st sv. refl;
  short = λ name p h. elim (Bool-cases (str_eq name greeting)) [
    | inl e ↦ short_greeting p (rw e at h)
    | inr n ↦ elim (Bool-cases (str_eq name (codes "/srv/../etc"))) [
      | inl e ↦ short_etc p (rw (n, e) at h)
      | inr m ↦ absurd (ground (arith, n, m, h))
    ]
  ];
}

-- The same files, but for a directory outside the root.
abbrev others : Files
others = record files {
  stat = λ p.
      if str_eq p (codes "/etc") then some (record { regular = false; size = 0 }) else files.stat p;
}

agree : AgreeBelow files others
unfolding program
agree = record {
  docroot = refl;
  realpath = λ p. refl;
  malloc = λ n. refl;
  stat = λ p h. elim (Bool-cases (str_eq p (codes "/etc"))) [
    | inl e ↦
        let q = str_eq→eq p (codes "/etc") e in
        let k : ◌≡◌ {A = Bool} false true = rw q at h in absurd (ground arith)
    | inr n ↦ rw n refl
  ];
  open_read = λ p h. refl;
  pread = λ p n h. refl;
  reads = λ p h. refl;
}

serve_file-agree_example :
    serve_file files 5 (codes "../etc") start ≡ serve_file others 5 (codes "../etc") start
serve_file-agree_example = Confinement.serve_file-agree files others agree 5 (codes "../etc") start

abbrev rooted : Files
rooted = record files { docroot = codes "/"; realpath = λ p. some (codes "/a") }

serve_file-reply_example :
    Delivers 5
      (reply files (λ p. codes "hi") (codes "a"))
      start
      (serve_file files 5 (codes "a") start)
unfolding program reply file_reply grants
serve_file-reply_example =
    Replies.serve_file-reply files (λ p. codes "hi") stable 5 (codes "a") start tt (omega arith)

serve_file-IsCoherent_example :
    IsCoherent files (λ p. codes "hi") (serve_file files 5 (codes "a") start).1.cache
serve_file-IsCoherent_example =
    Coherence.serve_file-IsCoherent files (λ p. codes "hi") stable 5 (codes "a") start tt

pub start-IsOwned : IsOwned start
start-IsOwned = record { balanced = λ a. refl; once = λ a. omega arith }

abbrev two_replies : List Reply
two_replies = file (codes "+OK 3\n") ∷ error access_denied ∷ []

read_replies-texts_example :
    read_replies 2 (reply_texts two_replies) ≡ some (map meaning two_replies, [])
read_replies-texts_example = RoundTrip.read_replies-texts two_replies (ground arith, (tt, tt))
