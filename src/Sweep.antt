-- ===== src/Sweep.antt =====
-- The loop over the clients of a server, from the last slot to the first, in which a client that is
-- removed is replaced by the last one: lines 405 to 420 of
-- exersises/concurrency/event-based-concurrency/exercise/file-server.c, and the same loop of
-- aio-file-server.c beside it.
use mathlib.Core.List.{Perm, perm_middle}
use mathlib.Core.List.Perm
use osvcp.Prelude.{
  ℕ, zero, suc, ◌+◌, ◌≡◌, ◌∙◌, ap, sym, refl, Option, none, some, List, [], ◌∷◌, ◌++◌, append-nil,
  append_assoc, arith, length, get_elem?, set,
}
use osvcp.Table.{remove_client, remove_client-split, set-middle, get_elem?-middle}
use osvcp.World.{World, Answer, value, waiting, M, ◌>>=◌, pure}
pub mod Keeps
pub mod Account

-- `for (int i = num_clients - 1; i >= 0; i--)`; the argument counts the slots still to come.
unfoldable pub sweep : {A : Type 0} → (A → M (Option A)) → ℕ → List A → M (List A)
sweep body zero cs = pure cs
sweep body (suc i) cs = elim (get_elem? cs i) [
  | none ↦ sweep body i cs
  | some c ↦ do
    r ← body c
    elim r [ some c' ↦ sweep body i (set cs i c') | none ↦ sweep body i (remove_client i cs) ]
]

-- The list read from its end.
abbrev pub onto : {A : Type 0} → List A → List A → List A
onto [] back = back
onto (c ∷ rs) back = onto rs (c ∷ back)

abbrev pub backwards : {A : Type 0} → List A → List A
backwards cs = onto cs []

abbrev pub kept : {A : Type 0} → Option A → List A
kept none = []
kept (some c) = c ∷ []

-- Each client visited once, in the order of the list.
unfoldable pub visit_each : {A : Type 0} → (A → M (Option A)) → List A → M (List A)
visit_each body [] = pure []
visit_each body (c ∷ cs) = do r ← body c; rest ← visit_each body cs; pure (kept r ++ rest)

-- The clients of the first are those of the second and those of `back`, in some order; if the one
-- still waits, so does the other.
abbrev pub WithBack : {A : Type 0} → List A → Answer (List A) → Answer (List A) → Type 0
WithBack back (value a) (value b) = Perm a (b ++ back)
WithBack back waiting waiting = Unit {0}
WithBack back _ _ = ⊥

pub record Extends {A : Type 0} (back : List A) (r s : Answer (List A) × World) : Type 0 where
  pub world : r.1 ≡ s.1
  pub clients : WithBack back r.0 s.0

onto-append : {A : Type 0} → (rs back : List A) → onto rs back ≡ onto rs [] ++ back
onto-append [] back = refl
onto-append {A = A} (c ∷ rs) back =
    onto-append rs (c ∷ back)
    ∙ sym (append_assoc (onto rs []) (c ∷ []) back)
    ∙ ap (λ (f : List A). f ++ back) (sym (onto-append rs (c ∷ [])))

length-onto : {A : Type 0} → (rs back : List A) → length (onto rs back) ≡ length rs + length back
length-onto [] back = omega arith
length-onto (c ∷ rs) back = omega (arith, length-onto rs (c ∷ back))

add_kept :
    {A : Type 0}
    → (c : A) (back : List A) (a : Answer (List A)) (u : World) (r : Answer (List A) × World)
    → Extends (c ∷ back) r (a, u)
    → Extends back r (elim a [ value rest ↦ (value (c ∷ rest), u) | waiting ↦ (waiting, u) ])
add_kept c back (value l) u (value x, v) e = record {
  world = e.world;
  clients = Perm.trans e.clients (perm_middle l back);
}
add_kept c back (value l) u (waiting, v) e = absurd e.clients
add_kept c back waiting u (value x, v) e = absurd e.clients
add_kept c back waiting u (waiting, v) e = record { world = e.world; clients = tt }

drop_kept :
    {A : Type 0}
    → (back back' : List A) (a : Answer (List A)) (u : World) (r : Answer (List A) × World)
    → Perm back' back
    → Extends back' r (a, u)
    → Extends back r (elim a [ value rest ↦ (value rest, u) | waiting ↦ (waiting, u) ])
drop_kept back back' (value l) u (value x, v) p e = record {
  world = e.world;
  clients = Perm.trans e.clients (Perm.append_left l p);
}
drop_kept back back' (value l) u (waiting, v) p e = absurd e.clients
drop_kept back back' waiting u (value x, v) p e = absurd e.clients
drop_kept back back' waiting u (waiting, v) p e = record { world = e.world; clients = tt }

onto-split : {A : Type 0} → (c : A) (rs back : List A) → onto (c ∷ rs) back ≡ onto rs [] ++ c ∷ back
onto-split c rs back = onto-append rs (c ∷ back)

length-onto_nil : {A : Type 0} → (rs : List A) → length (onto rs []) ≡ length rs
length-onto_nil rs = omega (arith, length-onto rs [])

get_elem?-onto :
    {A : Type 0} → (c : A) (rs back : List A) → get_elem? (onto (c ∷ rs) back) (length rs) ≡ some c
get_elem?-onto c rs back =
    rw (onto-split c rs back, ← length-onto_nil rs) (get_elem?-middle (onto rs []) back c)

set-onto :
    {A : Type 0}
    → (c c' : A) (rs back : List A) → set (onto (c ∷ rs) back) (length rs) c' ≡ onto rs (c' ∷ back)
set-onto c c' rs back =
    rw (onto-split c rs back, ← length-onto_nil rs, set-middle (onto rs []) back c c')
      (sym (onto-append rs (c' ∷ back)))

remove-onto :
    {A : Type 0}
    → (c : A) (rs back : List A)
    → (back' : List A) × (remove_client (length rs) (onto (c ∷ rs) back) ≡ onto rs back')
      × Perm back' back
remove-onto c rs back =
    let (back', e, p) = remove_client-split (onto rs []) c back in
    (back', rw (onto-split c rs back, ← length-onto_nil rs) (e ∙ sym (onto-append rs back')), p)

backwards_onto : {A : Type 0} → (cs back : List A) → onto (onto cs back) [] ≡ onto back [] ++ cs
backwards_onto [] back = sym (append-nil (onto back []))
backwards_onto {A = A} (c ∷ cs) back =
    backwards_onto cs (c ∷ back)
    ∙ ap (λ (f : List A). f ++ cs) (onto-append back (c ∷ []))
    ∙ append_assoc (onto back []) (c ∷ []) cs

module _ {A : Type 0} (body : A → M (Option A)) where
  -- What follows the visit of the last client of the front.
  sweep_step :
      (c : A) (rs back : List A) (a : Answer (Option A)) (u : World)
      → ((back' : List A)
          → Extends back' (sweep body (length rs) (onto rs back') u) (visit_each body rs u))
      → Extends back
          (elim a as (λ _. Answer (List A) × World) [
            | value r ↦
                (elim r as (λ _. M (List A)) [
                  | some c' ↦ sweep body (length rs) (set (onto (c ∷ rs) back) (length rs) c')
                  | none ↦ sweep body (length rs) (remove_client (length rs) (onto (c ∷ rs) back))
                ])
                  u
            | waiting ↦ (waiting, u)
          ])
          (elim a as (λ _. Answer (List A) × World) [
            | value r ↦ (visit_each body rs >>= λ rest. pure (kept r ++ rest)) u
            | waiting ↦ (waiting, u)
          ])
  sweep_step c rs back (value (some c')) u ih =
      let v = visit_each body rs u in
      rw (set-onto c c' rs back)
        (add_kept c' back v.0 v.1 (sweep body (length rs) (onto rs (c' ∷ back)) u) (ih (c' ∷ back)))
  sweep_step c rs back (value none) u ih =
      let v = visit_each body rs u in
      let (back', e, p) = remove-onto c rs back in
      rw e (drop_kept back back' v.0 v.1 (sweep body (length rs) (onto rs back') u) p (ih back'))
  sweep_step c rs back waiting u ih = record { world = refl; clients = tt }

  sweep-Extends :
      (rs back : List A) (w : World)
      → Extends back (sweep body (length rs) (onto rs back) w) (visit_each body rs w)
  unfolding sweep visit_each
  sweep-Extends [] back w = record { world = refl; clients = Perm.refl back }
  sweep-Extends (c ∷ rs) back w =
      rw (get_elem?-onto c rs back, sweep)
        (sweep_step c rs back (body c w).0 (body c w).1
          (λ back'. sweep-Extends rs back' (body c w).1))

  -- The loop of the event loop visits every client of the table exactly once, from the last slot to
  -- the first, although the removal of a client moves the last one into its slot: the effects are
  -- those of that sequence of visits, and the clients left are those that the visits keep, in some
  -- order. It stops waiting exactly where that sequence does.
  pub sweep-visit_each :
      (cs : List A) (w : World)
      → Extends [] (sweep body (length cs) cs w) (visit_each body (backwards cs) w)
  sweep-visit_each cs w =
      let e = sweep-Extends (backwards cs) [] w in
      let n = length-onto_nil cs in rw (backwards_onto cs [], n) at e
