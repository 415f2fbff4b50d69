-- ===== src/Sweep/Keeps.antt =====
-- What the loop over the clients keeps when the visit of each client keeps it: a property of the
-- world, and one of every client of the table. The loop is that of
-- exersises/concurrency/event-based-concurrency/exercise/file-server.c (lines 405 to 420).
use osvcp.Prelude.{ℕ, zero, suc, Option, none, some, inl, inr, List, get_elem?, set, Option-cases}
use osvcp.Table.{remove_client}
use osvcp.Table.Slots.{IsTable, All-get_elem?, set-IsTable, remove_client-IsTable}
use osvcp.World.{World, M}
use osvcp.World.Preserves.{Preserves, pure-Preserves, bind-Preserves}
use osvcp.World.Ensures.{Ensures, pure-Ensures, bind-Ensures}
use osvcp.Sweep.{sweep}

pub sweep-Preserves :
    {A : Type 0}
    → (P : World → Type 0) (body : A → M (Option A)) → ((c : A) → Preserves P (body c))
    → (n : ℕ) (cs : List A) → Preserves P (sweep body n cs)
unfolding sweep
sweep-Preserves P body keeps zero cs = pure-Preserves P cs
sweep-Preserves {A = A} P body keeps (suc n) cs = elim (Option-cases (get_elem? cs n)) [
  | inl e ↦ rw (e, sweep) (sweep-Preserves P body keeps n cs)
  | inr (c, e) ↦
      rw (e, sweep)
        (bind-Preserves P (body c) _ (keeps c) λ r.
          elim r
            as (λ r. Preserves P (elim r as (λ _. M (List A)) [
              | some c' ↦ sweep body n (set cs n c')
              | none ↦ sweep body n (remove_client n cs)
            ])) [
              | some c' ↦ sweep-Preserves P body keeps n (set cs n c')
              | none ↦ sweep-Preserves P body keeps n (remove_client n cs)
            ])
]

-- A client that is kept has the property.
abbrev pub Kept : {A : Type 0} → (A → Type 0) → Option A → Type 0
Kept Q none = Unit {0}
Kept Q (some c) = Q c

pub sweep-IsTable :
    {A : Type 0}
    → (Q : A → Type 0) (body : A → M (Option A)) → ((c : A) → Q c → Ensures (Kept Q) (body c))
    → (n : ℕ) (cs : List A) → IsTable Q cs
    → Ensures (IsTable Q) (sweep body n cs)
unfolding sweep
sweep-IsTable Q body keeps zero cs t = pure-Ensures (IsTable Q) cs t
sweep-IsTable {A = A} Q body keeps (suc n) cs t = elim (Option-cases (get_elem? cs n)) [
  | inl e ↦ rw (e, sweep) (sweep-IsTable Q body keeps n cs t)
  | inr (c, e) ↦
      rw (e, sweep)
        (bind-Ensures (Kept Q) (IsTable Q) (body c) _ (keeps c (All-get_elem? Q cs n c e t.0)) λ r.
          elim r
            as (λ r.
              Kept Q r
              → Ensures (IsTable Q) (elim r as (λ _. M (List A)) [
                | some c' ↦ sweep body n (set cs n c')
                | none ↦ sweep body n (remove_client n cs)
              ])) [
                | some c' ↦
                    λ k. sweep-IsTable Q body keeps n (set cs n c') (set-IsTable Q cs n c' k t)
                | none ↦ λ _.
                    sweep-IsTable Q body keeps n (remove_client n cs)
                      (remove_client-IsTable Q n cs t)
              ])
]
