-- ===== src/Table/Slots.antt =====
-- What holds of every client of a table, and the bound of the table, through `add_client` and
-- `remove_client` of exersises/concurrency/event-based-concurrency/exercise/file-server.c.
use osvcp.Prelude.{
  ℕ, zero, suc, ◌-◌, ◌≤◌, ◌≡◌, ◌≢◌, refl, subst, some, inl, inr, List, [], ◌∷◌, ◌++◌, arith, length,
  length-append, length-take_le, length-set, get_elem?, set, take, leb, Option-cases, Bool-cases,
}
use osvcp.Table.{remove_client, add_client, max_clients}

abbrev pub All : {A : Type 0} → (A → Type 0) → List A → Type 0
All Q [] = Unit {0}
All Q (c ∷ cs) = Q c × All Q cs

-- Every client has the property, and the table has no more than MAX_CLIENTS.
abbrev pub IsTable : {A : Type 0} → (A → Type 0) → List A → Type 0
IsTable Q cs = All Q cs × (length cs ≤ max_clients)

module _ {A : Type 0} (Q : A → Type 0) where
  pub All-get_elem? : (cs : List A) (i : ℕ) (c : A) → get_elem? cs i ≡ some c → All Q cs → Q c
  All-get_elem? [] i c h a = absurd (ground arith)
  All-get_elem? (x ∷ cs) zero c h a = subst Q (ground arith) a.0
  All-get_elem? (x ∷ cs) (suc i) c h a = All-get_elem? cs i c h a.1

  pub All-set : (cs : List A) (i : ℕ) (c : A) → Q c → All Q cs → All Q (set cs i c)
  All-set [] i c q a = tt
  All-set (x ∷ cs) zero c q a = (q, a.1)
  All-set (x ∷ cs) (suc i) c q a = (a.0, All-set cs i c q a.1)

  pub All_each : (cs : List A) → ((i : ℕ) (c : A) → get_elem? cs i ≡ some c → Q c) → All Q cs
  All_each [] f = tt
  All_each (x ∷ cs) f = (f zero x refl, All_each cs (λ i. f (suc i)))

  -- One slot changed, if the others have the property.
  pub All-set_other :
      (cs : List A) (i : ℕ) (c : A)
      → ((j : ℕ) (u : A) → j ≢ i → get_elem? cs j ≡ some u → Q u)
      → Q c
      → All Q (set cs i c)
  All-set_other [] i c f q = tt
  All-set_other (x ∷ cs) zero c f q =
      (q, All_each cs (λ j u e. f (suc j) u (λ z. absurd (omega (arith, z))) e))
  All-set_other (x ∷ cs) (suc i) c f q = (
    f zero x (λ e. absurd (omega (arith, e))) refl,
    All-set_other cs i c (λ j u n. f (suc j) u (λ e. n (omega (arith, e)))) q,
  )

  All-take : (n : ℕ) (cs : List A) → All Q cs → All Q (take n cs)
  All-take zero cs a = tt
  All-take (suc n) [] a = tt
  All-take (suc n) (x ∷ cs) a = (a.0, All-take n cs a.1)

  All-append : (cs : List A) (c : A) → All Q cs → Q c → All Q (cs ++ c ∷ [])
  All-append [] c a q = (q, tt)
  All-append (x ∷ cs) c a q = (a.0, All-append cs c a.1 q)

  pub set-IsTable : (cs : List A) (i : ℕ) (c : A) → Q c → IsTable Q cs → IsTable Q (set cs i c)
  set-IsTable cs i c q t = (All-set cs i c q t.0, rw (length-set cs i c) t.1)

  pub remove_client-IsTable : (i : ℕ) (cs : List A) → IsTable Q cs → IsTable Q (remove_client i cs)
  unfolding remove_client
  remove_client-IsTable i cs t = elim (Option-cases (get_elem? cs (length cs - 1))) [
    | inl e ↦ rw (e, remove_client) t
    | inr (l, e) ↦
        rw (e, remove_client)
          (
            All-take (length cs - 1) (set cs i l)
                (All-set cs i l (All-get_elem? cs (length cs - 1) l e t.0) t.0),
            omega (arith, (length-take_le (length cs - 1) (set cs i l)).1, length-set cs i l, t.1),
          )
  ]

  pub add_client-IsTable : (c : A) (cs : List A) → Q c → IsTable Q cs → IsTable Q (add_client c cs)
  unfolding add_client
  add_client-IsTable c cs q t = elim (Bool-cases (leb max_clients (length cs))) [
    | inl full ↦ rw (full, add_client) t
    | inr free ↦
        rw (free, add_client) (All-append cs c t.0 q, ground (arith, length-append cs (c ∷ [])))
  ]
