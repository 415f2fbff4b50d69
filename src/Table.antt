-- ===== src/Table.antt =====
-- The table of clients: `remove_client` and `add_client` of
-- exersises/concurrency/event-based-concurrency/exercise/file-server.c (lines 143 to 190), which
-- select-server.c (lines 63 to 121) and aio-file-server.c (lines 202 to 236) have too. A table is
-- the list of the first `num_clients` slots.
use mathlib.Core.List.{Perm, perm_middle}
use mathlib.Core.List.Perm
use osvcp.Prelude.{
  ℕ, ◌-◌, ◌≤◌, ◌≡◌, ap, refl, none, some, ◌⊎◌, inl, inr, List, [], ◌∷◌, ◌++◌, append-nil,
  append_assoc, arith, length, length-append, get_elem?, set, take, take-append_length, leb,
  if◌then◌else◌,
}
pub mod Slots

abbrev pub max_clients : ℕ
max_clients = 64

module _ {ℓ} {A : Type ℓ} where
  -- The new client in the next slot; when the table is full its socket is closed instead.
  unfoldable pub add_client : A → List A → List A
  add_client c cs = if leb max_clients (length cs) then cs else cs ++ c ∷ []

  -- `clients[i] = clients[--num_clients]`
  unfoldable pub remove_client : ℕ → List A → List A
  remove_client i cs = elim (get_elem? cs (length cs - 1)) [
    | none ↦ cs
    | some last ↦ take (length cs - 1) (set cs i last)
  ]

  pub get_elem?-middle : (f r : List A) (c : A) → get_elem? (f ++ c ∷ r) (length f) ≡ some c
  get_elem?-middle [] r c = refl
  get_elem?-middle (x ∷ f) r c = get_elem?-middle f r c

  pub set-middle : (f r : List A) (c v : A) → set (f ++ c ∷ r) (length f) v ≡ f ++ v ∷ r
  set-middle [] r c v = refl
  set-middle (x ∷ f) r c v = ap (◌∷◌ x) (set-middle f r c v)

  snoc_cases : (xs : List A) → (xs ≡ []) ⊎ ((b : List A) × (l : A) × (xs ≡ b ++ l ∷ []))
  snoc_cases [] = inl refl
  snoc_cases (x ∷ xs) = elim (snoc_cases xs) [
    | inl e ↦ inr ([], x, ap (◌∷◌ x) e)
    | inr (b, l, e) ↦ inr (x ∷ b, l, ap (◌∷◌ x) e)
  ]

  -- The table of `xs` and a last client, by index.
  remove_client_last :
      (i : ℕ) (xs : List A) (l : A)
      → remove_client i (xs ++ l ∷ []) ≡ take (length xs) (set (xs ++ l ∷ []) i l)
  unfolding remove_client
  remove_client_last i xs l =
      let n : length (xs ++ l ∷ []) - 1 ≡ length xs = omega (arith, length-append xs (l ∷ [])) in
      rw (n, remove_client, get_elem?-middle xs [] l) (rw n refl)

  -- The slot is the last one: the others stay.
  remove_client_end : (f : List A) (c : A) → remove_client (length f) (f ++ c ∷ []) ≡ f
  remove_client_end f c =
      rw (remove_client_last (length f) f c, set-middle f [] c c) (take-append_length f (c ∷ []))

  -- The slot is not the last one: the last client moves into it.
  remove_client_middle :
      (f b : List A) (c l : A) → remove_client (length f) (f ++ c ∷ (b ++ l ∷ [])) ≡ f ++ l ∷ b
  remove_client_middle f b c l =
      let n : length (f ++ c ∷ b) ≡ length (f ++ l ∷ b) =
        omega (arith, length-append f (c ∷ b), length-append f (l ∷ b)) in
      rw
        (
          ← append_assoc f (c ∷ b) (l ∷ []),
          remove_client_last (length f) (f ++ c ∷ b) l,
          append_assoc f (c ∷ b) (l ∷ []),
          set-middle f (b ++ l ∷ []) c l,
          n,
          ← append_assoc f (l ∷ b) (l ∷ []),
        )
        (take-append_length (f ++ l ∷ b) (l ∷ []))

  -- The removal of a client keeps all the slots before its own, and all the clients behind it,
  -- though not in their order.
  pub remove_client-split :
      (f : List A) (c : A) (back : List A)
      → (back' : List A) × (remove_client (length f) (f ++ c ∷ back) ≡ f ++ back') × Perm back' back
  remove_client-split f c back = elim (snoc_cases back) [
    | inl e ↦ ([], rw (e, append-nil f) (remove_client_end f c), rw e (Perm.refl []))
    | inr (b, l, e) ↦ (
      l ∷ b,
      rw e (remove_client_middle f b c l),
      rw e (rw append-nil at (Perm.symm (perm_middle {a = l} b []))),
    )
  ]
