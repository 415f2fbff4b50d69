-- ===== src/PageTouch/Bytes.antt =====
-- What exersises/vritualization/tlb/exersies/2/tlb.c writes.
use osvcp.Prelude.{
  int_max, ℕ, zero, suc, ◌+◌, ◌*◌, ◌%◌, ◌^◌, ◌≤◌, ◌<◌, ◌≡◌, ◌≢◌, refl, sym, ap, ◌∙◌, ◌⊎◌, inl, inr,
  true, ◌&&◌, none, some, arith, ltb, leb, ◌==◌, ==_iff, Bool-cases,
}
use osvcp.PageTouch.{page_size, write, touch, touch_from, increment, trials, main}

abbrev most : ℕ
most = 524288

-- The first byte of each of these pages is changed by `f`, and no other byte is.
abbrev Changes : (ℕ → ℕ) → ℕ → ℕ → (ℕ → ℕ) → (ℕ → ℕ) → Type 0
Changes f i n a b =
    ((k : ℕ) → i ≤ k → k < i + n → b (k * page_size) ≡ f (a (k * page_size)))
    × ((k : ℕ) → k < i → b (k * page_size) ≡ a (k * page_size))
    × ((j : ℕ) → 1 ≤ j % page_size → b j ≡ a j)

written :
    (i k value : ℕ) (a : ℕ → ℕ) → k ≡ i → write (i * page_size) value a (k * page_size) ≡ value
written i k value a e = ground (arith, e)

kept : (i j value : ℕ) (a : ℕ → ℕ) → j ≢ i * page_size → write (i * page_size) value a j ≡ a j
kept i j value a n = elim (Bool-cases (j == i * page_size)) [
  | inl e ↦ absurd (n ((==_iff j (i * page_size)).0 e))
  | inr e ↦ rw e refl
]

-- A page touched before the ones behind it.
Changes-more :
    (f : ℕ → ℕ) (i n : ℕ) (a b : ℕ → ℕ)
    → Changes f (suc i) n (write (i * page_size) (f (a (i * page_size))) a) b
    → Changes f i (suc n) a b
Changes-more f i n a b (g, u, o) =
    let next = write (i * page_size) (f (a (i * page_size))) a in
    (
      λ k p q. elim (Bool-cases (k == i)) [
        | inl e ↦
            let same = (==_iff k i).0 e in
            u k (omega (arith, same))
            ∙ written i k (f (a (i * page_size))) a same
            ∙ ap (λ m. f (a (m * page_size))) (sym same)
        | inr e ↦
            g k (ground (arith, p, e)) (omega (arith, q))
            ∙ ap f (
                kept i (k * page_size) (f (a (i * page_size))) a
                  (λ z. absurd (ground (arith, e, z))))
      ],
      λ k p.
          u k (omega (arith, p))
          ∙ kept i (k * page_size) (f (a (i * page_size))) a (λ z. absurd (omega (arith, p, z))),
      λ j p. o j p ∙ kept i j (f (a (i * page_size))) a (λ z. absurd (omega (arith, p, z))),
    )

module _ (f : ℕ → ℕ) (num_pages : ℕ) where
  in_array :
      (i : ℕ)
      → i < most
      → i < num_pages
      → (leb (i * page_size) int_max && ltb (i * page_size) (num_pages * page_size)) ≡ true
  in_array i l h = ground (arith, l, h)

  touches :
      (i n : ℕ) (a : ℕ → ℕ)
      → i + n ≤ most
      → i + n ≤ num_pages
      → (b : ℕ → ℕ) × (touch_from f num_pages i n a ≡ some b) × Changes f i n a b
  unfolding touch_from touch
  touches i zero a l h =
      (a, refl, (λ k p q. absurd (omega (arith, p, q)), λ k p. refl, λ j p. refl))
  touches i (suc n) a l h =
      let next = write (i * page_size) (f (a (i * page_size))) a in
      let (b, e, c) = touches (suc i) n next (omega (arith, l)) (omega (arith, h)) in
      (
        b,
        rw (in_array i (omega (arith, l)) (omega (arith, h)), touch_from, touch) e,
        Changes-more f i n a b c,
      )

  -- The offset of page 2 ^ 19 is no `int`.
  falls : (i n : ℕ) (a : ℕ → ℕ) → i ≤ most → most < i + n → touch_from f num_pages i n a ≡ none
  unfolding touch_from touch
  falls i zero a l h = absurd (omega (arith, l, h))
  falls i (suc n) a l h =
      elim (Bool-cases
        (leb (i * page_size) int_max && ltb (i * page_size) (num_pages * page_size))) [
          | inr e ↦ rw (e, touch_from, touch) refl
          | inl e ↦
              rw (e, touch_from, touch)
                (falls (suc i) n (write (i * page_size) (f (a (i * page_size))) a)
                  (ground (arith, e, l)) (omega (arith, h)))
        ]

tries :
    (num_pages num_trials : ℕ) (a : ℕ → ℕ)
    → num_pages ≤ most
    → (b : ℕ → ℕ) × (trials num_pages num_trials a ≡ some b)
      × ((k : ℕ)
          → k < num_pages
          → b (k * page_size) % 2 ^ 8 ≡ (a (k * page_size) + num_trials) % 2 ^ 8)
      × ((j : ℕ) → 1 ≤ j % page_size → b j ≡ a j)
unfolding trials
tries num_pages zero a l = (a, refl, λ k h. omega arith, λ j p. refl)
tries num_pages (suc num_trials) a l =
    let (b, e, (g, u, o)) =
      touches increment num_pages 0 num_pages a (omega (arith, l)) (omega arith) in
    let (c, f, h, p) = tries num_pages num_trials b l in
    (
      c,
      rw (e, trials) f,
      λ k q. omega (arith, h k q, g k (omega arith) (omega (arith, q))),
      λ j q. p j q ∙ o j q,
    )

-- With at most 2 ^ 19 pages the program never leaves the array: at the end the first byte of each
-- page is 1 and the number of trials, modulo 2 ^ 8, and no other byte in a page has changed. With
-- more, the offset of a page overflows in the first loop.
pub main-touches :
    (num_pages num_trials : ℕ) (a : ℕ → ℕ)
    → ((num_pages ≤ 524288)
        × (b : ℕ → ℕ) × (main num_pages num_trials a ≡ some b)
        × ((k : ℕ) → k < num_pages → b (k * page_size) % 2 ^ 8 ≡ (1 + num_trials) % 2 ^ 8)
        × ((j : ℕ) → 1 ≤ j % page_size → b j ≡ a j))
      ⊎ ((524288 < num_pages) × (main num_pages num_trials a ≡ none))
unfolding main
main-touches num_pages num_trials a = elim (Bool-cases (leb num_pages most)) [
  | inr e ↦ inr (
    ground (arith, e),
    rw (falls (λ byte. 1) num_pages 0 num_pages a (omega arith) (ground (arith, e)), main) refl,
  )
  | inl e ↦
      let l : num_pages ≤ most = ground (arith, e) in
      let (b, d, (g, u, o)) =
        touches (λ byte. 1) num_pages 0 num_pages a (omega (arith, l)) (omega arith) in
      let (c, f, h, p) = tries num_pages num_trials b l in
      inl (
        l,
        c,
        rw (d, main) f,
        λ k q. omega (arith, h k q, g k (omega arith) (omega (arith, q))),
        λ j q. p j q ∙ o j q,
      )
]
