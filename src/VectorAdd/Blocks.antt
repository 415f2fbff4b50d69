-- ===== src/VectorAdd/Blocks.antt =====
-- The parts of a thread of exersises/concurrency/concurrency-bugs: each unlocks what it has locked,
-- and waits for a lock as the version of `vector_add` is meant to.
use osvcp.Prelude.{
  ℕ, ◌≤◌, ◌<◌, ◌≡◌, ◌≢◌, refl, sym, ◌⊎◌, inl, inr, Bool, true, false, ltb, arith, hit, ◌==◌, ==_iff,
  Bool-cases,
}
use osvcp.VectorAdd.{
  print_lock, global, Version, deadlock, global_order, avoid_hold_and_wait, try_wait, vector_add,
  print_info,
}
use osvcp.VectorAdd.Owed.{Rule, IsClosed, differ}
use osvcp.VectorAdd.Rules.{ascending, gated, rule, without}

-- Two locks and what is left of them.
hits : (a b : ℕ) → a ≢ b → (hit a b ≡ 0) × (hit b a ≡ 0) × (hit a a ≡ 1) × (hit b b ≡ 1)
hits a b h =
    let p = differ a b h in
    let q = differ b a (λ e. h (sym e)) in (ground arith, ground arith, ground arith, ground arith)

pub above : (a b l n : ℕ) → a < b → n ≡ hit l a → 1 ≤ n → l < b
above a b l n h e p = elim (Bool-cases (l == a)) [
  | inl q ↦ ground (arith, (==_iff l a).0 q)
  | inr q ↦ absurd (ground arith)
]

pub print_info-IsClosed :
    (version : Version) (d verbose : Bool) → IsClosed (rule version d) (print_info verbose)
unfolding print_info
print_info-IsClosed version d false = (tt, λ l. refl)
print_info-IsClosed version d true = (
  (ground arith, without version d print_lock _ (ground arith) (λ l. omega arith), (refl, tt)),
  λ l. omega arith,
)

pub add_deadlock-IsClosed :
    (R : Rule) (a b : ℕ)
    → a ≢ b
    → ((h : ℕ → ℕ) → ((l : ℕ) → h l ≡ 0) → R a h)
    → ((h : ℕ → ℕ) → ((l : ℕ) → h l ≡ hit l a) → R b h)
    → IsClosed R (vector_add deadlock a b)
unfolding vector_add
add_deadlock-IsClosed R a b ne first second =
    let h = hits a b ne in
    (
      (
        omega (arith, h),
        first _ (λ l. omega arith),
        (
          omega (arith, h),
          second _ (λ l. omega arith),
          (omega (arith, h), omega (arith, h), (omega (arith, h), (omega (arith, h), tt))),
        ),
      ),
      λ l. omega arith,
    )

pub add_in_order-IsClosed :
    (R : Rule) (a b : ℕ)
    → a ≢ b
    → ((k : ℕ) (h : ℕ → ℕ) → ((l : ℕ) → h l ≡ 0) → (k ≡ a) ⊎ (k ≡ b) → R k h)
    → ((k : ℕ) (h : ℕ → ℕ) → ((l : ℕ) → 1 ≤ h l → l < k) → (k ≡ a) ⊎ (k ≡ b) → R k h)
    → IsClosed R (vector_add global_order a b)
unfolding vector_add
add_in_order-IsClosed R a b ne first second =
    let h = hits a b ne in
    let e = differ a b ne in
    elim (Bool-cases (ltb a b)) [
      | inl q ↦
          let o : a < b = ground (arith, q) in
          rw (q, e)
            (
              (
                omega (arith, h),
                first a _ (λ l. omega arith) (inl refl),
                (
                  omega (arith, h),
                  second b _ (λ l. above a b l _ o (omega arith)) (inr refl),
                  (omega (arith, h), omega (arith, h), (omega (arith, h), (omega (arith, h), tt))),
                ),
              ),
              λ l. omega arith,
            )
      | inr q ↦ elim (Bool-cases (ltb b a)) [
        | inl q' ↦
            let o : b < a = ground (arith, q') in
            rw (q, q', e)
              (
                (
                  omega (arith, h),
                  first b _ (λ l. omega arith) (inr refl),
                  (
                    omega (arith, h),
                    second a _ (λ l. above b a l _ o (omega arith)) (inl refl),
                    (
                      omega (arith, h),
                      omega (arith, h),
                      (omega (arith, h), (omega (arith, h), tt)),
                    ),
                  ),
                ),
                λ l. omega arith,
              )
        | inr q' ↦ absurd (ne (ground (arith, q, q')))
      ]
    ]

pub add_global_lock-IsClosed :
    (a b : ℕ) → a ≢ b → a < 200 → b < 200 → IsClosed gated (vector_add avoid_hold_and_wait a b)
unfolding vector_add
add_global_lock-IsClosed a b ne p q =
    let h = hits a b ne in
    let ha = hits a global (λ e. absurd (omega (arith, e))) in
    let hb = hits b global (λ e. absurd (omega (arith, e))) in
    (
      (
        omega (arith, h, ha, hb),
        inl (λ l. omega arith),
        (
          omega (arith, h, ha, hb),
          inr (omega (arith, h, ha, hb)),
          (
            omega (arith, h, ha, hb),
            inr (omega (arith, h, ha, hb)),
            (
              omega (arith, h, ha, hb),
              (
                omega (arith, h, ha, hb),
                omega (arith, h, ha, hb),
                (omega (arith, h, ha, hb), (omega (arith, h, ha, hb), tt)),
              ),
            ),
          ),
        ),
      ),
      λ l. omega arith,
    )

pub add_try_wait-IsClosed :
    (a b : ℕ) → a ≢ b → a < 200 → IsClosed ascending (vector_add try_wait a b)
unfolding vector_add
add_try_wait-IsClosed a b ne p =
    let h = hits a b ne in
    (
      (
        omega (arith, h),
        (λ l q. absurd (omega (arith, q)), omega (arith, p)),
        (
          omega (arith, h),
          omega (arith, h),
          ne,
          (λ l q. absurd (omega (arith, q)), omega (arith, p)),
          (omega (arith, h), omega (arith, h), (omega (arith, h), (omega (arith, h), tt))),
        ),
      ),
      λ l. omega arith,
    )
