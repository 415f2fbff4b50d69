-- ===== src/Tests/Memory.antt =====
-- The programs that touch memory, mem.c and tlb.c.
use osvcp.Prelude.{ℕ, ◌+◌, ◌*◌, ◌%◌, ◌^◌, ◌≤◌, ◌<◌, ◌≡◌, ◌⊎◌, none, some}
use osvcp.Spin.Laps
use osvcp.PageTouch.{page_size, main}
use osvcp.PageTouch.Bytes

main-touches_example :
    ((2 ≤ 524288)
      × (b : ℕ → ℕ) × (main 2 3 (λ j. 9) ≡ some b)
      × ((k : ℕ) → k < 2 → b (k * page_size) % 2 ^ 8 ≡ (1 + 3) % 2 ^ 8)
      × ((j : ℕ) → 1 ≤ j % page_size → b j ≡ 9))
    ⊎ ((524288 < 2) × (main 2 3 (λ j. 9) ≡ none))
main-touches_example = Bytes.main-touches 2 3 (λ j. 9)
