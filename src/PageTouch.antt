-- ===== src/PageTouch.antt =====
-- exersises/vritualization/tlb/exersies/2/tlb.c: the program that touches a byte of each page, to
-- measure the TLB. `i * PAGE_SIZE` is an `int`; a run in which it exceeds the greatest `int`, or in
-- which a write is outside of the array, is undefined: `none`. A `char` is its bit pattern. The
-- arguments, the failure of `malloc`, the clock and the printing are not modelled.
use osvcp.Prelude.{
  int_max, ℕ, zero, suc, ◌+◌, ◌*◌, ◌%◌, ◌^◌, Bool, ◌&&◌, Option, none, some, ltb, leb, ◌==◌,
  if◌then◌else◌,
}
pub mod Bytes

abbrev pub page_size : ℕ
page_size = 4096

abbrev pub write : ℕ → ℕ → (ℕ → ℕ) → ℕ → ℕ
write index value array j = if j == index then value else array j

-- The byte of page `i`, changed by `f`.
unfoldable pub touch : (ℕ → ℕ) → ℕ → ℕ → (ℕ → ℕ) → Option (ℕ → ℕ)
touch f num_pages i array =
    if leb (i * page_size) int_max && ltb (i * page_size) (num_pages * page_size)
    then some (write (i * page_size) (f (array (i * page_size))) array)
    else none

-- A loop over the pages from `i` on, `n` of them.
unfoldable pub touch_from : (ℕ → ℕ) → ℕ → ℕ → ℕ → (ℕ → ℕ) → Option (ℕ → ℕ)
touch_from f num_pages i zero array = some array
touch_from f num_pages i (suc n) array = elim (touch f num_pages i array) [
  | none ↦ none
  | some next ↦ touch_from f num_pages (suc i) n next
]

-- `array[i * PAGE_SIZE]++`
abbrev pub increment : ℕ → ℕ
increment byte = (byte + 1) % 2 ^ 8

-- The loop that is measured.
unfoldable pub trials : ℕ → ℕ → (ℕ → ℕ) → Option (ℕ → ℕ)
trials num_pages zero array = some array
trials num_pages (suc num_trials) array = elim (touch_from increment num_pages 0 num_pages array) [
  | none ↦ none
  | some next ↦ trials num_pages num_trials next
]

-- The array at the end, from what `malloc` returned.
unfoldable pub main : ℕ → ℕ → (ℕ → ℕ) → Option (ℕ → ℕ)
main num_pages num_trials array = elim (touch_from (λ byte. 1) num_pages 0 num_pages array) [
  | none ↦ none
  | some next ↦ trials num_pages num_trials next
]
