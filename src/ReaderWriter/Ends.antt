-- ===== src/ReaderWriter/Ends.antt =====
-- The threads of exersises/concurrency/semaphores/exercise/reader-writer.c go on until all have
-- ended.
use osvcp.Prelude.{
  ℕ, ◌+◌, ◌-◌, ◌*◌, ◌%◌, ◌^◌, ◌≤◌, ◌<◌, ◌≡◌, refl, ap, ◌∙◌, ◌⊎◌, inl, inr, arith, ltb, sum, bit,
  find_weight, weight-le_sum, Zero-cases, one_less,
}
use osvcp.LockedCounter.{Thread, Place, outside, locked, loaded, stored}
use osvcp.LockedCounter.Laws.{holds, in_section, todo, uncounted, Reachable-IsCounted}
use osvcp.ReaderWriter.Exclusion.{IsLock, Reachable-IsLock, Reachable-exclusive}
use osvcp.ReaderWriter.Threads.{Reader, State, At, Step, enter, acquire, Reachable}
use osvcp.ReaderWriter.Holders.{CanStep, writer_goes_on, reader_goes_on}
use osvcp.ReaderWriter.Values.{is_inside, crowd, IsShared, Reachable-IsShared}

abbrev pub reads : Reader → ℕ
reads r = r.loops

module _ (s : State) where
  -- With nobody in the lock, a thread that has something to do enters.
  reader_enters :
      IsLock s.lock
      → sum is_inside s.readers ≡ crowd s.lock
      → crowd s.lock ≡ 0
      → 1 ≤ sum reads s.readers
      → CanStep s
  reader_enters i c z h =
      let (j, r, e, v) = find_weight reads s.readers h in
      let free = weight-le_sum is_inside s.readers j r e in
      (
        _,
        enter s j (r.loops - 1) (s.lock.reader_lock - 1) r e (ground (arith, free, c, z))
            (one_less _ v) (one_less _ (omega (arith, i.reader_lock, z))),
      )

  writer_enters :
      (i : ℕ) (t : Thread) (p : Place)
      → At s i t p
      → IsLock s.lock
      → crowd s.lock ≡ 0
      → s.lock.writing ≡ 0
      → sum holds s.writers ≡ 0
      → 1 ≤ todo t
      → CanStep s
  writer_enters i t outside a l z w y h = (
    _,
    acquire s i (t.increments - 1) (s.lock.writelock - 1) t a
        (one_less _ (omega (arith, h, ap uncounted a.1)))
        (one_less _ (ground (arith, l.writelock, z, w))),
  )
  writer_enters i t locked a l z w y h =
      absurd (omega (arith, y, ap in_section a.1, weight-le_sum holds s.writers i t a.0))
  writer_enters i t (loaded v) a l z w y h =
      absurd (omega (arith, y, ap in_section a.1, weight-le_sum holds s.writers i t a.0))
  writer_enters i t stored a l z w y h =
      absurd (omega (arith, y, ap in_section a.1, weight-le_sum holds s.writers i t a.0))

  -- What all the threads leave.
  abbrev IsOver : ℕ → Type 0
  IsOver total = (s.value ≡ total % 2 ^ 32) × (sum is_inside s.readers + sum reads s.readers ≡ 0)

  module _ (w l : ℕ) (c : IsShared w l s) where
    mutex : bit (ltb 0 s.lock.writing) ≡ sum holds s.writers
    mutex = (Reachable-IsCounted c.count).one

    quiet : s.lock.writing ≡ 0 → crowd s.lock ≡ 0 → IsOver (w * l) ⊎ CanStep s
    quiet z y =
        let i = Reachable-IsLock c.lock in
        let k = Reachable-IsCounted c.count in
        elim (Zero-cases (sum reads s.readers)) [
          | inr h ↦ inr (reader_enters i c.inside y h)
          | inl x ↦ elim (Zero-cases (sum todo s.writers)) [
            | inr h ↦
                let (j, t, e, v) = find_weight todo s.writers h in
                inr (writer_enters j t t.place (e, refl) i y z (ground (arith, mutex, z)) v)
            | inl v ↦ inl (
              k.count ∙ ap (λ n. n % 2 ^ 32) (omega (arith, k.balance, v)),
              omega (arith, c.inside, x, y),
            )
          ]
        ]

    goes_on : IsOver (w * l) ⊎ CanStep s
    goes_on = elim (Zero-cases s.lock.writing) [
      | inr h ↦
          let (j, t, e, v) = find_weight holds s.writers (ground (arith, mutex, h)) in
          inr (writer_goes_on s j t t.place (e, refl) v h)
      | inl z ↦ elim (Zero-cases (crowd s.lock)) [
        | inr h ↦ inr (reader_goes_on s (Reachable-IsLock c.lock) c.inside z h)
        | inl y ↦ quiet z y
      ]
    ]

-- In every state that the threads of reader-writer.c reach: while a thread reads, no writer is
-- between the acquire and the release; and some thread can go on, or no reader has anything left to
-- do and `value` is the number of writers times the loops, with the wrap-around of 32 bits.
pub Reachable-value :
    (num_readers num_writers loops : ℕ) (s : State)
    → Reachable num_readers num_writers loops s
    → (0 < s.lock.reading → sum holds s.writers ≡ 0)
      × (((s.value ≡ num_writers * loops % 2 ^ 32)
            × (sum is_inside s.readers + sum reads s.readers ≡ 0))
          ⊎ ((t : State) × Step s t))
Reachable-value n w l s r =
    let c = Reachable-IsShared r in
    let apart = (Reachable-exclusive s.lock c.lock).1 in
    (λ h. ground (arith, apart, mutex s w l c, h), goes_on s w l c)
