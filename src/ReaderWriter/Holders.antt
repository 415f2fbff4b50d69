-- ===== src/ReaderWriter/Holders.antt =====
-- Whoever has the lock of exersises/concurrency/semaphores/exercise/reader-writer.c goes on.
use osvcp.Prelude.{
  ℕ, ◌+◌, ◌-◌, ◌≤◌, ◌≡◌, ◌==◌, inl, inr, arith, sum, find_weight, Zero-cases, one_less, Bool-cases,
}
use osvcp.LockedCounter.{Thread, Place, outside, locked, loaded, stored}
use osvcp.LockedCounter.Laws.{in_section}
use osvcp.ReaderWriter
use osvcp.ReaderWriter.Exclusion.{IsLock, inside}
use osvcp.ReaderWriter.Threads.{State, At, Step, inner, leave, load, store, release}
use osvcp.ReaderWriter.Values.{is_inside, crowd}

abbrev pub CanStep : State → Type 0
CanStep s = (t : State) × Step s t

pub writer_goes_on :
    (s : State) (i : ℕ) (t : Thread) (p : Place)
    → At s i t p
    → 1 ≤ in_section p
    → 1 ≤ s.lock.writing
    → CanStep s
writer_goes_on s i t outside a h w = absurd (omega (arith, h))
writer_goes_on s i t locked a h w = (_, load s i t a)
writer_goes_on s i t (loaded v) a h w = (_, store s i v t a)
writer_goes_on s i t stored a h w = (_, release s i (s.lock.writing - 1) t a (one_less _ w))

module _ (s : State) where
  -- A reader that has `readerLock` goes on, if no writer is there.
  holder_goes_on :
      IsLock s.lock
      → sum is_inside s.readers ≡ crowd s.lock
      → s.lock.writing ≡ 0
      → 1 ≤ inside s.lock
      → CanStep s
  holder_goes_on i c w h = elim (Zero-cases s.lock.entering) [
    | inr k ↦ (_, inner s (ReaderWriter.count_in s.lock (s.lock.entering - 1) (one_less _ k)) tt)
    | inl a ↦ elim (Zero-cases s.lock.admitted) [
      | inr k ↦
          (_, inner s (ReaderWriter.start_reading s.lock (s.lock.admitted - 1) (one_less _ k)) tt)
      | inl b ↦ elim (Zero-cases s.lock.leaving) [
        | inr k ↦
            (_, inner s (ReaderWriter.count_out s.lock (s.lock.leaving - 1) (one_less _ k)) tt)
        | inl d ↦ elim (Zero-cases s.lock.last) [
          | inr k ↦
              (_, inner s (ReaderWriter.post_writelock s.lock (s.lock.last - 1) (one_less _ k)) tt)
          | inl e ↦ tester (omega (arith, h, a, b, d, e))
        ]
      ]
    ]
  ]
    where
      leaver : 1 ≤ s.lock.left → CanStep s
      leaver h =
          let (j, r, e, v) = find_weight is_inside s.readers (omega (arith, c, h)) in
          (_, leave s j (s.lock.left - 1) r e (ground (arith, v)) (one_less _ h))

      waiter : 1 ≤ s.lock.first + s.lock.left → CanStep s
      waiter h = elim (Zero-cases s.lock.first) [
        | inl z ↦ leaver (omega (arith, h, z))
        | inr k ↦ (
          _,
          inner s
              (ReaderWriter.take_writelock s.lock (s.lock.first - 1) (s.lock.writelock - 1)
                (one_less _ k)
                (one_less _ (ground (arith, i.writelock, i.reader_lock, w, k, i.first k))))
              tt,
        )
      ]

      counter : 1 ≤ s.lock.counted → CanStep s
      counter h = elim (Bool-cases (s.lock.readers == 1)) [
        | inl e ↦ (
          _,
          inner s
              (ReaderWriter.is_first s.lock (s.lock.counted - 1) (one_less _ h) (ground (arith, e)))
              tt,
        )
        | inr e ↦ (
          _,
          inner s
              (ReaderWriter.not_first s.lock (s.lock.counted - 1) (one_less _ h)
                (ground (arith, e)))
              tt,
        )
      ]

      uncounter : 1 ≤ s.lock.uncounted → CanStep s
      uncounter h = elim (Bool-cases (s.lock.readers == 0)) [
        | inl e ↦ (
          _,
          inner s
              (ReaderWriter.is_last s.lock (s.lock.uncounted - 1) (one_less _ h)
                (ground (arith, e)))
              tt,
        )
        | inr e ↦ (
          _,
          inner s
              (ReaderWriter.not_last s.lock (s.lock.uncounted - 1) (one_less _ h)
                (ground (arith, e)))
              tt,
        )
      ]

      tester : 1 ≤ s.lock.counted + s.lock.uncounted + s.lock.first + s.lock.left → CanStep s
      tester h = elim (Zero-cases s.lock.counted) [
        | inr k ↦ counter k
        | inl z ↦ elim (Zero-cases s.lock.uncounted) [
          | inr k ↦ uncounter k
          | inl y ↦ waiter (omega (arith, h, z, y))
        ]
      ]

  pub reader_goes_on :
      IsLock s.lock
      → sum is_inside s.readers ≡ crowd s.lock
      → s.lock.writing ≡ 0
      → 1 ≤ crowd s.lock
      → CanStep s
  reader_goes_on i c w h = elim (Zero-cases (inside s.lock)) [
    | inr k ↦ holder_goes_on i c w k
    | inl z ↦ (
      _,
      inner s
          (ReaderWriter.leave s.lock (s.lock.reading - 1) (s.lock.reader_lock - 1)
            (one_less _ (omega (arith, h, z))) (one_less _ (omega (arith, i.reader_lock, z))))
          tt,
    )
  ]
