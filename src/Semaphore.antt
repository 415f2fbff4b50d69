-- ===== src/Semaphore.antt =====
-- What the programs of exersises/concurrency/semaphores use a semaphore for, as an interface: the
-- one of zemaphore.h is an implementation, and `sem_t` of the system another.
use osvcp.Prelude.{ℕ, ◌+◌, ◌≤◌, ◌<◌}

-- A call of the wait or of the post puts a thread inside; it is there until it returns.
pub record Operations : Type 1 where
  pub State : Type 0
  pub sem_init : ℕ → State
  pub call_wait : State → State
  pub call_post : State → State
  pub Step : State → State → Type 0  -- a step of a thread inside
  pub Wake : State → State → Type 0  -- a thread inside wakes up without a reason
  pub returned : State → ℕ  -- the waits that have returned

-- The states after a number of waits and of posts called.
pub data Used (o : Operations) (value : ℕ) : ℕ → ℕ → o.State → Type 0 where
  init : Used o value 0 0 (o.sem_init value)
  waited : {w p : ℕ} {s : o.State} → Used o value w p s → Used o value (w + 1) p (o.call_wait s)
  posted : {w p : ℕ} {s : o.State} → Used o value w p s → Used o value w (p + 1) (o.call_post s)
  went_on : {w p : ℕ} {s t : o.State} → Used o value w p s → o.Step s t → Used o value w p t
  disturbed : {w p : ℕ} {s t : o.State} → Used o value w p s → o.Wake s t → Used o value w p t

-- No more waits return than the value and the posts allow, and one that may return is not held up:
-- a thread makes a step, without the help of a wake-up that nothing caused.
pub record IsSemaphore (o : Operations) : Type 0 where
  pub safe : (value w p : ℕ) (s : o.State) → Used o value w p s → o.returned s ≤ value + p
  pub live :
      (value w p : ℕ) (s : o.State)
      → Used o value w p s
      → o.returned s < w
      → o.returned s < value + p
      → (t : o.State) × o.Step s t
