-- ===== src/VectorAdd/Rules.antt =====
-- What each version of `vector_add` in exersises/concurrency/concurrency-bugs has of other locks
-- when it waits for one, and parts of a thread one after the other.
use osvcp.Prelude.{
  ℕ, ◌+◌, ◌-◌, ◌≤◌, ◌<◌, ◌≡◌, ap, sym, ◌⊎◌, inl, Bool, true, false, List, [], ◌∷◌, ◌++◌, arith, hit,
  fun_ext, subst,
}
use osvcp.VectorAdd.{
  Action, lock, try_lock, add, unlock, global, Version, deadlock, global_order, avoid_hold_and_wait,
  try_wait,
}
use osvcp.VectorAdd.Owed.{Rule, owes, IsDisciplined, IsClosed}

-- A thread waits only for locks with larger numbers than those that it has.
abbrev pub ascending : Rule
ascending k h = ((l : ℕ) → 1 ≤ h l → l < k) × (k < 202)

-- A thread that has a lock and waits has `global`.
abbrev pub gated : Rule
gated k h = ((l : ℕ) → h l ≡ 0) ⊎ (h global ≡ 1)

abbrev pub anything : Rule
anything k h = Unit {0}

abbrev pub rule : Version → Bool → Rule
rule deadlock true = anything
rule deadlock false = ascending
rule global_order d = ascending
rule avoid_hold_and_wait d = gated
rule try_wait d = ascending

module _ (R : Rule) where
  owes-append : (l : ℕ) (p q : List Action) → owes l q ≡ 0 → owes l (p ++ q) ≡ owes l p
  owes-append l [] q h = h
  owes-append l (lock k ∷ p) q h = ap (λ n. n - hit l k) (owes-append l p q h)
  owes-append l (try_lock d s ∷ p) q h = ap (λ n. n - hit l s) (owes-append l p q h)
  owes-append l (add d s ∷ p) q h = owes-append l p q h
  owes-append l (unlock k ∷ p) q h = ap (◌+◌ (hit l k)) (owes-append l p q h)

  IsDisciplined-append :
      (p q : List Action) → IsDisciplined R p → IsClosed R q → IsDisciplined R (p ++ q)
  IsDisciplined-append [] q h c = c.0
  IsDisciplined-append (lock k ∷ p) q h c = (
    rw (owes-append k p q (c.1 k)) h.0,
    subst (R k) (fun_ext (λ l. sym (owes-append l (lock k ∷ p) q (c.1 l)))) h.1,
    IsDisciplined-append p q h.2 c,
  )
  IsDisciplined-append (try_lock d s ∷ p) q h c = (
    rw (owes-append s p q (c.1 s)) h.0,
    rw (owes-append d p q (c.1 d)) h.1,
    h.2,
    subst (R d) (fun_ext (λ l. ap (λ n. (n - hit l s) - hit l d) (sym (owes-append l p q (c.1 l)))))
        h.3,
    IsDisciplined-append p q h.4 c,
  )
  IsDisciplined-append (add d s ∷ p) q h c = (
    rw (owes-append d p q (c.1 d)) h.0,
    rw (owes-append s p q (c.1 s)) h.1,
    IsDisciplined-append p q h.2 c,
  )
  IsDisciplined-append (unlock k ∷ p) q h c =
      (rw (owes-append k p q (c.1 k)) h.0, IsDisciplined-append p q h.1 c)

  pub IsClosed-append : (p q : List Action) → IsClosed R p → IsClosed R q → IsClosed R (p ++ q)
  IsClosed-append p q a b =
      (IsDisciplined-append p q a.0 b, λ l. rw (owes-append l p q (b.1 l)) (a.1 l))

-- A thread without locks may wait for any.
pub without :
    (version : Version) (d : Bool) (k : ℕ) (h : ℕ → ℕ)
    → k < 202
    → ((l : ℕ) → h l ≡ 0)
    → rule version d k h
without deadlock true k h b z = tt
without deadlock false k h b z = (λ l p. absurd (omega (arith, z l)), b)
without global_order d k h b z = (λ l p. absurd (omega (arith, z l)), b)
without avoid_hold_and_wait d k h b z = inl z
without try_wait d k h b z = (λ l p. absurd (omega (arith, z l)), b)
