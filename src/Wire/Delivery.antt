-- ===== src/Wire/Delivery.antt =====
-- What reaches the socket.
use osvcp.Prelude.{
  ℕ, zero, suc, ◌+◌, ◌≤◌, ◌≡◌, ◌≢◌, ◌⊎◌, refl, ap, ◌∙◌, inl, inr, List, [], ◌∷◌, ◌++◌, append_assoc,
  arith, Bytes, length, take, drop, take-append-drop, length-drop,
}
use osvcp.Wire.{WriteResult, wrote, interrupted, unready, failed, Status, done, write_all}

-- The calls of `write` that take at least a byte, before one fails.
unfoldable pub grants : List WriteResult → ℕ
grants [] = 0
grants (wrote zero ∷ ws) = grants ws
grants (wrote (suc n) ∷ ws) = suc (grants ws)
grants (interrupted ∷ ws) = grants ws
grants (unready ∷ ws) = 0
grants (failed ∷ ws) = 0

-- The result is 0 and nothing is left to send, or it is not 0 and something is.
abbrev pub Settles : Status → Bytes → Type 0
Settles s tail = ((s ≡ done) × (tail ≡ [])) ⊎ ((s ≢ done) × (tail ≢ []))

-- The socket gets a prefix of the buffer, in order and with no byte twice, however the writes are
-- cut up; it gets all of it exactly when the result is 0.
pub write_all-prefix :
    (ws : List WriteResult) (buf : Bytes)
    → (tail : Bytes) × ((write_all ws buf).bytes ++ tail ≡ buf)
      × Settles (write_all ws buf).status tail
unfolding write_all
write_all-prefix ws [] = ([], refl, inl (refl, refl))
write_all-prefix [] (x ∷ buf) = (x ∷ buf, refl, inr (ground arith, ground arith))
write_all-prefix (wrote n ∷ ws) (x ∷ buf) =
    let (tail, split, ends) = write_all-prefix ws (drop n (x ∷ buf)) in
    (
      tail,
      append_assoc (take n (x ∷ buf)) (write_all ws (drop n (x ∷ buf))).bytes tail
          ∙ ap (◌++◌ (take n (x ∷ buf))) split
          ∙ take-append-drop n (x ∷ buf),
      ends,
    )
write_all-prefix (interrupted ∷ ws) (x ∷ buf) = write_all-prefix ws (x ∷ buf)
write_all-prefix (unready ∷ ws) (x ∷ buf) = (x ∷ buf, refl, inr (ground arith, ground arith))
write_all-prefix (failed ∷ ws) (x ∷ buf) = (x ∷ buf, refl, inr (ground arith, ground arith))

-- If as many calls of `write` as there are bytes take at least a byte each before one fails, the
-- loop ends with 0 and all is sent; the calls left over still suffice for what is not yet sent.
pub write_all-done :
    (ws : List WriteResult) (buf : Bytes)
    → length buf ≤ grants ws
    → ((write_all ws buf).status ≡ done)
      × ((write_all ws buf).bytes ≡ buf)
      × (grants ws ≤ grants (write_all ws buf).rest + length buf)
unfolding write_all grants
write_all-done ws [] h = (refl, refl, omega arith)
write_all-done [] (x ∷ buf) h = absurd (omega arith)
write_all-done (wrote zero ∷ ws) (x ∷ buf) h = write_all-done ws (x ∷ buf) h
write_all-done (wrote (suc n) ∷ ws) (x ∷ buf) h =
    let (ends, all, left) = write_all-done ws (drop n buf) (omega (arith, length-drop n buf)) in
    (
      ends,
      ap (◌++◌ (x ∷ take n buf)) all ∙ ap (◌∷◌ x) (take-append-drop n buf),
      omega (arith, length-drop n buf),
    )
write_all-done (interrupted ∷ ws) (x ∷ buf) h = write_all-done ws (x ∷ buf) h
write_all-done (unready ∷ ws) (x ∷ buf) h = absurd (omega arith)
write_all-done (failed ∷ ws) (x ∷ buf) h = absurd (omega arith)
