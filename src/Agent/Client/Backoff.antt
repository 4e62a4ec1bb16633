-- ===== src/Agent/Client/Backoff.antt =====
-- The waits between attempts to connect (internal/agent/controller.go, lines 49 to 80).
use native.Mathlib.Nat.{pow-suc, mul-one, mul_comm, mul_assoc, mul-le-mul_left, one-le-pow}
use zerogo.Base.{
  ℕ, zero, suc, ◌*◌, ◌^◌, ◌≤◌, ◌<◌, ◌≡◌, refl, sym, ap, ◌∙◌, List, [], ◌∷◌, ◌++◌, replicate, ltb,
  if◌then◌else◌, arith, Bool-cases, inl, inr,
}
use zerogo.Agent.Client.{Attempt, failed, connected, next_delay, delay_after, reconnect_delay}

delay_after-append :
    (xs ys : List Attempt) (d : ℕ) → delay_after (xs ++ ys) d ≡ delay_after ys (delay_after xs d)
unfolding delay_after
delay_after-append [] ys d = refl
delay_after-append (x ∷ xs) ys d = delay_after-append xs ys (next_delay x d)

delay_after_bounds :
    (xs : List Attempt) (d : ℕ) → 5 ≤ d → d ≤ 60 → (5 ≤ delay_after xs d) × (delay_after xs d ≤ 60)
unfolding delay_after next_delay
delay_after_bounds [] d low high = (low, high)
delay_after_bounds (failed ∷ xs) d low high =
    delay_after_bounds xs (next_delay failed d) (ground arith) (ground arith)
delay_after_bounds (connected ∷ xs) d low high = delay_after_bounds xs 5 (omega arith) (omega arith)

next_delay-failed : (d : ℕ) → next_delay failed d ≡ (if ltb 60 (d * 2) then 60 else d * 2)
unfolding next_delay
next_delay-failed d = refl

-- Past the bound.
capped :
    (k d : ℕ)
    → 60 < d * 2
    → (if ltb 60 (60 * 2 ^ k) then 60 else 60 * 2 ^ k)
      ≡ (if ltb 60 (d * 2 * 2 ^ k) then 60 else d * 2 * 2 ^ k)
capped k d above =
    let one : 1 ≤ 2 ^ k = one-le-pow k 2 (omega arith) in
    let grows : d * 2 * 1 ≤ d * 2 * 2 ^ k = mul-le-mul_left (d * 2) one in
    let grows_60 : 60 * 1 ≤ 60 * 2 ^ k = mul-le-mul_left 60 one in
    let left : (if ltb 60 (60 * 2 ^ k) then 60 else 60 * 2 ^ k) ≡ 60 = ground arith in
    let right : (if ltb 60 (d * 2 * 2 ^ k) then 60 else d * 2 * 2 ^ k) ≡ 60 = ground arith in
    left ∙ sym right

reconnected :
    (k d : ℕ) → delay_after (connected ∷ replicate k failed) d ≡ delay_after (replicate k failed) 5
unfolding delay_after next_delay
reconnected k d = refl

-- The bounded doubling, from any start.
delay_after-failed :
    (k d : ℕ)
    → d ≤ 60
    → delay_after (replicate k failed) d ≡ (if ltb 60 (d * 2 ^ k) then 60 else d * 2 ^ k)
unfolding delay_after
delay_after-failed zero d h = ground (arith, mul-one d)
delay_after-failed (suc k) d h =
    let power : d * 2 ^ suc k ≡ d * 2 * 2 ^ k =
      rw (pow-suc 2 k, mul_comm (2 ^ k) 2) (sym (mul_assoc d 2 (2 ^ k))) in
    elim (Bool-cases (ltb 60 (d * 2))) [
      | inl above ↦
          let next : next_delay failed d ≡ 60 = next_delay-failed d ∙ (rw above refl) in
          ap (delay_after (replicate k failed)) next
          ∙ delay_after-failed k 60 (omega arith)
          ∙ capped k d (ground arith)
          ∙ ap (λ n. if ltb 60 n then 60 else n) (sym power)
      | inr below ↦
          let next : next_delay failed d ≡ d * 2 = next_delay-failed d ∙ (rw below refl) in
          ap (delay_after (replicate k failed)) next
          ∙ delay_after-failed k (d * 2) (ground arith)
          ∙ ap (λ n. if ltb 60 n then 60 else n) (sym power)
    ]

-- The wait before a new attempt is between 5 and 60 seconds at all times, and after a connection
-- and then `k` failures it is 5 seconds doubled `k` times, or 60 if that is more.
pub delay_after_lem :
    (before : List Attempt) (k : ℕ)
    → (5 ≤ delay_after before reconnect_delay)
      × (delay_after before reconnect_delay ≤ 60)
      × (delay_after (before ++ connected ∷ replicate k failed) reconnect_delay
          ≡ (if ltb 60 (5 * 2 ^ k) then 60 else 5 * 2 ^ k))
delay_after_lem before k =
    let (low, high) = delay_after_bounds before 5 (omega arith) (omega arith) in
    (
      low,
      high,
      delay_after-append before (connected ∷ replicate k failed) 5
          ∙ reconnected k (delay_after before 5)
          ∙ delay_after-failed k 5 (omega arith),
    )
