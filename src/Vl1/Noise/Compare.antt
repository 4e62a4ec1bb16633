-- ===== src/Vl1/Noise/Compare.antt =====
-- The comparison of authentication codes (`constantTimeEqual`, internal/vl1/noise.go).
use Prim.Native.Nat.{bit_or, bit_xor}
use zerogo.Base.{ℕ, ◌≡◌, ◌↔◌, refl, true, [], ◌∷◌, Bytes, length, arith}
use zerogo.Base.Bits.{bit_or-zero_iff, bit_xor-zero_iff}
use zerogo.Vl1.Noise.{differences, constant_time_equal}

-- The gathered differences are zero when there are none.
differences-zero_iff :
    (v : ℕ) (xs ys : Bytes)
    → length xs ≡ length ys
    → (differences v xs ys ≡ 0) ↔ ((v ≡ 0) × (xs ≡ ys))
unfolding differences
differences-zero_iff v [] [] l = (λ e. (e, refl), λ h. h.0)
differences-zero_iff v [] (y ∷ ys) l = absurd (omega arith)
differences-zero_iff v (x ∷ xs) [] l = absurd (omega arith)
differences-zero_iff v (x ∷ xs) (y ∷ ys) l =
    let rest = differences-zero_iff (bit_or v (bit_xor x y)) xs ys (omega arith) in
    ground (arith, rest, bit_or-zero_iff v (bit_xor x y), bit_xor-zero_iff x y)

-- The comparison that does not stop at the first difference answers yes exactly when the two slices
-- are equal.
pub constant_time_equal_iff : (a b : Bytes) → (constant_time_equal a b ≡ true) ↔ (a ≡ b)
unfolding constant_time_equal
constant_time_equal_iff a b =
    let same : a ≡ b → length a ≡ length b = λ e. rw e refl in
    ground (arith, differences-zero_iff 0 a b, same)
