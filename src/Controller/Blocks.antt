-- ===== src/Controller/Blocks.antt =====
-- Addresses as numbers, and the block of numbers that a network contains
-- (internal/controller/api.go, lines 412 to 420, and `IPNet.Contains`).
use native.Mathlib.Nat.{mod-add-mod, mod-eq_of_lt, mod-lt, mod-le, zero-add, pow-le-pow_right}
use zerogo.Base.{
  ℕ, ◌+◌, ◌-◌, ◌%◌, ◌≤◌, ◌<◌, ◌≡◌, ◌↔◌, sym, ap, ◌∙◌, true, [], ◌∷◌, Bytes, AreBytes, be32, length,
  arith,
}
use zerogo.Controller.{IpNet, inc_carry, inc, size, contains}

-- The address plus one, from the last back to the first.
pub inc_lem :
    (ip : Bytes)
    → length ip ≡ 4
    → AreBytes ip
    → (length (inc ip) ≡ 4) × AreBytes (inc ip) × (be32 (inc ip) ≡ (be32 ip + 1) % 4294967296)
unfolding inc inc_carry be32
inc_lem (a ∷ b ∷ c ∷ d ∷ []) l h = ground arith
inc_lem (a ∷ b ∷ c ∷ d ∷ e ∷ r) l h = absurd (omega arith)
inc_lem _ l h = absurd (omega arith)

pub be32_injective :
    (x y : Bytes) → length x ≡ 4 → length y ≡ 4 → AreBytes x → AreBytes y → be32 x ≡ be32 y → x ≡ y
unfolding be32
be32_injective (a0 ∷ a1 ∷ a2 ∷ a3 ∷ []) (b0 ∷ b1 ∷ b2 ∷ b3 ∷ []) h k ha hb e = ground arith
be32_injective (a0 ∷ a1 ∷ a2 ∷ a3 ∷ a4 ∷ a) (b0 ∷ b1 ∷ b2 ∷ b3 ∷ []) h k ha hb e =
    absurd (omega arith)
be32_injective _ _ h k ha hb e = absurd (omega arith)

-- An IPv4 network with a prefix of at least one bit: the address is the first of its block.
pub record IsNetwork (net : IpNet) : Type 0 where
  pub four : length net.ip ≡ 4
  pub bytes : AreBytes net.ip
  pub first : be32 net.ip % size net ≡ 0
  pub fits : be32 net.ip + size net ≤ 4294967296
  pub ones_min : 1 ≤ net.ones

pub size-bounds : (net : IpNet) → IsNetwork net → (1 ≤ size net) × (size net ≤ 2147483648)
size-bounds net w = (
  pow-le-pow_right {n = 2} (omega arith) {i = 0} {j = 32 - net.ones} (omega arith),
  pow-le-pow_right {n = 2} (omega arith) {i = 32 - net.ones} {j = 31} (omega (arith, w.ones_min)),
)

in_block : (n s k : ℕ) → n % s ≡ 0 → k < s → (n + k) % s ≡ k
in_block n s k first below = rw (sym (mod-add-mod n s k), first, zero-add k) (mod-eq_of_lt below)

pub contains_iff :
    (net : IpNet) (ip : Bytes)
    → IsNetwork net
    → (contains net ip ≡ true) ↔ ((be32 net.ip ≤ be32 ip) × (be32 ip < be32 net.ip + size net))
unfolding contains
contains_iff net ip w =
    let n = be32 net.ip in
    let v = be32 ip in
    let s = size net in
    let (s_min, _) = size-bounds net w in
    (
      (λ e.
          let eq : v - v % s ≡ n - n % s = ground arith in
          (
            omega (arith, eq, w.first, mod-le v s, mod-lt v {m = s} s_min),
            omega (arith, eq, w.first, mod-le v s, mod-lt v {m = s} s_min),
          )),
      (λ (low, high).
          let e : (n + (v - n)) % s ≡ v - n = in_block n s (v - n) w.first (omega arith) in
          let back : n + (v - n) ≡ v = omega arith in
          let e' : v % s ≡ v - n = ap (λ x. x % s) (sym back) ∙ e in ground (arith, e', w.first)),
    )
