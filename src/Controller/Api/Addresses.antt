-- ===== src/Controller/Api/Addresses.antt =====
-- The address that a new member is given (internal/controller/api.go, lines 325 to 334 and 370 to
-- 410).
use native.Mathlib.Nat.{
  mul-le-mul_left, mul-suc, mul_assoc, div-add-mod, pow-suc, mul-one, mul-mod_right,
}
use zerogo.Base.{
  ℕ, zero, suc, ◌+◌, ◌-◌, ◌*◌, ◌/◌, ◌%◌, ◌^◌, ◌<◌, ◌≤◌, ◌≡◌, ◌⊎◌, inl, inr, refl, ap, ◌∙◌, false,
  none, some, [], ◌∷◌, Bytes, AreBytes, arith, length, be32, put_be32, be32-put_be32, Bool-cases,
  ltb,
}
use zerogo.Protocol.Cidr.{parse_cidr, format_cidr, mask_ip, parse_cidr-format_cidr}
use zerogo.Controller.{IpNet, size, is_used}
use zerogo.Controller.Blocks.{IsNetwork}
use zerogo.Controller.Allocation.{IsTaken, allocate_ip-IsLowestFree}
use zerogo.Controller.Store.{Database, NetworkRow}
use zerogo.Controller.Api.{used_ips, allocate_text}

pow_add : (a b : ℕ) → 2 ^ a * 2 ^ b ≡ 2 ^ (a + b)
pow_add a zero = rw mul-one (ap (λ k. 2 ^ k) (omega arith))
pow_add a (suc b) =
    let shift : a + suc b ≡ suc (a + b) = omega arith in
    rw (shift, pow-suc 2 b, pow-suc 2 (a + b), ← mul_assoc (2 ^ a) (2 ^ b) 2, pow_add a b) refl

-- A multiple of `s` below a multiple of `s` leaves room for `s`.
room_below : (s q t : ℕ) → s * q < s * t → s * q + s ≤ s * t
room_below s q t below = elim (Bool-cases (ltb q t)) [
  | inl less ↦ rw (← mul-suc s q) (mul-le-mul_left s (ground arith))
  | inr more ↦
      let too_much : s * t ≤ s * q = mul-le-mul_left s (ground arith) in absurd (omega arith)
]

-- Rounding down to a multiple of a power of two leaves room for the power.
round_down :
    (v k : ℕ)
    → k ≤ 32
    → v < 4294967296
    → ((v - v % 2 ^ k) % 2 ^ k ≡ 0) × (v - v % 2 ^ k + 2 ^ k ≤ 4294967296)
round_down v k h small =
    let s = 2 ^ k in
    let q = v / s in
    let whole : s * q + v % s ≡ v = div-add-mod v s in
    let down : v - v % s ≡ s * q = omega (arith, whole) in
    let total : k + (32 - k) ≡ 32 = omega arith in
    let all : s * 2 ^ (32 - k) ≡ 4294967296 = pow_add k (32 - k) ∙ ap (λ n. 2 ^ n) total in
    rw down (
      mul-mod_right s q,
      rw (← all) (room_below s q (2 ^ (32 - k)) (rw all (omega (arith, whole)))),
    )

put_be32-AreBytes : (v : ℕ) → v < 4294967296 → (length (put_be32 v) ≡ 4) × AreBytes (put_be32 v)
unfolding put_be32
put_be32-AreBytes v h = (refl, omega arith)

be32-lt : (ip : Bytes) → length ip ≡ 4 → AreBytes ip → be32 ip < 4294967296
unfolding be32
be32-lt (a ∷ b ∷ c ∷ d ∷ []) four bytes = omega arith
be32-lt (a ∷ b ∷ c ∷ d ∷ e ∷ r) four bytes = absurd (omega arith)
be32-lt _ four bytes = absurd (omega arith)

-- The network of a range is the first address of a block.
mask_ip-IsNetwork :
    (ip : Bytes) (ones : ℕ)
    → length ip ≡ 4
    → AreBytes ip
    → 1 ≤ ones
    → ones ≤ 32
    → IsNetwork (record { ip = mask_ip ip ones; ones = ones })
unfolding mask_ip
mask_ip-IsNetwork ip ones four bytes low high =
    let v = be32 ip in
    let small : v < 4294967296 = be32-lt ip four bytes in
    let s = 2 ^ (32 - ones) in
    let masked : v - v % s < 4294967296 = omega arith in
    let (first, fits) = round_down v (32 - ones) (omega arith) small in
    let (size_four, size_bytes) = put_be32-AreBytes (v - v % s) masked in
    record {
      four = size_four;
      bytes = size_bytes;
      first = rw (be32-put_be32 (v - v % s) masked) first;
      fits = rw (be32-put_be32 (v - v % s) masked) fits;
      ones_min = low;
    }

-- Where the range of a network is parsed, the text that is allocated is parsed by whoever reads it
-- as an address with the range's prefix; that address lies strictly between the first and the last
-- of the network's block and is no other member's. The allocation fails only if no address is left:
-- `y` is any. The prefix has at least one bit.
pub allocate_text_lem :
    {W : Type 0} (d : Database W) (net : NetworkRow) (w : W) (ip : Bytes) (ones : ℕ) (y : Bytes)
    → parse_cidr net.ip_range ≡ some (ip, ones)
    → length ip ≡ 4
    → AreBytes ip
    → 1 ≤ ones
    → ones ≤ 32
    → length y ≡ 4
    → AreBytes y
    → let block : IpNet = record { ip = mask_ip ip ones; ones = ones } in
      let used = used_ips (d.members_with_ip net.id w) in
      ((allocate_text d net w ≡ none) × IsTaken block used y)
      ⊎ ((x : Bytes) × (text : Bytes) × (allocate_text d net w ≡ some text)
          × (parse_cidr text ≡ some (x, ones))
          × (be32 block.ip < be32 x)
          × (be32 x + 1 < be32 block.ip + size block)
          × (is_used used x ≡ false))
unfolding allocate_text
allocate_text_lem d net w ip ones y parsed four bytes low high four_y bytes_y =
    let block : IpNet = record { ip = mask_ip ip ones; ones = ones } in
    let used = used_ips (d.members_with_ip net.id w) in
    elim (allocate_ip-IsLowestFree block used y (mask_ip-IsNetwork ip ones four bytes low high)
      four_y bytes_y) [
        | inl (none_left, taken) ↦ inl (rw (parsed, none_left) refl, taken)
        | inr (x, found, above, below, free, four_x, bytes_x, lowest) ↦ inr (
          x,
          format_cidr x ones,
          rw (parsed, found) refl,
          parse_cidr-format_cidr x ones four_x bytes_x high,
          above,
          below,
          free,
        )
      ]
