-- ===== src/Controller/Allocation.antt =====
-- The search for an address to give to a member (internal/controller/api.go, lines 369 to 420).
use zerogo.Base.{
  ℕ, zero, suc, ◌+◌, ◌≤◌, ◌<◌, ◌≡◌, ◌⊎◌, inl, inr, refl, ap, ◌∙◌, true, false, List, Bytes,
  AreBytes, be32, length, ◌==◌, Result, ok, err, arith, ltb, Bool-cases,
}
use zerogo.Controller.{
  IpNet, AllocationError, no_available_ips, inc, size, contains, is_used, first_free, allocate_ip,
}
use zerogo.Controller.Blocks.{IsNetwork, inc_lem, be32_injective, size-bounds, contains_iff}

module _ (net : IpNet) (used : List Bytes) where
  stop_at_end :
      (n : ℕ) (ip : Bytes)
      → contains net (inc ip) ≡ false
      → first_free (suc n) net used ip ≡ err no_available_ips
  unfolding first_free
  stop_at_end n ip last = elim (Bool-cases (contains net ip)) [
    | inl inside ↦ rw (inside, last) refl
    | inr outside ↦ rw outside refl
  ]

  stop_outside :
      (n : ℕ) (ip : Bytes)
      → 1 ≤ n
      → contains net ip ≡ false
      → first_free n net used ip ≡ err no_available_ips
  unfolding first_free
  stop_outside zero ip some_fuel outside = absurd (omega arith)
  stop_outside (suc n) ip some_fuel outside = rw outside refl

  take_free :
      (n : ℕ) (ip : Bytes)
      → contains net ip ≡ true
      → contains net (inc ip) ≡ true
      → is_used used ip ≡ false
      → first_free (suc n) net used ip ≡ ok ip
  unfolding first_free
  take_free n ip inside next free = rw (inside, next, free) refl

  pass_used :
      (n : ℕ) (ip : Bytes)
      → contains net ip ≡ true
      → contains net (inc ip) ≡ true
      → is_used used ip ≡ true
      → first_free (suc n) net used ip ≡ first_free n net used (inc ip)
  unfolding first_free
  pass_used n ip inside next taken = rw (inside, next, taken) refl

  -- Not to be given away: outside the block, its first or last address, or in use.
  abbrev pub IsTaken : Bytes → Type 0
  IsTaken y =
      (be32 y ≤ be32 net.ip) ⊎ ((be32 net.ip + size net ≤ be32 y + 1) ⊎ (is_used used y ≡ true))

  -- Either no address is free, and then `y` is not, or `x`, of four bytes, is the lowest free one.
  abbrev pub IsLowestFree : Bytes → Result AllocationError Bytes → Type 0
  IsLowestFree y r =
      ((r ≡ err no_available_ips) × IsTaken y)
      ⊎ ((x : Bytes) × (r ≡ ok x)
          × (be32 net.ip < be32 x)
          × (be32 x + 1 < be32 net.ip + size net)
          × (is_used used x ≡ false)
          × (length x ≡ 4)
          × AreBytes x
          × ((be32 x ≤ be32 y) ⊎ IsTaken y))

  next_lem :
      (ip : Bytes)
      → IsNetwork net
      → length ip ≡ 4
      → AreBytes ip
      → be32 net.ip < be32 ip
      → be32 ip < be32 net.ip + size net
      → ((be32 ip + 1 ≡ be32 net.ip + size net) × (contains net (inc ip) ≡ false))
        ⊎ ((be32 (inc ip) ≡ be32 ip + 1) × (contains net (inc ip) ≡ true))
  next_lem ip w four bytes low high =
      let (_, _, e) = inc_lem ip four bytes in
      let (s_min, s_max) = size-bounds net w in
      elim (Bool-cases (contains net (inc ip))) [
        | inl inside ↦
            let (l, h) = (contains_iff net (inc ip) w).0 inside in
            inr (omega (arith, e, w.fits), inside)
        | inr outside ↦ inl (ground (arith, contains_iff net (inc ip) w, w.fits), outside)
      ]

  pass_lem :
      (ip y : Bytes)
      → length y ≡ 4
      → AreBytes y
      → length ip ≡ 4
      → AreBytes ip
      → be32 (inc ip) ≡ be32 ip + 1
      → is_used used ip ≡ true
      → (be32 ip ≤ be32 y) ⊎ IsTaken y
      → (be32 (inc ip) ≤ be32 y) ⊎ IsTaken y
  pass_lem ip y four_y bytes_y four bytes e in_use (inr taken) = inr taken
  pass_lem ip y four_y bytes_y four bytes e in_use (inl above) =
      elim (Bool-cases (be32 ip == be32 y)) [
        | inl same ↦ inr (
            inr (
              inr (
                ap (is_used used) (be32_injective y ip four_y four bytes_y bytes (ground arith))
                ∙ in_use)))
        | inr other ↦ inl (ground arith)
      ]

  first_free-IsLowestFree :
      (n : ℕ) (ip y : Bytes)
      → IsNetwork net
      → length y ≡ 4
      → AreBytes y
      → length ip ≡ 4
      → AreBytes ip
      → be32 net.ip < be32 ip
      → be32 ip < be32 net.ip + size net
      → be32 net.ip + size net ≤ be32 ip + n
      → (be32 ip ≤ be32 y) ⊎ IsTaken y
      → IsLowestFree y (first_free n net used ip)
  first_free-IsLowestFree zero ip y w four_y bytes_y four bytes low high fuel passed =
      absurd (omega arith)
  first_free-IsLowestFree (suc n) ip y w four_y bytes_y four bytes low high fuel passed =
      let inside = (contains_iff net ip w).1 (omega arith, high) in
      elim (next_lem ip w four bytes low high) [
        | inl (last, outside) ↦ inl (
          stop_at_end n ip outside,
          elim passed [ inl above ↦ inr (inl (omega arith)) | inr taken ↦ taken ],
        )
        | inr (e, next) ↦ elim (Bool-cases (is_used used ip)) [
          | inl in_use ↦
              let (four', bytes', _) = inc_lem ip four bytes in
              let (_, high') = (contains_iff net (inc ip) w).0 next in
              rw (pass_used n ip inside next in_use) (
                first_free-IsLowestFree n (inc ip) y w four_y bytes_y four' bytes' (omega arith)
                  high' (omega arith) (pass_lem ip y four_y bytes_y four bytes e in_use passed))
          | inr free ↦ inr (
            ip,
            take_free n ip inside next free,
            low,
            omega (arith, (contains_iff net (inc ip) w).0 next),
            free,
            four,
            bytes,
            passed,
          )
        ]
      ]

  -- What is allocated is the lowest address of the network's block that is not in use, neither the
  -- first of the block nor its last, the broadcast address; and the search fails, with the code's
  -- own error, only if there is none. `y` is any address. The prefix has at least one bit.
  pub allocate_ip-IsLowestFree :
      (y : Bytes)
      → IsNetwork net
      → length y ≡ 4
      → AreBytes y
      → IsLowestFree y (allocate_ip net used)
  unfolding allocate_ip
  allocate_ip-IsLowestFree y w four_y bytes_y =
      let (four, bytes, e) = inc_lem net.ip w.four w.bytes in
      let (s_min, s_max) = size-bounds net w in
      elim (Bool-cases (contains net (inc net.ip))) [
        | inl inside ↦
            let (low, high) = (contains_iff net (inc net.ip) w).0 inside in
            first_free-IsLowestFree (size net) (inc net.ip) y w four_y bytes_y four bytes
              (omega (arith, e, w.fits)) high (omega (arith, e, w.fits))
              (elim (Bool-cases (ltb (be32 net.ip) (be32 y))) [
                | inl above ↦ inl (ground (arith, e, w.fits))
                | inr not_above ↦ inr (inl (ground arith))
              ])
        | inr outside ↦
            let one : size net ≡ 1 = ground (arith, e, w.fits, contains_iff net (inc net.ip) w) in
            inl (
              stop_outside (size net) (inc net.ip) s_min outside,
              elim (Bool-cases (ltb (be32 net.ip) (be32 y))) [
                | inl above ↦ inr (inl (ground arith))
                | inr not_above ↦ inl (ground arith)
              ],
            )
      ]
