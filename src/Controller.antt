-- ===== src/Controller.antt =====
-- internal/controller/api.go, lines 369 to 420: the address that a new member of a network gets.
--
-- The network is the one that `net.ParseCIDR` reads from an IPv4 range, with the zero bits that it
-- promises behind the prefix; `used` are the parsed addresses of the members that the database has.
pub mod Allocation
pub mod Blocks
pub mod Store
pub mod Sessions
pub mod Api
pub mod Tables
pub mod Users
pub mod Runs
mod Tests
use zerogo.Base.{
  ℕ, zero, suc, ◌+◌, ◌-◌, ◌%◌, ◌^◌, Bool, true, false, ◌||◌, List, [], ◌∷◌, Bytes, be32, bytes_eq,
  ◌==◌, Result, ok, err, if◌then◌else◌,
}

pub record IpNet : Type 0 where
  pub ip : Bytes
  pub ones : ℕ

-- `out_of_fuel` is no outcome of the code.
pub data AllocationError : Type 0 where
  no_available_ips : AllocationError
  out_of_fuel : AllocationError

abbrev pub carry_from : ℕ → Bytes × Bool → Bytes × Bool
carry_from b (r, false) = (b ∷ r, false)
carry_from b (r, true) = ((b + 1) % 256 ∷ r, (b + 1) % 256 == 0)

-- From the last byte on, for as long as a byte becomes zero.
unfoldable pub inc_carry : Bytes → Bytes × Bool
inc_carry [] = ([], true)
inc_carry (b ∷ r) = carry_from b (inc_carry r)

unfoldable pub inc : Bytes → Bytes
inc ip = (inc_carry ip).0

abbrev pub size : IpNet → ℕ
size net = 2 ^ (32 - net.ones)

-- `IPNet.Contains`: the bits before the prefix's end agree.
unfoldable pub contains : IpNet → Bytes → Bool
contains net ip = be32 ip - be32 ip % size net == be32 net.ip - be32 net.ip % size net

unfoldable pub is_used : List Bytes → Bytes → Bool
is_used [] ip = false
is_used (u ∷ used) ip = bytes_eq u ip || is_used used ip

unfoldable pub first_free : ℕ → IpNet → List Bytes → Bytes → Result AllocationError Bytes
first_free zero net used ip = err out_of_fuel
first_free (suc n) net used ip =
    let rest = first_free n net used (inc ip) in
    if contains net ip
    then (if contains net (inc ip)
        then (if is_used used ip then rest else ok ip)
        else err no_available_ips)
    else err no_available_ips

-- The address, to which the code appends the length of the prefix.
unfoldable pub allocate_ip : IpNet → List Bytes → Result AllocationError Bytes
allocate_ip net used = first_free (size net) net used (inc net.ip)
