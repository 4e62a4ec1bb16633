-- ===== src/Vl2/Mac.antt =====
-- internal/vl2/mac.go: the addresses of the virtual network's nodes, and the keys of the MAC table.
pub mod Uniqueness
use zerogo.Base.{
  ℕ, ◌%◌, ◌<◌, ◌≡◌, ◌↔◌, refl, ◌∷◌, [], Bytes, length, get_or, take, drop, replicate, copy, be32,
  put_be32, arith,
}
use zerogo.Vl2.Frame.{EthernetFrame, is_unicast}

-- `GenerateMAC`. A node address is five bytes.
unfoldable pub generate_mac : ℕ → Bytes → Bytes
unfolding put_be32
generate_mac network_id node_addr =
    let net_id_bytes = put_be32 network_id in
    0x02
    ∷ get_or net_id_bytes 2 0
    ∷ get_or net_id_bytes 3 0
    ∷ get_or node_addr 0 0
    ∷ get_or node_addr 1 0
    ∷ get_or node_addr 2 0
    ∷ []

-- `MACToKey`: an array of six bytes, filled from the front.
unfoldable pub mac_to_key : Bytes → Bytes
unfolding copy
mac_to_key mac = copy mac (replicate 6 0)
