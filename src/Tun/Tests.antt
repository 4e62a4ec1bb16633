-- ===== src/Tun/Tests.antt =====
-- Inputs on which the theorem about the TUN device is used: an IPv4 packet after one of no version.
use zerogo.Base.{
  ◌+◌, ◌≡◌, refl, true, some, none, ok, List, [], ◌∷◌, ◌++◌, Bytes, map, length, replicate,
}
use zerogo.Vl2.Frame.{EthernetFrame, parse_ethernet_frame, is_broadcast}
use zerogo.Tun.{read, write, frame_read, ip_ether_type, write-read}

abbrev packet : Bytes
packet = 69 ∷ 0 ∷ 1 ∷ []

abbrev noise : List Bytes
noise = [] ∷ (1 ∷ 2 ∷ []) ∷ []

packet_is_ip : ip_ether_type packet ≡ some 0x0800
unfolding ip_ether_type
packet_is_ip = refl

first_is_none : ip_ether_type [] ≡ none
unfolding ip_ether_type
first_is_none = refl

second_is_none : ip_ether_type (1 ∷ 2 ∷ []) ≡ none
unfolding ip_ether_type
second_is_none = refl

write-read_example :
    (frame : Bytes) × (f : EthernetFrame) × (read
        (replicate 6 0)
        (replicate 6 2)
        (map some noise ++ (some packet ∷ []))
      ≡ frame_read frame)
    × (parse_ethernet_frame frame ≡ ok f)
    × (is_broadcast f ≡ true)
    × (f.src_mac ≡ replicate 6 2)
    × (f.ether_type ≡ 0x0800)
    × (f.payload ≡ packet)
    × (write frame ≡ ok (some packet, length packet + 14))
write-read_example =
    write-read (replicate 6 0) (replicate 6 2) packet 0x0800 noise [] refl refl
      (first_is_none, (second_is_none, tt)) packet_is_ip
