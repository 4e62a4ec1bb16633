-- ===== src/Vl2/Frame/Parsing.antt =====
-- What parsing a frame keeps, and how its destinations are classed (internal/vl2/frame.go).
use zerogo.Base.{
  ◌≤◌, ◌<◌, ◌+◌, ◌*◌, ◌≡◌, refl, get_or, true, false, ◌∷◌, [], ◌++◌, ◌⊎◌, inl, inr, Bytes, AreBytes,
  length, put_be16, ok, err, arith,
}
use zerogo.Vl2.Frame.{
  EthernetFrame, frame_too_short, parse_ethernet_frame, is_broadcast, is_multicast, is_unicast,
}

-- A frame shorter than the header is refused. Any other is accepted, with two addresses of six
-- bytes, a type that fits sixteen bits, and the four parts in order making up the input again.
pub parse_ethernet_frame_lem :
    (image : Bytes)
    → AreBytes image
    → ((length image < 14) × (parse_ethernet_frame image ≡ err frame_too_short))
      ⊎ ((f : EthernetFrame) × (14 ≤ length image)
          × (parse_ethernet_frame image ≡ ok f)
          × (length f.dst_mac ≡ 6)
          × (length f.src_mac ≡ 6)
          × (f.ether_type < 65536)
          × (f.dst_mac ++ (f.src_mac ++ (put_be16 f.ether_type ++ f.payload)) ≡ image)
          × (f.raw ≡ image))
unfolding parse_ethernet_frame put_be16
parse_ethernet_frame_lem (a ∷ b ∷ c ∷ d ∷ e ∷ f ∷ g ∷ h ∷ i ∷ j ∷ k ∷ l ∷ m ∷ n ∷ r) bs = inr (
  (record {
    dst_mac = a ∷ b ∷ c ∷ d ∷ e ∷ f ∷ [];
    src_mac = g ∷ h ∷ i ∷ j ∷ k ∷ l ∷ [];
    ether_type = m * 256 + n;
    payload = r;
    raw = a ∷ b ∷ c ∷ d ∷ e ∷ f ∷ g ∷ h ∷ i ∷ j ∷ k ∷ l ∷ m ∷ n ∷ r;
  }),
  omega arith,
  ground arith,
  refl,
  refl,
  omega arith,
  ground arith,
  refl,
)
parse_ethernet_frame_lem _ bs = inl (omega arith, refl)

-- The broadcast address is a multicast address, so no broadcast frame is unicast.
pub is_broadcast-is_multicast :
    (f : EthernetFrame) → is_broadcast f ≡ true → (is_multicast f ≡ true) × (is_unicast f ≡ false)
unfolding is_broadcast is_multicast is_unicast
is_broadcast-is_multicast f h =
    let e : get_or f.dst_mac 0 0 ≡ 255 = ground arith in rw e (refl, refl)
