-- ===== src/Tun.antt =====
-- internal/tap/tun_linux.go: how a TUN device is made to look like an Ethernet device; the one of
-- internal/tap/tun_darwin.go reads and writes in the same way. Packets come from the kernel as a
-- list, none for an error. `old` is what the caller's buffer had in the place of the source
-- address. The pause after many packets that are no IP packets is left out.
mod Tests
use zerogo.Base.{
  ℕ, ◌+◌, ◌/◌, ◌≡◌, ◌≢◌, ◌⊎◌, refl, sym, ap, ◌∙◌, inl, inr, Bool, true, false, not, ◌&&◌, Option,
  none, some, List, [], ◌∷◌, ◌++◌, Bytes, AreBytes, All, map, length, take, drop, replicate, copy,
  copy_full, ltb, ◌==◌, if◌then◌else◌, be16, put_be16, get_or, arith, Result, ok, err,
}
use zerogo.Vl2.Frame.{EthernetFrame, parse_ethernet_frame, is_broadcast}

pub data ReadOutcome : Type 0 where
  frame_read : Bytes → ReadOutcome
  read_failed : ReadOutcome
  waiting : ReadOutcome

pub data TunError : Type 0 where
  frame_too_short : TunError

-- The EtherType by the version of an IP packet.
unfoldable pub ip_ether_type : Bytes → Option ℕ
ip_ether_type [] = none
ip_ether_type (b ∷ packet) =
    if b / 16 == 4 then some 0x0800 else if b / 16 == 6 then some 0x86DD else none

abbrev pub wrap : Bytes → Bytes → ℕ → Bytes → Bytes
wrap old mac ether_type packet =
    replicate 6 255 ++ (copy mac old ++ (put_be16 ether_type ++ packet))

abbrev pub wrap_or : Bytes → Bytes → Bytes → Option ℕ → ReadOutcome → ReadOutcome
wrap_or old mac packet none rest = rest
wrap_or old mac packet (some t) rest = frame_read (wrap old mac t packet)

-- `Read`: the first IP packet, as the payload of a broadcast frame.
unfoldable pub read : Bytes → Bytes → List (Option Bytes) → ReadOutcome
read old mac [] = waiting
read old mac (none ∷ packets) = read_failed
read old mac (some packet ∷ packets) =
    wrap_or old mac packet (ip_ether_type packet) (read old mac packets)

-- `Write`: what goes to the kernel, and the length that is returned. The kernel takes the whole
-- packet.
unfoldable pub write : Bytes → Result TunError (Option Bytes × ℕ)
write buf =
    let ether_type = be16 (drop 12 buf) in
    if ltb (length buf) 14
    then err frame_too_short
    else if not (ether_type == 0x0800) && not (ether_type == 0x86DD)
    then ok (none, length buf)
    else ok (some (drop 14 buf), length (drop 14 buf) + 14)

read-skips :
    (old mac : Bytes) (noise : List Bytes) (packets : List (Option Bytes))
    → All (λ p. ip_ether_type p ≡ none) noise
    → read old mac (map some noise ++ packets) ≡ read old mac packets
unfolding read
read-skips old mac [] packets h = refl
read-skips old mac (p ∷ noise) packets h = rw (h.0) (read-skips old mac noise packets h.1)

read-of_packet :
    (old mac packet : Bytes) (t : ℕ) (packets : List (Option Bytes))
    → ip_ether_type packet ≡ some t
    → read old mac (some packet ∷ packets) ≡ frame_read (wrap old mac t packet)
unfolding read
read-of_packet old mac packet t packets e = rw e refl

ip_ether_type-cases :
    (packet : Bytes) (t : ℕ) → ip_ether_type packet ≡ some t → (t ≡ 0x0800) ⊎ (t ≡ 0x86DD)
unfolding ip_ether_type
ip_ether_type-cases [] t e = absurd (cc e)
ip_ether_type-cases (b ∷ packet) t e = ground arith

framed_lem :
    (mac packet : Bytes) (t : ℕ)
    → length mac ≡ 6
    → (t ≡ 0x0800) ⊎ (t ≡ 0x86DD)
    → let frame = replicate 6 255 ++ (mac ++ (put_be16 t ++ packet)) in
      (f : EthernetFrame) × (parse_ethernet_frame frame ≡ ok f)
      × (is_broadcast f ≡ true)
      × (f.src_mac ≡ mac)
      × (f.ether_type ≡ t)
      × (f.payload ≡ packet)
      × (write frame ≡ ok (some packet, length packet + 14))
unfolding parse_ethernet_frame is_broadcast write put_be16 be16
framed_lem (a ∷ b ∷ c ∷ d ∷ e ∷ f ∷ []) packet t h (inl v4) = rw v4 (
  (record {
    dst_mac = replicate 6 255;
    src_mac = a ∷ b ∷ c ∷ d ∷ e ∷ f ∷ [];
    ether_type = 0x0800;
    payload = packet;
    raw = replicate 6 255 ++ (a ∷ b ∷ c ∷ d ∷ e ∷ f ∷ 8 ∷ 0 ∷ packet);
  }),
  ground arith,
  refl,
  refl,
  refl,
  refl,
  ground arith,
)
framed_lem (a ∷ b ∷ c ∷ d ∷ e ∷ f ∷ []) packet t h (inr v6) = rw v6 (
  (record {
    dst_mac = replicate 6 255;
    src_mac = a ∷ b ∷ c ∷ d ∷ e ∷ f ∷ [];
    ether_type = 0x86DD;
    payload = packet;
    raw = replicate 6 255 ++ (a ∷ b ∷ c ∷ d ∷ e ∷ f ∷ 0x86 ∷ 0xDD ∷ packet);
  }),
  ground arith,
  refl,
  refl,
  refl,
  refl,
  ground arith,
)
framed_lem (a ∷ b ∷ c ∷ d ∷ e ∷ f ∷ g ∷ r) packet t h k = absurd (omega arith)
framed_lem _ packet t h k = absurd (omega arith)

-- A read passes over whatever is no IP packet and ends at the first IP packet, which it gives as a
-- frame: a broadcast from the device's address, of the packet's type and with the packet as
-- payload. A write of that frame hands the kernel the same packet. The device's address has six
-- bytes.
pub write-read :
    (old mac packet : Bytes) (t : ℕ) (noise : List Bytes) (packets : List (Option Bytes))
    → length mac ≡ 6
    → length old ≡ 6
    → All (λ p. ip_ether_type p ≡ none) noise
    → ip_ether_type packet ≡ some t
    → (frame : Bytes) × (f : EthernetFrame) × (read old mac
          (map some noise ++ (some packet ∷ packets))
        ≡ frame_read frame)
      × (parse_ethernet_frame frame ≡ ok f)
      × (is_broadcast f ≡ true)
      × (f.src_mac ≡ mac)
      × (f.ether_type ≡ t)
      × (f.payload ≡ packet)
      × (write frame ≡ ok (some packet, length packet + 14))
write-read old mac packet t noise packets long old_long silent is_ip =
    let frame = replicate 6 255 ++ (mac ++ (put_be16 t ++ packet)) in
    let whole : wrap old mac t packet ≡ frame =
      ap (λ m. replicate 6 255 ++ (m ++ (put_be16 t ++ packet)))
        (copy_full mac old (old_long ∙ sym long)) in
    let (f, parsed, broadcast, source, type_of, payload, written) =
      framed_lem mac packet t long (ip_ether_type-cases packet t is_ip) in
    (
      frame,
      f,
      read-skips old mac noise (some packet ∷ packets) silent
          ∙ read-of_packet old mac packet t packets is_ip
          ∙ ap frame_read whole,
      parsed,
      broadcast,
      source,
      type_of,
      payload,
      written,
    )
