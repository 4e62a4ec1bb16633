-- ===== src/Vl1/Packet/RoundTrip.antt =====
-- Encoding against decoding, and the two encoders against each other (internal/vl1/packet.go).
use zerogo.Base.{
  ℕ, suc, ◌+◌, ◌≤◌, ◌<◌, ◌≡◌, refl, ap, ◌∙◌, none, some, [], ◌∷◌, ◌++◌, Bytes, AreBytes, length,
  get_or, take, drop, replicate, copy-replicate, length-take, length-drop, ok, err, arith, put_be16,
  put_be32, be16, be32, ◌⊎◌, inl, inr, ◌≢◌, copy-append, drop-drop, Bool-cases, ltb, ◌==◌,
}
use zerogo.Vl1.Packet.{
  decoded, header_at, Header, Packet, too_short, unsupported_version, header_size, protocol_version,
  encode_header, decode_header, encode_packet, decode_packet, encode_packet_to, decode_packet_into,
}

-- The ranges of the Go fields.
pub record InRange (h : Header) : Type 0 where
  pub version_byte : h.version < 256
  pub type_byte : h.packet_type < 256
  pub network_u32 : h.network_id < 4294967296
  pub reserved_u16 : h.reserved < 65536

-- The eight bytes of a header.
abbrev pub header_bytes : Header → Bytes
header_bytes h = h.version ∷ h.packet_type ∷ (put_be32 h.network_id ++ put_be16 h.reserved)

pub encode_header-eight :
    (h : Header) (buf : Bytes) → length buf ≡ 8 → encode_header h buf ≡ some (header_bytes h)
unfolding encode_header
encode_header-eight h (a ∷ b ∷ c ∷ d ∷ e ∷ f ∷ g ∷ i ∷ []) p = refl
encode_header-eight h (a ∷ b ∷ c ∷ d ∷ e ∷ f ∷ g ∷ i ∷ j ∷ r) p = absurd (omega arith)
encode_header-eight h _ p = absurd (omega arith)

zeros : (n : ℕ) → replicate {A = ℕ} (header_size + n) 0 ≡ replicate 8 0 ++ replicate n 0
zeros n =
    ap (λ m. replicate {A = ℕ} m 0)
      (let e : header_size + n ≡ suc (suc (suc (suc (suc (suc (suc (suc n))))))) = omega arith in e)

-- The image of a packet: its header's eight bytes, then its payload. It is never a panic.
pub encode_packet_lem : (p : Packet) → encode_packet p ≡ some (header_bytes p.header ++ p.payload)
unfolding encode_packet
encode_packet_lem p = rw (zeros (length p.payload), copy-replicate p.payload) refl

pub decode_header_bytes :
    (h : Header) (rest : Bytes)
    → InRange h
    → h.version ≡ protocol_version
    → decode_header (header_bytes h ++ rest) ≡ (h, none)
unfolding decode_header put_be32 put_be16
decode_header_bytes h rest r v = ground arith

-- A packet whose fields fit their Go types and that carries the current version is encoded
-- without a panic, and decoding the image returns the packet.
pub decode_packet-encode_packet :
    (p : Packet)
    → InRange p.header
    → p.header.version ≡ protocol_version
    → (image : Bytes) × (encode_packet p ≡ some image) × (decode_packet image ≡ ok p)
unfolding decode_packet put_be32 put_be16
decode_packet-encode_packet p r v = (
  header_bytes p.header ++ p.payload,
  encode_packet_lem p,
  ap (decoded (header_bytes p.header ++ p.payload)) (decode_header_bytes p.header p.payload r v),
)

header_bytes-header_at :
    (buf : Bytes) → AreBytes buf → 8 ≤ length buf → header_bytes (header_at buf) ++ drop 8 buf ≡ buf
unfolding put_be32 put_be16 be32 be16
header_bytes-header_at (a ∷ b ∷ c ∷ d ∷ e ∷ f ∷ g ∷ i ∷ r) bs h = ground arith
header_bytes-header_at _ bs h = absurd (omega arith)

decode_header-none :
    (buf : Bytes)
    → (decode_header buf).1 ≡ none
    → (8 ≤ length buf)
      × ((decode_header buf).0 ≡ header_at buf)
      × ((header_at buf).version ≡ protocol_version)
unfolding decode_header
decode_header-none buf h = ground arith

decode_packet-eq-ok :
    (image : Bytes) (p : Packet)
    → decode_packet image ≡ ok p
    → (8 ≤ length image) × (p ≡ record { header = header_at image; payload = drop 8 image })
unfolding decode_packet
decode_packet-eq-ok image p h = ground arith

-- What `decode_packet` accepts is the image of the packet that it returns, byte for byte.
pub encode_packet-decode_packet :
    (image : Bytes) (p : Packet)
    → AreBytes image
    → decode_packet image ≡ ok p
    → encode_packet p ≡ some image
unfolding decode_packet
encode_packet-decode_packet image p bs h =
    encode_packet_lem p
    ∙ ap some (
        ap (λ q. header_bytes q.header ++ q.payload) (decode_packet-eq-ok image p h).1
        ∙ header_bytes-header_at image bs (decode_packet-eq-ok image p h).0)

-- The three outcomes of `decode_packet_into`, told apart by the length and the version byte. On
-- either error the packet is left as it was; otherwise it holds what `decode_packet` returns.
pub decode_packet_into_cases :
    (p : Packet) (image : Bytes)
    → ((length image < header_size)
        × (decode_packet_into p image ≡ (p, some too_short))
        × (decode_packet image ≡ err too_short))
      ⊎ ((header_size ≤ length image)
          × (get_or image 0 0 ≢ protocol_version)
          × (decode_packet_into p image ≡ (p, some (unsupported_version (get_or image 0 0))))
          × (decode_packet image ≡ err (unsupported_version (get_or image 0 0))))
      ⊎ ((q : Packet) × (header_size ≤ length image)
          × (get_or image 0 0 ≡ protocol_version)
          × (decode_packet_into p image ≡ (q, none))
          × (decode_packet image ≡ ok q))
unfolding decode_packet decode_packet_into
decode_packet_into_cases p image = elim (Bool-cases (ltb (length image) 8)) [
  | inl short ↦ inl (ground arith)
  | inr long ↦ elim (Bool-cases (get_or image 0 0 == 1)) [
    | inl current ↦ inr (
        inr (
          record { header = header_at image; payload = drop 8 image },
          ground arith,
          ground arith,
          ground arith,
          ground arith,
        ))
    | inr other ↦ inr (inl (ground arith))
  ]
]

-- In a buffer with room, `encode_packet_to` writes the image that `encode_packet` makes, reports
-- its length, and keeps the rest of the buffer.
pub encode_packet_to-encode_packet :
    (buf payload : Bytes) (h : Header)
    → header_size + length payload ≤ length buf
    → (image : Bytes) × (encode_packet (record { header = h; payload = payload }) ≡ some image)
      × (encode_packet_to buf h payload
          ≡ some (image ++ drop (header_size + length payload) buf, length image))
unfolding encode_packet_to
encode_packet_to-encode_packet buf payload h room = (
  header_bytes h ++ payload,
  encode_packet_lem _,
  rw
      (
        encode_header-eight h (take 8 buf) (omega (arith, length-take 8 buf)),
        copy-append payload (drop 8 buf) (omega (arith, length-drop 8 buf)),
        drop-drop 8 (length payload) buf,
      )
      (ap (λ (n : ℕ). some (header_bytes h ++ (payload ++ drop (8 + length payload) buf), n))
        (omega arith)),
)
