-- ===== src/Vl1/Tests.antt =====
-- Inputs on which the theorems about internal/vl1 are used.
use zerogo.Base.{◌≡◌, refl, arith, [], ◌∷◌, some, Bytes, ok}
use zerogo.Vl1.Packet.{Packet, encode_packet, decode_packet}
use zerogo.Vl1.Packet.RoundTrip.{InRange, decode_packet-encode_packet, encode_packet-decode_packet}

abbrev sample : Packet
sample = record {
  header = record { version = 1; packet_type = 1; network_id = 77_000; reserved = 0 };
  payload = 9 ∷ 8 ∷ 7 ∷ [];
}

abbrev sample_image : Bytes
sample_image = 1 ∷ 1 ∷ 0 ∷ 1 ∷ 44 ∷ 200 ∷ 0 ∷ 0 ∷ 9 ∷ 8 ∷ 7 ∷ []

sample_encoded : encode_packet sample ≡ some sample_image
unfolding encode_packet
sample_encoded = refl

sample_InRange : InRange sample.header
sample_InRange = omega arith

decode_packet-encode_packet_example :
    (image : Bytes) × (encode_packet sample ≡ some image) × (decode_packet image ≡ ok sample)
decode_packet-encode_packet_example = decode_packet-encode_packet sample sample_InRange refl

encode_packet-decode_packet_example : encode_packet sample ≡ some sample_image
unfolding decode_packet
encode_packet-decode_packet_example =
    encode_packet-decode_packet sample_image sample (omega arith) refl
