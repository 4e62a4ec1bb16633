-- ===== src/Vl1/Packet.antt =====
-- internal/vl1/packet.go: the header, packets, and the two encoders and decoders.
-- `none` stands for the panic of an index or slice out of range.
pub mod RoundTrip
use mathlib.Core.Option
use Prim.Native.Nat.{min}
use zerogo.Base.{
  ℕ, ◌+◌, ◌-◌, ◌<◌, ◌≡◌, Option, none, some, List, [], ◌∷◌, ◌++◌, Bytes, length, get_or, take, drop,
  replicate, copy, copy_at, be16, put_be16, be32, put_be32, ltb, ◌==◌, if◌then◌else◌, Result, ok,
  err,
}

abbrev pub header_size : ℕ
header_size = 8

abbrev pub max_packet_size : ℕ
max_packet_size = 65535

abbrev pub protocol_version : ℕ
protocol_version = 1

abbrev pub packet_type_data : ℕ
packet_type_data = 1

abbrev pub packet_type_control : ℕ
packet_type_control = 2

abbrev pub packet_type_keepalive : ℕ
packet_type_keepalive = 3

abbrev pub packet_type_handshake : ℕ
packet_type_handshake = 4

-- `Type` is any byte: the decoder does not check it.
pub record Header : Type 0 where
  pub version : ℕ
  pub packet_type : ℕ
  pub network_id : ℕ
  pub reserved : ℕ

pub record Packet : Type 0 where
  pub header : Header
  pub payload : Bytes

pub data PacketError : Type 0 where
  too_short : PacketError
  unsupported_version : ℕ → PacketError

-- `Header.Encode`, with the buffer that it leaves.
unfoldable pub encode_header : Header → Bytes → Option Bytes
unfolding copy_at put_be16 put_be32
encode_header h buf =
    if ltb (length buf) header_size
    then none
    else some (
        copy_at 6 (put_be16 h.reserved) (
          copy_at 2 (put_be32 h.network_id)
            (copy_at 1 (h.packet_type ∷ []) (copy_at 0 (h.version ∷ []) buf))))

abbrev zero_header : Header
zero_header = record { version = 0; packet_type = 0; network_id = 0; reserved = 0 }

abbrev header_at : Bytes → Header
header_at buf = record {
  version = get_or buf 0 0;
  packet_type = get_or buf 1 0;
  network_id = be32 (take 4 (drop 2 buf));
  reserved = be16 (take 2 (drop 6 buf));
}

-- `DecodeHeader` returns a header beside its error.
unfoldable pub decode_header : Bytes → Header × Option PacketError
unfolding be16 be32
decode_header buf =
    if ltb (length buf) header_size
    then (zero_header, some too_short)
    else if (header_at buf).version == protocol_version
    then (header_at buf, none)
    else (header_at buf, some (unsupported_version (header_at buf).version))

-- `Packet.Encode`: the header goes into `buf[:8]`, the payload into `buf[8:]`.
unfoldable pub encode_packet : Packet → Option Bytes
unfolding encode_header copy
encode_packet p =
    let buf = replicate (header_size + length p.payload) 0 in
    Option.map (λ head. head ++ copy p.payload (drop header_size buf))
      (encode_header p.header (take header_size buf))

abbrev decoded : Bytes → Header × Option PacketError → Result PacketError Packet
decoded bytes (hdr, some e) = err e
decoded bytes (hdr, none) = ok (record { header = hdr; payload = drop header_size bytes })

-- `DecodePacket`.
unfoldable pub decode_packet : Bytes → Result PacketError Packet
unfolding decode_header
decode_packet bytes = decoded bytes (decode_header bytes)

-- `NewDataPacket`, `NewKeepalivePacket`, `NewHandshakePacket`.
unfoldable pub new_data_packet : ℕ → Bytes → Packet
new_data_packet network_id payload = record {
  header = record {
    version = protocol_version;
    packet_type = packet_type_data;
    network_id = network_id;
    reserved = 0;
  };
  payload = payload;
}

unfoldable pub new_keepalive_packet : Packet
new_keepalive_packet = record {
  header = record {
    version = protocol_version;
    packet_type = packet_type_keepalive;
    network_id = 0;
    reserved = 0;
  };
  payload = [];
}

unfoldable pub new_handshake_packet : Bytes → Packet
new_handshake_packet payload = record {
  header = record {
    version = protocol_version;
    packet_type = packet_type_handshake;
    network_id = 0;
    reserved = 0;
  };
  payload = payload;
}

-- `EncodePacketTo`: the buffer afterwards and the number of bytes written.
unfoldable pub encode_packet_to : Bytes → Header → Bytes → Option (Bytes × ℕ)
unfolding encode_header copy
encode_packet_to buf hdr payload =
    Option.map
      (λ head. (
        head ++ copy payload (drop header_size buf),
        header_size + min (length payload) (length buf - header_size),
      ))
      (encode_header hdr (take header_size buf))

abbrev decoded_into : Packet → Bytes → Header × Option PacketError → Packet × Option PacketError
decoded_into p bytes (hdr, some e) = (p, some e)
decoded_into p bytes (hdr, none) = (record { header = hdr; payload = drop header_size bytes }, none)

-- `DecodePacketInto`: the packet afterwards and the error.
unfoldable pub decode_packet_into : Packet → Bytes → Packet × Option PacketError
unfolding decode_header
decode_packet_into p bytes = decoded_into p bytes (decode_header bytes)
