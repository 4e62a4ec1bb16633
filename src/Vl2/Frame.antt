-- ===== src/Vl2/Frame.antt =====
-- internal/vl2/frame.go: Ethernet frames.
pub mod Parsing
use Prim.Native.Nat.{bit_and}
use zerogo.Base.{
  ℕ, Bool, not, ◌&&◌, Bytes, length, get_or, take, drop, be16, ltb, ◌==◌, if◌then◌else◌, Result, ok,
  err,
}

abbrev pub ethernet_header_size : ℕ
ethernet_header_size = 14

abbrev pub min_frame_size : ℕ
min_frame_size = ethernet_header_size

abbrev pub ether_type_ipv4 : ℕ
ether_type_ipv4 = 0x0800

abbrev pub ether_type_arp : ℕ
ether_type_arp = 0x0806

pub record EthernetFrame : Type 0 where
  pub dst_mac : Bytes
  pub src_mac : Bytes
  pub ether_type : ℕ
  pub payload : Bytes
  pub raw : Bytes

pub data FrameError : Type 0 where
  frame_too_short : FrameError

-- `ParseEthernetFrame`: `data[0:6]`, `data[6:12]`, `data[12:14]`, `data[14:]`.
unfoldable pub parse_ethernet_frame : Bytes → Result FrameError EthernetFrame
unfolding be16
parse_ethernet_frame bytes =
    if ltb (length bytes) min_frame_size
    then err frame_too_short
    else ok (record {
      dst_mac = take 6 bytes;
      src_mac = take 6 (drop 6 bytes);
      ether_type = be16 (take 2 (drop 12 bytes));
      payload = drop ethernet_header_size bytes;
      raw = bytes;
    })

unfoldable pub is_broadcast : EthernetFrame → Bool
is_broadcast f =
    get_or f.dst_mac 0 0 == 0xff
    && (get_or f.dst_mac 1 0 == 0xff
        && (get_or f.dst_mac 2 0 == 0xff
            && (get_or f.dst_mac 3 0 == 0xff
                && (get_or f.dst_mac 4 0 == 0xff && get_or f.dst_mac 5 0 == 0xff))))

unfoldable pub is_multicast : EthernetFrame → Bool
is_multicast f = not (bit_and (get_or f.dst_mac 0 0) 0x01 == 0)

unfoldable pub is_unicast : EthernetFrame → Bool
unfolding is_multicast
is_unicast f = not (is_multicast f)

unfoldable pub is_arp : EthernetFrame → Bool
is_arp f = f.ether_type == ether_type_arp
