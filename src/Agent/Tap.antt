-- ===== src/Agent/Tap.antt =====
-- internal/agent/agent.go, lines 333 to 434: one round of the loop that reads the device. `input`
-- is what was read. `gateway` stands for `LookupGatewayMAC`, which no file declares, and gives none
-- where there is no controller; `in_subnet` for the test of `localNet`, false where that is nil.
use zerogo.Base.{
  ℕ, Bool, not, ◌&&◌, Option, none, some, List, Bytes, length, take, drop, replicate, copy,
  bytes_eq, ltb, ◌==◌, if◌then◌else◌, Result, ok, err,
}
use zerogo.Crypto.{Crypto}
use zerogo.Vl2.Frame.{
  EthernetFrame, FrameError, parse_ethernet_frame, is_arp, is_broadcast, ether_type_ipv4,
  min_frame_size,
}
use zerogo.Vl2.Switch.{handle_local_frame}
use zerogo.Vl2.Arp.{ArpCache, handle_arp, peer_from_arp, lookup}
use zerogo.Agent.{Datagram, agent_sender}
use zerogo.Agent.Receive.{Agent, Network, write_device, set_peer_arp}

-- What the agent knows of its own address: `localIPv4`, four zeros if unset, and `localNet`.
pub record Local : Type 0 where
  pub ipv4 : Bytes
  pub in_subnet : Bytes → Bool

abbrev pub is_full_ipv4 : EthernetFrame → Bytes → Bool
is_full_ipv4 frame input = frame.ether_type == ether_type_ipv4 && not (ltb (length input) 34)

-- A packet from the own subnet but from another address, which the kernel sent back.
unfoldable pub is_bounce : Local → EthernetFrame → Bytes → Bool
is_bounce local frame input =
    is_full_ipv4 frame input
    && (not (bytes_eq local.ipv4 (replicate 4 0))
        && (not (bytes_eq (copy (take 4 (drop 26 input)) (replicate 4 0)) local.ipv4)
            && local.in_subnet (take 4 (drop 26 input))))

-- `copy(buf[0:6], mac)`, if there is one.
abbrev pub with_destination : Option Bytes → Bytes → Bytes
with_destination none input = input
with_destination (some mac) input = copy (take 6 mac) input

abbrev first_of : Option Bytes → Option Bytes → Option Bytes
first_of none other = other
first_of (some mac) other = some mac

-- The broadcast of a TUN device, made unicast where the address is known.
unfoldable pub redirect : ℕ → (Bytes → Option Bytes) → EthernetFrame → Bytes → ArpCache → Bytes
redirect now gateway frame input arp =
    if is_broadcast frame && is_full_ipv4 frame input
    then with_destination
        (first_of (lookup now (take 4 (drop 30 input)) arp) (gateway (take 4 (drop 30 input))))
        input
    else input

module _ (c : Crypto) (fails : List Datagram → Datagram → Bool) (pool : Bytes)
    (gateway : Bytes → Option Bytes) (local : Local) where
  -- The end of a round: the switch gets the frame, and its error is logged only.
  unfoldable pub forward_frame : ℕ → Bytes → Network → Agent → Agent
  forward_frame now input net a =
      let (sw, node, e) =
        handle_local_frame (agent_sender c fails pool now) now input net.switch a.node in
      record a { node = node; network = some (record net { switch = sw }) }

  unfoldable pub tun_or_tap : ℕ → EthernetFrame → Bytes → Network → Agent → Agent
  tun_or_tap now frame input net a =
      if a.device.is_tun
      then (if is_bounce local frame input
          then a
          else forward_frame now (redirect now gateway frame input net.arp) net a)
      else forward_frame now input net a

  -- The ARP frame of a round: the reply is written to the device and nothing is forwarded; without
  -- a reply the sender goes into the kernel's table.
  abbrev pub after_arp :
      ℕ → EthernetFrame → Bytes → Network → Option Bytes → Option (Bytes × Bytes) → Agent → Agent
  after_arp now frame input net (some reply) sender a = write_device reply a
  after_arp now frame input net none none a = tun_or_tap now frame input net a
  after_arp now frame input net none (some (ip, mac)) a =
      tun_or_tap now frame input net (set_peer_arp ip mac a)

  abbrev pub tap_parsed : ℕ → Bytes → Result FrameError EthernetFrame → Network → Agent → Agent
  tap_parsed now input (err _) net a = a
  tap_parsed now input (ok frame) net a =
      let (arp, reply) = handle_arp now frame net.arp in
      let net' = record net { arp = arp } in
      if is_arp frame
      then after_arp now frame input net' reply (peer_from_arp frame)
          (record a { network = some net' })
      else tun_or_tap now frame input net a

  abbrev pub tap_into : ℕ → Bytes → Option Network → Agent → Agent
  tap_into now input none a = a
  tap_into now input (some net) a =
      if ltb (length input) min_frame_size
      then a
      else tap_parsed now input (parse_ethernet_frame input) net a

  -- A round. Without a network the code panics; the model then does nothing.
  unfoldable pub handle_tap_frame : ℕ → Bytes → Agent → Agent
  handle_tap_frame now input a = tap_into now input a.network a
