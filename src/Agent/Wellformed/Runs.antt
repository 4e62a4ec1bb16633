-- ===== src/Agent/Wellformed/Runs.antt =====
-- The agent over any sequence of packets, frames and calls (internal/agent/agent.go). The locks of
-- the peers and of the switch are taken inside a handler; a run takes each handler as one step.
use zerogo.Base.{ℕ, Bool, Option, none, some, List, [], ◌∷◌, Bytes, length, ltb, Result, ok, err}
use zerogo.Crypto.{Crypto}
use zerogo.Vl1.Packet.{decode_packet_into}
use zerogo.Vl1.Manager.{Ref, add_peer, remove_peer, clean_dead}
use zerogo.Vl1.Manager.Soundness.{IsSound, add_peer-IsSound, remove_peer-IsSound}
use zerogo.Vl1.Manager.Cleaning.{clean_dead-IsSound}
use zerogo.Vl2.Frame.{EthernetFrame, FrameError, parse_ethernet_frame, is_arp, min_frame_size}
use zerogo.Vl2.Arp.{clean_expired_arp, handle_arp, peer_from_arp}
use zerogo.Vl2.Switch.{clean_expired}
use zerogo.Vl2.Switch.Learning.{IsValid, clean_expired-IsValid}
use zerogo.Vl2.Switch.Senders.{handle_local_frame-Keeps}
use zerogo.Agent.{Datagram, peer_at, agent_sender, initiate_handshake}
use zerogo.Agent.Receive.{
  Network, Agent, at_node, set_peer_arp, zero_packet, handle_udp_packet, handle_ice_packet,
}
use zerogo.Agent.Tap.{
  Local, is_bounce, redirect, forward_frame, tun_or_tap, after_arp, tap_parsed, tap_into,
  handle_tap_frame,
}
use zerogo.Agent.Wellformed.{HasSoundPeers, agent_sender-Keeps, initiate_with-IsSound}
use zerogo.Agent.Maintenance.{send_keepalives, resend_hellos, ice_read_failed}
use zerogo.Agent.Wellformed.Rounds.{
  send_keepalives-IsSound, resend_hellos-IsSound, ice_read_failed-IsSound,
}
use zerogo.Agent.Wellformed.Hellos.{IsWellformed, HasValidSwitch, either-IsWellformed}
use zerogo.Agent.Wellformed.Packets.{udp_packet-IsWellformed, ice_packet-IsWellformed}

-- What happens to an agent. The controller's client adds and removes peers.
pub data Event : Type 0 where
  udp_packet_from : Bytes → Bytes → Event
  ice_packet_on : Ref → Bytes → Event
  frame_read : Bytes → Event
  handshake_initiated : Ref → Event
  peer_added : Bytes → Bytes → Option Bytes → Event
  peer_removed : Bytes → Event
  keepalives_due : Event
  hellos_due : Event
  ice_failed : Ref → ℕ → Event
  cleaned : Event

-- `CleanExpired` of the switch and of the ARP proxy.
abbrev cleaned_network : ℕ → Option Network → Option Network
cleaned_network now none = none
cleaned_network now (some net) =
    some (record {
      switch = (clean_expired now net.switch).0;
      arp = (clean_expired_arp now net.arp).0;
    })

module _ (c : Crypto) (fails : List Datagram → Datagram → Bool) (pool : Bytes)
    (gateway : Bytes → Option Bytes) (local : Local) where
  unfoldable pub step : ℕ → Event → Agent → Agent
  step now (udp_packet_from from input) a = handle_udp_packet c fails pool now input from a
  step now (ice_packet_on r input) a = handle_ice_packet c fails pool now input r a
  step now (frame_read input) a = handle_tap_frame c fails pool gateway local now input a
  step now (handshake_initiated r) a = at_node (initiate_handshake c fails pool now r) a
  step now (peer_added addr key endpoint) a =
      at_node (λ node. record node { peers = (add_peer addr key endpoint node.peers).0 }) a
  step now (peer_removed addr) a =
      at_node (λ node. record node { peers = remove_peer addr node.peers }) a
  step now keepalives_due a = at_node (send_keepalives c fails pool now) a
  step now hellos_due a = at_node (resend_hellos c fails pool now) a
  step now (ice_failed r conn) a = at_node (ice_read_failed r conn) a
  step now cleaned a = record a {
    node = record a.node { peers = (clean_dead now a.node.peers).0 };
    network = cleaned_network now a.network;
  }

  -- Events with their times.
  unfoldable pub run : List (ℕ × Event) → Agent → Agent
  run [] a = a
  run ((now, e) ∷ es) a = run es (step now e a)

  forward_frame-IsWellformed :
      (now : ℕ) (input : Bytes) (net : Network) (a : Agent)
      → IsSound a.node.peers
      → IsValid net.switch
      → IsWellformed (forward_frame c fails pool gateway local now input net a)
  unfolding forward_frame
  forward_frame-IsWellformed now input net a s v =
      let (v', s') =
        handle_local_frame-Keeps (HasSoundPeers c fails pool) (agent_sender c fails pool now)
          (agent_sender-Keeps c fails pool now) now input net.switch a.node v s in
      record { sound = s'; valid = v' }

  tun_or_tap-IsWellformed :
      (now : ℕ) (frame : EthernetFrame) (input : Bytes) (net : Network) (a : Agent)
      → IsWellformed a
      → IsValid net.switch
      → IsWellformed (tun_or_tap c fails pool gateway local now frame input net a)
  unfolding tun_or_tap
  tun_or_tap-IsWellformed now frame input net a w v =
      either-IsWellformed a.device.is_tun _ _
        (either-IsWellformed (is_bounce local frame input) _ _ w (
          forward_frame-IsWellformed now (redirect now gateway frame input net.arp) net a w.sound
            v))
        (forward_frame-IsWellformed now input net a w.sound v)

  after_arp-IsWellformed :
      (now : ℕ) (frame : EthernetFrame) (input : Bytes) (net : Network) (reply : Option Bytes)
      (sender : Option (Bytes × Bytes)) (a : Agent)
      → IsWellformed a
      → IsValid net.switch
      → IsWellformed (after_arp c fails pool gateway local now frame input net reply sender a)
  after_arp-IsWellformed now frame input net (some reply) sender a w v = record {
    sound = w.sound;
    valid = w.valid;
  }
  after_arp-IsWellformed now frame input net none none a w v =
      tun_or_tap-IsWellformed now frame input net a w v
  after_arp-IsWellformed now frame input net none (some (ip, mac)) a w v =
      tun_or_tap-IsWellformed now frame input net (set_peer_arp ip mac a)
        (record { sound = w.sound; valid = w.valid }) v

  tap_parsed-IsWellformed :
      (now : ℕ) (input : Bytes) (parsed : Result FrameError EthernetFrame) (net : Network)
      (a : Agent)
      → IsWellformed a
      → IsValid net.switch
      → IsWellformed (tap_parsed c fails pool gateway local now input parsed net a)
  tap_parsed-IsWellformed now input (err e) net a w v = w
  tap_parsed-IsWellformed now input (ok frame) net a w v =
      let (arp, reply) = handle_arp now frame net.arp in
      let net' = record net { arp = arp } in
      either-IsWellformed (is_arp frame) _ _
        (after_arp-IsWellformed now frame input net' reply (peer_from_arp frame)
          (record a { network = some net' }) (record { sound = w.sound; valid = v }) v)
        (tun_or_tap-IsWellformed now frame input net a w v)

  tap_into-IsWellformed :
      (now : ℕ) (input : Bytes) (o : Option Network) (a : Agent)
      → IsWellformed a
      → HasValidSwitch o
      → IsWellformed (tap_into c fails pool gateway local now input o a)
  tap_into-IsWellformed now input none a w v = w
  tap_into-IsWellformed now input (some net) a w v =
      either-IsWellformed (ltb (length input) min_frame_size) _ _ w
        (tap_parsed-IsWellformed now input (parse_ethernet_frame input) net a w v)

  cleaned_network-HasValidSwitch :
      (now : ℕ) (o : Option Network) → HasValidSwitch o → HasValidSwitch (cleaned_network now o)
  cleaned_network-HasValidSwitch now none v = v
  cleaned_network-HasValidSwitch now (some net) v = clean_expired-IsValid now net.switch v

  pub step-IsWellformed :
      (now : ℕ) (e : Event) (a : Agent) → IsWellformed a → IsWellformed (step now e a)
  unfolding step handle_udp_packet handle_ice_packet handle_tap_frame initiate_handshake
  step-IsWellformed now (udp_packet_from from input) a w =
      let (pkt, e) = decode_packet_into zero_packet input in
      udp_packet-IsWellformed c fails pool now pkt from e a w
  step-IsWellformed now (ice_packet_on r input) a w =
      let (pkt, e) = decode_packet_into zero_packet input in
      ice_packet-IsWellformed c fails pool now pkt r e a w
  step-IsWellformed now (frame_read input) a w =
      tap_into-IsWellformed now input a.network a w w.valid
  step-IsWellformed now (handshake_initiated r) a w = record {
    sound = initiate_with-IsSound c fails pool now r (peer_at r a.node) a.node w.sound;
    valid = w.valid;
  }
  step-IsWellformed now (peer_added addr key endpoint) a w = record {
    sound = add_peer-IsSound addr key endpoint a.node.peers w.sound;
    valid = w.valid;
  }
  step-IsWellformed now (peer_removed addr) a w = record {
    sound = remove_peer-IsSound addr a.node.peers w.sound;
    valid = w.valid;
  }
  step-IsWellformed now keepalives_due a w = record {
    sound = send_keepalives-IsSound c fails pool now a.node w.sound;
    valid = w.valid;
  }
  step-IsWellformed now hellos_due a w = record {
    sound = resend_hellos-IsSound c fails pool now a.node w.sound;
    valid = w.valid;
  }
  step-IsWellformed now (ice_failed r conn) a w = record {
    sound = ice_read_failed-IsSound r conn a.node w.sound;
    valid = w.valid;
  }
  step-IsWellformed now cleaned a w = record {
    sound = clean_dead-IsSound now a.node.peers w.sound;
    valid = cleaned_network-HasValidSwitch now a.network w.valid;
  }

  -- Whatever packets, frames and calls reach an agent, in any order and whatever writes fail: a
  -- peer that its endpoint index finds is a known peer with that endpoint, and its switch holds at
  -- most 4096 MAC entries and no two for one address. So it is at every time if it is at the start.
  pub run-IsWellformed :
      (es : List (ℕ × Event)) (a : Agent) → IsWellformed a → IsWellformed (run es a)
  unfolding run
  run-IsWellformed [] a w = w
  run-IsWellformed ((now, e) ∷ es) a w =
      run-IsWellformed es (step now e a) (step-IsWellformed now e a w)
