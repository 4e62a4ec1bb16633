-- ===== src/Agent/Wellformed/Packets.antt =====
-- The packets that come by UDP and by ICE (internal/agent/agent.go, lines 459 to 581 and 737 to
-- 792).
use zerogo.Base.{
  ℕ, ◌≡◌, inl, inr, refl, Bool, not, ◌&&◌, Option, none, some, List, Bytes, length, ltb, take, drop,
  replicate, copy, ◌==◌, Option-cases, Bool-cases, Result, ok, err, arith,
}
use zerogo.Crypto.{Crypto}
use zerogo.Vl1.Packet.{
  Packet, PacketError, packet_type_handshake, packet_type_data, packet_type_keepalive,
}
use zerogo.Vl1.Peer.{Peer, PeerError, touch, decrypt_to_from, is_connected}
use zerogo.Vl1.Manager.{Ref, get_peer_by_endpoint}
use zerogo.Vl1.Manager.Soundness.{IsSound}
use zerogo.Agent.{Datagram, Node, peer_at, change_peer}
use zerogo.Agent.Receive.{
  Agent, at_node, set_peer_arp, deliver_frame, learn_kernel_arp, deliver_decrypted, receive_from,
  receive_data, data_from, handle_data_packet, keepalive_from, udp_packet, ice_hello, ice_packet,
}
use zerogo.Agent.Wellformed.{SamePlace, change_peer-IsSound, connect-IsSound}
use zerogo.Agent.Wellformed.Hellos.{
  IsWellformed, KeepsWellformed, either-IsWellformed, touch-IsSound, handle_handshake-IsSound,
  deliver_into-IsWellformed,
}

module _ (c : Crypto) (fails : List Datagram → Datagram → Bool) (pool : Bytes) where
  pub decrypt_to_from-SamePlace :
      (payload : Bytes) (p : Peer) → SamePlace (decrypt_to_from c pool payload p).0 p
  unfolding decrypt_to_from
  decrypt_to_from-SamePlace payload p = elim (Option-cases (p.cipher)) [
    | inl without ↦ rw (without, decrypt_to_from) (refl, refl)
    | inr (nc, has) ↦ rw (has, decrypt_to_from) (refl, refl)
  ]

  pub deliver_decrypted-IsWellformed :
      (now : ℕ) (addr : Bytes) (before : Bytes → Agent → Agent)
      (result : Result PeerError (Bytes × Bytes)) (a : Agent)
      → ((plaintext : Bytes) → KeepsWellformed c fails pool (before plaintext))
      → IsWellformed a
      → IsWellformed (deliver_decrypted c fails pool now addr before result a)
  unfolding deliver_frame
  deliver_decrypted-IsWellformed now addr before (err e) a k w = w
  deliver_decrypted-IsWellformed now addr before (ok (plaintext, rest)) a k w =
      deliver_into-IsWellformed c fails pool now addr plaintext (before plaintext) a.network a
        (k plaintext) w w.valid

  pub receive_from-IsWellformed :
      (now : ℕ) (r : Ref) (payload : Bytes) (before : Bytes → Agent → Agent) (o : Option Peer)
      (a : Agent)
      → peer_at r a.node ≡ o
      → ((plaintext : Bytes) → KeepsWellformed c fails pool (before plaintext))
      → IsWellformed a
      → IsWellformed (receive_from c fails pool now r payload before o a)
  receive_from-IsWellformed now r payload before none a at k w = w
  receive_from-IsWellformed now r payload before (some p) a at k w =
      let (p', result) = decrypt_to_from c pool payload p in
      deliver_decrypted-IsWellformed now p'.address before result
        (at_node (change_peer r (λ _. p')) a) k
        (record {
          sound =
              change_peer-IsSound r (λ _. p') a.node
                (λ q at'. ground (arith, decrypt_to_from-SamePlace payload p)) w.sound;
          valid = w.valid;
        })

  pub receive_data-IsWellformed :
      (now : ℕ) (r : Ref) (payload : Bytes) (before : Bytes → Agent → Agent) (a : Agent)
      → ((plaintext : Bytes) → KeepsWellformed c fails pool (before plaintext))
      → IsWellformed a
      → IsWellformed (receive_data c fails pool now r payload before a)
  unfolding receive_data
  receive_data-IsWellformed now r payload before a k w =
      receive_from-IsWellformed now r payload before (peer_at r a.node) a refl k w

  pub touched-IsWellformed :
      (now : ℕ) (r : Ref) (a : Agent)
      → IsWellformed a
      → IsWellformed (at_node (change_peer r (touch now)) a)
  touched-IsWellformed now r a w = record {
    sound = touch-IsSound now r a.node w.sound;
    valid = w.valid;
  }

  pub learn_kernel_arp-IsWellformed :
      (plaintext : Bytes) → KeepsWellformed c fails pool (learn_kernel_arp c fails pool plaintext)
  learn_kernel_arp-IsWellformed plaintext a w =
      either-IsWellformed (ltb (length plaintext) 34) a
        (set_peer_arp (take 4 (drop 26 plaintext)) (take 6 (drop 6 plaintext)) a) w
        (record { sound = w.sound; valid = w.valid })

  pub data_from-IsWellformed :
      (now : ℕ) (pkt : Packet) (o : Option Ref) (a : Agent)
      → IsWellformed a
      → IsWellformed (data_from c fails pool now pkt o a)
  data_from-IsWellformed now pkt none a w = w
  data_from-IsWellformed now pkt (some r) a w =
      receive_data-IsWellformed now r pkt.payload (learn_kernel_arp c fails pool)
        (at_node (change_peer r (touch now)) a) learn_kernel_arp-IsWellformed
        (touched-IsWellformed now r a w)

  pub keepalive_from-IsWellformed :
      (now : ℕ) (o : Option Ref) (a : Agent)
      → IsWellformed a
      → IsWellformed (at_node (keepalive_from c fails pool now o) a)
  keepalive_from-IsWellformed now none a w = w
  keepalive_from-IsWellformed now (some r) a w = touched-IsWellformed now r a w

  pub udp_packet-IsWellformed :
      (now : ℕ) (pkt : Packet) (from : Bytes) (e : Option PacketError) (a : Agent)
      → IsWellformed a
      → IsWellformed (udp_packet c fails pool now pkt from e a)
  unfolding handle_data_packet
  udp_packet-IsWellformed now pkt from (some e) a w = w
  udp_packet-IsWellformed now pkt from none a w =
      either-IsWellformed (pkt.header.packet_type == packet_type_handshake) _ _
        (record {
          sound = handle_handshake-IsSound c fails pool now pkt.payload from a.node w.sound;
          valid = w.valid;
        })
        (either-IsWellformed (pkt.header.packet_type == packet_type_data) _ _
          (data_from-IsWellformed now pkt (get_peer_by_endpoint from a.node.peers) a w)
          (either-IsWellformed (pkt.header.packet_type == packet_type_keepalive) _ _
            (keepalive_from-IsWellformed now (get_peer_by_endpoint from a.node.peers) a w) w))

  pub ice_hello-IsSound :
      (now : ℕ) (payload : Bytes) (r : Ref) (o : Option Peer) (node : Node)
      → IsSound node.peers
      → IsSound (ice_hello c fails pool now payload r o node).peers
  ice_hello-IsSound now payload r none node s = s
  ice_hello-IsSound now payload r (some p) node s =
      elim (Bool-cases (not (ltb (length payload) 32) && not (is_connected p))) [
        | inl due ↦
            rw due
              (connect-IsSound c fails pool now r (copy (take 32 payload) (replicate 32 0)) node s)
        | inr not_due ↦ rw not_due s
      ]

  pub ice_packet-IsWellformed :
      (now : ℕ) (pkt : Packet) (r : Ref) (e : Option PacketError) (a : Agent)
      → IsWellformed a
      → IsWellformed (ice_packet c fails pool now pkt r e a)
  ice_packet-IsWellformed now pkt r (some e) a w = w
  ice_packet-IsWellformed now pkt r none a w =
      let touched = at_node (change_peer r (touch now)) a in
      let w' = touched-IsWellformed now r a w in
      either-IsWellformed (pkt.header.packet_type == packet_type_handshake) _ _
        (record {
          sound =
              ice_hello-IsSound now pkt.payload r (peer_at r touched.node) touched.node w'.sound;
          valid = w'.valid;
        })
        (either-IsWellformed (pkt.header.packet_type == packet_type_data) _ _
          (receive_data-IsWellformed now r pkt.payload (λ _ a'. a') touched (λ _ _ x. x) w') w')
