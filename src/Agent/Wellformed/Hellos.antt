-- ===== src/Agent/Wellformed/Hellos.antt =====
-- Hellos, the injection of a frame and its way through the switch (internal/agent/agent.go, lines
-- 303 to 328, 485 to 527 and 552 to 581).
use zerogo.Base.{
  ℕ, inl, inr, refl, Bool, true, false, Option, none, some, List, Bytes, length, ltb, take,
  replicate, copy, if◌then◌else◌, Bool-cases, Result, ok, err,
}
use zerogo.Crypto.{Crypto}
use zerogo.Identity.{address_from_public_key}
use zerogo.Vl1.Peer.{Peer, touch, is_connected}
use zerogo.Vl1.Manager.{Ref, add_peer, update_peer_endpoint, get_peer}
use zerogo.Vl1.Manager.Soundness.{IsSound, add_peer-IsSound, update_peer_endpoint-IsSound}
use zerogo.Vl2.Frame.{EthernetFrame, FrameError, parse_ethernet_frame, is_arp}
use zerogo.Vl2.Arp.{handle_arp}
use zerogo.Vl2.Switch.{SwitchError, handle_remote_frame}
use zerogo.Vl2.Switch.Learning.{IsValid}
use zerogo.Vl2.Switch.Senders.{handle_local_frame-Keeps, handle_remote_frame-Keeps}
use zerogo.Agent.{Datagram, Node, change_peer, connect, agent_sender}
use zerogo.Agent.Receive.{
  Network, Agent, write_device, set_keepalive, connect_if_down, known_hello, new_hello, hello_of,
  handle_handshake, answer_arp, inject_tun, inject_into, inject_frame, follow, deliver_into,
}
use zerogo.Agent.Wellformed.{
  SamePlace, HasSoundPeers, agent_sender-Keeps, change_peer-IsSound, connect-IsSound,
  send_hello-IsSound,
}

abbrev pub HasValidSwitch : Option Network → Type 0
HasValidSwitch none = Unit
HasValidSwitch (some net) = IsValid net.switch

-- The index of endpoints is right, and the switch's table is a map of at most 4096 entries.
pub record IsWellformed (a : Agent) : Type 0 where
  pub sound : IsSound a.node.peers
  pub valid : HasValidSwitch a.network

pub either-IsWellformed :
    (b : Bool) (x y : Agent) → IsWellformed x → IsWellformed y → IsWellformed (if b then x else y)
either-IsWellformed true x y wx wy = wx
either-IsWellformed false x y wx wy = wy

pub touch-IsSound :
    (now : ℕ) (r : Ref) (node : Node)
    → IsSound node.peers
    → IsSound (change_peer r (touch now) node).peers
unfolding touch
touch-IsSound now r node s = change_peer-IsSound r (touch now) node (λ p at. (refl, refl)) s

module _ (c : Crypto) (fails : List Datagram → Datagram → Bool) (pool : Bytes) where
  pub connect_if_down-IsSound :
      (now : ℕ) (key : Bytes) (r : Ref) (o : Option Peer) (node : Node)
      → IsSound node.peers
      → IsSound (connect_if_down c fails pool now key r o node).peers
  connect_if_down-IsSound now key r none node s = s
  connect_if_down-IsSound now key r (some p) node s = elim (Bool-cases (is_connected p)) [
    | inl up ↦ rw up s
    | inr down ↦ rw down (connect-IsSound c fails pool now r key node s)
  ]

  pub known_hello-IsSound :
      (now : ℕ) (key addr from : Bytes) (r : Ref) (node : Node)
      → IsSound node.peers
      → IsSound (known_hello c fails pool now key addr from r node).peers
  unfolding known_hello
  known_hello-IsSound now key addr from r node s =
      let moved = record node { peers = update_peer_endpoint addr (some from) node.peers } in
      connect_if_down-IsSound now key r _ (change_peer r (touch now) moved)
        (touch-IsSound now r moved (update_peer_endpoint-IsSound addr (some from) node.peers s))

  pub keepalive-SamePlace : (gaming : Bool) (p : Peer) → SamePlace (set_keepalive gaming p) p
  keepalive-SamePlace true p = (refl, refl)
  keepalive-SamePlace false p = (refl, refl)

  pub new_hello-IsSound :
      (now : ℕ) (key addr from : Bytes) (node : Node)
      → IsSound node.peers
      → IsSound (new_hello c fails pool now key addr from node).peers
  unfolding new_hello
  new_hello-IsSound now key addr from node s =
      let (peers, r) = add_peer addr key (some from) node.peers in
      let added = record node { peers = peers } in
      let kept = change_peer r (set_keepalive node.gaming) added in
      send_hello-IsSound c fails pool now r (connect c fails pool now r key kept) (
        connect-IsSound c fails pool now r key kept (
          change_peer-IsSound r (set_keepalive node.gaming) added
            (λ p at. keepalive-SamePlace node.gaming p)
            (add_peer-IsSound addr key (some from) node.peers s)))

  pub hello_of-IsSound :
      (now : ℕ) (key addr from : Bytes) (o : Option Ref) (node : Node)
      → IsSound node.peers
      → IsSound (hello_of c fails pool now key addr from o node).peers
  hello_of-IsSound now key addr from none node s = new_hello-IsSound now key addr from node s
  hello_of-IsSound now key addr from (some r) node s =
      known_hello-IsSound now key addr from r node s

  pub handle_handshake-IsSound :
      (now : ℕ) (payload from : Bytes) (node : Node)
      → IsSound node.peers
      → IsSound (handle_handshake c fails pool now payload from node).peers
  unfolding handle_handshake
  handle_handshake-IsSound now payload from node s = elim (Bool-cases (ltb (length payload) 32)) [
    | inl short ↦ rw short s
    | inr long ↦
        let key = copy (take 32 payload) (replicate 32 0) in
        let addr = address_from_public_key c key in
        rw long (hello_of-IsSound now key addr from (get_peer addr node.peers) node s)
  ]

  pub answer_arp-IsWellformed :
      (now : ℕ) (reply : Option Bytes) (net : Network) (a : Agent)
      → IsSound a.node.peers
      → IsValid net.switch
      → IsWellformed (answer_arp c fails pool now reply net a)
  answer_arp-IsWellformed now none net a s v = record { sound = s; valid = v }
  answer_arp-IsWellformed now (some reply) net a s v =
      let (v', s') =
        handle_local_frame-Keeps (HasSoundPeers c fails pool) (agent_sender c fails pool now)
          (agent_sender-Keeps c fails pool now) now reply net.switch a.node v s in
      record { sound = s'; valid = v' }

  pub inject_tun-IsWellformed :
      (now : ℕ) (frame : Bytes) (parsed : Result FrameError EthernetFrame) (net : Network)
      (a : Agent)
      → IsWellformed a
      → IsValid net.switch
      → IsWellformed (inject_tun c fails pool now frame parsed net a)
  inject_tun-IsWellformed now frame (err e) net a w v = record { sound = w.sound; valid = w.valid }
  inject_tun-IsWellformed now frame (ok parsed) net a w v = elim (Bool-cases (is_arp parsed)) [
    | inl arp ↦ rw arp (
        answer_arp-IsWellformed now (handle_arp now parsed net.arp).1
          (record net { arp = (handle_arp now parsed net.arp).0 }) a w.sound v)
    | inr other ↦ rw other (record { sound = w.sound; valid = w.valid })
  ]

  pub inject_into-IsWellformed :
      (now : ℕ) (frame : Bytes) (o : Option Network) (a : Agent)
      → IsWellformed a
      → HasValidSwitch o
      → IsWellformed (inject_into c fails pool now frame o a)
  inject_into-IsWellformed now frame none a w v = w
  inject_into-IsWellformed now frame (some net) a w v =
      either-IsWellformed a.device.is_tun
        (inject_tun c fails pool now frame (parse_ethernet_frame frame) net a)
        (write_device frame a)
        (inject_tun-IsWellformed now frame (parse_ethernet_frame frame) net a w v)
        (record { sound = w.sound; valid = w.valid })

  pub inject_frame-IsWellformed :
      (now : ℕ) (frame : Bytes) (a : Agent)
      → IsWellformed a
      → IsWellformed (inject_frame c fails pool now frame a)
  unfolding inject_frame
  inject_frame-IsWellformed now frame a w = inject_into-IsWellformed now frame a.network a w w.valid

  abbrev pub KeepsWellformed : (Agent → Agent) → Type 0
  KeepsWellformed f = (a : Agent) → IsWellformed a → IsWellformed (f a)

  pub follow-IsWellformed :
      (now : ℕ) (before : Agent → Agent) (e : Option SwitchError) (inject : Option Bytes)
      (a : Agent)
      → KeepsWellformed before
      → IsWellformed a
      → IsWellformed (follow c fails pool now before e inject a)
  follow-IsWellformed now before (some e) inject a k w = w
  follow-IsWellformed now before none none a k w = k a w
  follow-IsWellformed now before none (some frame) a k w =
      inject_frame-IsWellformed now frame (before a) (k a w)

  pub deliver_into-IsWellformed :
      (now : ℕ) (addr plaintext : Bytes) (before : Agent → Agent) (o : Option Network) (a : Agent)
      → KeepsWellformed before
      → IsWellformed a
      → HasValidSwitch o
      → IsWellformed (deliver_into c fails pool now addr plaintext before o a)
  deliver_into-IsWellformed now addr plaintext before none a k w v = w
  deliver_into-IsWellformed now addr plaintext before (some net) a k w v =
      let (sw, node, inject, e) =
        handle_remote_frame (agent_sender c fails pool now) now addr plaintext net.switch a.node in
      let (v', s') =
        handle_remote_frame-Keeps (HasSoundPeers c fails pool) (agent_sender c fails pool now)
          (agent_sender-Keeps c fails pool now) now addr plaintext net.switch a.node v w.sound in
      follow-IsWellformed now before e inject
        (record a { node = node; network = some (record net { switch = sw }) }) k
        (record { sound = s'; valid = v' })
