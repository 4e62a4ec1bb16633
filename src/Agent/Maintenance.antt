-- ===== src/Agent/Maintenance.antt =====
-- internal/agent/agent.go, lines 634 to 657 and 716 to 728: the keepalives and the hellos of a
-- round of the maintenance loop, and the end of a connection that cannot be read.
use zerogo.Base.{ℕ, Bool, not, ◌&&◌, Option, none, some, List, [], ◌∷◌, Bytes, ◌==◌, if◌then◌else◌}
use zerogo.Crypto.{Crypto}
use zerogo.Vl1.Packet.{encode_packet, new_keepalive_packet}
use zerogo.Vl1.Peer.{Peer, is_connected, needs_keepalive, has_ice, close_ice}
use zerogo.Vl1.Manager.{Ref, connected_peers, all_peers}
use zerogo.Agent.{Datagram, Node, peer_at, change_peer, path_to, sent_at, post, send_hello}

abbrev pub keepalive_datagram : Peer → Option Datagram
keepalive_datagram p = elim (encode_packet new_keepalive_packet) [
  | none ↦ none
  | some packet ↦ path_to p packet
]

-- The connection that a read loop reads: closed only if it is still the peer's own.
abbrev pub close_if : ℕ → Peer → Peer
close_if conn p = elim (p.ice_conn) [
  | none ↦ p
  | some current ↦ if current == conn then (close_ice p).0 else p
]

module _ (c : Crypto) (fails : List Datagram → Datagram → Bool) (pool : Bytes) where
  -- `LastSend` is set whether or not there was a way to send.
  abbrev pub keepalive_to : ℕ → Ref → Option Peer → Node → Node
  keepalive_to now r none node = node
  keepalive_to now r (some p) node =
      if needs_keepalive now p
      then change_peer r (sent_at now) (post c fails pool (keepalive_datagram p) node)
      else node

  unfoldable pub keepalive_each : ℕ → List Ref → Node → Node
  keepalive_each now [] node = node
  keepalive_each now (r ∷ rs) node =
      keepalive_each now rs (keepalive_to now r (peer_at r node) node)

  unfoldable pub send_keepalives : ℕ → Node → Node
  send_keepalives now node = keepalive_each now (connected_peers node.peers) node

  abbrev pub hello_to : ℕ → Ref → Option Peer → Node → Node
  hello_to now r none node = node
  hello_to now r (some p) node =
      if not (is_connected p) && not (has_ice p) then send_hello c fails pool now r node else node

  unfoldable pub hello_each : ℕ → List Ref → Node → Node
  hello_each now [] node = node
  hello_each now (r ∷ rs) node = hello_each now rs (hello_to now r (peer_at r node) node)

  unfoldable pub resend_hellos : ℕ → Node → Node
  resend_hellos now node = hello_each now (all_peers node.peers) node

unfoldable pub ice_read_failed : Ref → ℕ → Node → Node
ice_read_failed r conn node = change_peer r (close_if conn) node
