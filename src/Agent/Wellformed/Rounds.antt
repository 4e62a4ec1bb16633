-- ===== src/Agent/Wellformed/Rounds.antt =====
-- The index of endpoints over the rounds of the agent's maintenance (internal/agent/agent.go, lines
-- 634 to 657 and 716 to 728).
use zerogo.Base.{
  ℕ, refl, Bool, not, ◌&&◌, Option, none, some, List, [], ◌∷◌, Bytes, ◌==◌, inl, inr, Bool-cases,
  Option-cases,
}
use zerogo.Crypto.{Crypto}
use zerogo.Vl1.Peer.{Peer, is_connected, needs_keepalive, has_ice, close_ice}
use zerogo.Vl1.Manager.{Ref, connected_peers, all_peers}
use zerogo.Vl1.Manager.Soundness.{IsSound}
use zerogo.Agent.{Datagram, Node, peer_at, sent_at, post}
use zerogo.Agent.Maintenance.{
  keepalive_datagram, close_if, keepalive_to, keepalive_each, send_keepalives, hello_to, hello_each,
  resend_hellos, ice_read_failed,
}
use zerogo.Agent.Wellformed.{SamePlace, change_peer-IsSound, send_hello-IsSound}

close_if-SamePlace : (conn : ℕ) (p : Peer) → SamePlace (close_if conn p) p
unfolding close_ice
close_if-SamePlace conn p = elim (Option-cases (p.ice_conn)) [
  | inl none_open ↦ rw (none_open, close_if) (refl, refl)
  | inr (current, open_one) ↦ elim (Bool-cases (current == conn)) [
    | inl own ↦ rw (open_one, close_if, own) (refl, refl)
    | inr other ↦ rw (open_one, close_if, other) (refl, refl)
  ]
]

pub ice_read_failed-IsSound :
    (r : Ref) (conn : ℕ) (node : Node)
    → IsSound node.peers
    → IsSound (ice_read_failed r conn node).peers
unfolding ice_read_failed
ice_read_failed-IsSound r conn node s =
    change_peer-IsSound r (close_if conn) node (λ p at. close_if-SamePlace conn p) s

module _ (c : Crypto) (fails : List Datagram → Datagram → Bool) (pool : Bytes) where
  post-IsSound :
      (o : Option Datagram) (node : Node)
      → IsSound node.peers
      → IsSound (post c fails pool o node).peers
  post-IsSound none node s = s
  post-IsSound (some d) node s = s

  keepalive_to-IsSound :
      (now : ℕ) (r : Ref) (o : Option Peer) (node : Node)
      → IsSound node.peers
      → IsSound (keepalive_to c fails pool now r o node).peers
  keepalive_to-IsSound now r none node s = s
  keepalive_to-IsSound now r (some p) node s = elim (Bool-cases (needs_keepalive now p)) [
    | inl due ↦ rw due (
        change_peer-IsSound r (sent_at now) (post c fails pool (keepalive_datagram p) node)
          (λ _ _. (refl, refl)) (post-IsSound (keepalive_datagram p) node s))
    | inr early ↦ rw early s
  ]

  keepalive_each-IsSound :
      (now : ℕ) (rs : List Ref) (node : Node)
      → IsSound node.peers
      → IsSound (keepalive_each c fails pool now rs node).peers
  unfolding keepalive_each
  keepalive_each-IsSound now [] node s = s
  keepalive_each-IsSound now (r ∷ rs) node s =
      keepalive_each-IsSound now rs (keepalive_to c fails pool now r (peer_at r node) node)
        (keepalive_to-IsSound now r (peer_at r node) node s)

  pub send_keepalives-IsSound :
      (now : ℕ) (node : Node)
      → IsSound node.peers
      → IsSound (send_keepalives c fails pool now node).peers
  unfolding send_keepalives
  send_keepalives-IsSound now node s =
      keepalive_each-IsSound now (connected_peers node.peers) node s

  hello_to-IsSound :
      (now : ℕ) (r : Ref) (o : Option Peer) (node : Node)
      → IsSound node.peers
      → IsSound (hello_to c fails pool now r o node).peers
  hello_to-IsSound now r none node s = s
  hello_to-IsSound now r (some p) node s =
      elim (Bool-cases (not (is_connected p) && not (has_ice p))) [
        | inl due ↦ rw due (send_hello-IsSound c fails pool now r node s)
        | inr not_due ↦ rw not_due s
      ]

  hello_each-IsSound :
      (now : ℕ) (rs : List Ref) (node : Node)
      → IsSound node.peers
      → IsSound (hello_each c fails pool now rs node).peers
  unfolding hello_each
  hello_each-IsSound now [] node s = s
  hello_each-IsSound now (r ∷ rs) node s =
      hello_each-IsSound now rs (hello_to c fails pool now r (peer_at r node) node)
        (hello_to-IsSound now r (peer_at r node) node s)

  pub resend_hellos-IsSound :
      (now : ℕ) (node : Node)
      → IsSound node.peers
      → IsSound (resend_hellos c fails pool now node).peers
  unfolding resend_hellos
  resend_hellos-IsSound now node s = hello_each-IsSound now (all_peers node.peers) node s
