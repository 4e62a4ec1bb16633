-- ===== src/Agent/Start/Stopped.antt =====
-- What `Stop` leaves of the peers' connections (internal/agent/agent.go, lines 234 to 266).
use zerogo.Base.{
  ◌≡◌, inl, inr, refl, true, false, some, List, [], ◌∷◌, Bytes, Table, get, get_elem?-modify,
  bytes_eq, ◌==◌, if◌then◌else◌, arith, Bool-cases,
}
use zerogo.Vl1.Peer.{Peer, has_ice, close_ice}
use zerogo.Vl1.Manager.{Ref, PeerManager, get_peer, peer_is, refs_where, all_peers}
use zerogo.Vl1.Manager.Soundness.{IsSound}
use zerogo.Agent.{Node, peer_at, change_peer}
use zerogo.Agent.Hello.{change_peer-get}
use zerogo.Agent.Start.{close_each, stop}

-- The peer of a pointer is there and has no connection.
abbrev IsClosed : Ref → Node → Type 0
IsClosed r node = (p : Peer) × (peer_at r node ≡ some p) × (has_ice p ≡ false)

abbrev closed_one : Ref → Node → Node
closed_one r node =
    if peer_is has_ice r node.peers then change_peer r (λ p. (close_ice p).0) node else node

closed_one-there :
    (r q : Ref) (node : Node) (p : Peer)
    → peer_at q node ≡ some p
    → (p' : Peer) × (peer_at q (closed_one r node) ≡ some p')
closed_one-there r q node p at = elim (Bool-cases (peer_is has_ice r node.peers)) [
  | inl open_one ↦ rw open_one (
    (if r == q then (close_ice p).0 else p),
    ground (arith, get_elem?-modify r (λ p. (close_ice p).0) node.peers.heap q),
  )
  | inr closed ↦ rw closed (p, at)
]

closed_one-IsClosed :
    (r : Ref) (node : Node) (p : Peer) → peer_at r node ≡ some p → IsClosed r (closed_one r node)
unfolding has_ice close_ice
closed_one-IsClosed r node p at = elim (Bool-cases (has_ice p)) [
  | inl open_one ↦
      let found : peer_is has_ice r node.peers ≡ true = rw (at, peer_is) open_one in
      rw found ((close_ice p).0, change_peer-get r (λ p. (close_ice p).0) node p at, refl)
  | inr shut ↦
      let found : peer_is has_ice r node.peers ≡ false = rw (at, peer_is) shut in
      rw found (p, at, shut)
]

closed_one-keeps : (r q : Ref) (node : Node) → IsClosed q node → IsClosed q (closed_one r node)
unfolding has_ice close_ice
closed_one-keeps r q node (p, at, shut) = elim (Bool-cases (peer_is has_ice r node.peers)) [
  | inl open_one ↦ rw open_one (
    (if r == q then (close_ice p).0 else p),
    ground (arith, get_elem?-modify r (λ p. (close_ice p).0) node.peers.heap q),
    ground (arith, shut),
  )
  | inr closed ↦ rw closed (p, at, shut)
]

close_each-keeps :
    (rs : List Ref) (q : Ref) (node : Node) → IsClosed q node → IsClosed q (close_each rs node)
unfolding close_each
close_each-keeps [] q node h = h
close_each-keeps (r ∷ rs) q node h =
    close_each-keeps rs q (closed_one r node) (closed_one-keeps r q node h)

-- The peer of an entry is closed by the loop over all entries.
close_each-IsClosed :
    (pm : PeerManager) (m : Table Ref) (addr : Bytes) (r : Ref) (node : Node) (p : Peer)
    → get addr m ≡ some r
    → peer_is (λ _. true) r pm ≡ true
    → peer_at r node ≡ some p
    → IsClosed r (close_each (refs_where (λ _. true) pm m) node)
unfolding close_each refs_where get
close_each-IsClosed pm [] addr r node p found there at = absurd cc
close_each-IsClosed pm ((k, q) ∷ m) addr r node p found there at =
    let rest = refs_where (λ _. true) pm m in
    elim (Bool-cases (bytes_eq k addr)) [
      | inl own ↦
          let same : q ≡ r = ground arith in
          rw (same, there)
            (close_each-keeps rest r (closed_one r node) (closed_one-IsClosed r node p at))
      | inr other ↦
          let later : get addr m ≡ some r = ground arith in
          elim (Bool-cases (peer_is (λ _. true) q pm)) [
            | inl listed ↦
                let (p', at') = closed_one-there q r node p at in
                rw listed (close_each-IsClosed pm m addr r (closed_one q node) p' later there at')
            | inr not_listed ↦ rw not_listed (close_each-IsClosed pm m addr r node p later there at)
          ]
    ]

-- After `Stop` no known peer has a connection. The index of endpoints is right before.
pub stop_closes :
    (addr : Bytes) (r : Ref) (node : Node)
    → IsSound node.peers
    → get_peer addr node.peers ≡ some r
    → (p : Peer) × (peer_at r (stop node) ≡ some p) × (has_ice p ≡ false)
unfolding stop get_peer all_peers
stop_closes addr r node s known =
    let (p, at, named) = s.registered addr r known in
    close_each-IsClosed node.peers node.peers.peers addr r node p known (rw (at, peer_is) refl) at
