-- ===== src/Vl1/Manager.antt =====
-- internal/vl1/peer.go, lines 255 to 397: the known peers. A `*Peer` is a place in the heap of all
-- peers that were ever made, so that the map of peers and the index of endpoints can point to one
-- and the same peer. The manager's lock makes each method one step.
pub mod Soundness
pub mod Lookup
pub mod Cleaning
mod Tests
use zerogo.Base.{
  ℕ, suc, Bool, true, false, not, ◌&&◌, Option, none, some, List, [], ◌∷◌, ◌++◌, Bytes, Table, get,
  insert, delete, length, get_elem?, modify, if◌then◌else◌, Result, ok, err,
}
use zerogo.Identity.{address_from_hex}
use zerogo.Vl1.Peer.{Peer, new_peer, is_connected, is_alive, is_state_dead}

-- A pointer to a peer.
abbrev pub Ref : Type 0
Ref = ℕ

pub record PeerManager : Type 0 where
  pub heap : List Peer
  pub peers : Table Ref
  pub endpoint_idx : Table Ref

abbrev pub new_peer_manager : PeerManager
new_peer_manager = record { heap = []; peers = []; endpoint_idx = [] }

-- `p.Endpoint` of a pointer.
abbrev pub endpoint_of : Ref → PeerManager → Option Bytes
endpoint_of r pm = elim (get_elem? pm.heap r) [ none ↦ none | some p ↦ p.endpoint ]

-- `delete(pm.endpointIdx, p.Endpoint.String())`, if there is an endpoint.
abbrev pub unindex : Option Bytes → Table Ref → Table Ref
unindex none idx = idx
unindex (some e) idx = delete e idx

-- `pm.endpointIdx[endpoint.String()] = p`, if there is an endpoint.
abbrev pub index : Option Bytes → Ref → Table Ref → Table Ref
index none r idx = idx
index (some e) r idx = insert e r idx

abbrev pub with_endpoint : Option Bytes → Peer → Peer
with_endpoint new p = record p { endpoint = new }

-- The change of a peer's endpoint, which `AddPeer` and `UpdatePeerEndpoint` share.
unfoldable pub move : Ref → Option Bytes → PeerManager → PeerManager
move r new pm = record pm {
  heap = modify r (with_endpoint new) pm.heap;
  endpoint_idx = index new r (unindex (endpoint_of r pm) pm.endpoint_idx);
}

-- `AddPeer`: the pointer that it returns, and the manager.
unfoldable pub add_peer : Bytes → Bytes → Option Bytes → PeerManager → PeerManager × Ref
add_peer addr pub_key endpoint pm = elim (get addr pm.peers) [
  | some r ↦ elim endpoint [ none ↦ (pm, r) | some e ↦ (move r (some e) pm, r) ]
  | none ↦
      let r = length pm.heap in
      (
        record {
          heap = pm.heap ++ new_peer addr pub_key endpoint ∷ [];
          peers = insert addr r pm.peers;
          endpoint_idx = index endpoint r pm.endpoint_idx;
        },
        r,
      )
]

-- `GetPeer`, `GetPeerByEndpoint` and `GetPeerByNodeAddr`.
unfoldable pub get_peer : Bytes → PeerManager → Option Ref
get_peer addr pm = get addr pm.peers

unfoldable pub get_peer_by_endpoint : Bytes → PeerManager → Option Ref
get_peer_by_endpoint endpoint pm = get endpoint pm.endpoint_idx

unfoldable pub get_peer_by_node_addr : Bytes → PeerManager → Option Ref
get_peer_by_node_addr node_addr pm = elim (address_from_hex node_addr) [
  | err _ ↦ none
  | ok addr ↦ get_peer addr pm
]

-- `UpdatePeerEndpoint`.
unfoldable pub update_peer_endpoint : Bytes → Option Bytes → PeerManager → PeerManager
update_peer_endpoint addr new pm = elim (get addr pm.peers) [ none ↦ pm | some r ↦ move r new pm ]

-- The removal of an entry, which `RemovePeer` and `CleanDead` share.
unfoldable pub drop_peer : Bytes → Ref → PeerManager → PeerManager
drop_peer addr r pm = record pm {
  peers = delete addr pm.peers;
  endpoint_idx = unindex (endpoint_of r pm) pm.endpoint_idx;
}

-- `RemovePeer`.
unfoldable pub remove_peer : Bytes → PeerManager → PeerManager
remove_peer addr pm = elim (get addr pm.peers) [ none ↦ pm | some r ↦ drop_peer addr r pm ]

-- Whether a pointer's peer passes a test.
abbrev pub peer_is : (Peer → Bool) → Ref → PeerManager → Bool
peer_is test r pm = elim (get_elem? pm.heap r) [ none ↦ false | some p ↦ test p ]

unfoldable pub refs_where : (Peer → Bool) → PeerManager → Table Ref → List Ref
refs_where test pm [] = []
refs_where test pm ((_, r) ∷ entries) =
    let rest = refs_where test pm entries in if peer_is test r pm then r ∷ rest else rest

-- `ConnectedPeers` and `AllPeers`.
unfoldable pub connected_peers : PeerManager → List Ref
connected_peers pm = refs_where is_connected pm pm.peers

unfoldable pub all_peers : PeerManager → List Ref
all_peers pm = refs_where (λ _. true) pm pm.peers

-- The test of `CleanDead`.
abbrev pub is_dead : ℕ → Peer → Bool
is_dead now p = not (is_alive now p) && is_state_dead p.state

-- The loop of `CleanDead` over the entries: the manager, and the number of peers removed.
unfoldable pub clean_entries : ℕ → Table Ref → PeerManager → PeerManager × ℕ
clean_entries now [] pm = (pm, 0)
clean_entries now ((addr, r) ∷ entries) pm =
    let dead = peer_is (is_dead now) r pm in
    let (pm', removed) = clean_entries now entries (if dead then drop_peer addr r pm else pm) in
    (pm', if dead then suc removed else removed)

-- `CleanDead`.
unfoldable pub clean_dead : ℕ → PeerManager → PeerManager × ℕ
clean_dead now pm = clean_entries now pm.peers pm
