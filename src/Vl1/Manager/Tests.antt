-- ===== src/Vl1/Manager/Tests.antt =====
-- Inputs on which the theorems about the known peers are used.
use zerogo.Base.{
  ◌+◌, ◌≡◌, ◌≢◌, bytes_eq, refl, ap, some, none, [], ◌∷◌, Bytes, get, insert, get_or, get_elem?,
  length, replicate, arith,
}
use zerogo.Vl1.Peer.{Peer, new_peer}
use zerogo.Vl1.Manager.{
  PeerManager, new_peer_manager, add_peer, remove_peer, clean_dead, get_peer, get_peer_by_endpoint,
}
use zerogo.Vl1.Manager.Soundness.{IsSound, new_peer_manager-IsSound, add_peer-IsSound}
use zerogo.Vl1.Manager.Cleaning.{survivor, clean_dead_lem}
use zerogo.Vl1.Manager.Lookup.{add, calls, call, shared_endpoint_lost, get_peer_by_endpoint_sound}

abbrev addr_a : Bytes
addr_a = 1 ∷ 2 ∷ 3 ∷ 4 ∷ 5 ∷ []

abbrev addr_b : Bytes
addr_b = 1 ∷ 2 ∷ 3 ∷ 4 ∷ 6 ∷ []

abbrev key : Bytes
key = replicate 32 7

-- "e".
abbrev endpoint : Bytes
endpoint = 101 ∷ []

abbrev added : PeerManager
added = (add_peer addr_a key (some endpoint) new_peer_manager).0

added-IsSound : IsSound added
added-IsSound =
    add_peer-IsSound addr_a key (some endpoint) new_peer_manager new_peer_manager-IsSound

found :
    get_peer_by_endpoint endpoint (calls (add addr_a key (some endpoint) ∷ []) new_peer_manager)
    ≡ some 0
unfolding calls call add_peer get_peer_by_endpoint get insert bytes_eq
found = refl

get_peer_by_endpoint_sound_example :
    let pm = calls (add addr_a key (some endpoint) ∷ []) new_peer_manager in
    (p : Peer) × (get_elem? pm.heap 0 ≡ some p)
    × (p.endpoint ≡ some endpoint)
    × (get_peer p.address pm ≡ some 0)
get_peer_by_endpoint_sound_example =
    get_peer_by_endpoint_sound (add addr_a key (some endpoint) ∷ []) endpoint 0 found

clean_dead_lem_example :
    let (pm', removed) = clean_dead 5 added in
    (pm'.heap ≡ added.heap)
    × (removed + length pm'.peers ≡ length added.peers)
    × ((a : Bytes) → get a pm'.peers ≡ survivor 5 added (get a added.peers))
clean_dead_lem_example = clean_dead_lem 5 added added-IsSound

abbrev both : PeerManager
both = record {
  heap = new_peer addr_a key (some endpoint) ∷ new_peer addr_b key (some endpoint) ∷ [];
  peers = (addr_a, 0) ∷ (addr_b, 1) ∷ [];
  endpoint_idx = (endpoint, 1) ∷ [];
}

both-a : get_peer addr_a both ≡ some 0
unfolding get_peer get bytes_eq
both-a = refl

both-b : get_peer addr_b both ≡ some 1
unfolding get_peer get bytes_eq
both-b = refl

different_addresses : addr_a ≢ addr_b
different_addresses e = absurd (let f : 5 ≡ 6 = ap (λ m. get_or m 4 0) e in omega arith)

shared_endpoint_lost_example :
    let pm' = remove_peer addr_a both in
    (get_peer addr_b pm' ≡ some 1)
    × (get_elem? pm'.heap 1 ≡ some (new_peer addr_b key (some endpoint)))
    × (get_peer_by_endpoint endpoint pm' ≡ none)
shared_endpoint_lost_example =
    shared_endpoint_lost addr_a addr_b endpoint 0 1 (new_peer addr_a key (some endpoint))
      (new_peer addr_b key (some endpoint)) both different_addresses both-a both-b refl refl refl
      refl
