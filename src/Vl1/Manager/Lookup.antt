-- ===== src/Vl1/Manager/Lookup.antt =====
-- What the lookups find after the other methods, and after any sequence of them
-- (internal/vl1/peer.go, lines 273 to 397).
use zerogo.Base.{
  ℕ, ◌≡◌, ◌≢◌, ◌⊎◌, inl, inr, refl, Option, none, some, List, [], ◌∷◌, Bytes, get, get-insert,
  get-insert_self, get-delete, length, get_elem?, get_elem?-length, bytes_eq_iff, bytes_eq_refl,
  arith, Option-cases,
}
use zerogo.Vl1.Peer.{Peer, new_peer}
use zerogo.Vl1.Manager.{
  Ref, PeerManager, new_peer_manager, endpoint_of, unindex, with_endpoint, move, add_peer,
  update_peer_endpoint, drop_peer, remove_peer, clean_dead, get_peer, get_peer_by_endpoint,
}
use zerogo.Vl1.Manager.Soundness.{
  IsSound, new_peer_manager-IsSound, add_peer-IsSound, update_peer_endpoint-IsSound,
  remove_peer-IsSound, add_peer_unknown, add_peer_moved, remove_known, get_elem?-moved,
}
use zerogo.Vl1.Manager.Cleaning.{clean_dead-IsSound}

-- After a peer is added with an endpoint, both lookups find it, it has that endpoint, and every
-- other address finds what it found before. A peer that was known is the same peer, with its old
-- public key, whatever key the call names; a new one is made of the call's arguments.
pub add_peer_lem :
    (addr pub_key e : Bytes) (pm : PeerManager)
    → IsSound pm
    → let (pm', r) = add_peer addr pub_key (some e) pm in
      (get_peer addr pm' ≡ some r)
      × (get_peer_by_endpoint e pm' ≡ some r)
      × (((get_peer addr pm ≡ none)
            × (get_elem? pm'.heap r ≡ some (new_peer addr pub_key (some e))))
          ⊎ ((p : Peer) × (get_peer addr pm ≡ some r)
              × (get_elem? pm.heap r ≡ some p)
              × (get_elem? pm'.heap r ≡ some (with_endpoint (some e) p))))
      × ((other : Bytes) → (addr ≡ other) ⊎ (get_peer other pm' ≡ get_peer other pm))
unfolding get_peer get_peer_by_endpoint move
add_peer_lem addr pub_key e pm s = elim (Option-cases (get addr pm.peers)) [
  | inl unknown ↦
      let r = length pm.heap in
      rw (add_peer_unknown addr pub_key pm (some e) unknown) (
        get-insert_self addr r pm.peers,
        get-insert_self e r pm.endpoint_idx,
        inl (unknown, get_elem?-length pm.heap (new_peer addr pub_key (some e))),
        λ other. ground (arith, get-insert addr other r pm.peers, bytes_eq_iff addr other),
      )
  | inr (r, known) ↦
      let (p, at, named) = s.registered addr r known in
      rw (add_peer_moved addr pub_key pm e r known) (
        known,
        get-insert_self e r (unindex (endpoint_of r pm) pm.endpoint_idx),
        inr (p, known, at, ground (arith, get_elem?-moved r (some e) pm.heap r p at)),
        λ other. inr refl,
      )
]

-- Two peers can share an endpoint. When one of them is removed, the index loses the entry of the
-- other, which is still known under its address with that endpoint.
pub shared_endpoint_lost :
    (a b e : Bytes) (r t : Ref) (p q : Peer) (pm : PeerManager)
    → a ≢ b
    → get_peer a pm ≡ some r
    → get_peer b pm ≡ some t
    → get_elem? pm.heap r ≡ some p
    → get_elem? pm.heap t ≡ some q
    → p.endpoint ≡ some e
    → q.endpoint ≡ some e
    → let pm' = remove_peer a pm in
      (get_peer b pm' ≡ some t)
      × (get_elem? pm'.heap t ≡ some q)
      × (get_peer_by_endpoint e pm' ≡ none)
unfolding get_peer get_peer_by_endpoint drop_peer
shared_endpoint_lost a b e r t p q pm ne ga gb at bt pe qe =
    let old : endpoint_of r pm ≡ some e = rw (at, endpoint_of) pe in
    rw (remove_known a r pm ga) (
      ground (arith, get-delete a b pm.peers, bytes_eq_iff a b),
      bt,
      rw old (ground (arith, get-delete e e pm.endpoint_idx, bytes_eq_refl e)),
    )

-- The methods that change the manager, with what they are given.
pub data Call : Type 0 where
  add : Bytes → Bytes → Option Bytes → Call
  update : Bytes → Option Bytes → Call
  remove : Bytes → Call
  clean : ℕ → Call

unfoldable pub call : Call → PeerManager → PeerManager
call (add addr pub_key endpoint) pm = (add_peer addr pub_key endpoint pm).0
call (update addr endpoint) pm = update_peer_endpoint addr endpoint pm
call (remove addr) pm = remove_peer addr pm
call (clean now) pm = (clean_dead now pm).0

unfoldable pub calls : List Call → PeerManager → PeerManager
calls [] pm = pm
calls (k ∷ ks) pm = calls ks (call k pm)

calls-IsSound : (ks : List Call) (pm : PeerManager) → IsSound pm → IsSound (calls ks pm)
unfolding calls call
calls-IsSound [] pm s = s
calls-IsSound (add addr pub_key endpoint ∷ ks) pm s =
    calls-IsSound ks (add_peer addr pub_key endpoint pm).0
      (add_peer-IsSound addr pub_key endpoint pm s)
calls-IsSound (update addr endpoint ∷ ks) pm s =
    calls-IsSound ks (update_peer_endpoint addr endpoint pm)
      (update_peer_endpoint-IsSound addr endpoint pm s)
calls-IsSound (remove addr ∷ ks) pm s =
    calls-IsSound ks (remove_peer addr pm) (remove_peer-IsSound addr pm s)
calls-IsSound (clean now ∷ ks) pm s =
    calls-IsSound ks (clean_dead now pm).0 (clean_dead-IsSound now pm s)

-- Whatever the methods do, in any order: a peer that is found by an endpoint has that endpoint, and
-- is the one that is found by its address.
pub get_peer_by_endpoint_sound :
    (ks : List Call) (e : Bytes) (r : Ref)
    → let pm = calls ks new_peer_manager in
      get_peer_by_endpoint e pm ≡ some r
      → (p : Peer) × (get_elem? pm.heap r ≡ some p)
        × (p.endpoint ≡ some e)
        × (get_peer p.address pm ≡ some r)
unfolding get_peer get_peer_by_endpoint
get_peer_by_endpoint_sound ks e r h =
    (calls-IsSound ks new_peer_manager new_peer_manager-IsSound).indexed e r h
