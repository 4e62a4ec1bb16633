-- ===== src/Vl1/Manager/Soundness.antt =====
-- What the index of endpoints points to (internal/vl1/peer.go, lines 255 to 397).
use zerogo.Base.{
  ◌≡◌, ◌≢◌, ◌⊎◌, inl, inr, refl, false, Option, none, some, List, [], ◌∷◌, ◌++◌, Bytes, Table, get,
  insert, get-insert, get-delete, Distinct, insert-Distinct, delete-Distinct, length, get_elem?,
  modify, get_elem?-modify, get_elem?-length, get_elem?-push, bytes_eq, bytes_eq_iff, bytes_eq_refl,
  ◌==◌, if◌then◌else◌, arith, Option-cases, Bool-cases,
}
use zerogo.Vl1.Peer.{Peer, new_peer}
use zerogo.Vl1.Manager.{
  Ref, PeerManager, new_peer_manager, endpoint_of, unindex, index, with_endpoint, move, add_peer,
  update_peer_endpoint, drop_peer, remove_peer,
}

-- An address has one entry in the map of peers, a peer with that address; every entry of the index
-- is a peer whose current endpoint that is, and which the map has under its address.
pub record IsSound (pm : PeerManager) : Type 0 where
  pub distinct : Distinct pm.peers
  pub registered :
      (addr : Bytes) (r : Ref)
      → get addr pm.peers ≡ some r
      → (p : Peer) × (get_elem? pm.heap r ≡ some p) × (p.address ≡ addr)
  pub indexed :
      (e : Bytes) (r : Ref)
      → get e pm.endpoint_idx ≡ some r
      → (p : Peer) × (get_elem? pm.heap r ≡ some p)
        × (p.endpoint ≡ some e)
        × (get p.address pm.peers ≡ some r)

pub new_peer_manager-IsSound : IsSound new_peer_manager
unfolding get
new_peer_manager-IsSound = record {
  distinct = tt;
  registered = λ addr r h. absurd (ground arith);
  indexed = λ e r h. absurd (ground arith);
}

-- Entries of the index after a removal and after an insertion.
get-unindex :
    (old : Option Bytes) (idx : Table Ref) (e : Bytes) (r : Ref)
    → get e (unindex old idx) ≡ some r
    → (old ≢ some e) × (get e idx ≡ some r)
get-unindex none idx e r h = ((λ q. absurd (cc)), h)
get-unindex (some o) idx e r h = ground (arith, get-delete o e idx, bytes_eq_iff o e)

get-index :
    (new : Option Bytes) (s : Ref) (idx : Table Ref) (e : Bytes) (r : Ref)
    → get e (index new s idx) ≡ some r
    → ((new ≡ some e) × (r ≡ s)) ⊎ (get e idx ≡ some r)
get-index none s idx e r h = inr h
get-index (some n) s idx e r h = ground (arith, get-insert n e s idx, bytes_eq_iff n e)

-- A move leaves every other peer, and of its own changes the endpoint only.
pub get_elem?-moved :
    (r : Ref) (new : Option Bytes) (heap : List Peer) (q : Ref) (p : Peer)
    → get_elem? heap q ≡ some p
    → get_elem? (modify r (with_endpoint new) heap) q
      ≡ some (if r == q then with_endpoint new p else p)
get_elem?-moved r new heap q p e = ground (arith, get_elem?-modify r (with_endpoint new) heap q)

pub move-IsSound :
    (addr : Bytes) (r : Ref) (new : Option Bytes) (pm : PeerManager)
    → IsSound pm
    → get addr pm.peers ≡ some r
    → IsSound (move r new pm)
unfolding move
move-IsSound addr r new pm s g =
    let (p, at, named) = s.registered addr r g in
    let old : endpoint_of r pm ≡ p.endpoint = rw (at, endpoint_of) refl in
    record {
      distinct = s.distinct;
      registered = λ a q h.
          let (p', at', named') = s.registered a q h in
          (
            (if r == q then with_endpoint new p' else p'),
            get_elem?-moved r new pm.heap q p' at',
            ground arith,
          );
      indexed = λ e q h. elim (get-index new r (unindex (endpoint_of r pm) pm.endpoint_idx) e q h) [
        | inl (is_new, is_r) ↦ (
          with_endpoint new p,
          ground (arith, get_elem?-moved r new pm.heap q p),
          is_new,
          ground arith,
        )
        | inr kept ↦
            let (other, before) = get-unindex (endpoint_of r pm) pm.endpoint_idx e q kept in
            let (p', at', has', reg') = s.indexed e q before in
            let differs : (r == q) ≡ false = ground arith in
            (p', ground (arith, get_elem?-moved r new pm.heap q p' at'), has', reg')
      ];
    }

pub drop_peer-IsSound :
    (addr : Bytes) (r : Ref) (pm : PeerManager)
    → IsSound pm
    → get addr pm.peers ≡ some r
    → IsSound (drop_peer addr r pm)
unfolding drop_peer
drop_peer-IsSound addr r pm s g =
    let (p, at, named) = s.registered addr r g in
    let old : endpoint_of r pm ≡ p.endpoint = rw (at, endpoint_of) refl in
    record {
      distinct = delete-Distinct addr pm.peers s.distinct;
      registered = λ a q h. s.registered a q (ground (arith, get-delete addr a pm.peers));
      indexed = λ e q h.
          let (other, before) = get-unindex (endpoint_of r pm) pm.endpoint_idx e q h in
          let (p', at', has', reg') = s.indexed e q before in
          let differs : p'.address ≢ addr = ground arith in
          (
            p',
            at',
            has',
            ground (arith, get-delete addr p'.address pm.peers, bytes_eq_iff addr p'.address),
          );
    }

-- The branches of the methods.
module _ (addr pub_key : Bytes) (pm : PeerManager) where
  abbrev pub fresh : Option Bytes → PeerManager
  fresh endpoint = record {
    heap = pm.heap ++ new_peer addr pub_key endpoint ∷ [];
    peers = insert addr (length pm.heap) pm.peers;
    endpoint_idx = index endpoint (length pm.heap) pm.endpoint_idx;
  }

  pub add_peer_unknown :
      (endpoint : Option Bytes)
      → get addr pm.peers ≡ none
      → add_peer addr pub_key endpoint pm ≡ (fresh endpoint, length pm.heap)
  unfolding add_peer
  add_peer_unknown endpoint g = rw (g, add_peer) refl

  pub add_peer_no_endpoint :
      (r : Ref) → get addr pm.peers ≡ some r → add_peer addr pub_key none pm ≡ (pm, r)
  unfolding add_peer
  add_peer_no_endpoint r g = rw (g, add_peer) refl

  pub add_peer_moved :
      (e : Bytes) (r : Ref)
      → get addr pm.peers ≡ some r
      → add_peer addr pub_key (some e) pm ≡ (move r (some e) pm, r)
  unfolding add_peer
  add_peer_moved e r g = rw (g, add_peer) refl

module _ (addr : Bytes) where
  pub update_known :
      (new : Option Bytes) (r : Ref) (pm : PeerManager)
      → get addr pm.peers ≡ some r
      → update_peer_endpoint addr new pm ≡ move r new pm
  unfolding update_peer_endpoint
  update_known new r pm g = rw (g, update_peer_endpoint) refl

  pub update_unknown :
      (new : Option Bytes) (pm : PeerManager)
      → get addr pm.peers ≡ none
      → update_peer_endpoint addr new pm ≡ pm
  unfolding update_peer_endpoint
  update_unknown new pm g = rw (g, update_peer_endpoint) refl

  pub remove_known :
      (r : Ref) (pm : PeerManager)
      → get addr pm.peers ≡ some r
      → remove_peer addr pm ≡ drop_peer addr r pm
  unfolding remove_peer
  remove_known r pm g = rw (g, remove_peer) refl

  pub remove_unknown : (pm : PeerManager) → get addr pm.peers ≡ none → remove_peer addr pm ≡ pm
  unfolding remove_peer
  remove_unknown pm g = rw (g, remove_peer) refl

fresh-IsSound :
    (addr pub_key : Bytes) (endpoint : Option Bytes) (pm : PeerManager)
    → IsSound pm
    → get addr pm.peers ≡ none
    → IsSound (fresh addr pub_key pm endpoint)
fresh-IsSound addr pub_key endpoint pm s g =
    let r = length pm.heap in
    let p = new_peer addr pub_key endpoint in
    let pushed : get_elem? (pm.heap ++ p ∷ []) r ≡ some p = get_elem?-length pm.heap p in
    record {
      distinct = insert-Distinct addr r pm.peers s.distinct;
      registered = λ a q h. elim (Bool-cases (bytes_eq addr a)) [
        | inl same ↦
            (p, ground (arith, get-insert addr a r pm.peers), ground (arith, bytes_eq_iff addr a))
        | inr other ↦
            let (p', at', named') =
              s.registered a q (ground (arith, get-insert addr a r pm.peers)) in
            (p', (get_elem?-push pm.heap p q p' at').0, named')
      ];
      indexed = λ e q h. elim (get-index endpoint r pm.endpoint_idx e q h) [
        | inl (is_new, is_r) ↦ (
          p,
          ground arith,
          is_new,
          ground (arith, get-insert addr addr r pm.peers, bytes_eq_refl addr),
        )
        | inr before ↦
            let (p', at', has', reg') = s.indexed e q before in
            (
              p',
              (get_elem?-push pm.heap p q p' at').0,
              has',
              ground (arith, get-insert addr p'.address r pm.peers, bytes_eq_iff addr p'.address),
            )
      ];
    }

-- Adding a peer, new or known, keeps the index right: whatever it finds is a known peer with that
-- very endpoint.
pub add_peer-IsSound :
    (addr pub_key : Bytes) (endpoint : Option Bytes) (pm : PeerManager)
    → IsSound pm
    → IsSound (add_peer addr pub_key endpoint pm).0
add_peer-IsSound addr pub_key endpoint pm s = elim (Option-cases (get addr pm.peers)) [
  | inl unknown ↦
      rw (add_peer_unknown addr pub_key pm endpoint unknown)
        (fresh-IsSound addr pub_key endpoint pm s unknown)
  | inr (r, known) ↦ elim (Option-cases endpoint) [
    | inl no_endpoint ↦ rw (no_endpoint, add_peer_no_endpoint addr pub_key pm r known) s
    | inr (e, is_e) ↦
        rw (is_e, add_peer_moved addr pub_key pm e r known)
          (move-IsSound addr r (some e) pm s known)
  ]
]

pub update_peer_endpoint-IsSound :
    (addr : Bytes) (new : Option Bytes) (pm : PeerManager)
    → IsSound pm
    → IsSound (update_peer_endpoint addr new pm)
update_peer_endpoint-IsSound addr new pm s = elim (Option-cases (get addr pm.peers)) [
  | inl unknown ↦ rw (update_unknown addr new pm unknown) s
  | inr (r, known) ↦ rw (update_known addr new r pm known) (move-IsSound addr r new pm s known)
]

pub remove_peer-IsSound :
    (addr : Bytes) (pm : PeerManager) → IsSound pm → IsSound (remove_peer addr pm)
remove_peer-IsSound addr pm s = elim (Option-cases (get addr pm.peers)) [
  | inl unknown ↦ rw (remove_unknown addr pm unknown) s
  | inr (r, known) ↦ rw (remove_known addr r pm known) (drop_peer-IsSound addr r pm s known)
]
