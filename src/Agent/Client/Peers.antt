-- ===== src/Agent/Client/Peers.antt =====
-- The peers that the controller names (internal/agent/controller.go, lines 281 to 343).
use zerogo.Base.{
  ℕ, ◌≡◌, inl, inr, refl, Bool, false, Option, none, some, List, [], ◌∷◌, Bytes, length, get,
  get_elem?-length, get-insert_self, arith, Bool-cases, Option-cases, Result, ok, err,
}
use zerogo.Crypto.{Crypto}
use zerogo.Identity.{address_from_public_key, address_from_hex, AddressError}
use zerogo.Protocol.{PeerInfo, PeerAction, add_action, remove_action, other_action}
use zerogo.Vl1.Noise.{derive_keys_from_psk}
use zerogo.Vl1.Cipher.{new_noise_cipher}
use zerogo.Vl1.Peer.{Peer, new_peer, set_cipher, is_connected}
use zerogo.Vl1.Manager.{
  Ref, PeerManager, get_peer, get_peer_by_endpoint, add_peer, move, with_endpoint,
}
use zerogo.Vl1.Manager.Soundness.{
  IsSound, fresh, add_peer_unknown, add_peer_moved, get_elem?-moved, add_peer-IsSound,
  remove_peer-IsSound,
}
use zerogo.Agent.{Datagram, Node, peer_at, change_peer, send_hello}
use zerogo.Agent.Hello.{IsUp, change_peer-get, post_hello-IsUp}
use zerogo.Agent.Wellformed.{change_peer-IsSound, send_hello-IsSound}
use zerogo.Agent.Client.{
  greet, add_resolved, is_up, add_known_key, add_peer_from_info, add_peers, key_of_text,
  first_resolved, handle_peer_update, remove_parsed,
}

module _ (c : Crypto) (fails : List Datagram → Datagram → Bool) (pool : Bytes)
    (resolve : Bytes → Option Bytes) where
  greet-IsUp :
      (now : ℕ) (psk key addr from : Bytes) (peers : PeerManager) (r : Ref) (node : Node) (p : Peer)
      → get_peer addr peers ≡ some r
      → get_peer_by_endpoint from peers ≡ some r
      → peer_at r (record node { peers = peers }) ≡ some p
      → IsUp now addr from (greet c fails pool resolve now psk key (peers, r) node)
  unfolding get_peer get_peer_by_endpoint set_cipher is_connected send_hello
  greet-IsUp now psk key addr from peers r node p a e at =
      let (send_key, recv_key) = derive_keys_from_psk c psk node.public_key key in
      let added = record node { peers = peers } in
      let set = set_cipher now (new_noise_cipher send_key recv_key) in
      post_hello-IsUp c fails pool now addr from r _ (change_peer r set added) (record {
        ref = r;
        peer = set p;
        by_address = a;
        by_endpoint = e;
        there = change_peer-get r set added p at;
        connected = refl;
        seen = refl;
      })

  greet_added-IsUp :
      (now : ℕ) (psk key addr from : Bytes) (node : Node)
      → IsSound node.peers
      → IsUp now addr from
          (greet c fails pool resolve now psk key (add_peer addr key (some from) node.peers) node)
  unfolding get_peer get_peer_by_endpoint move
  greet_added-IsUp now psk key addr from node s = elim (Option-cases (get addr node.peers.peers)) [
    | inl unknown ↦
        let r = length node.peers.heap in
        let peers = fresh addr key node.peers (some from) in
        rw (add_peer_unknown addr key node.peers (some from) unknown) (
          greet-IsUp now psk key addr from peers r node (new_peer addr key (some from))
            (get-insert_self addr r node.peers.peers)
            (get-insert_self from r node.peers.endpoint_idx)
            (get_elem?-length node.peers.heap (new_peer addr key (some from))))
    | inr (r, known) ↦
        let (p, at, named) = s.registered addr r known in
        rw (add_peer_moved addr key node.peers from r known) (
          greet-IsUp now psk key addr from (move r (some from) node.peers) r node
            (with_endpoint (some from) p) known (get-insert_self from r _)
            (ground (arith, get_elem?-moved r (some from) node.peers.heap r p at)))
  ]

  -- A peer that the controller names, with a key of 32 bytes and an endpoint that can be resolved,
  -- and which is not connected yet, is afterwards found by the address of its key and by that
  -- endpoint, is connected, and was seen now. The index of endpoints is right before.
  pub add_peer_from_info-IsUp :
      (now : ℕ) (psk key endpoint : Bytes) (info : PeerInfo) (node : Node)
      → IsSound node.peers
      → key_of_text info.public_key ≡ some key
      → first_resolved resolve info.endpoints ≡ some endpoint
      → is_up (get_peer (address_from_public_key c key) node.peers) node.peers ≡ false
      → IsUp now
          (address_from_public_key c key)
          endpoint
          (add_peer_from_info c fails pool resolve now psk info node)
  unfolding add_peer_from_info
  add_peer_from_info-IsUp now psk key endpoint info node s keyed resolved down =
      rw (keyed, down, resolved)
        (greet_added-IsUp now psk key (address_from_public_key c key) endpoint node s)

  greet-IsSound :
      (now : ℕ) (psk key : Bytes) (peers : PeerManager) (r : Ref) (node : Node)
      → IsSound peers
      → IsSound (greet c fails pool resolve now psk key (peers, r) node).peers
  unfolding set_cipher
  greet-IsSound now psk key peers r node s =
      let (send_key, recv_key) = derive_keys_from_psk c psk node.public_key key in
      let added = record node { peers = peers } in
      let set = set_cipher now (new_noise_cipher send_key recv_key) in
      send_hello-IsSound c fails pool now r (change_peer r set added)
        (change_peer-IsSound r set added (λ p at. (refl, refl)) s)

  add_resolved-IsSound :
      (now : ℕ) (psk key : Bytes) (o : Option Bytes) (node : Node)
      → IsSound node.peers
      → IsSound (add_resolved c fails pool resolve now psk key o node).peers
  add_resolved-IsSound now psk key none node s = s
  add_resolved-IsSound now psk key (some e) node s =
      let addr = address_from_public_key c key in
      let (peers, r) = add_peer addr key (some e) node.peers in
      greet-IsSound now psk key peers r node (add_peer-IsSound addr key (some e) node.peers s)

  add_known_key-IsSound :
      (now : ℕ) (psk : Bytes) (es : List Bytes) (o : Option Bytes) (node : Node)
      → IsSound node.peers
      → IsSound (add_known_key c fails pool resolve now psk es o node).peers
  add_known_key-IsSound now psk es none node s = s
  add_known_key-IsSound now psk es (some key) node s =
      elim (Bool-cases (is_up (get_peer (address_from_public_key c key) node.peers) node.peers)) [
        | inl up ↦ rw up s
        | inr down ↦ rw down (add_resolved-IsSound now psk key (first_resolved resolve es) node s)
      ]

  pub add_peers-IsSound :
      (now : ℕ) (psk : Bytes) (infos : List PeerInfo) (node : Node)
      → IsSound node.peers
      → IsSound (add_peers c fails pool resolve now psk infos node).peers
  unfolding add_peers add_peer_from_info
  add_peers-IsSound now psk [] node s = s
  add_peers-IsSound now psk (info ∷ infos) node s =
      add_peers-IsSound now psk infos (add_peer_from_info c fails pool resolve now psk info node)
        (add_known_key-IsSound now psk info.endpoints (key_of_text info.public_key) node s)

  remove_parsed-IsSound :
      (o : Result AddressError Bytes) (node : Node)
      → IsSound node.peers
      → IsSound (remove_parsed o node).peers
  remove_parsed-IsSound (err e) node s = s
  remove_parsed-IsSound (ok addr) node s = remove_peer-IsSound addr node.peers s

  pub handle_peer_update-IsSound :
      (now : ℕ) (action : PeerAction) (info : PeerInfo) (node : Node)
      → IsSound node.peers
      → IsSound (handle_peer_update c fails pool resolve now action info node).peers
  unfolding handle_peer_update add_peer_from_info
  handle_peer_update-IsSound now add_action info node s =
      add_known_key-IsSound now node.psk info.endpoints (key_of_text info.public_key) node s
  handle_peer_update-IsSound now remove_action info node s =
      remove_parsed-IsSound (address_from_hex info.address) node s
  handle_peer_update-IsSound now other_action info node s = s

  add_known_key-of_no_endpoint :
      (now : ℕ) (psk : Bytes) (o : Option Bytes) (node : Node)
      → add_known_key c fails pool resolve now psk [] o node ≡ node
  unfolding first_resolved
  add_known_key-of_no_endpoint now psk none node = refl
  add_known_key-of_no_endpoint now psk (some key) node =
      elim (Bool-cases (is_up (get_peer (address_from_public_key c key) node.peers) node.peers)) [
        | inl up ↦ rw up refl
        | inr down ↦ rw down refl
      ]

  pub handle_peer_update-of_no_endpoint :
      (now : ℕ) (info : PeerInfo) (node : Node)
      → info.endpoints ≡ []
      → handle_peer_update c fails pool resolve now add_action info node ≡ node
  unfolding handle_peer_update add_peer_from_info
  handle_peer_update-of_no_endpoint now info node empty =
      rw empty (add_known_key-of_no_endpoint now node.psk (key_of_text info.public_key) node)

  add_known_key-of_unresolved :
      (now : ℕ) (psk : Bytes) (es : List Bytes) (o : Option Bytes) (node : Node)
      → first_resolved resolve es ≡ none
      → add_known_key c fails pool resolve now psk es o node ≡ node
  add_known_key-of_unresolved now psk es none node e = refl
  add_known_key-of_unresolved now psk es (some key) node e =
      elim (Bool-cases (is_up (get_peer (address_from_public_key c key) node.peers) node.peers)) [
        | inl up ↦ rw up refl
        | inr down ↦ rw (down, e) refl
      ]

  pub add_peer_from_info-of_unresolved :
      (now : ℕ) (psk : Bytes) (info : PeerInfo) (node : Node)
      → first_resolved resolve info.endpoints ≡ none
      → add_peer_from_info c fails pool resolve now psk info node ≡ node
  unfolding add_peer_from_info
  add_peer_from_info-of_unresolved now psk info node =
      add_known_key-of_unresolved now psk info.endpoints (key_of_text info.public_key) node
