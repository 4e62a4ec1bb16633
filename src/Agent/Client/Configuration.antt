-- ===== src/Agent/Client/Configuration.antt =====
-- What a configuration from the controller sets (internal/agent/controller.go, lines 177 to 278).
use zerogo.Base.{
  ℕ, ◌<◌, ◌≡◌, inl, inr, refl, sym, ap, ◌∙◌, Bool, true, false, Option, none, some, List, [], ◌∷◌,
  Bytes, AreBytes, length, replicate, copy_full, arith, Bool-cases, ◌==◌, format_uint, sscanf_uint,
  sscanf_uint-format_uint,
}
use zerogo.Crypto.{Crypto}
use zerogo.Identity.{address_from_public_key, decode_string, encode_to_string}
use zerogo.Identity.Addresses.{decode_string-encode_to_string}
use zerogo.Protocol.{PeerInfo, NetworkConfig}
use zerogo.Protocol.Cidr.{parse_cidr}
use zerogo.Vl1.Manager.{Ref, get_peer, add_peer}
use zerogo.Vl2.Mac.{generate_mac}
use zerogo.Vl2.Switch.{new_switch}
use zerogo.Vl2.Arp.{new_arp_proxy}
use zerogo.Agent.{Datagram, Node, post_hello, send_hello}
use zerogo.Agent.Client.{
  Client, add_resolved, is_up, add_known_key, add_peer_from_info, add_peers, key_of_text,
  first_resolved, set_psk, configure, configure_text, handle_network_config,
}

-- A key of 32 bytes is read from its text.
key_of_text-encode_to_string :
    (key : Bytes) → AreBytes key → length key ≡ 32 → key_of_text (encode_to_string key) ≡ some key
unfolding key_of_text
key_of_text-encode_to_string key bytes long =
    let whole : (length key == 32) ≡ true = ground arith in
    rw (decode_string-encode_to_string key bytes, whole)
      (ap some (copy_full key (replicate 32 0) (sym long)))

no_key : key_of_text [] ≡ none
unfolding key_of_text decode_string
no_key = refl

module _ (c : Crypto) (fails : List Datagram → Datagram → Bool) (pool : Bytes)
    (resolve : Bytes → Option Bytes) where
  post_hello-psk :
      (now : ℕ) (r : Ref) (o : Option Datagram) (node : Node)
      → (post_hello c fails pool now r o node).psk ≡ node.psk
  post_hello-psk now r none node = refl
  post_hello-psk now r (some d) node = elim (Bool-cases (fails node.sent d)) [
    | inl failed ↦ rw failed refl
    | inr written ↦ rw written refl
  ]

  add_resolved-psk :
      (now : ℕ) (psk key : Bytes) (o : Option Bytes) (node : Node)
      → (add_resolved c fails pool resolve now psk key o node).psk ≡ node.psk
  unfolding send_hello
  add_resolved-psk now psk key none node = refl
  add_resolved-psk now psk key (some e) node =
      let (peers, r) = add_peer (address_from_public_key c key) key (some e) node.peers in
      post_hello-psk now r _ _

  add_known_key-psk :
      (now : ℕ) (psk : Bytes) (es : List Bytes) (o : Option Bytes) (node : Node)
      → (add_known_key c fails pool resolve now psk es o node).psk ≡ node.psk
  add_known_key-psk now psk es none node = refl
  add_known_key-psk now psk es (some key) node =
      elim (Bool-cases (is_up (get_peer (address_from_public_key c key) node.peers) node.peers)) [
        | inl up ↦ rw up refl
        | inr down ↦ rw down (add_resolved-psk now psk key (first_resolved resolve es) node)
      ]

  add_peers-psk :
      (now : ℕ) (psk : Bytes) (infos : List PeerInfo) (node : Node)
      → (add_peers c fails pool resolve now psk infos node).psk ≡ node.psk
  unfolding add_peers add_peer_from_info
  add_peers-psk now psk [] node = refl
  add_peers-psk now psk (info ∷ infos) node =
      add_peers-psk now psk infos (add_peer_from_info c fails pool resolve now psk info node)
      ∙ add_known_key-psk now psk info.endpoints (key_of_text info.public_key) node

  configure_text-of_text :
      (now : ℕ) (tap : Bool) (msg : NetworkConfig) (text psk : Bytes) (cl : Client)
      → key_of_text text ≡ some psk
      → configure_text c fails pool resolve now tap msg text cl
        ≡ configure c fails pool resolve now tap psk msg (set_psk psk cl)
  configure_text-of_text now tap msg [] psk cl e = absurd (cc (e, no_key))
  configure_text-of_text now tap msg (x ∷ xs) psk cl e = rw e refl

  -- A first configuration whose key is the text of 32 bytes and whose network is the text of a
  -- number sets the agent's key and network id to those, makes the network's switch, ARP proxy and
  -- address, and gives the device the address that was assigned. The device can be created.
  pub handle_network_config_lem :
      (now id : ℕ) (psk : Bytes) (ip : Bytes × ℕ) (cfg : NetworkConfig) (cl : Client)
      → cl.has_device ≡ false
      → id < 4294967296
      → cfg.network_id ≡ format_uint id
      → length psk ≡ 32
      → AreBytes psk
      → cfg.psk ≡ encode_to_string psk
      → parse_cidr cfg.assigned_ip ≡ some ip
      → let after = handle_network_config c fails pool resolve now true cfg cl in
        (after.network_id ≡ id)
        × (after.agent.node.psk ≡ psk)
        × (after.has_device ≡ true)
        × (after.ip ≡ some ip)
        × (after.mac ≡ some (generate_mac id cl.address))
        × (after.agent.network ≡ some (record { switch = new_switch id; arp = new_arp_proxy }))
  unfolding handle_network_config
  handle_network_config_lem now id psk ip cfg cl fresh small named long bytes keyed assigned =
      let read = key_of_text-encode_to_string psk bytes long in
      let reads : sscanf_uint cfg.network_id ≡ id =
        ap sscanf_uint named ∙ sscanf_uint-format_uint id small in
      let keys : configure_text c fails pool resolve now true cfg cfg.psk cl
          ≡ configure c fails pool resolve now true psk cfg (set_psk psk cl) =
        configure_text-of_text now true cfg cfg.psk psk cl (ap key_of_text keyed ∙ read) in
      rw (keys, fresh, reads) (refl, add_peers-psk now psk cfg.peers _, refl, assigned, refl, refl)
