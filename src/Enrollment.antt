-- ===== src/Enrollment.antt =====
-- The controller and an agent together: a member is authorized, and its agent is configured by what
-- it is sent (internal/controller/api.go, internal/controller/ws.go, internal/agent/controller.go).
pub mod Discovery
mod Tests
use zerogo.Base.{
  ℕ, ◌+◌, ◌<◌, ◌≤◌, ◌≡◌, ◌≢◌, inl, inr, refl, sym, ap, ◌∙◌, Bool, true, false, Option, none, some,
  List, [], ◌∷◌, ◌++◌, Bytes, AreBytes, length, get, get_elem?, be32, arith, format_uint,
}
use zerogo.Crypto.{Crypto}
use zerogo.Identity.{encode_to_string}
use zerogo.Protocol.{NetworkConfig, ControllerMessage, network_config, peer_update, add_action}
use zerogo.Protocol.Cidr.{parse_cidr, mask_ip, split_slash}
use zerogo.Controller.{size, is_used}
use zerogo.Controller.Store.{Database, Laws, NetworkRow, NodeRow}
use zerogo.Controller.Sessions.{Ref, AgentConn, Hub}
use zerogo.Controller.Api.{
  AuthorizeRequest, member_of, added_info, address_for, allocate_text, authorize_member, used_ips,
}
use zerogo.Controller.Api.Membership.{authorize_member_lem}
use zerogo.Controller.Api.Addresses.{allocate_text_lem}
use zerogo.Agent.{Datagram, Node}
use zerogo.Agent.Receive.{at_node}
use zerogo.Agent.Client.{Client, handle_controller_message, handle_network_config}
use zerogo.Agent.Client.Configuration.{handle_network_config_lem}
use zerogo.Agent.Client.Peers.{handle_peer_update-of_no_endpoint}

no_range : parse_cidr [] ≡ none
unfolding parse_cidr split_slash
no_range = refl

ne-nil-of_parsed : (text : Bytes) (p : Bytes × ℕ) → parse_cidr text ≡ some p → text ≢ []
ne-nil-of_parsed text p e empty = cc (e, ap parse_cidr empty, no_range)

module _ (c : Crypto) (fails : List Datagram → Datagram → Bool) (pool : Bytes)
    (resolve : Bytes → Option Bytes) where
  -- What the controller tells the members of a network about a newly authorized one names no
  -- endpoint, and so changes nothing at any agent that receives it.
  pub authorization_not_learned :
      (now : ℕ) (tap : Bool) (req : AuthorizeRequest) (node : NodeRow) (cl : Client)
      → handle_controller_message c fails pool resolve now tap
          (some (peer_update add_action (added_info req node)))
          cl
        ≡ cl
  unfolding handle_controller_message
  authorization_not_learned now tap req node cl =
      ap (λ (n : Node). record cl { agent = record cl.agent { node = n } })
        (handle_peer_update-of_no_endpoint c fails pool resolve now (added_info req node)
          cl.agent.node refl)

  module _ {W : Type 0} (d : Database W) (laws : Laws d) where
    -- A registered node whose agent is online is authorized without an address, and one is
    -- allocated. Then the agent's connection is sent a configuration; and an agent without a device
    -- that handles it has the network's id and pre-shared key, and gives its device an address of
    -- the network with the network's prefix: neither the first nor the last of the network's block,
    -- and no address that another member had. The pre-shared key is the text of 32 bytes, as for
    -- every network that was created, and the network's range is one of IPv4 with a prefix of at
    -- least one bit.
    pub enroll :
        (now id : ℕ) (req : AuthorizeRequest) (net : NetworkRow) (psk ip text : Bytes) (ones : ℕ)
        (w : W) (node : NodeRow) (r : Ref) (conn : AgentConn) (hub : Hub W) (cl : Client)
        → id < 4294967296
        → d.first_network id hub.db ≡ some net
        → net.psk ≡ encode_to_string psk
        → length psk ≡ 32
        → AreBytes psk
        → parse_cidr net.ip_range ≡ some (ip, ones)
        → length ip ≡ 4
        → AreBytes ip
        → 1 ≤ ones
        → ones ≤ 32
        → req.authorized ≡ true
        → req.ip_address ≡ []
        → allocate_text d net hub.db ≡ some text
        → d.assign_member (member_of id req text) hub.db ≡ some w
        → d.first_node req.node_address w ≡ some node
        → get req.node_address hub.agents ≡ some r
        → get_elem? hub.conns r ≡ some conn
        → conn.node_addr ≡ req.node_address
        → cl.has_device ≡ false
        → (cfg : NetworkConfig) × (new : List (Ref × ControllerMessage)) × (x : Bytes)
          × ((authorize_member d (format_uint id) (some req) hub).0.sent
              ≡ new ++ (r, network_config cfg) ∷ hub.sent)
          × (let after = handle_network_config c fails pool resolve now true cfg cl in
              (after.network_id ≡ id) × (after.agent.node.psk ≡ psk) × (after.ip ≡ some (x, ones)))
          × (be32 (mask_ip ip ones) < be32 x)
          × (be32 x + 1 < be32 (mask_ip ip ones) + size (record { ip = ip; ones = ones }))
          × (is_used (used_ips (d.members_with_ip net.id hub.db)) x ≡ false)
    enroll now id req net psk ip text ones w node r conn hub cl small there keyed long bytes parsed
          four ip_bytes low high granted asked allocated written known online conn_there own fresh =
        elim (allocate_text_lem d net hub.db ip ones ip parsed four ip_bytes low high four
          ip_bytes) [
            | inl (none_left, _) ↦ absurd (cc (none_left, allocated))
            | inr (x, text', given, text_parsed, above, below, free) ↦
                let same : text' ≡ text = cc (given, allocated) in
                let assigned : parse_cidr text ≡ some (x, ones) =
                  ap parse_cidr (sym same) ∙ text_parsed in
                let address : address_for d req net hub.db ≡ some text =
                  rw (granted, asked) allocated in
                let (cfg, new, code, sent, named, cfg_psk, cfg_ip, told) =
                  authorize_member_lem d laws id req net text w node r conn hub small there granted
                    address (ne-nil-of_parsed text (x, ones) assigned) written known online
                    conn_there own in
                let (has_id, has_psk, _, has_ip, _, _) =
                  handle_network_config_lem c fails pool resolve now id psk (x, ones) cfg cl fresh
                    small named long bytes (cfg_psk ∙ keyed) (ap parse_cidr cfg_ip ∙ assigned) in
                (cfg, new, x, sent, (has_id, has_psk, has_ip), above, below, free)
          ]
