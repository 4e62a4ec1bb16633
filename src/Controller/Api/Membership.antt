-- ===== src/Controller/Api/Membership.antt =====
-- Members that are authorized and members that are removed (internal/controller/api.go, lines 305
-- to 367 and 458 to 472).
use zerogo.Base.{
  ℕ, ◌<◌, ◌≡◌, ◌≢◌, refl, ap, ◌∙◌, true, some, List, [], ◌∷◌, ◌++◌, Bytes, get, All, get_elem?,
  format_uint, parse_uint-format_uint,
}
use zerogo.Protocol.{NetworkConfig, ControllerMessage, network_config, peer_update, add_action}
use zerogo.Controller.Store.{Database, Laws, NetworkRow, NodeRow, MemberRow}
use zerogo.Controller.Sessions.{
  Ref, AgentConn, Hub, send_json, config_of, send_network_config, send_network_config_to_agent,
  broadcast_peer_update,
}
use zerogo.Controller.Sessions.Registry.{IsTold, broadcast-IsTold}
use zerogo.Controller.Api.{AuthorizeRequest, member_of, added_info, address_for, authorize_member}

module _ {W : Type 0} (d : Database W) (laws : Laws d) where
  -- A member of a network that is there gets the configuration.
  config_for_member :
      (r : Ref) (addr : Bytes) (id : ℕ) (net : NetworkRow) (member : MemberRow) (hub : Hub W)
      → id < 4294967296
      → d.first_network id hub.db ≡ some net
      → d.first_member id addr hub.db ≡ some member
      → member.authorized ≡ true
      → send_network_config d r addr (format_uint id) hub
        ≡ send_json r (network_config (config_of d hub addr (format_uint id) id net member)) hub
  unfolding send_network_config
  config_for_member r addr id net member hub small there found granted =
      rw (laws.key-format_uint id small, there, found, granted) refl

  config_for_online :
      (r : Ref) (conn : AgentConn) (addr : Bytes) (id : ℕ) (net : NetworkRow) (member : MemberRow)
      (hub : Hub W)
      → id < 4294967296
      → d.first_network id hub.db ≡ some net
      → d.first_member id addr hub.db ≡ some member
      → member.authorized ≡ true
      → get addr hub.agents ≡ some r
      → get_elem? hub.conns r ≡ some conn
      → conn.node_addr ≡ addr
      → send_network_config_to_agent d addr (format_uint id) hub
        ≡ send_json r (network_config (config_of d hub addr (format_uint id) id net member)) hub
  unfolding send_network_config_to_agent
  config_for_online r conn addr id net member hub small there found granted online conn_there own =
      rw (online, conn_there, own)
        (config_for_member r addr id net member hub small there found granted)

  -- The state after an authorization that the database takes.
  authorize_member-of_written :
      (id : ℕ) (req : AuthorizeRequest) (net : NetworkRow) (ip : Bytes) (w : W) (node : NodeRow)
      (hub : Hub W)
      → id < 4294967296
      → d.first_network id hub.db ≡ some net
      → req.authorized ≡ true
      → address_for d req net hub.db ≡ some ip
      → d.assign_member (member_of id req ip) hub.db ≡ some w
      → d.first_node req.node_address w ≡ some node
      → authorize_member d (format_uint id) (some req) hub ≡ (
        broadcast_peer_update id add_action (added_info req node) (
            send_network_config_to_agent d req.node_address
              (format_uint id)
              (record hub { db = w })),
        200,
      )
  unfolding authorize_member
  authorize_member-of_written id req net ip w node hub small there granted address written known =
      rw (parse_uint-format_uint id small, there, address, written, granted, known) refl

  -- When a registered node whose agent is online is authorized, and the database takes its row, the
  -- agent's connection is sent the network's configuration, with its pre-shared key and with the
  -- address that the request names or that was allocated; after that only connections that have
  -- joined the network are told, and what they are told is that the node was added.
  pub authorize_member_lem :
      (id : ℕ) (req : AuthorizeRequest) (net : NetworkRow) (ip : Bytes) (w : W) (node : NodeRow)
      (r : Ref) (conn : AgentConn) (hub : Hub W)
      → id < 4294967296
      → d.first_network id hub.db ≡ some net
      → req.authorized ≡ true
      → address_for d req net hub.db ≡ some ip
      → ip ≢ []
      → d.assign_member (member_of id req ip) hub.db ≡ some w
      → d.first_node req.node_address w ≡ some node
      → get req.node_address hub.agents ≡ some r
      → get_elem? hub.conns r ≡ some conn
      → conn.node_addr ≡ req.node_address
      → let (after, code) = authorize_member d (format_uint id) (some req) hub in
        (cfg : NetworkConfig) × (new : List (Ref × ControllerMessage)) × (code ≡ 200)
        × (after.sent ≡ new ++ (r, network_config cfg) ∷ hub.sent)
        × (cfg.network_id ≡ format_uint id)
        × (cfg.psk ≡ net.psk)
        × (cfg.assigned_ip ≡ ip)
        × All (IsTold (format_uint id) (peer_update add_action (added_info req node)) hub.conns) new
  authorize_member_lem id req net ip w node r conn hub small there granted address given written
        known online conn_there own =
      let (row, found, row_granted, row_ip) =
        laws.first_member-assign_member (member_of id req ip) hub.db w written granted given in
      let hub' = record hub { db = w } in
      let still =
        laws.first_network-assign_member (member_of id req ip) hub.db w id written ∙ there in
      let cfg = config_of d hub' req.node_address (format_uint id) id net row in
      let configured = send_json r (network_config cfg) hub' in
      let (new, e, told) = broadcast-IsTold id add_action (added_info req node) configured in
      let done : authorize_member d (format_uint id) (some req) hub
          ≡ (record configured { sent = new ++ configured.sent }, 200) =
        authorize_member-of_written id req net ip w node hub small there granted address written
          known
        ∙ ap (λ h. (broadcast_peer_update id add_action (added_info req node) h, 200))
            (config_for_online r conn req.node_address id net row hub' small still found row_granted
              online conn_there own)
        ∙ ap (λ h. (h, 200)) e in
      (cfg, new, ap (λ p. p.1) done, ap (λ p. p.0.sent) done, refl, refl, row_ip, told)
