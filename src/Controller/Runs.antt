-- ===== src/Controller/Runs.antt =====
-- The controller over any sequence of connections, messages of agents and calls of its API
-- (internal/controller/ws.go, internal/controller/api.go). Each is a step; a run is one order of
-- them.
use zerogo.Base.{
  ℕ, ◌≡◌, ◌⊎◌, inl, inr, refl, false, Option, none, some, List, [], ◌∷◌, Bytes, get, get_elem?,
  Bool-cases, Option-cases, parse_uint, format_uint,
}
use zerogo.Protocol.{AgentMessage, ControllerMessage, add_action, remove_action}
use zerogo.Controller.Store.{Database, NetworkRow, NodeRow}
use zerogo.Controller.Sessions.{
  Ref, AgentConn, Hub, new_hub, accept, disconnect, handle_message, send_network_config_to_agent,
  broadcast_peer_update, is_online,
}
use zerogo.Controller.Sessions.Access.{IsAnswer, send_network_config-IsAnswer}
use zerogo.Controller.Sessions.Consistent.{
  IsConsistent, SameConns, SameConns-trans, SameConns-IsConsistent, accept-IsConsistent,
  disconnect-IsConsistent, broadcast-SameConns, send_to_agent-SameConns,
  handle_message-IsConsistent,
}
use zerogo.Controller.Api.{
  AuthorizeRequest, CreateNetworkRequest, announce, added_info, removed_info, authorized_member,
  authorize_with, authorize_in, authorize_parsed, authorize_member, address_for, member_of,
  updated_member, update_of, update_parsed, update_member, remove_parsed, remove_member,
  create_network, row_of, update_found, update_network_parsed, update_network, delete_parsed,
  delete_network,
}

-- What happens to a controller. A connection that sends a message or ends is named by its place.
pub data Event : Type 0 where
  connected : ℕ → Bytes → Bytes → Event
  received : ℕ → Ref → Option AgentMessage → Event
  ended : Ref → Event
  member_authorized : Bytes → Option AuthorizeRequest → Event
  member_updated : Bytes → Bytes → Option AuthorizeRequest → Event
  member_removed : Bytes → Bytes → Event
  network_created : Bytes → Bytes → Option CreateNetworkRequest → Event
  network_updated : Bytes → Option CreateNetworkRequest → Event
  network_deleted : Bytes → Event

module _ {W : Type 0} (d : Database W) where
  -- For the connection's address.
  abbrev with_conn : Option AgentConn → (Bytes → Hub W → Hub W) → Hub W → Hub W
  with_conn none f hub = hub
  with_conn (some conn) f hub = f conn.node_addr hub

  unfoldable pub step : Event → Hub W → Hub W
  step (connected now addr key) hub = (accept now addr key hub).0
  step (received now r m) hub =
      with_conn (get_elem? hub.conns r) (λ addr. handle_message d now r addr m) hub
  step (ended r) hub = with_conn (get_elem? hub.conns r) (λ addr. disconnect addr r) hub
  step (member_authorized id req) hub = (authorize_member d id req hub).0
  step (member_updated id addr req) hub = (update_member d id addr req hub).0
  step (member_removed id addr) hub = (remove_member d id addr hub).0
  step (network_created id psk req) hub = (create_network d id psk req hub).0
  step (network_updated id req) hub = (update_network d id req hub).0
  step (network_deleted id) hub = (delete_network d id hub).0

  unfoldable pub run : List Event → Hub W → Hub W
  run [] hub = hub
  run (e ∷ es) hub = run es (step e hub)

  announce-SameConns :
      (id : ℕ) (req : AuthorizeRequest) (o : Option NodeRow) (hub : Hub W)
      → SameConns hub (announce d id req o hub)
  announce-SameConns id req none hub = (refl, refl)
  announce-SameConns id req (some node) hub =
      let sent = send_network_config_to_agent d req.node_address (format_uint id) hub in
      SameConns-trans hub sent (broadcast_peer_update id add_action (added_info req node) sent)
        (send_to_agent-SameConns d req.node_address (format_uint id) hub)
        (broadcast-SameConns id add_action (added_info req node) sent)

  authorized_member-SameConns :
      (id : ℕ) (req : AuthorizeRequest) (o : Option W) (hub : Hub W)
      → SameConns hub (authorized_member d id req o hub).0
  authorized_member-SameConns id req none hub = (refl, refl)
  authorized_member-SameConns id req (some w) hub = elim (Bool-cases req.authorized) [
    | inl granted ↦
        rw granted
          (announce-SameConns id req (d.first_node req.node_address w) (record hub { db = w }))
    | inr refused ↦ rw refused (refl, refl)
  ]

  authorize_with-SameConns :
      (id : ℕ) (req : AuthorizeRequest) (o : Option Bytes) (hub : Hub W)
      → SameConns hub (authorize_with d id req o hub).0
  authorize_with-SameConns id req none hub = (refl, refl)
  authorize_with-SameConns id req (some ip) hub =
      authorized_member-SameConns id req (d.assign_member (member_of id req ip) hub.db) hub

  authorize_in-SameConns :
      (id : ℕ) (req : AuthorizeRequest) (o : Option NetworkRow) (hub : Hub W)
      → SameConns hub (authorize_in d id req o hub).0
  authorize_in-SameConns id req none hub = (refl, refl)
  authorize_in-SameConns id req (some net) hub =
      authorize_with-SameConns id req (address_for d req net hub.db) hub

  authorize_parsed-SameConns :
      (id : Option ℕ) (req : Option AuthorizeRequest) (hub : Hub W)
      → SameConns hub (authorize_parsed d id req hub).0
  authorize_parsed-SameConns none req hub = (refl, refl)
  authorize_parsed-SameConns (some id) none hub = (refl, refl)
  authorize_parsed-SameConns (some id) (some req) hub =
      authorize_in-SameConns id req (d.first_network id hub.db) hub

  updated_member-SameConns : (o : Option W) (hub : Hub W) → SameConns hub (updated_member d o hub).0
  updated_member-SameConns none hub = (refl, refl)
  updated_member-SameConns (some w) hub = (refl, refl)

  update_parsed-SameConns :
      (id : Option ℕ) (addr : Bytes) (req : Option AuthorizeRequest) (hub : Hub W)
      → SameConns hub (update_parsed d id addr req hub).0
  update_parsed-SameConns none addr req hub = (refl, refl)
  update_parsed-SameConns (some id) addr none hub = (refl, refl)
  update_parsed-SameConns (some id) addr (some req) hub =
      updated_member-SameConns (d.update_member id addr (update_of d req) hub.db) hub

  remove_parsed-SameConns :
      (id : Option ℕ) (addr : Bytes) (hub : Hub W) → SameConns hub (remove_parsed d id addr hub).0
  remove_parsed-SameConns none addr hub = (refl, refl)
  remove_parsed-SameConns (some id) addr hub =
      broadcast-SameConns id remove_action (removed_info addr)
        (record hub { db = d.delete_member id addr hub.db })

  create_network-SameConns :
      (id psk : Bytes) (req : Option CreateNetworkRequest) (hub : Hub W)
      → SameConns hub (create_network d id psk req hub).0
  unfolding create_network
  create_network-SameConns id psk none hub = (refl, refl)
  create_network-SameConns id psk (some req) hub =
      elim (Option-cases (d.create_network (row_of d id psk req) hub.db)) [
        | inl refused ↦ rw refused (refl, refl)
        | inr (w, made) ↦ rw made (refl, refl)
      ]

  update_found-SameConns :
      (id : ℕ) (o : Option NetworkRow) (req : Option CreateNetworkRequest) (hub : Hub W)
      → SameConns hub (update_found d id o req hub).0
  update_found-SameConns id none req hub = (refl, refl)
  update_found-SameConns id (some net) none hub = (refl, refl)
  update_found-SameConns id (some net) (some req) hub = (refl, refl)

  update_network_parsed-SameConns :
      (id : Option ℕ) (req : Option CreateNetworkRequest) (hub : Hub W)
      → SameConns hub (update_network_parsed d id req hub).0
  update_network_parsed-SameConns none req hub = (refl, refl)
  update_network_parsed-SameConns (some id) req hub =
      update_found-SameConns id (d.first_network id hub.db) req hub

  delete_parsed-SameConns : (id : Option ℕ) (hub : Hub W) → SameConns hub (delete_parsed d id hub).0
  delete_parsed-SameConns none hub = (refl, refl)
  delete_parsed-SameConns (some id) hub = (refl, refl)

  step-IsConsistent : (e : Event) (hub : Hub W) → IsConsistent hub → IsConsistent (step e hub)
  unfolding step authorize_member update_member remove_member update_network delete_network
  step-IsConsistent (connected now addr key) hub v = accept-IsConsistent now addr key hub v
  step-IsConsistent (received now r m) hub v = elim (Option-cases (get_elem? hub.conns r)) [
    | inl none_there ↦ rw none_there v
    | inr (conn, there) ↦ rw there (handle_message-IsConsistent d now r conn.node_addr m hub v)
  ]
  step-IsConsistent (ended r) hub v = elim (Option-cases (get_elem? hub.conns r)) [
    | inl none_there ↦ rw none_there v
    | inr (conn, there) ↦ rw there (disconnect-IsConsistent conn.node_addr r hub v)
  ]
  step-IsConsistent (member_authorized id req) hub v =
      SameConns-IsConsistent hub _ (authorize_parsed-SameConns (parse_uint id) req hub) v
  step-IsConsistent (member_updated id addr req) hub v =
      SameConns-IsConsistent hub _ (update_parsed-SameConns (parse_uint id) addr req hub) v
  step-IsConsistent (member_removed id addr) hub v =
      SameConns-IsConsistent hub _ (remove_parsed-SameConns (parse_uint id) addr hub) v
  step-IsConsistent (network_created id psk req) hub v =
      SameConns-IsConsistent hub _ (create_network-SameConns id psk req hub) v
  step-IsConsistent (network_updated id req) hub v =
      SameConns-IsConsistent hub _ (update_network_parsed-SameConns (parse_uint id) req hub) v
  step-IsConsistent (network_deleted id) hub v =
      SameConns-IsConsistent hub _ (delete_parsed-SameConns (parse_uint id) hub) v

  run-IsConsistent : (es : List Event) (hub : Hub W) → IsConsistent hub → IsConsistent (run es hub)
  unfolding run
  run-IsConsistent [] hub v = v
  run-IsConsistent (e ∷ es) hub v = run-IsConsistent es (step e hub) (step-IsConsistent e hub v)

  new_hub-IsConsistent : (w : W) → IsConsistent (new_hub w)
  unfolding get
  new_hub-IsConsistent w = record { own = λ addr r found. absurd cc }

  sent_to_own :
      (addr network : Bytes) (hub : Hub W)
      → IsConsistent hub
      → let after = send_network_config_to_agent d addr network hub in
        ((is_online addr hub ≡ false) × (after ≡ hub))
        ⊎ ((r : Ref) × (conn : AgentConn) × (m : ControllerMessage) × (get_elem? hub.conns r
              ≡ some conn)
            × (conn.node_addr ≡ addr)
            × (after.sent ≡ (r, m) ∷ hub.sent)
            × IsAnswer d hub addr network m)
  unfolding send_network_config_to_agent is_online
  sent_to_own addr network hub v = elim (Option-cases (get addr hub.agents)) [
    | inl offline ↦ inl (rw offline (refl, refl))
    | inr (r, online) ↦
        let (conn, there, named) = v.own addr r online in
        let (m, sent, answer) = send_network_config-IsAnswer d r addr network hub in
        inr (r, conn, m, there, named, rw (online, there, named) sent, answer)
  ]

  -- After any sequence of connections, messages and API calls, the configuration of a network for
  -- an agent is written either to nobody, if the agent is not online, or once, to a connection that
  -- was made with the agent's address; and what is written there is 404, 403 or the configuration
  -- by what the database then says of the network and of the agent as its member.
  pub configured_by_own_connection :
      (es : List Event) (w : W) (addr network : Bytes)
      → let hub = run es (new_hub w) in
        let after = send_network_config_to_agent d addr network hub in
        ((is_online addr hub ≡ false) × (after ≡ hub))
        ⊎ ((r : Ref) × (conn : AgentConn) × (m : ControllerMessage) × (get_elem? hub.conns r
              ≡ some conn)
            × (conn.node_addr ≡ addr)
            × (after.sent ≡ (r, m) ∷ hub.sent)
            × IsAnswer d hub addr network m)
  configured_by_own_connection es w addr network =
      sent_to_own addr network (run es (new_hub w))
        (run-IsConsistent es (new_hub w) (new_hub-IsConsistent w))
