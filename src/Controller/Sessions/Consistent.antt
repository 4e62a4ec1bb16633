-- ===== src/Controller/Sessions/Consistent.antt =====
-- The map of agents and the connections that it points to (internal/controller/ws.go).
use zerogo.Base.{
  ℕ, ◌≡◌, inl, inr, refl, sym, ap, ap₂, ◌∙◌, Table, Option, none, some, List, [], ◌∷◌, Bytes, get,
  get-insert, get-delete, bytes_eq, bytes_eq_iff, get_elem?, get_elem?-modify, get_elem?-push,
  get_elem?-length, length, ◌==◌, if◌then◌else◌, arith, Bool-cases,
}
use zerogo.Protocol.{JoinMessage, AgentMessage, join, status, leave, PeerAction, PeerInfo}
use zerogo.Controller.Store.{Database, NetworkRow, MemberRow}
use zerogo.Controller.Sessions.{
  Ref, AgentConn, Hub, new_conn, change_conn, accept, disconnect, with_db, close_old, set_join,
  answer_member, answer_found, answer_network, answer_key, send_network_config, send_configs,
  handle_join, handle_status, handle_leave, handle_parsed, handle_message, send_to_conn,
  send_to_ref, send_network_config_to_agent, broadcast_peer_update, pending, conn_of, node_of_join,
}
use zerogo.Controller.Sessions.Registry.{broadcast-IsTold}

-- Every entry of the map is a connection that was made with its address.
pub record IsConsistent {W : Type 0} (hub : Hub W) : Type 0 where
  pub own :
      (addr : Bytes) (r : Ref)
      → get addr hub.agents ≡ some r
      → (conn : AgentConn) × (get_elem? hub.conns r ≡ some conn) × (conn.node_addr ≡ addr)

-- The map and the connections are as they were.
abbrev pub SameConns : {W : Type 0} → Hub W → Hub W → Type 0
SameConns hub after = (after.agents ≡ hub.agents) × (after.conns ≡ hub.conns)

module _ {W : Type 0} where
  pub SameConns-trans : (a b c : Hub W) → SameConns a b → SameConns b c → SameConns a c
  SameConns-trans a b c (p, q) (p', q') = (p' ∙ p, q' ∙ q)

  pub SameConns-IsConsistent :
      (hub after : Hub W) → SameConns hub after → IsConsistent hub → IsConsistent after
  SameConns-IsConsistent hub after (agents, conns) v = record {
    own = λ addr r found.
        let (conn, there, named) = v.own addr r (ap (get addr) (sym agents) ∙ found) in
        (conn, ap (λ cs. get_elem? cs r) conns ∙ there, named);
  }

  change_conn-IsConsistent :
      (r : Ref) (f : AgentConn → AgentConn) (hub : Hub W)
      → ((conn : AgentConn) → (f conn).node_addr ≡ conn.node_addr)
      → IsConsistent hub
      → IsConsistent (change_conn r f hub)
  change_conn-IsConsistent r f hub keeps v = record {
    own = λ addr q found.
        let (conn, there, named) = v.own addr q found in
        (
          (if r == q then f conn else conn),
          ground (arith, get_elem?-modify r f hub.conns q),
          ground (arith, keeps conn),
        );
  }

  close_old-SameConns : (o : Option Ref) (hub : Hub W) → SameConns hub (close_old o hub)
  close_old-SameConns none hub = (refl, refl)
  close_old-SameConns (some r) hub = (refl, refl)

  pub accept-IsConsistent :
      (now : ℕ) (addr key : Bytes) (hub : Hub W)
      → IsConsistent hub
      → IsConsistent (accept now addr key hub).0
  unfolding accept
  accept-IsConsistent now addr key hub v = record {
    own = λ other r found. elim (Bool-cases (bytes_eq addr other)) [
      | inl same ↦ (
        new_conn now addr key,
        (let at : length hub.conns ≡ r =
              ground (arith, get-insert addr other (length hub.conns) hub.agents) in
            rw⁻¹ at (get_elem?-length hub.conns (new_conn now addr key))),
        (bytes_eq_iff addr other).0 same,
      )
      | inr differs ↦
          let (conn, there, named) =
            v.own other r (ground (arith, get-insert addr other (length hub.conns) hub.agents)) in
          (conn, (get_elem?-push hub.conns (new_conn now addr key) r conn there).0, named)
    ];
  }

  pub disconnect-IsConsistent :
      (addr : Bytes) (r : Ref) (hub : Hub W)
      → IsConsistent hub
      → IsConsistent (disconnect addr r hub)
  unfolding disconnect
  disconnect-IsConsistent addr r hub v = record {
    own = λ other q found. v.own other q (ground (arith, get-delete addr other hub.agents));
  }

  with_db-SameConns : (o : Option W) (hub : Hub W) → SameConns hub (with_db o hub)
  with_db-SameConns none hub = (refl, refl)
  with_db-SameConns (some w) hub = (refl, refl)

  pub broadcast-SameConns :
      (id : ℕ) (action : PeerAction) (peer : PeerInfo) (hub : Hub W)
      → SameConns hub (broadcast_peer_update id action peer hub)
  broadcast-SameConns id action peer hub =
      let (new, code, _) = broadcast-IsTold id action peer hub in rw code (refl, refl)

conn_at :
    (addr : Bytes) (agents : Table Ref) (conns : List AgentConn) (r : Ref)
    → get addr agents ≡ some r
    → conn_of addr agents conns ≡ get_elem? conns r
conn_at addr agents conns r online = rw (conn_of, online) refl

-- What is sent to an agent leaves the map and the connections.
module _ {W : Type 0} (d : Database W) where
  answer_member-SameConns :
      (r : Ref) (addr network : Bytes) (id : ℕ) (net : NetworkRow) (member : MemberRow)
      (hub : Hub W)
      → SameConns hub (answer_member d r addr network id net member hub)
  answer_member-SameConns r addr network id net member hub = elim (Bool-cases member.authorized) [
    | inl granted ↦ rw granted (refl, refl)
    | inr refused ↦ rw refused (refl, refl)
  ]

  answer_found-SameConns :
      (r : Ref) (addr network : Bytes) (id : ℕ) (net : NetworkRow) (o : Option MemberRow)
      (hub : Hub W)
      → SameConns hub (answer_found d r addr network id net o hub)
  answer_found-SameConns r addr network id net (some member) hub =
      answer_member-SameConns r addr network id net member hub
  answer_found-SameConns r addr network id net none hub =
      with_db-SameConns (d.create_member (pending net.id addr) hub.db) hub

  answer_network-SameConns :
      (r : Ref) (addr network : Bytes) (id : ℕ) (o : Option NetworkRow) (hub : Hub W)
      → SameConns hub (answer_network d r addr network id o hub)
  answer_network-SameConns r addr network id none hub = (refl, refl)
  answer_network-SameConns r addr network id (some net) hub =
      answer_found-SameConns r addr network id net (d.first_member id addr hub.db) hub

  answer_key-SameConns :
      (r : Ref) (addr network : Bytes) (o : Option ℕ) (hub : Hub W)
      → SameConns hub (answer_key d r addr network o hub)
  answer_key-SameConns r addr network none hub = (refl, refl)
  answer_key-SameConns r addr network (some id) hub =
      answer_network-SameConns r addr network id (d.first_network id hub.db) hub

  send_network_config-SameConns :
      (r : Ref) (addr network : Bytes) (hub : Hub W)
      → SameConns hub (send_network_config d r addr network hub)
  unfolding send_network_config
  send_network_config-SameConns r addr network hub =
      answer_key-SameConns r addr network (d.key network) hub

  send_configs-SameConns :
      (r : Ref) (addr : Bytes) (networks : List Bytes) (hub : Hub W)
      → SameConns hub (send_configs d r addr networks hub)
  unfolding send_configs
  send_configs-SameConns r addr [] hub = (refl, refl)
  send_configs-SameConns r addr (network ∷ networks) hub =
      let next = send_network_config d r addr network hub in
      SameConns-trans hub next (send_configs d r addr networks next)
        (send_network_config-SameConns r addr network hub)
        (send_configs-SameConns r addr networks next)

  send_to_conn-SameConns :
      (r : Ref) (network : Bytes) (o : Option AgentConn) (hub : Hub W)
      → SameConns hub (send_to_conn d r network o hub)
  send_to_conn-SameConns r network none hub = (refl, refl)
  send_to_conn-SameConns r network (some conn) hub =
      send_network_config-SameConns r conn.node_addr network hub

  send_to_ref-SameConns :
      (network : Bytes) (o : Option Ref) (hub : Hub W) → SameConns hub (send_to_ref d network o hub)
  send_to_ref-SameConns network none hub = (refl, refl)
  send_to_ref-SameConns network (some r) hub =
      send_to_conn-SameConns r network (get_elem? hub.conns r) hub

  pub send_to_agent-SameConns :
      (addr network : Bytes) (hub : Hub W)
      → SameConns hub (send_network_config_to_agent d addr network hub)
  unfolding send_network_config_to_agent
  send_to_agent-SameConns addr network hub = send_to_ref-SameConns network (get addr hub.agents) hub

  handle_parsed-IsConsistent :
      (now : ℕ) (r : Ref) (addr : Bytes) (m : Option AgentMessage) (hub : Hub W)
      → IsConsistent hub
      → IsConsistent (handle_parsed d now r addr m hub)
  unfolding handle_join handle_status handle_leave
  handle_parsed-IsConsistent now r addr none hub v = v
  handle_parsed-IsConsistent now r addr (some (join msg)) hub v =
      SameConns-IsConsistent (change_conn r (set_join msg) hub) _
        (send_configs-SameConns r addr msg.networks _)
        (change_conn-IsConsistent r (set_join msg) hub (λ conn. refl) v)
  handle_parsed-IsConsistent now r addr (some (status peers)) hub v = record { own = v.own }
  handle_parsed-IsConsistent now r addr (some (leave networks)) hub v =
      change_conn-IsConsistent r _ hub (λ conn. refl) v

  pub handle_message-IsConsistent :
      (now : ℕ) (r : Ref) (addr : Bytes) (m : Option AgentMessage) (hub : Hub W)
      → IsConsistent hub
      → IsConsistent (handle_message d now r addr m hub)
  unfolding handle_message
  handle_message-IsConsistent now r addr m hub v =
      handle_parsed-IsConsistent now r addr m _
        (change_conn-IsConsistent r (λ conn. record conn { last_seen = now }) hub (λ conn. refl) v)

  -- A connection that joins has the endpoints of its message.
  pub joined_conn :
      (now : ℕ) (r : Ref) (addr : Bytes) (msg : JoinMessage) (hub : Hub W) (conn : AgentConn)
      → get addr hub.agents ≡ some r
      → get_elem? hub.conns r ≡ some conn
      → let after = handle_message d now r addr (some (join msg)) hub in
        conn_of addr after.agents after.conns
        ≡ some (set_join msg (record conn { last_seen = now }))
  unfolding handle_message handle_join
  joined_conn now r addr msg hub conn online there =
      let seen = change_conn r (λ conn. record conn { last_seen = now }) hub in
      let joined = change_conn r (set_join msg) seen in
      let (agents, conns) =
        send_configs-SameConns r addr msg.networks
          (record joined { db = d.assign_node (node_of_join d now msg) joined.db }) in
      let at_r : get_elem? joined.conns r ≡ some (set_join msg (record conn { last_seen = now })) =
        ground (
          arith,
          get_elem?-modify r (set_join msg) seen.conns r,
          get_elem?-modify r (λ conn. record conn { last_seen = now }) hub.conns r,
        ) in
      ap₂ (conn_of addr) agents conns ∙ conn_at addr hub.agents joined.conns r online ∙ at_r
