-- ===== src/Controller/Sessions.antt =====
-- internal/controller/ws.go: the connections of agents, and what the controller tells them. An
-- `*AgentConn` is a place in the list of all connections that were ever made. Messages that are
-- written are kept in a log, the latest first, with the connection that they went to; the code
-- does not look at a write's error. A lock makes each access to the map one step.
pub mod Access
pub mod Registry
pub mod Consistent
use zerogo.Base.{
  ℕ, ◌==◌, Bool, true, false, not, Option, none, some, List, [], ◌∷◌, ◌++◌, Bytes, Table, get,
  insert, delete, length, get_elem?, modify, bytes_eq, format_uint, if◌then◌else◌,
}
use zerogo.Protocol.{
  PeerInfo, NetworkConfig, PeerAction, ControllerMessage, network_config, peer_update, error,
  JoinMessage, AgentMessage, join, status, leave,
}
use zerogo.Controller.Store.{Database, NetworkRow, NodeRow, MemberRow}

abbrev pub Ref : Type 0
Ref = ℕ

pub record AgentConn : Type 0 where
  pub node_addr : Bytes
  pub public_key : Bytes
  pub platform : Bytes
  pub endpoints : List Bytes
  pub networks : List Bytes
  pub last_seen : ℕ

-- The handler with the database of its controller. `closed` are the connections that were closed.
pub record Hub (W : Type 0) : Type 0 where
  pub db : W
  pub conns : List AgentConn
  pub agents : Table Ref
  pub sent : List (Ref × ControllerMessage)
  pub closed : List Ref

abbrev pub new_conn : ℕ → Bytes → Bytes → AgentConn
new_conn now addr key = record {
  node_addr = addr;
  public_key = key;
  platform = [];
  endpoints = [];
  networks = [];
  last_seen = now;
}

-- `for i, n := range agent.Networks { if n == netID { ...; break } }`.
unfoldable pub without : Bytes → List Bytes → List Bytes
without network [] = []
without network (n ∷ ns) = if bytes_eq n network then ns else n ∷ without network ns

unfoldable pub without_all : List Bytes → List Bytes → List Bytes
without_all [] ns = ns
without_all (network ∷ networks) ns = without_all networks (without network ns)

unfoldable pub has_network : Bytes → List Bytes → Bool
has_network network [] = false
has_network network (n ∷ ns) = if bytes_eq n network then true else has_network network ns

abbrev pub set_join : JoinMessage → AgentConn → AgentConn
set_join msg conn = record conn {
  platform = msg.platform;
  endpoints = msg.endpoints;
  networks = msg.networks;
}

abbrev pub online_endpoints : Option AgentConn → List Bytes
online_endpoints none = []
online_endpoints (some conn) = conn.endpoints

-- The entry of the map for an address.
abbrev pub conn_of : Bytes → Table Ref → List AgentConn → Option AgentConn
conn_of addr agents conns = elim (get addr agents) [ none ↦ none | some r ↦ get_elem? conns r ]

abbrev pub is_some {ℓ} : {A : Type ℓ} → Option A → Bool
is_some none = false
is_some (some a) = true

abbrev pub joined_network : Bytes → Option AgentConn → Bool
joined_network network none = false
joined_network network (some conn) = has_network network conn.networks

abbrev pub pending : ℕ → Bytes → MemberRow
pending id addr = record {
  network_id = id;
  node_address = addr;
  authorized = false;
  ip_address = [];
  name = [];
}

-- `NewWSHandler`.
abbrev pub new_hub : {W : Type 0} → W → Hub W
new_hub db = record { db = db; conns = []; agents = []; sent = []; closed = [] }

module _ {W : Type 0} where
  abbrev pub change_conn : Ref → (AgentConn → AgentConn) → Hub W → Hub W
  change_conn r f hub = record hub { conns = modify r f hub.conns }

  -- `SendJSON`.
  abbrev pub send_json : Ref → ControllerMessage → Hub W → Hub W
  send_json r m hub = record hub { sent = (r, m) ∷ hub.sent }

  abbrev pub close_old : Option Ref → Hub W → Hub W
  close_old none hub = hub
  close_old (some r) hub = record hub { closed = r ∷ hub.closed }

  -- `HandleAgentConnect` up to its loop: the new connection takes the place of an old one of the
  -- same address.
  unfoldable pub accept : ℕ → Bytes → Bytes → Hub W → Hub W × Ref
  accept now addr key hub =
      let r = length hub.conns in
      let closed = close_old (get addr hub.agents) hub in
      (
        record closed {
          conns = hub.conns ++ new_conn now addr key ∷ [];
          agents = insert addr r hub.agents;
        },
        r,
      )

  -- The deferred end of `HandleAgentConnect`, for the connection that it was called with.
  unfoldable pub disconnect : Bytes → Ref → Hub W → Hub W
  disconnect addr r hub = record hub { agents = delete addr hub.agents; closed = r ∷ hub.closed }

  abbrev pub peer_info : Hub W → MemberRow → NodeRow → PeerInfo
  peer_info hub m node = record {
    address = m.node_address;
    public_key = node.public_key;
    endpoints = online_endpoints (conn_of m.node_address hub.agents hub.conns);
    name = m.name;
  }

  abbrev pub add_info : Hub W → MemberRow → Option NodeRow → List PeerInfo → List PeerInfo
  add_info hub m none infos = infos
  add_info hub m (some node) infos = peer_info hub m node ∷ infos

  -- `db.Create`, whose error is not looked at.
  abbrev pub with_db : Option W → Hub W → Hub W
  with_db none hub = hub
  with_db (some w) hub = record hub { db = w }

  -- `handleLeave`.
  unfoldable pub handle_leave : Ref → List Bytes → Hub W → Hub W
  handle_leave r networks hub =
      change_conn r (λ conn. record conn { networks = without_all networks conn.networks }) hub

  unfoldable pub update_each : Bytes → ControllerMessage → Table Ref → Hub W → Hub W
  update_each network m [] hub = hub
  update_each network m ((_, r) ∷ agents) hub =
      update_each network m agents
        (if joined_network network (get_elem? hub.conns r) then send_json r m hub else hub)

  -- `BroadcastPeerUpdate`.
  unfoldable pub broadcast_peer_update : ℕ → PeerAction → PeerInfo → Hub W → Hub W
  broadcast_peer_update id action peer hub =
      update_each (format_uint id) (peer_update action peer) hub.agents hub

  -- `GetOnlineAgents`, as its test.
  unfoldable pub is_online : Bytes → Hub W → Bool
  is_online addr hub = is_some (get addr hub.agents)

module _ {W : Type 0} (d : Database W) where
  -- The loop over the members; one without a node is left out.
  unfoldable pub peer_infos : Hub W → List MemberRow → List PeerInfo
  peer_infos hub [] = []
  peer_infos hub (m ∷ ms) = add_info hub m (d.first_node m.node_address hub.db) (peer_infos hub ms)

  abbrev pub config_of : Hub W → Bytes → Bytes → ℕ → NetworkRow → MemberRow → NetworkConfig
  config_of hub addr network id net member = record {
    network_id = network;
    name = net.name;
    ip_range = net.ip_range;
    ip6_range = net.ip6_range;
    mtu = net.mtu;
    multicast = net.multicast;
    psk = net.psk;
    assigned_ip = member.ip_address;
    peers = peer_infos hub (d.authorized_but id addr hub.db);
  }

  abbrev pub answer_member : Ref → Bytes → Bytes → ℕ → NetworkRow → MemberRow → Hub W → Hub W
  answer_member r addr network id net member hub =
      if member.authorized
      then send_json r (network_config (config_of hub addr network id net member)) hub
      else send_json r (error 403) hub

  abbrev pub answer_found : Ref → Bytes → Bytes → ℕ → NetworkRow → Option MemberRow → Hub W → Hub W
  answer_found r addr network id net (some member) hub =
      answer_member r addr network id net member hub
  answer_found r addr network id net none hub =
      answer_member r addr network id net (pending net.id addr)
        (with_db (d.create_member (pending net.id addr) hub.db) hub)

  abbrev pub answer_network : Ref → Bytes → Bytes → ℕ → Option NetworkRow → Hub W → Hub W
  answer_network r addr network id none hub = send_json r (error 404) hub
  answer_network r addr network id (some net) hub =
      answer_found r addr network id net (d.first_member id addr hub.db) hub

  abbrev pub answer_key : Ref → Bytes → Bytes → Option ℕ → Hub W → Hub W
  answer_key r addr network none hub = send_json r (error 404) hub
  answer_key r addr network (some id) hub =
      answer_network r addr network id (d.first_network id hub.db) hub

  -- `sendNetworkConfig`, given the connection's address.
  unfoldable pub send_network_config : Ref → Bytes → Bytes → Hub W → Hub W
  send_network_config r addr network hub = answer_key r addr network (d.key network) hub

  unfoldable pub send_configs : Ref → Bytes → List Bytes → Hub W → Hub W
  send_configs r addr [] hub = hub
  send_configs r addr (network ∷ networks) hub =
      send_configs r addr networks (send_network_config r addr network hub)

  abbrev pub node_of_join : ℕ → JoinMessage → NodeRow
  node_of_join now msg = record {
    address = msg.node_addr;
    public_key = msg.public_key;
    platform = msg.platform;
    last_seen = now;
  }

  -- `handleJoin`, for the connection of `addr`.
  unfoldable pub handle_join : ℕ → Ref → Bytes → JoinMessage → Hub W → Hub W
  handle_join now r addr msg hub =
      let joined = change_conn r (set_join msg) hub in
      send_configs r addr msg.networks
        (record joined { db = d.assign_node (node_of_join now msg) joined.db })

  -- `handleStatus`.
  unfoldable pub handle_status : ℕ → Bytes → Hub W → Hub W
  handle_status now addr hub = record hub { db = d.touch_node addr now hub.db }

  abbrev pub handle_parsed : ℕ → Ref → Bytes → Option AgentMessage → Hub W → Hub W
  handle_parsed now r addr none hub = hub
  handle_parsed now r addr (some (join msg)) hub = handle_join now r addr msg hub
  handle_parsed now r addr (some (status peers)) hub = handle_status now addr hub
  handle_parsed now r addr (some (leave networks)) hub = handle_leave r networks hub

  -- A message in the loop of `HandleAgentConnect`, none where it cannot be parsed.
  unfoldable pub handle_message : ℕ → Ref → Bytes → Option AgentMessage → Hub W → Hub W
  handle_message now r addr message hub =
      handle_parsed now r addr message (change_conn r (λ conn. record conn { last_seen = now }) hub)

  abbrev pub send_to_conn : Ref → Bytes → Option AgentConn → Hub W → Hub W
  send_to_conn r network none hub = hub
  send_to_conn r network (some conn) hub = send_network_config r conn.node_addr network hub

  abbrev pub send_to_ref : Bytes → Option Ref → Hub W → Hub W
  send_to_ref network none hub = hub
  send_to_ref network (some r) hub = send_to_conn r network (get_elem? hub.conns r) hub

  -- `SendNetworkConfigToAgent`.
  unfoldable pub send_network_config_to_agent : Bytes → Bytes → Hub W → Hub W
  send_network_config_to_agent addr network hub = send_to_ref network (get addr hub.agents) hub
