-- ===== src/Controller/Tests.antt =====
-- Inputs on which the theorems about the controller are used. The network of the first is 10.0.0.0/30,
-- with one member.
use zerogo.Base.{
  List, [], ◌∷◌, Bytes, be32, bytes_eq, refl, arith, ◌≡◌, ◌⊎◌, ok, true, false, some, get_elem?,
  replicate, format_uint,
}
use zerogo.Identity.{encode_to_string}
use zerogo.Protocol.{ControllerMessage, leave}
use zerogo.Protocol.Cidr.{format_cidr}
use zerogo.Controller.Store.{NetworkRow, NodeRow, MemberRow}
use zerogo.Controller.Tables.{Tables, tables}
use zerogo.Controller.Sessions.{
  Ref, Hub, new_hub, AgentConn, new_conn, is_online, send_network_config_to_agent,
}
use zerogo.Controller.Sessions.Access.{IsAnswer}
use zerogo.Controller.Runs.{Event, connected, received, ended, run, configured_by_own_connection}
use zerogo.Controller.{IpNet, inc, inc_carry, contains, is_used, first_free, allocate_ip}
use zerogo.Controller.Blocks.{IsNetwork}
use zerogo.Controller.Allocation.{IsLowestFree, allocate_ip-IsLowestFree}

abbrev ten : IpNet
ten = record { ip = 10 ∷ 0 ∷ 0 ∷ 0 ∷ []; ones = 30 }

abbrev members : List Bytes
members = (10 ∷ 0 ∷ 0 ∷ 1 ∷ []) ∷ []

abbrev second : Bytes
second = 10 ∷ 0 ∷ 0 ∷ 2 ∷ []

ten-IsNetwork : IsNetwork ten
unfolding be32
ten-IsNetwork = record {
  four = refl;
  bytes = omega arith;
  first = refl;
  fits = omega arith;
  ones_min = omega arith;
}

second_is_allocated : allocate_ip ten members ≡ ok second
unfolding allocate_ip first_free contains inc inc_carry is_used be32 bytes_eq
second_is_allocated = refl

allocate_ip-IsLowestFree_example : IsLowestFree ten members second (allocate_ip ten members)
allocate_ip-IsLowestFree_example =
    allocate_ip-IsLowestFree ten members second ten-IsNetwork refl (omega arith)

-- The network 7, 10.0.0.0/24, with the nodes "a" and "b", of which "a" is a member, and both
-- online.
abbrev node_a : NodeRow
node_a = record { address = 97 ∷ []; public_key = 1 ∷ []; platform = []; last_seen = 3 }

abbrev node_b : NodeRow
node_b = record { address = 98 ∷ []; public_key = 2 ∷ []; platform = []; last_seen = 3 }

abbrev network_7 : NetworkRow
network_7 = record {
  id = 7;
  name = [];
  description = [];
  ip_range = format_cidr (10 ∷ 0 ∷ 0 ∷ 0 ∷ []) 24;
  ip6_range = [];
  mtu = 2800;
  multicast = true;
  psk = encode_to_string (replicate 32 9);
}

abbrev member_a : MemberRow
member_a = record {
  network_id = 7;
  node_address = 97 ∷ [];
  authorized = true;
  ip_address = format_cidr (10 ∷ 0 ∷ 0 ∷ 1 ∷ []) 24;
  name = [];
}

abbrev conn_a : AgentConn
conn_a = record (new_conn 3 (97 ∷ []) (1 ∷ [])) { networks = format_uint 7 ∷ [] }

abbrev conn_b : AgentConn
conn_b = new_conn 4 (98 ∷ []) (2 ∷ [])

abbrev office : Hub Tables
office = record {
  db = record { networks = network_7 ∷ []; nodes = node_a ∷ node_b ∷ []; members = member_a ∷ [] };
  conns = conn_a ∷ conn_b ∷ [];
  agents = (97 ∷ [], 0) ∷ (98 ∷ [], 1) ∷ [];
  sent = [];
  closed = [];
}

abbrev morning : List Event
morning =
    connected 5 (97 ∷ []) (1 ∷ [])
    ∷ connected 6 (98 ∷ []) (2 ∷ [])
    ∷ received 7 1 (some (leave (format_uint 7 ∷ [])))
    ∷ ended 0
    ∷ []

configured_by_own_connection_example :
    let hub = run tables morning (new_hub office.db) in
    let after = send_network_config_to_agent tables (98 ∷ []) (format_uint 7) hub in
    ((is_online (98 ∷ []) hub ≡ false) × (after ≡ hub))
    ⊎ ((r : Ref) × (conn : AgentConn) × (m : ControllerMessage) × (get_elem? hub.conns r
          ≡ some conn)
        × (conn.node_addr ≡ 98 ∷ [])
        × (after.sent ≡ (r, m) ∷ hub.sent)
        × IsAnswer tables hub (98 ∷ []) (format_uint 7) m)
configured_by_own_connection_example =
    configured_by_own_connection tables morning office.db (98 ∷ []) (format_uint 7)
