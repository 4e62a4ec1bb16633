-- ===== src/Enrollment/Tests.antt =====
-- Inputs on which the theorems about the controller and an agent together are used: the network 7,
-- 10.0.0.0/24, with one registered node that is online and no members.
use zerogo.Base.{
  ◌+◌, ◌<◌, ◌≡◌, refl, Bool, true, false, Option, some, none, put_be32, List, [], ◌∷◌, ◌++◌, Bytes,
  get, ◌==◌, if◌then◌else◌, bytes_eq, replicate, be32, arith, format_uint,
}
use zerogo.Crypto.Toy.{toy}
use zerogo.Identity.{Identity, encode_to_string}
use zerogo.Protocol.{
  NetworkConfig, ControllerMessage, network_config, peer_update, add_action, join,
}
use zerogo.Protocol.Cidr.{parse_cidr, format_cidr, mask_ip, parse_cidr-format_cidr}
use zerogo.Vl1.Manager.{new_peer_manager}
use zerogo.Controller.{inc, inc_carry, contains, first_free, allocate_ip, size, is_used}
use zerogo.Controller.Store.{NetworkRow, NodeRow, MemberRow}
use zerogo.Controller.Tables.{
  Tables, tables, tables-Laws, first_row, is_node, where_rows, with_members, assign_in,
}
use zerogo.Controller.Sessions.{Ref, Hub, AgentConn, new_conn, handle_message, peer_info}
use zerogo.Controller.Api.{
  AuthorizeRequest, member_of, added_info, allocate_text, authorize_member, used_ips,
}
use zerogo.Agent.{Datagram}
use zerogo.Agent.Client.{
  Client, join_message, add_peer_from_info, handle_controller_message, handle_network_config,
}
use zerogo.Enrollment.Discovery.{joined_not_reached}
use zerogo.Enrollment.{authorization_not_learned, enroll}

abbrev never : List Datagram → Datagram → Bool
never log d = false

abbrev resolve : Bytes → Option Bytes
resolve text = some text

abbrev node : NodeRow
node = record { address = 98 ∷ []; public_key = 2 ∷ []; platform = []; last_seen = 3 }

abbrev block : Bytes
block = 10 ∷ 0 ∷ 0 ∷ 0 ∷ []

abbrev psk : Bytes
psk = replicate 32 9

abbrev network : NetworkRow
network = record {
  id = 7;
  name = [];
  description = [];
  ip_range = format_cidr block 24;
  ip6_range = [];
  mtu = 2800;
  multicast = true;
  psk = encode_to_string psk;
}

abbrev conn : AgentConn
conn = new_conn 4 (98 ∷ []) (2 ∷ [])

abbrev office : Hub Tables
office = record {
  db = record { networks = network ∷ []; nodes = node ∷ []; members = [] };
  conns = conn ∷ [];
  agents = (98 ∷ [], 0) ∷ [];
  sent = [];
  closed = [];
}

abbrev admit : AuthorizeRequest
admit = record { node_address = 98 ∷ []; authorized = true; ip_address = []; name = [] }

abbrev client : Client
client = record {
  agent = record {
    node = record {
      public_key = [];
      psk = [];
      gaming = false;
      peers = new_peer_manager;
      sent = [];
    };
    network = none;
    device = record { is_tun = false; written = []; kernel_arp = [] };
  };
  address = 1 ∷ 2 ∷ 3 ∷ 4 ∷ 5 ∷ [];
  network_id = 0;
  tap_mtu = 0;
  has_device = false;
  mac = none;
  ip = none;
}

abbrev allocated : Bytes
allocated = format_cidr (10 ∷ 0 ∷ 0 ∷ 1 ∷ []) 24

range_is_parsed : parse_cidr network.ip_range ≡ some (block, 24)
range_is_parsed = parse_cidr-format_cidr block 24 refl (omega arith) (omega arith)

first_is_allocated : allocate_text tables network office.db ≡ some allocated
unfolding allocate_text allocate_ip first_free contains inc inc_carry is_used be32 used_ips
    where_rows mask_ip put_be32
first_is_allocated = rw range_is_parsed refl

is_online : get (98 ∷ []) office.agents ≡ some 0
unfolding get bytes_eq
is_online = refl

is_there : tables.first_network 7 office.db ≡ some network
unfolding first_row
is_there = refl

is_known : first_row (is_node (98 ∷ [])) office.db.nodes ≡ some node
unfolding first_row bytes_eq
is_known = refl

authorization_not_learned_example :
    handle_controller_message toy never [] resolve 5 true
      (some (peer_update add_action (added_info admit node)))
      client
    ≡ client
authorization_not_learned_example =
    authorization_not_learned toy never [] resolve 5 true admit node client

enroll_example :
    (cfg : NetworkConfig) × (new : List (Ref × ControllerMessage)) × (x : Bytes)
    × ((authorize_member tables (format_uint 7) (some admit) office).0.sent
        ≡ new ++ (0, network_config cfg) ∷ office.sent)
    × (let after = handle_network_config toy never [] resolve 5 true cfg client in
        (after.network_id ≡ 7) × (after.agent.node.psk ≡ psk) × (after.ip ≡ some (x, 24)))
    × (be32 (mask_ip block 24) < be32 x)
    × (be32 x + 1 < be32 (mask_ip block 24) + size (record { ip = block; ones = 24 }))
    × (is_used (used_ips (tables.members_with_ip network.id office.db)) x ≡ false)
enroll_example =
    enroll toy never [] resolve tables tables-Laws 5 7 admit network psk block allocated 24
      (with_members (assign_in (member_of 7 admit allocated)) office.db) node 0 conn office client
      (omega arith) is_there refl refl (omega arith) range_is_parsed refl (omega arith)
      (omega arith) (omega arith) refl refl first_is_allocated refl is_known is_online refl refl
      refl

abbrev needs_host : Bytes → Option Bytes
needs_host [] = none
needs_host (x ∷ text) = if x == 58 then none else some (x ∷ text)

abbrev member : MemberRow
member = record {
  network_id = 7;
  node_address = 98 ∷ [];
  authorized = true;
  ip_address = format_cidr (10 ∷ 0 ∷ 0 ∷ 1 ∷ []) 24;
  name = [];
}

abbrev identity : Identity
identity = record {
  address = 1 ∷ 2 ∷ 3 ∷ 4 ∷ 5 ∷ [];
  public_key = replicate 32 1;
  private_key = replicate 32 2;
}

joined_not_reached_example :
    let msg = join_message identity (format_uint 7 ∷ []) 7 9993 in
    let after = handle_message tables 5 0 (98 ∷ []) (some (join msg)) office in
    add_peer_from_info toy never [] needs_host 6 psk (peer_info after member node) client.agent.node
    ≡ client.agent.node
joined_not_reached_example =
    joined_not_reached toy never [] needs_host tables identity (format_uint 7 ∷ []) 7 9993 5 6 0
      (98 ∷ []) office conn member node psk client.agent.node (λ text. refl) is_online refl refl
