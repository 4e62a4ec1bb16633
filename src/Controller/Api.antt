-- ===== src/Controller/Api.antt =====
-- internal/controller/api.go: the requests that change networks and members, and those that list
-- them. A request gives its HTTP status beside the state. `id` is the text of the path; a body is
-- none where it cannot be bound. Logins are left to `Controller.Users`.
pub mod Membership
pub mod Addresses
use zerogo.Base.{
  ℕ, ◌+◌, ◌<◌, suc, Bool, true, false, ◌&&◌, Option, none, some, List, [], ◌∷◌, Bytes, length, be32,
  ltb, ◌==◌, format_uint, parse_uint, if◌then◌else◌, Result, ok, err,
}
use zerogo.Protocol.{PeerInfo, add_action, remove_action}
use zerogo.Protocol.Cidr.{parse_ip, parse_cidr, format_cidr, mask_ip}
use zerogo.Identity.{encode_to_string}
use zerogo.Controller.{IpNet, AllocationError, allocate_ip}
use zerogo.Controller.Store.{Database, NetworkRow, NodeRow, MemberRow, MemberUpdate, NetworkUpdate}
use zerogo.Controller.Sessions.{Hub, is_online, send_network_config_to_agent, broadcast_peer_update}

pub record AuthorizeRequest : Type 0 where
  pub node_address : Bytes
  pub authorized : Bool
  pub ip_address : Bytes
  pub name : Bytes

pub record CreateNetworkRequest : Type 0 where
  pub name : Bytes
  pub description : Bytes
  pub ip_range : Bytes
  pub ip6_range : Bytes
  pub mtu : ℕ
  pub multicast : Option Bool

-- A row of `listMembers`, and one of `listPeers`, beside the row of the table.
pub record Listed (A : Type 0) : Type 0 where
  pub row : A
  pub online : Bool

-- A row of `listNetworks`.
pub record ListedNetwork : Type 0 where
  pub row : NetworkRow
  pub member_count : ℕ
  pub online_count : ℕ

abbrev pub is_empty : Bytes → Bool
is_empty [] = true
is_empty (c ∷ s) = false

-- A text that is not empty is written to its column.
abbrev pub if_given : Bytes → Option Bytes
if_given [] = none
if_given (c ∷ s) = some (c ∷ s)

abbrev pub default_mtu : ℕ → ℕ
default_mtu mtu = if mtu == 0 then 2800 else mtu

abbrev pub or_true : Option Bool → Bool
or_true none = true
or_true (some b) = b

-- The address of a member: of a range's text, or else of an address's.
abbrev pub used_ip : Option (Bytes × ℕ) → Option Bytes → Option Bytes
used_ip (some (ip, ones)) alone = some ip
used_ip none alone = alone

abbrev pub cons_ip : Option Bytes → List Bytes → List Bytes
cons_ip none ips = ips
cons_ip (some ip) ips = ip ∷ ips

unfoldable pub used_ips : List MemberRow → List Bytes
used_ips [] = []
used_ips (m ∷ ms) =
    cons_ip (used_ip (parse_cidr m.ip_address) (parse_ip m.ip_address)) (used_ips ms)

abbrev pub print_allocated : ℕ → Result AllocationError Bytes → Option Bytes
print_allocated ones (err _) = none
print_allocated ones (ok ip) = some (format_cidr ip ones)

abbrev pub allocate_in : List Bytes → Option (Bytes × ℕ) → Option Bytes
allocate_in used none = none
allocate_in used (some (ip, ones)) =
    print_allocated ones (allocate_ip (record { ip = mask_ip ip ones; ones = ones }) used)

-- The row of a request, with the address that it gets.
abbrev pub member_of : ℕ → AuthorizeRequest → Bytes → MemberRow
member_of id req ip = record {
  network_id = id;
  node_address = req.node_address;
  authorized = req.authorized;
  ip_address = ip;
  name = req.name;
}

abbrev pub added_info : AuthorizeRequest → NodeRow → PeerInfo
added_info req node = record {
  address = node.address;
  public_key = node.public_key;
  endpoints = [];
  name = req.name;
}

abbrev pub removed_info : Bytes → PeerInfo
removed_info addr = record { address = addr; public_key = []; endpoints = []; name = [] }

module _ {W : Type 0} (d : Database W) where
  -- `allocateIP`: the text of the address, none for its errors.
  unfoldable pub allocate_text : NetworkRow → W → Option Bytes
  allocate_text net w =
      allocate_in (used_ips (d.members_with_ip net.id w)) (parse_cidr net.ip_range)

  -- The configuration for the new member, and the news of it for the others.
  abbrev pub announce : ℕ → AuthorizeRequest → Option NodeRow → Hub W → Hub W
  announce id req none hub = hub
  announce id req (some node) hub =
      broadcast_peer_update id add_action (added_info req node)
        (send_network_config_to_agent d req.node_address (format_uint id) hub)

  abbrev pub authorized_member : ℕ → AuthorizeRequest → Option W → Hub W → Hub W × ℕ
  authorized_member id req none hub = (hub, 500)
  authorized_member id req (some w) hub =
      let written = record hub { db = w } in
      (
        (if req.authorized
            then announce id req (d.first_node req.node_address w) written
            else written),
        200,
      )

  abbrev pub authorize_with : ℕ → AuthorizeRequest → Option Bytes → Hub W → Hub W × ℕ
  authorize_with id req none hub = (hub, 500)
  authorize_with id req (some ip) hub =
      authorized_member id req (d.assign_member (member_of id req ip) hub.db) hub

  -- Without an address in the request one is allocated.
  abbrev pub address_for : AuthorizeRequest → NetworkRow → W → Option Bytes
  address_for req net w =
      if req.authorized && is_empty req.ip_address then allocate_text net w else some req.ip_address

  abbrev pub authorize_in : ℕ → AuthorizeRequest → Option NetworkRow → Hub W → Hub W × ℕ
  authorize_in id req none hub = (hub, 404)
  authorize_in id req (some net) hub = authorize_with id req (address_for req net hub.db) hub

  abbrev pub authorize_parsed : Option ℕ → Option AuthorizeRequest → Hub W → Hub W × ℕ
  authorize_parsed none req hub = (hub, 400)
  authorize_parsed (some id) none hub = (hub, 400)
  authorize_parsed (some id) (some req) hub = authorize_in id req (d.first_network id hub.db) hub

  -- `authorizeMember`.
  unfoldable pub authorize_member : Bytes → Option AuthorizeRequest → Hub W → Hub W × ℕ
  authorize_member id req hub = authorize_parsed (parse_uint id) req hub

  abbrev pub update_of : AuthorizeRequest → MemberUpdate
  update_of req = record {
    authorized = req.authorized;
    ip_address = if_given req.ip_address;
    name = if_given req.name;
  }

  abbrev pub updated_member : Option W → Hub W → Hub W × ℕ
  updated_member none hub = (hub, 404)
  updated_member (some w) hub = (record hub { db = w }, 200)

  abbrev pub update_parsed : Option ℕ → Bytes → Option AuthorizeRequest → Hub W → Hub W × ℕ
  update_parsed none addr req hub = (hub, 400)
  update_parsed (some id) addr none hub = (hub, 400)
  update_parsed (some id) addr (some req) hub =
      updated_member (d.update_member id addr (update_of req) hub.db) hub

  -- `updateMember`; the database gives none where no row was affected.
  unfoldable pub update_member : Bytes → Bytes → Option AuthorizeRequest → Hub W → Hub W × ℕ
  update_member id addr req hub = update_parsed (parse_uint id) addr req hub

  abbrev pub remove_parsed : Option ℕ → Bytes → Hub W → Hub W × ℕ
  remove_parsed none addr hub = (hub, 400)
  remove_parsed (some id) addr hub = (
    broadcast_peer_update id remove_action (removed_info addr)
        (record hub { db = d.delete_member id addr hub.db }),
    200,
  )

  -- `removeMember`.
  unfoldable pub remove_member : Bytes → Bytes → Hub W → Hub W × ℕ
  remove_member id addr hub = remove_parsed (parse_uint id) addr hub

  abbrev pub created_network : Option W → Hub W → Hub W × ℕ
  created_network none hub = (hub, 500)
  created_network (some w) hub = (record hub { db = w }, 201)

  abbrev pub row_of : Bytes → Bytes → CreateNetworkRequest → NetworkRow
  row_of id_bytes psk_bytes req = record {
    id = be32 id_bytes;
    name = req.name;
    description = req.description;
    ip_range = req.ip_range;
    ip6_range = req.ip6_range;
    mtu = default_mtu req.mtu;
    multicast = or_true req.multicast;
    psk = encode_to_string psk_bytes;
  }

  -- `createNetwork`, given the random bytes that it draws.
  unfoldable pub create_network : Bytes → Bytes → Option CreateNetworkRequest → Hub W → Hub W × ℕ
  create_network id_bytes psk_bytes none hub = (hub, 400)
  create_network id_bytes psk_bytes (some req) hub =
      created_network (d.create_network (row_of id_bytes psk_bytes req) hub.db) hub

  abbrev pub network_update : CreateNetworkRequest → NetworkUpdate
  network_update req = record {
    name = if_given req.name;
    description = if_given req.description;
    ip_range = if_given req.ip_range;
    mtu = if ltb 0 req.mtu then some (req.mtu) else none;
    multicast = req.multicast;
  }

  abbrev pub update_found : ℕ → Option NetworkRow → Option CreateNetworkRequest → Hub W → Hub W × ℕ
  update_found id none req hub = (hub, 404)
  update_found id (some net) none hub = (hub, 400)
  update_found id (some net) (some req) hub =
      (record hub { db = d.update_network id (network_update req) hub.db }, 200)

  abbrev pub update_network_parsed : Option ℕ → Option CreateNetworkRequest → Hub W → Hub W × ℕ
  update_network_parsed none req hub = (hub, 400)
  update_network_parsed (some id) req hub = update_found id (d.first_network id hub.db) req hub

  -- `updateNetwork`.
  unfoldable pub update_network : Bytes → Option CreateNetworkRequest → Hub W → Hub W × ℕ
  update_network id req hub = update_network_parsed (parse_uint id) req hub

  abbrev pub delete_parsed : Option ℕ → Hub W → Hub W × ℕ
  delete_parsed none hub = (hub, 400)
  delete_parsed (some id) hub = (record hub { db = d.delete_network id hub.db }, 200)

  -- `deleteNetwork`.
  unfoldable pub delete_network : Bytes → Hub W → Hub W × ℕ
  delete_network id hub = delete_parsed (parse_uint id) hub

  abbrev pub found_network : Option NetworkRow → Option NetworkRow × ℕ
  found_network none = (none, 404)
  found_network (some net) = (some net, 200)

  abbrev pub get_parsed : Option ℕ → Hub W → Option NetworkRow × ℕ
  get_parsed none hub = (none, 400)
  get_parsed (some id) hub = found_network (d.first_network id hub.db)

  -- `getNetwork`.
  unfoldable pub get_network : Bytes → Hub W → Option NetworkRow × ℕ
  get_network id hub = get_parsed (parse_uint id) hub

  unfoldable pub count_online : Hub W → List MemberRow → ℕ
  count_online hub [] = 0
  count_online hub (m ∷ ms) =
      let rest = count_online hub ms in if is_online m.node_address hub then suc rest else rest

  unfoldable pub listed_networks : Hub W → List NetworkRow → List ListedNetwork
  listed_networks hub [] = []
  listed_networks hub (n ∷ ns) =
      record {
        row = n;
        member_count = length (d.members_of n.id hub.db);
        online_count = count_online hub (d.authorized_members n.id hub.db);
      }
      ∷ listed_networks hub ns

  -- `listNetworks`.
  unfoldable pub list_networks : Hub W → List ListedNetwork
  list_networks hub = listed_networks hub (d.all_networks hub.db)

  unfoldable pub listed_members : Hub W → List MemberRow → List (Listed MemberRow)
  listed_members hub [] = []
  listed_members hub (m ∷ ms) =
      record { row = m; online = is_online m.node_address hub } ∷ listed_members hub ms

  abbrev pub list_members_parsed : Option ℕ → Hub W → List (Listed MemberRow) × ℕ
  list_members_parsed none hub = ([], 400)
  list_members_parsed (some id) hub = (listed_members hub (d.members_of id hub.db), 200)

  -- `listMembers`.
  unfoldable pub list_members : Bytes → Hub W → List (Listed MemberRow) × ℕ
  list_members id hub = list_members_parsed (parse_uint id) hub

  unfoldable pub listed_nodes : Hub W → List NodeRow → List (Listed NodeRow)
  listed_nodes hub [] = []
  listed_nodes hub (n ∷ ns) =
      record { row = n; online = is_online n.address hub } ∷ listed_nodes hub ns

  -- `listPeers`.
  unfoldable pub list_peers : Hub W → List (Listed NodeRow)
  list_peers hub = listed_nodes hub (d.all_nodes hub.db)
