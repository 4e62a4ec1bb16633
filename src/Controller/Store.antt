-- ===== src/Controller/Store.antt =====
-- internal/controller/db.go: the rows that the controller keeps, and the queries on them that it
-- makes through gorm, whose code is not in the repository. `W` is the state of the database. Times
-- of creation, which nothing reads, and rules, which nothing writes, are left out.
use zerogo.Base.{
  ℕ, ◌<◌, ◌≡◌, ◌≢◌, Bool, true, Option, none, some, List, [], Bytes, All, format_uint,
}

pub record NetworkRow : Type 0 where
  pub id : ℕ
  pub name : Bytes
  pub description : Bytes
  pub ip_range : Bytes
  pub ip6_range : Bytes
  pub mtu : ℕ
  pub multicast : Bool
  pub psk : Bytes

pub record NodeRow : Type 0 where
  pub address : Bytes
  pub public_key : Bytes
  pub platform : Bytes
  pub last_seen : ℕ

pub record MemberRow : Type 0 where
  pub network_id : ℕ
  pub node_address : Bytes
  pub authorized : Bool
  pub ip_address : Bytes
  pub name : Bytes

-- The changes that `updateMember` makes: none stands for a column that is not named.
pub record MemberUpdate : Type 0 where
  pub authorized : Bool
  pub ip_address : Option Bytes
  pub name : Option Bytes

pub record NetworkUpdate : Type 0 where
  pub name : Option Bytes
  pub description : Option Bytes
  pub ip_range : Option Bytes
  pub mtu : Option ℕ
  pub multicast : Option Bool

-- The queries, by the tables and the conditions that they name. `key` is the id that a text is
-- compared as where a query compares it with a column of numbers. A write gives none if it fails.
pub record Database (W : Type 0) : Type 0 where
  pub key : Bytes → Option ℕ
  pub first_network : ℕ → W → Option NetworkRow
  pub all_networks : W → List NetworkRow
  pub create_network : NetworkRow → W → Option W
  pub update_network : ℕ → NetworkUpdate → W → W
  pub all_nodes : W → List NodeRow
  pub delete_network : ℕ → W → W
  pub first_node : Bytes → W → Option NodeRow
  pub assign_node : NodeRow → W → W
  pub touch_node : Bytes → ℕ → W → W
  pub first_member : ℕ → Bytes → W → Option MemberRow
  pub members_of : ℕ → W → List MemberRow
  pub members_with_ip : ℕ → W → List MemberRow
  pub authorized_members : ℕ → W → List MemberRow
  pub authorized_but : ℕ → Bytes → W → List MemberRow
  pub create_member : MemberRow → W → Option W
  pub assign_member : MemberRow → W → Option W
  pub update_member : ℕ → Bytes → MemberUpdate → W → Option W
  pub delete_member : ℕ → Bytes → W → W

-- A row that a query for `network` and members other than `addr` may give.
abbrev pub IsOther : ℕ → Bytes → MemberRow → Type 0
IsOther network addr m = (m.network_id ≡ network) × (m.node_address ≢ addr) × (m.authorized ≡ true)

-- What the documentation promises of the queries that the theorems lean on.
pub record Laws {W : Type 0} (d : Database W) : Type 0 where
  pub key-format_uint : (id : ℕ) → id < 4294967296 → d.key (format_uint id) ≡ some id
  pub first_network-id :
      (id : ℕ) (w : W) (n : NetworkRow) → d.first_network id w ≡ some n → n.id ≡ id
  pub authorized_but-IsOther :
      (id : ℕ) (addr : Bytes) (w : W) → All (IsOther id addr) (d.authorized_but id addr w)
  -- An assignment writes the fields that are not zero.
  pub first_member-assign_member :
      (m : MemberRow) (w w' : W)
      → d.assign_member m w ≡ some w'
      → m.authorized ≡ true
      → m.ip_address ≢ []
      → (row : MemberRow) × (d.first_member m.network_id m.node_address w' ≡ some row)
        × (row.authorized ≡ true)
        × (row.ip_address ≡ m.ip_address)
  pub first_network-assign_member :
      (m : MemberRow) (w w' : W) (id : ℕ)
      → d.assign_member m w ≡ some w'
      → d.first_network id w' ≡ d.first_network id w
  pub first_member-delete_member :
      (id : ℕ) (addr : Bytes) (w : W) → d.first_member id addr (d.delete_member id addr w) ≡ none
  pub first_network-delete_member :
      (id : ℕ) (addr : Bytes) (w : W) (other : ℕ)
      → d.first_network other (d.delete_member id addr w) ≡ d.first_network other w
