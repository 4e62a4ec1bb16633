-- ===== src/Protocol.antt =====
-- internal/protocol/messages.go: what agents and the controller say to each other, as parsed from
-- JSON. The `type` field is the constructor, and texts are their bytes. Sizes are not negative.
pub mod Cidr
mod Tests
use zerogo.Base.{ℕ, Bool, List, Bytes}

pub record PeerInfo : Type 0 where
  pub address : Bytes
  pub public_key : Bytes
  pub endpoints : List Bytes
  pub name : Bytes

pub record NetworkConfig : Type 0 where
  pub network_id : Bytes
  pub name : Bytes
  pub ip_range : Bytes
  pub ip6_range : Bytes
  pub mtu : ℕ
  pub multicast : Bool
  pub psk : Bytes
  pub assigned_ip : Bytes
  pub peers : List PeerInfo

-- The text of `action`: "add", "remove", or any other.
pub data PeerAction : Type 0 where
  add_action remove_action other_action : PeerAction

pub data ControllerMessage : Type 0 where
  network_config : NetworkConfig → ControllerMessage
  peer_update : PeerAction → PeerInfo → ControllerMessage
  error : ℕ → ControllerMessage

pub record JoinMessage : Type 0 where
  pub node_addr : Bytes
  pub public_key : Bytes
  pub networks : List Bytes
  pub endpoints : List Bytes
  pub platform : Bytes
  pub version : Bytes

pub record PeerStatus : Type 0 where
  pub address : Bytes
  pub latency_ms : ℕ
  pub path : Bytes

pub data AgentMessage : Type 0 where
  join : JoinMessage → AgentMessage
  status : List PeerStatus → AgentMessage
  leave : List Bytes → AgentMessage
