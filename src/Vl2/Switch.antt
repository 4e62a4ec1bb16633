-- ===== src/Vl2/Switch.antt =====
-- internal/vl2/switch.go: the learning switch of one network. `time.Now()` is an argument of the
-- operations that read it; a zero address stands for the local device.
pub mod Learning
pub mod Routing
pub mod Runs
pub mod Bridge
pub mod Refinement
pub mod History
pub mod Senders
use zerogo.Base.{
  ℕ, ◌-◌, Bool, true, false, not, ◌&&◌, ◌||◌, Option, none, some, [], Bytes, Table, get, insert,
  replicate, length, ltb, leb, if◌then◌else◌, Result, ok, err,
}
use zerogo.Vl2.Frame.{EthernetFrame, FrameError, parse_ethernet_frame, is_broadcast, is_multicast}
use zerogo.Vl2.Mac.{mac_to_key}
use zerogo.Vl2.Eviction.{evict_oldest, purge}
use zerogo.Vl2.Sender.{SendError, PeerSender}

-- Five minutes, in nanoseconds.
abbrev pub mac_table_expiry : ℕ
mac_table_expiry = 300_000_000_000

abbrev pub mac_table_max_size : ℕ
mac_table_max_size = 4096

abbrev pub zero_address : Bytes
zero_address = replicate 5 0

pub record MacEntry : Type 0 where
  pub peer_addr : Bytes
  pub last_seen : ℕ
  pub is_local : Bool

pub record Switch : Type 0 where
  pub network_id : ℕ
  pub mac_table : Table MacEntry

pub data SwitchError : Type 0 where
  bad_frame : FrameError → SwitchError
  not_sent : SendError → SwitchError

-- `NewSwitch`.
unfoldable pub new_switch : ℕ → Switch
new_switch network_id = record { network_id = network_id; mac_table = [] }

-- Every entry of the MAC table can be evicted.
abbrev pub mac_age : MacEntry → Option ℕ
mac_age v = some v.last_seen

-- `Switch.evictOldest`.
unfoldable pub evict_oldest_mac : Table MacEntry → Table MacEntry
evict_oldest_mac m = evict_oldest mac_age m

-- `Switch.learn`.
unfoldable pub learn : ℕ → Bytes → Bytes → Bool → Switch → Switch
learn now mac peer_addr is_local sw =
    let room =
      if leb mac_table_max_size (length sw.mac_table)
      then evict_oldest_mac sw.mac_table
      else sw.mac_table in
    record sw {
      mac_table =
          insert (mac_to_key mac)
            (record { peer_addr = peer_addr; last_seen = now; is_local = is_local }) room;
    }

abbrev pub is_group : EthernetFrame → Bool
is_group f = is_broadcast f || is_multicast f

-- `CleanExpired`: the entries that go.
abbrev pub is_stale : ℕ → MacEntry → Bool
is_stale now v = ltb v.last_seen (now - mac_table_expiry) && not v.is_local

unfoldable pub clean_expired : ℕ → Switch → Switch × ℕ
clean_expired now sw =
    let (rest, removed) = purge (is_stale now) sw.mac_table in
    (record sw { mac_table = rest }, removed)

-- `MACTableSize`.
unfoldable pub mac_table_size : Switch → ℕ
mac_table_size sw = length sw.mac_table

abbrev pub sent_error : Option SendError → Option SwitchError
sent_error none = none
sent_error (some e) = some (not_sent e)

module _ {ℓ} {W : Type ℓ} (sender : PeerSender W) where
  -- The end of `HandleLocalFrame`, after the table was read.
  unfoldable pub route_local : Switch → Option MacEntry → Bytes → W → W × Option SwitchError
  route_local sw none frame w =
      let (w', e) = sender.broadcast_to_peers sw.network_id frame zero_address w in
      (w', sent_error e)
  route_local sw (some entry) frame w =
      if entry.is_local
      then (w, none)
      else (let (w', e) = sender.send_to_peer entry.peer_addr sw.network_id frame w in
          (w', sent_error e))

  unfoldable pub forward_local : Switch → EthernetFrame → Bytes → W → W × Option SwitchError
  unfolding route_local
  forward_local sw parsed frame w =
      if is_group parsed
      then (let (w', e) = sender.broadcast_to_peers sw.network_id frame zero_address w in
          (w', sent_error e))
      else route_local sw (get (mac_to_key parsed.dst_mac) sw.mac_table) frame w

  -- `HandleLocalFrame`: the switch and the sender's state afterwards, and the error.
  unfoldable pub handle_local_frame : ℕ → Bytes → Switch → W → Switch × W × Option SwitchError
  unfolding forward_local
  handle_local_frame now frame sw w = elim (parse_ethernet_frame frame) [
    | err e ↦ (sw, w, some (bad_frame e))
    | ok parsed ↦
        let sw' = learn now parsed.src_mac zero_address true sw in
        let (w', e) = forward_local sw' parsed frame w in (sw', w', e)
  ]

  -- The end of `HandleRemoteFrame`; the result is the frame to inject. Send errors are dropped.
  unfoldable pub route_remote : Bytes → Switch → Option MacEntry → Bytes → W → W × Option Bytes
  route_remote peer sw none frame w =
      ((sender.broadcast_to_peers sw.network_id frame peer w).0, some frame)
  route_remote peer sw (some entry) frame w =
      if entry.is_local
      then (w, some frame)
      else ((sender.send_to_peer entry.peer_addr sw.network_id frame w).0, none)

  unfoldable pub forward_remote : Bytes → Switch → EthernetFrame → Bytes → W → W × Option Bytes
  unfolding route_remote
  forward_remote peer sw parsed frame w =
      if is_group parsed
      then ((sender.broadcast_to_peers sw.network_id frame peer w).0, some frame)
      else route_remote peer sw (get (mac_to_key parsed.dst_mac) sw.mac_table) frame w

  -- `HandleRemoteFrame`: the states afterwards, the frame to inject, and the error.
  unfoldable pub handle_remote_frame :
      ℕ → Bytes → Bytes → Switch → W → Switch × W × Option Bytes × Option SwitchError
  unfolding forward_remote
  handle_remote_frame now peer frame sw w = elim (parse_ethernet_frame frame) [
    | err e ↦ (sw, w, none, some (bad_frame e))
    | ok parsed ↦
        let sw' = learn now parsed.src_mac peer false sw in
        let (w', inject) = forward_remote peer sw' parsed frame w in (sw', w', inject, none)
  ]
