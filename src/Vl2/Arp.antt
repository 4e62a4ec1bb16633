-- ===== src/Vl2/Arp.antt =====
-- internal/vl2/arp.go: the proxy that answers ARP requests from a cache. `time.Now()` is an
-- argument; addresses are byte lists, a `[4]byte` key the list of its four bytes.
pub mod Cache
pub mod Expiry
pub mod Replies
mod Tests
use zerogo.Base.{
  ℕ, ◌+◌, ◌-◌, Bool, true, false, not, ◌&&◌, ◌||◌, Option, none, some, List, [], ◌∷◌, ◌++◌, Bytes,
  Table, get, insert, replicate, length, get_or, take, drop, copy_at, be16, put_be16, bytes_eq, ltb,
  leb, ◌==◌, if◌then◌else◌,
}
use zerogo.Vl2.Frame.{EthernetFrame, ethernet_header_size, ether_type_arp}
use zerogo.Vl2.Mac.{mac_to_key}
use zerogo.Vl2.Eviction.{evict_oldest, purge}

abbrev pub arp_header_size : ℕ
arp_header_size = 28

abbrev pub arp_request : ℕ
arp_request = 1

abbrev pub arp_reply : ℕ
arp_reply = 2

-- Five minutes, in nanoseconds.
abbrev pub arp_cache_expiry : ℕ
arp_cache_expiry = 300_000_000_000

abbrev pub arp_cache_max_size : ℕ
arp_cache_max_size = 1024

pub record ArpEntry : Type 0 where
  pub mac : Bytes
  pub last_seen : ℕ
  pub pinned : Bool

-- The cache of an `ARPProxy`.
abbrev pub ArpCache : Type 0
ArpCache = Table ArpEntry

-- `NewARPProxy`.
abbrev pub new_arp_proxy : ArpCache
new_arp_proxy = []

-- `net.IP.To4`: a four-byte address, or the last four bytes of an IPv4-mapped one.
unfoldable pub to4 : Bytes → Option Bytes
unfolding bytes_eq
to4 ip =
    if length ip == 4
    then some ip
    else if length ip == 16 && bytes_eq (take 12 ip) (replicate 10 0 ++ 0xff ∷ 0xff ∷ [])
    then some (drop 12 ip)
    else none

-- A pinned entry is never chosen by `evictOldest`.
abbrev pub arp_age : ArpEntry → Option ℕ
arp_age v = if v.pinned then none else some v.last_seen

-- `ARPProxy.evictOldest`.
unfoldable pub evict_oldest_arp : ArpCache → ArpCache
evict_oldest_arp m = evict_oldest arp_age m

-- What `Learn` and `learn` share: room is made first, then the entry is written.
unfoldable pub store_entry : ℕ → Bool → Bytes → Bytes → ArpCache → ArpCache
store_entry now pinned ip mac cache =
    let room = if leb arp_cache_max_size (length cache) then evict_oldest_arp cache else cache in
    insert ip (record { mac = mac_to_key mac; last_seen = now; pinned = pinned }) room

-- `ARPProxy.learn`.
unfoldable pub learn : ℕ → Bytes → Bytes → ArpCache → ArpCache
learn now ip mac cache = store_entry now false ip mac cache

-- `ARPProxy.Learn`.
unfoldable pub seed : ℕ → Bytes → Bytes → ArpCache → ArpCache
seed now ip mac cache = elim (to4 ip) [
  | none ↦ cache
  | some ip4 ↦ store_entry now true ip4 mac cache
]

-- `found && time.Since(entry.LastSeen) < ARPCacheExpiry`.
unfoldable pub fresh_mac : ℕ → Option ArpEntry → Option Bytes
fresh_mac now none = none
fresh_mac now (some v) = if ltb (now - v.last_seen) arp_cache_expiry then some v.mac else none

-- `ARPProxy.Lookup`.
unfoldable pub lookup : ℕ → Bytes → ArpCache → Option Bytes
lookup now ip cache = elim (to4 ip) [ none ↦ none | some ip4 ↦ fresh_mac now (get ip4 cache) ]

-- The guard of `HandleARP` and `PeerFromARP`: long enough, Ethernet and IPv4.
unfoldable pub is_ethernet_ipv4 : Bytes → Bool
unfolding be16
is_ethernet_ipv4 payload =
    not (ltb (length payload) arp_header_size)
    && not (
        not (be16 (take 2 payload) == 1)
        || (not (be16 (take 2 (drop 2 payload)) == 0x0800)
            || (not (get_or payload 4 0 == 6) || not (get_or payload 5 0 == 4))))

unfoldable pub operation : Bytes → ℕ
unfolding be16
operation payload = be16 (take 2 (drop 6 payload))

abbrev pub sender_mac : Bytes → Bytes
sender_mac payload = take 6 (drop 8 payload)

abbrev pub sender_ip : Bytes → Bytes
sender_ip payload = take 4 (drop 14 payload)

abbrev pub target_ip : Bytes → Bytes
target_ip payload = take 4 (drop 24 payload)

-- `copy(buf[off:off+n], src)`.
abbrev pub copy_range : ℕ → ℕ → Bytes → Bytes → Bytes
copy_range off n src buf = copy_at off (take n src) buf

-- `buildARPReply`: the Ethernet header, then the ARP body from offset 14 on.
unfoldable pub build_arp_reply : Bytes → Bytes → Bytes → Bytes → Bytes
unfolding copy_at put_be16
build_arp_reply resolved_mac requester_mac requester_ip resolved_ip = copy_range 38 4 requester_ip (
    copy_range 32 6 requester_mac (
      copy_range 28 4 resolved_ip (
        copy_range 22 6 resolved_mac (
          copy_range 20 2 (put_be16 arp_reply) (
            copy_at 19 (4 ∷ []) (
              copy_at 18 (6 ∷ []) (
                copy_range 16 2 (put_be16 0x0800) (
                  copy_range 14 2 (put_be16 1) (
                    copy_range 12 2 (put_be16 ether_type_arp) (
                      copy_range 6 6 resolved_mac (
                        copy_range 0 6 requester_mac
                          (replicate (ethernet_header_size + arp_header_size) 0))))))))))))

abbrev pub answer : Bytes → Option Bytes → Option Bytes
answer payload none = none
answer payload (some mac) =
    some (build_arp_reply mac (sender_mac payload) (sender_ip payload) (target_ip payload))

-- `HandleARP` after its guard: the cache afterwards, and the reply.
unfoldable pub handle_ipv4_arp : ℕ → Bytes → ArpCache → ArpCache × Option Bytes
handle_ipv4_arp now payload cache =
    let learned = learn now (sender_ip payload) (sender_mac payload) cache in
    if operation payload == arp_request
    then (learned, answer payload (fresh_mac now (get (target_ip payload) learned)))
    else if operation payload == arp_reply
    then (learn now (sender_ip payload) (sender_mac payload) learned, none)
    else (learned, none)

-- `HandleARP`.
unfoldable pub handle_arp : ℕ → EthernetFrame → ArpCache → ArpCache × Option Bytes
handle_arp now frame cache =
    if is_ethernet_ipv4 frame.payload
    then handle_ipv4_arp now frame.payload cache
    else (cache, none)

-- `PeerFromARP`: the sender's IP and MAC.
unfoldable pub peer_from_arp : EthernetFrame → Option (Bytes × Bytes)
peer_from_arp frame =
    if is_ethernet_ipv4 frame.payload
    then some (sender_ip frame.payload, sender_mac frame.payload)
    else none

abbrev pub is_expired : ℕ → ArpEntry → Bool
is_expired now v = not v.pinned && ltb v.last_seen (now - arp_cache_expiry)

-- `ARPProxy.CleanExpired`.
unfoldable pub clean_expired_arp : ℕ → ArpCache → ArpCache × ℕ
clean_expired_arp now cache = purge (is_expired now) cache
