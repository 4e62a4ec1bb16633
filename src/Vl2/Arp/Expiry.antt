-- ===== src/Vl2/Arp/Expiry.antt =====
-- How long an ARP entry is kept and how long it answers (internal/vl2/arp.go).
use zerogo.Base.{
  ℕ, ◌+◌, ◌-◌, ◌≤◌, ◌≡◌, ◌≢◌, sym, true, false, none, some, Bytes, get, Distinct, length, drop,
  length-take, length-drop, replicate, copy_full, ltb, if◌then◌else◌, arith,
}
use zerogo.Vl2.Eviction.Choice.{get-purge, length-purge}
use zerogo.Vl2.Frame.{EthernetFrame}
use zerogo.Vl2.Mac.{mac_to_key}
use zerogo.Vl2.Arp.{
  ArpCache, ArpEntry, store_entry, learn, seed, fresh_mac, lookup, to4, handle_arp,
  is_ethernet_ipv4, clean_expired_arp, is_expired, arp_cache_expiry, sender_ip, sender_mac,
}
use zerogo.Vl2.Arp.Cache.{
  store_entry-get, store_entry-get_pinned, store_entry-Distinct, handle_arp-cache, handle_arp-learn,
}

pub mac_to_key-six : (mac : Bytes) → length mac ≡ 6 → mac_to_key mac ≡ mac
unfolding mac_to_key
mac_to_key-six mac h = copy_full mac (replicate 6 0) (sym h)

pub length-payload : (payload : Bytes) → is_ethernet_ipv4 payload ≡ true → 28 ≤ length payload
unfolding is_ethernet_ipv4
length-payload payload h = ground arith

pub length-sender_mac :
    (payload : Bytes) → is_ethernet_ipv4 payload ≡ true → length (sender_mac payload) ≡ 6
length-sender_mac payload h =
    omega (arith, length-payload payload h, length-take 6 (drop 8 payload), length-drop 8 payload)

-- `clean_expired_arp` drops exactly the entries that are not pinned and were last seen more than
-- five minutes ago, keeps all others as they were, and returns the number dropped.
pub clean_expired_arp_lem :
    (now : ℕ) (cache : ArpCache)
    → Distinct cache
    → ((j : Bytes)
        → get j (clean_expired_arp now cache).0 ≡ elim (get j cache) [
          | none ↦ none
          | some v ↦
              if v.pinned
              then some v
              else if ltb (v.last_seen + arp_cache_expiry) now
              then none
              else some v
        ])
      × (length (clean_expired_arp now cache).0 + (clean_expired_arp now cache).1 ≡ length cache)
unfolding clean_expired_arp
clean_expired_arp_lem now cache d = (
  (λ j. ground (arith, get-purge (is_expired now) j cache d)),
  length-purge (is_expired now) cache,
)

-- A pinned entry stays as it is through every frame that another address sent, and through every
-- clean-up.
pub pinned_kept :
    (now : ℕ) (frame : EthernetFrame) (cache : ArpCache) (j : Bytes) (v : ArpEntry)
    → Distinct cache
    → get j cache ≡ some v
    → v.pinned ≡ true
    → sender_ip frame.payload ≢ j
    → (get j (handle_arp now frame cache).0 ≡ some v)
      × (get j (clean_expired_arp now cache).0 ≡ some v)
unfolding learn
pinned_kept now frame cache j v d g p other = (
  (handle_arp-cache (λ m. Distinct m × (get j m ≡ some v)) now frame cache (d, g)
      λ m h. (
        store_entry-Distinct now false (sender_ip frame.payload) (sender_mac frame.payload) m h.0,
        store_entry-get_pinned now false (sender_ip frame.payload) (sender_mac frame.payload) m j v
            h.0 h.1 p other,
      )).1,
  ground (arith, (clean_expired_arp_lem now cache d).0 j),
)

-- A frame whose sender holds a pinned address takes the entry over: afterwards the address leads to
-- the frame's hardware address, and is no longer pinned. So it is for any cache and any address.
pub handle_arp-get_sender :
    (now : ℕ) (frame : EthernetFrame) (cache : ArpCache)
    → is_ethernet_ipv4 frame.payload ≡ true
    → get (sender_ip frame.payload) (handle_arp now frame cache).0
      ≡ some (record { mac = sender_mac frame.payload; last_seen = now; pinned = false })
unfolding learn
handle_arp-get_sender now frame cache h =
    let (m, e) = handle_arp-learn now frame cache h in
    rw (e, store_entry-get now false (sender_ip frame.payload) (sender_mac frame.payload) m)
      (rw (mac_to_key-six (sender_mac frame.payload) (length-sender_mac frame.payload h)))

-- A seeded address resolves for five minutes only. After that it is not found, although the entry
-- is pinned and no clean-up ever removes it.
pub seed_goes_stale :
    (t1 t2 : ℕ) (ip ip4 mac : Bytes) (cache : ArpCache)
    → to4 ip ≡ some ip4
    → Distinct cache
    → let kept = (clean_expired_arp t2 (seed t1 ip mac cache)).0 in
      (get ip4 kept ≡ some (record { mac = mac_to_key mac; last_seen = t1; pinned = true }))
      × (lookup t2 ip kept
          ≡ (if ltb (t2 - t1) arp_cache_expiry then some (mac_to_key mac) else none))
unfolding seed lookup fresh_mac
seed_goes_stale t1 t2 ip ip4 mac cache e d =
    let stored = store_entry t1 true ip4 mac cache in
    let seeded : seed t1 ip mac cache ≡ stored = rw (e, seed) in
    let kept =
      (clean_expired_arp_lem t2 stored (store_entry-Distinct t1 true ip4 mac cache d)).0 ip4 in
    let there = store_entry-get t1 true ip4 mac cache in
    rw seeded (ground (arith, kept, there), ground (arith, kept, there))
