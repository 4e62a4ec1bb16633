-- ===== src/Vl2/Arp/Cache.antt =====
-- The ARP cache: its bound, pinned entries, learning and expiry (internal/vl2/arp.go).
use zerogo.Base.{
  ℕ, suc, ◌+◌, ◌≤◌, ◌<◌, ◌≡◌, ◌≢◌, inl, inr, refl, Bool, true, false, none, some, [], ◌∷◌, Bytes,
  get, insert, delete, get-insert, get-delete, length-insert, length-insert-le, length-delete-lt,
  Distinct, insert-Distinct, length, ◌==◌, if◌then◌else◌, arith, Bool-cases, bytes_eq_iff,
  get-insert_self,
}
use zerogo.Vl2.Eviction.{evict_oldest}
use zerogo.Vl2.Eviction.Choice.{evict_oldest-cases, evict_oldest-Distinct, Ageless}
use zerogo.Vl2.Frame.{EthernetFrame}
use zerogo.Vl2.Mac.{mac_to_key}
use zerogo.Vl2.Arp.{
  ArpCache, ArpEntry, arp_age, evict_oldest_arp, store_entry, learn, seed, to4, handle_arp,
  handle_ipv4_arp, is_ethernet_ipv4, arp_cache_max_size, sender_ip, sender_mac, operation,
  arp_request, arp_reply,
}

-- Eviction keeps every pinned entry.
evict-get_pinned :
    (m : ArpCache) (j : Bytes) (v : ArpEntry)
    → Distinct m
    → get j m ≡ some v
    → v.pinned ≡ true
    → get j (evict_oldest arp_age m) ≡ some v
evict-get_pinned m j v d g p = elim (evict_oldest-cases arp_age m d) [
  | inl (_, e) ↦ rw e g
  | inr (k, w, t, gw, a, _, e) ↦ rw e (ground (arith, get-delete k j m, bytes_eq_iff k j))
]

-- The number of pinned entries.
unfoldable pub pinned_count : ArpCache → ℕ
pinned_count [] = 0
pinned_count ((k, v) ∷ m) = if v.pinned then suc (pinned_count m) else pinned_count m

Ageless-pinned_count : (m : ArpCache) → Ageless arp_age m → pinned_count m ≡ length m
unfolding pinned_count
Ageless-pinned_count [] h = refl
Ageless-pinned_count ((k, v) ∷ m) h = ground (arith, Ageless-pinned_count m h.1)

evict-length :
    (m : ArpCache)
    → Distinct m
    → pinned_count m < length m
    → length (evict_oldest arp_age m) < length m
evict-length m d h = elim (evict_oldest-cases arp_age m d) [
  | inl (old, e) ↦ absurd (omega (arith, Ageless-pinned_count m old))
  | inr (k, w, t, gw, a, _, e) ↦ rw e (length-delete-lt k m w gw)
]

pinned_count-delete : (k : Bytes) (m : ArpCache) → pinned_count (delete k m) ≤ pinned_count m
unfolding pinned_count delete
pinned_count-delete k [] = omega arith
pinned_count-delete k ((i, v) ∷ m) = ground (arith, pinned_count-delete k m)

pinned_count-insert :
    (k : Bytes) (v : ArpEntry) (m : ArpCache)
    → v.pinned ≡ false
    → pinned_count (insert k v m) ≤ pinned_count m
unfolding pinned_count insert
pinned_count-insert k v [] h = ground arith
pinned_count-insert k v ((i, w) ∷ m) h = ground (arith, pinned_count-insert k v m h)

module _ (now : ℕ) (pinned : Bool) (ip mac : Bytes) (cache : ArpCache) where
  abbrev stored : ArpEntry
  stored = record { mac = mac_to_key mac; last_seen = now; pinned = pinned }

  pub store_entry-get :
      get ip (store_entry now pinned ip mac cache)
      ≡ some (record { mac = mac_to_key mac; last_seen = now; pinned = pinned })
  unfolding store_entry
  store_entry-get = get-insert_self ip stored _

  pub store_entry-Distinct : Distinct cache → Distinct (store_entry now pinned ip mac cache)
  unfolding store_entry evict_oldest_arp
  store_entry-Distinct d =
      insert-Distinct ip stored _ (ground (arith, evict_oldest-Distinct arp_age cache d))

  pub store_entry-get_pinned :
      (j : Bytes) (v : ArpEntry)
      → Distinct cache
      → get j cache ≡ some v
      → v.pinned ≡ true
      → ip ≢ j
      → get j (store_entry now pinned ip mac cache) ≡ some v
  unfolding store_entry evict_oldest_arp
  store_entry-get_pinned j v d g p ne = ground (
    arith,
    get-insert ip j stored cache,
    get-insert ip j stored (evict_oldest arp_age cache),
    evict-get_pinned cache j v d g p,
    bytes_eq_iff ip j,
  )

-- A frame that passes the guard leaves a cache that has just learned the sender.
pub handle_arp-learn :
    (now : ℕ) (frame : EthernetFrame) (cache : ArpCache)
    → is_ethernet_ipv4 frame.payload ≡ true
    → (m : ArpCache) × ((handle_arp now frame cache).0
        ≡ learn now (sender_ip frame.payload) (sender_mac frame.payload) m)
unfolding handle_arp handle_ipv4_arp
handle_arp-learn now frame cache arp =
    let p = frame.payload in
    let once = learn now (sender_ip p) (sender_mac p) cache in
    rw arp (elim (Bool-cases (operation p == arp_request)) [
      | inl request ↦ (cache, rw request)
      | inr not_request ↦ rw not_request (elim (Bool-cases (operation p == arp_reply)) [
        | inl reply ↦ (once, rw reply)
        | inr other ↦ (cache, rw other)
      ])
    ])

-- `handle_arp` leaves the cache alone, or learns the sender once, or twice.
pub handle_arp-cache {ℓ} :
    (P : ArpCache → Type ℓ) (now : ℕ) (frame : EthernetFrame) (cache : ArpCache)
    → P cache
    → ((m : ArpCache) → P m → P (learn now (sender_ip frame.payload) (sender_mac frame.payload) m))
    → P (handle_arp now frame cache).0
unfolding handle_arp handle_ipv4_arp
handle_arp-cache P now frame cache h step =
    let p = frame.payload in
    let once = step cache h in
    let twice = step _ once in
    elim (Bool-cases (is_ethernet_ipv4 p)) [
      | inr other ↦ rw other h
      | inl arp ↦ rw arp (elim (Bool-cases (operation p == arp_request)) [
        | inl request ↦ rw request once
        | inr not_request ↦ rw not_request (elim (Bool-cases (operation p == arp_reply)) [
          | inl reply ↦ rw reply twice
          | inr other ↦ rw other once
        ])
      ])
    ]

-- The bound holds as long as something can be evicted.
pub record IsBounded (cache : ArpCache) : Type 0 where
  pub distinct : Distinct cache
  pub evictable : pinned_count cache < arp_cache_max_size
  pub bounded : length cache ≤ arp_cache_max_size

evict-pinned_count :
    (m : ArpCache) → Distinct m → pinned_count (evict_oldest arp_age m) ≤ pinned_count m
evict-pinned_count m d = elim (evict_oldest-cases arp_age m d) [
  | inl (_, e) ↦ rw e (omega arith)
  | inr (k, w, t, gw, a, _, e) ↦ rw e (pinned_count-delete k m)
]

store_entry-bounds :
    (now : ℕ) (ip mac : Bytes) (cache : ArpCache)
    → IsBounded cache
    → (pinned_count (store_entry now false ip mac cache) ≤ pinned_count cache)
      × (length (store_entry now false ip mac cache) ≤ arp_cache_max_size)
unfolding store_entry evict_oldest_arp
store_entry-bounds now ip mac cache h =
    let v : ArpEntry = record { mac = mac_to_key mac; last_seen = now; pinned = false } in
    ground (
      arith,
      pinned_count-insert ip v cache refl,
      pinned_count-insert ip v (evict_oldest arp_age cache) refl,
      length-insert-le ip v cache,
      length-insert-le ip v (evict_oldest arp_age cache),
      evict-pinned_count cache h.distinct,
      evict-length cache h.distinct,
    )

learn-IsBounded :
    (now : ℕ) (ip mac : Bytes) (cache : ArpCache)
    → IsBounded cache
    → IsBounded (learn now ip mac cache)
unfolding learn
learn-IsBounded now ip mac cache h = record {
  distinct = store_entry-Distinct now false ip mac cache h.distinct;
  evictable = omega (arith, (store_entry-bounds now ip mac cache h).0);
  bounded = (store_entry-bounds now ip mac cache h).1;
}

-- Handling any frame keeps the cache a map, keeps it within 1024 entries, and keeps fewer than
-- 1024 of them pinned, where that holds before.
pub handle_arp-IsBounded :
    (now : ℕ) (frame : EthernetFrame) (cache : ArpCache)
    → IsBounded cache
    → IsBounded (handle_arp now frame cache).0
handle_arp-IsBounded now frame cache h =
    handle_arp-cache IsBounded now frame cache h
      (learn-IsBounded now (sender_ip frame.payload) (sender_mac frame.payload))

pinned_count-le : (m : ArpCache) → pinned_count m ≤ length m
unfolding pinned_count
pinned_count-le [] = omega arith
pinned_count-le ((k, v) ∷ m) = ground (arith, pinned_count-le m)

all_pinned :
    (m : ArpCache) (j : Bytes) (w : ArpEntry)
    → pinned_count m ≡ length m
    → get j m ≡ some w
    → w.pinned ≡ true
unfolding pinned_count get
all_pinned [] j w h e = absurd (cc)
all_pinned ((k, v) ∷ m) j w h e = ground (arith, pinned_count-le m, all_pinned m j w)

-- Seeding does not keep the bound: a cache of 1024 pinned entries grows by every new address.
pub seed_overflow :
    (now : ℕ) (ip mac ip4 : Bytes) (cache : ArpCache)
    → to4 ip ≡ some ip4
    → Distinct cache
    → arp_cache_max_size ≤ length cache
    → pinned_count cache ≡ length cache
    → get ip4 cache ≡ none
    → length (seed now ip mac cache) ≡ length cache + 1
unfolding seed store_entry evict_oldest_arp
seed_overflow now ip mac ip4 cache e d full all new = elim (evict_oldest-cases arp_age cache d) [
  | inl (_, same) ↦
      rw (e, seed, same) (ground (arith, length-insert ip4 (stored now true ip mac cache) cache))
  | inr (k, w, t, g, a, _, _) ↦ absurd (ground (arith, all_pinned cache k w all g))
]
