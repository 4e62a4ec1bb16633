-- ===== src/Vl2/Arp/Replies.antt =====
-- What the ARP proxy answers, and when (internal/vl2/arp.go).
use zerogo.Base.{
  ℕ, ◌-◌, ◌<◌, ◌≡◌, inl, inr, refl, Bool, true, false, Option, none, some, ◌∷◌, [], Bytes, get,
  get-insert, get-delete, Distinct, length, drop, get_or, length-take, length-drop, length-copy,
  replicate, arith, ok,
}
use zerogo.Vl2.Eviction.{evict_oldest}
use zerogo.Vl2.Eviction.Choice.{evict_oldest-cases}
use zerogo.Vl2.Frame.{EthernetFrame, parse_ethernet_frame, is_arp}
use zerogo.Vl2.Mac.{mac_to_key}
use zerogo.Vl2.Arp.{
  ArpCache, ArpEntry, arp_age, evict_oldest_arp, store_entry, learn, fresh_mac, handle_arp,
  handle_ipv4_arp, is_ethernet_ipv4, arp_cache_expiry, sender_ip, sender_mac, target_ip, operation,
  arp_request, arp_reply, answer, build_arp_reply, peer_from_arp,
}
use zerogo.Vl2.Arp.Cache.{store_entry-Distinct, handle_arp-cache}
use zerogo.Vl2.Arp.Expiry.{length-payload, length-sender_mac}

-- A list of known length, element by element.
four :
    (xs : Bytes)
    → length xs ≡ 4
    → xs ≡ get_or xs 0 0 ∷ get_or xs 1 0 ∷ get_or xs 2 0 ∷ get_or xs 3 0 ∷ []
four (a ∷ b ∷ c ∷ d ∷ []) h = refl
four (a ∷ b ∷ c ∷ d ∷ e ∷ r) h = absurd (omega arith)
four _ h = absurd (omega arith)

six :
    (xs : Bytes)
    → length xs ≡ 6
    → xs
      ≡ get_or xs 0 0
        ∷ get_or xs 1 0
        ∷ get_or xs 2 0
        ∷ get_or xs 3 0
        ∷ get_or xs 4 0
        ∷ get_or xs 5 0
        ∷ []
six (a ∷ b ∷ c ∷ d ∷ e ∷ f ∷ []) h = refl
six (a ∷ b ∷ c ∷ d ∷ e ∷ f ∷ g ∷ r) h = absurd (omega arith)
six _ h = absurd (omega arith)

-- `reply` is a frame to `to` that says that `ip` has the hardware address `mac`.
pub record Announces (reply to ip mac : Bytes) : Type 0 where
  pub frame : EthernetFrame
  pub parsed : parse_ethernet_frame reply ≡ ok frame
  pub addressed : frame.dst_mac ≡ to
  pub from_mac : frame.src_mac ≡ mac
  pub is_an_arp : is_arp frame ≡ true
  pub is_a_reply : operation frame.payload ≡ arp_reply
  pub says : peer_from_arp frame ≡ some (ip, mac)

build-explicit :
    (a b c d e f g h i j k l m n o p q r s t : ℕ)
    → Announces
        (build_arp_reply
          (a ∷ b ∷ c ∷ d ∷ e ∷ f ∷ [])
          (g ∷ h ∷ i ∷ j ∷ k ∷ l ∷ [])
          (m ∷ n ∷ o ∷ p ∷ [])
          (q ∷ r ∷ s ∷ t ∷ []))
        (g ∷ h ∷ i ∷ j ∷ k ∷ l ∷ [])
        (q ∷ r ∷ s ∷ t ∷ [])
        (a ∷ b ∷ c ∷ d ∷ e ∷ f ∷ [])
unfolding build_arp_reply parse_ethernet_frame is_arp operation peer_from_arp is_ethernet_ipv4
build-explicit a b c d e f g h i j k l m n o p q r s t = record {
  frame = record {
    dst_mac = g ∷ h ∷ i ∷ j ∷ k ∷ l ∷ [];
    src_mac = a ∷ b ∷ c ∷ d ∷ e ∷ f ∷ [];
    ether_type = 0x0806;
    payload =
        0 ∷ 1 ∷ 8 ∷ 0 ∷ 6 ∷ 4 ∷ 0 ∷ 2 ∷ a ∷ b ∷ c ∷ d ∷ e ∷ f ∷ q ∷ r ∷ s ∷ t ∷ g ∷ h ∷ i ∷ j ∷ k
        ∷ l ∷ m ∷ n ∷ o ∷ p ∷ [];
    raw =
        build_arp_reply (a ∷ b ∷ c ∷ d ∷ e ∷ f ∷ []) (g ∷ h ∷ i ∷ j ∷ k ∷ l ∷ [])
          (m ∷ n ∷ o ∷ p ∷ []) (q ∷ r ∷ s ∷ t ∷ []);
  };
  parsed = refl;
  addressed = refl;
  from_mac = refl;
  is_an_arp = refl;
  is_a_reply = refl;
  says = refl;
}

build_arp_reply-Announces :
    (mac to to_ip ip : Bytes)
    → length mac ≡ 6
    → length to ≡ 6
    → length to_ip ≡ 4
    → length ip ≡ 4
    → Announces (build_arp_reply mac to to_ip ip) to ip mac
build_arp_reply-Announces mac to to_ip ip hm ht hi hp =
    rw (six mac hm, six to ht, four to_ip hi, four ip hp)
      (build-explicit _ _ _ _ _ _ _ _ _ _ _ _ _ _ _ _ _ _ _ _)

-- Every cached hardware address has six bytes.
pub record HoldsMacs (cache : ArpCache) : Type 0 where
  pub distinct : Distinct cache
  pub six_bytes : (j : Bytes) (v : ArpEntry) → get j cache ≡ some v → length v.mac ≡ 6

evict-six_bytes :
    (m : ArpCache)
    → HoldsMacs m
    → (j : Bytes) (v : ArpEntry) → get j (evict_oldest arp_age m) ≡ some v
    → length v.mac ≡ 6
evict-six_bytes m h j v g = elim (evict_oldest-cases arp_age m h.distinct) [
  | inl (_, e) ↦ h.six_bytes j v (rw e at g)
  | inr (k, w, t, _, _, _, e) ↦ h.six_bytes j v (ground (arith, rw (e, get-delete k j m) at g))
]

length-mac_to_key : (mac : Bytes) → length (mac_to_key mac) ≡ 6
unfolding mac_to_key
length-mac_to_key mac = length-copy mac (replicate 6 0)

store_entry-six_bytes :
    (now : ℕ) (pinned : Bool) (ip mac : Bytes) (m : ArpCache)
    → HoldsMacs m
    → (j : Bytes) (v : ArpEntry) → get j (store_entry now pinned ip mac m) ≡ some v
    → length v.mac ≡ 6
unfolding store_entry evict_oldest_arp
store_entry-six_bytes now pinned ip mac m h j v g =
    let stored : ArpEntry = record { mac = mac_to_key mac; last_seen = now; pinned = pinned } in
    ground (
      arith,
      get-insert ip j stored m,
      get-insert ip j stored (evict_oldest arp_age m),
      evict-six_bytes m h j v,
      h.six_bytes j v,
      length-mac_to_key mac,
    )

pub store_entry-HoldsMacs :
    (now : ℕ) (pinned : Bool) (ip mac : Bytes) (m : ArpCache)
    → HoldsMacs m
    → HoldsMacs (store_entry now pinned ip mac m)
store_entry-HoldsMacs now pinned ip mac m h = record {
  distinct = store_entry-Distinct now pinned ip mac m h.distinct;
  six_bytes = store_entry-six_bytes now pinned ip mac m h;
}

learn-HoldsMacs :
    (now : ℕ) (ip mac : Bytes) (m : ArpCache) → HoldsMacs m → HoldsMacs (learn now ip mac m)
unfolding learn
learn-HoldsMacs now ip mac m h = store_entry-HoldsMacs now false ip mac m h

handle_arp-HoldsMacs :
    (now : ℕ) (frame : EthernetFrame) (cache : ArpCache)
    → HoldsMacs cache
    → HoldsMacs (handle_arp now frame cache).0
handle_arp-HoldsMacs now frame cache h =
    handle_arp-cache HoldsMacs now frame cache h
      (learn-HoldsMacs now (sender_ip frame.payload) (sender_mac frame.payload))

-- The cached entry for the address that a request asks for, if it was seen within five minutes.
abbrev pub Resolves : ℕ → ArpCache → Bytes → ArpEntry → Type 0
Resolves now cache payload v =
    (operation payload ≡ arp_request)
    × (get (target_ip payload) cache ≡ some v)
    × (now - v.last_seen < arp_cache_expiry)

handle_arp-some :
    (now : ℕ) (frame : EthernetFrame) (cache : ArpCache) (reply : Bytes)
    → (handle_arp now frame cache).1 ≡ some reply
    → (is_ethernet_ipv4 frame.payload ≡ true)
      × (operation frame.payload ≡ arp_request)
      × (answer frame.payload
            (fresh_mac now (get (target_ip frame.payload) (handle_arp now frame cache).0))
          ≡ some reply)
unfolding handle_arp handle_ipv4_arp
handle_arp-some now frame cache reply e = ground arith

answer-some :
    (now : ℕ) (payload : Bytes) (o : Option ArpEntry) (reply : Bytes)
    → answer payload (fresh_mac now o) ≡ some reply
    → (v : ArpEntry) × (o ≡ some v)
      × (now - v.last_seen < arp_cache_expiry)
      × (reply ≡ build_arp_reply v.mac (sender_mac payload) (sender_ip payload) (target_ip payload))
unfolding fresh_mac
answer-some now payload none reply e = absurd (cc)
answer-some now payload (some v) reply e = (v, refl, ground arith, ground arith)

length-ips :
    (payload : Bytes)
    → is_ethernet_ipv4 payload ≡ true
    → (length (sender_ip payload) ≡ 4) × (length (target_ip payload) ≡ 4)
length-ips payload h = omega (
  arith,
  length-payload payload h,
  length-take 4 (drop 14 payload),
  length-drop 14 payload,
  length-take 4 (drop 24 payload),
  length-drop 24 payload,
)

-- A reply is made only to an Ethernet and IPv4 request for an address that is cached and was seen
-- within five minutes. It is an ARP reply, sent to the requester, that gives the requested address
-- the cached hardware address, so the requester's own proxy reads exactly that pair from it.
pub handle_arp_reply :
    (now : ℕ) (frame : EthernetFrame) (cache : ArpCache) (reply : Bytes)
    → HoldsMacs cache
    → (handle_arp now frame cache).1 ≡ some reply
    → (is_ethernet_ipv4 frame.payload ≡ true)
      × ((v : ArpEntry) × Resolves now (handle_arp now frame cache).0 frame.payload v
          × Announces reply (sender_mac frame.payload) (target_ip frame.payload) v.mac)
handle_arp_reply now frame cache reply h e =
    let p = frame.payload in
    let (guard, request, answered) = handle_arp-some now frame cache reply e in
    let (v, cached, fresh, built) = answer-some now p _ reply answered in
    let macs = handle_arp-HoldsMacs now frame cache h in
    (
      guard,
      (
        v,
        (request, cached, fresh),
        rw built (
            build_arp_reply-Announces v.mac (sender_mac p) (sender_ip p) (target_ip p)
              (macs.six_bytes (target_ip p) v cached) (length-sender_mac p guard)
              (length-ips p guard).0 (length-ips p guard).1),
      ),
    )
