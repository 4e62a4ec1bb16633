-- ===== src/Vl2/Arp/Tests.antt =====
-- Inputs on which the theorems about internal/vl2/arp.go are used.
use zerogo.Base.{
  ◌≡◌, ◌≢◌, refl, ap, true, false, some, none, [], ◌∷◌, ◌++◌, Bytes, get_or, get, insert, Distinct,
  arith, bytes_eq, be16,
}
use zerogo.Vl2.Frame.{EthernetFrame}
use zerogo.Vl2.Mac.{mac_to_key}
use zerogo.Vl2.Arp.{
  ArpCache, ArpEntry, learn, to4, seed, lookup, handle_arp, handle_ipv4_arp, store_entry, fresh_mac,
  is_ethernet_ipv4, operation, clean_expired_arp, build_arp_reply, sender_ip,
}
use zerogo.Vl2.Arp.Cache.{IsBounded, handle_arp-IsBounded, pinned_count}
use zerogo.Vl2.Arp.Expiry.{pinned_kept, handle_arp-get_sender, seed_goes_stale}
use zerogo.Vl2.Arp.Replies.{HoldsMacs, Resolves, Announces, handle_arp_reply}

abbrev mac_a : Bytes
mac_a = 2 ∷ 0 ∷ 1 ∷ 1 ∷ 1 ∷ 1 ∷ []

abbrev mac_b : Bytes
mac_b = 2 ∷ 0 ∷ 1 ∷ 2 ∷ 2 ∷ 2 ∷ []

abbrev ip_a : Bytes
ip_a = 10 ∷ 0 ∷ 0 ∷ 1 ∷ []

abbrev ip_b : Bytes
ip_b = 10 ∷ 0 ∷ 0 ∷ 2 ∷ []

-- The request of `a` for the address of `b`.
abbrev question : EthernetFrame
question = record {
  dst_mac = 255 ∷ 255 ∷ 255 ∷ 255 ∷ 255 ∷ 255 ∷ [];
  src_mac = mac_a;
  ether_type = 0x0806;
  payload = 0 ∷ 1 ∷ 8 ∷ 0 ∷ 6 ∷ 4 ∷ 0 ∷ 1 ∷ (mac_a ++ (ip_a ++ 0 ∷ 0 ∷ 0 ∷ 0 ∷ 0 ∷ 0 ∷ ip_b));
  raw = [];
}

abbrev entry_b : ArpEntry
entry_b = record { mac = mac_b; last_seen = 5; pinned = true }

abbrev known : ArpCache
known = (ip_b, entry_b) ∷ []

known-Distinct : Distinct known
unfolding get
known-Distinct = (refl, tt)

known-HoldsMacs : HoldsMacs known
unfolding get
known-HoldsMacs = record { distinct = known-Distinct; six_bytes = λ j v g. ground arith }

known-IsBounded : IsBounded known
unfolding get pinned_count
known-IsBounded = record { distinct = (refl, tt); evictable = omega arith; bounded = omega arith }

question_is_arp : is_ethernet_ipv4 question.payload ≡ true
unfolding is_ethernet_ipv4 be16
question_is_arp = refl

answered : (handle_arp 6 question known).1 ≡ some (build_arp_reply mac_b mac_a ip_a ip_b)
unfolding handle_arp handle_ipv4_arp learn store_entry operation is_ethernet_ipv4 mac_to_key get
    insert bytes_eq fresh_mac
answered = refl

handle_arp_reply_example :
    (is_ethernet_ipv4 question.payload ≡ true)
    × ((v : ArpEntry) × Resolves 6 (handle_arp 6 question known).0 question.payload v
        × Announces (build_arp_reply mac_b mac_a ip_a ip_b) mac_a ip_b v.mac)
handle_arp_reply_example =
    handle_arp_reply 6 question known (build_arp_reply mac_b mac_a ip_a ip_b) known-HoldsMacs
      answered

handle_arp-IsBounded_example : IsBounded (handle_arp 6 question known).0
handle_arp-IsBounded_example = handle_arp-IsBounded 6 question known known-IsBounded

different_ips : sender_ip question.payload ≢ ip_b
different_ips e = absurd (let f : 1 ≡ 2 = ap (λ m. get_or m 3 0) e in omega arith)

known-get : get ip_b known ≡ some entry_b
unfolding get bytes_eq
known-get = refl

pinned_kept_example :
    (get ip_b (handle_arp 6 question known).0 ≡ some entry_b)
    × (get ip_b (clean_expired_arp 6 known).0 ≡ some entry_b)
pinned_kept_example =
    pinned_kept 6 question known ip_b entry_b known-Distinct known-get refl different_ips

handle_arp-get_sender_example :
    get ip_a (handle_arp 6 question known).0
    ≡ some (record { mac = mac_a; last_seen = 6; pinned = false })
handle_arp-get_sender_example = handle_arp-get_sender 6 question known question_is_arp

ip_a-to4 : to4 ip_a ≡ some ip_a
unfolding to4
ip_a-to4 = refl

seed_goes_stale_example :
    let kept = (clean_expired_arp 400_000_000_000 (seed 5 ip_a mac_a known)).0 in
    (get ip_a kept ≡ some (record { mac = mac_to_key mac_a; last_seen = 5; pinned = true }))
    × (lookup 400_000_000_000 ip_a kept ≡ none)
seed_goes_stale_example =
    seed_goes_stale 5 400_000_000_000 ip_a ip_a mac_a known ip_a-to4 known-Distinct
