-- ===== src/Vl2/Switch/History.antt =====
-- What a switch knows, by what it has heard (internal/vl2/switch.go).
use zerogo.Base.{
  ℕ, ◌≡◌, ◌⊎◌, inl, inr, ◌≢◌, refl, sym, ap, ◌∙◌, true, false, none, some, Option, List, [], ◌∷◌,
  Bytes, bytes_eq, ok, err, Result, arith, Bool-cases,
}
use zerogo.Vl2.Frame.{EthernetFrame, FrameError, parse_ethernet_frame}
use zerogo.Vl2.Mac.{mac_to_key}
use zerogo.Vl2.Sender.{Sent, to_peer}
use zerogo.Vl2.Switch.{Switch, new_switch, learn, is_group, zero_address}
use zerogo.Vl2.Switch.Learning.{new_switch-IsValid}
use zerogo.Vl2.Switch.Runs.{Event, from_device, from_peer, cleaned}
use zerogo.Vl2.Switch.Bridge.{
  Place, here, at_peer, Places, nowhere, heard, ForgetsOne, ForgetsRemote, Output, requests,
  receiver, Bridge, bad_local, bad_remote, local, remote, aged, Bridged, stop, go,
}
use zerogo.Vl2.Switch.Refinement.{
  known, observe, observe_all, observe-IsStep, observe_local, observe_remote, observe_all-IsValid,
  switch_bridges,
}

abbrev hears_frame : Place → Result FrameError EthernetFrame → Places → Places
hears_frame p (err e) s = s
hears_frame p (ok a) s = heard a.src_mac p s

-- A bridge that never forgets.
abbrev pub hears : Event → Places → Places
hears (from_device now frame) s = hears_frame here (parse_ethernet_frame frame) s
hears (from_peer now peer frame) s = hears_frame (at_peer peer) (parse_ethernet_frame frame) s
hears (cleaned now) s = s

-- On which side each address was heard last.
unfoldable pub last_heard : List Event → Places → Places
last_heard [] s = s
last_heard (e ∷ es) s = last_heard es (hears e s)

-- What `s` knows, `all` has too.
abbrev IsPart : Places → Places → Type 0
IsPart s all = (k : Bytes) → (s k ≡ none) ⊎ (s k ≡ all k)

ForgetsOne-IsPart : (s r all : Places) → ForgetsOne s r → IsPart s all → IsPart r all
ForgetsOne-IsPart s r all (inl same) part k = rw (same k) (part k)
ForgetsOne-IsPart s r all (inr (j, less)) part k = elim (Bool-cases (bytes_eq j k)) [
  | inl eq ↦ inl (ground (arith, less k))
  | inr ne ↦ ground (arith, less k, part k)
]

heard-IsPart :
    (mac : Bytes) (p : Place) (s r t all : Places)
    → ForgetsOne s r
    → ((k : Bytes) → t k ≡ heard mac p r k)
    → IsPart s all
    → IsPart t (heard mac p all)
heard-IsPart mac p s r t all forgets hear part k = elim (Bool-cases (bytes_eq (mac_to_key mac) k)) [
  | inl eq ↦ inr (ground (arith, hear k))
  | inr ne ↦ ground (arith, hear k, ForgetsOne-IsPart s r all forgets part k)
]

ForgetsRemote-IsPart : (s t all : Places) → ForgetsRemote s t → IsPart s all → IsPart t all
ForgetsRemote-IsPart s t all forgets part k = elim (forgets k) [
  | inl same ↦ rw same (part k)
  | inr (p, _, gone) ↦ inl gone
]

Bridge-IsPart :
    {id : ℕ} {s t : Places} {e : Event} {o : Output} (all : Places)
    → Bridge id s e o t
    → IsPart s all
    → IsPart t (hears e all)
Bridge-IsPart all (bad_local now frame e bad) part = rw bad part
Bridge-IsPart all (bad_remote now peer frame e bad) part = rw bad part
Bridge-IsPart {s = s} all (local now frame a r t good forgets hear) part =
    rw good (heard-IsPart a.src_mac here s r t all forgets hear part)
Bridge-IsPart {s = s} all (remote now peer frame a r t good forgets hear) part =
    rw good (heard-IsPart a.src_mac (at_peer peer) s r t all forgets hear part)
Bridge-IsPart {s = s} all (aged now t forgets) part = ForgetsRemote-IsPart s t all forgets part

Bridged-IsPart :
    {id : ℕ} {s t : Places} {es : List Event} {os : List Output} (all : Places)
    → Bridged id s es os t
    → IsPart s all
    → IsPart t (last_heard es all)
unfolding last_heard
Bridged-IsPart all (stop s) part = part
Bridged-IsPart all (go e es o os s t u step rest) part =
    Bridged-IsPart (hears e all) rest (Bridge-IsPart all step part)

-- The request for one peer is made where the receiver is known to be.
at_peer-of_requests :
    (id : ℕ) (from frame p : Bytes) (o : Option Place)
    → requests id from frame o ≡ to_peer p id frame ∷ []
    → o ≡ some (at_peer p)
at_peer-of_requests id from frame p none e = absurd cc
at_peer-of_requests id from frame p (some here) e = absurd cc
at_peer-of_requests id from frame p (some (at_peer q)) e = cc

known-of_receiver :
    (a : EthernetFrame) (s : Places) (p : Bytes)
    → receiver a s ≡ some (at_peer p)
    → s (mac_to_key a.dst_mac) ≡ some (at_peer p)
known-of_receiver a s p e = elim (Bool-cases (is_group a)) [
  | inl group ↦ absurd (ground arith)
  | inr one ↦ ground arith
]

abbrev pub frame_of : Event → Bytes
frame_of (from_device now frame) = frame
frame_of (from_peer now peer frame) = frame
frame_of (cleaned now) = []

not_sent_when_cleaned : (now : ℕ) (sw : Switch) (m : Sent) → (observe (cleaned now) sw).1.0 ≢ m ∷ []
unfolding observe
not_sent_when_cleaned now sw m e = cc

requests_of_event :
    (e : Event) (sw : Switch) (a : EthernetFrame) (p : Bytes)
    → parse_ethernet_frame (frame_of e) ≡ ok a
    → (observe e sw).1.0 ≡ to_peer p sw.network_id (frame_of e) ∷ []
    → known (observe e sw).0 (mac_to_key a.dst_mac) ≡ some (at_peer p)
unfolding learn
requests_of_event (from_device now frame) sw a p good sent =
    let code = observe_local now frame sw a good in
    let after = known (learn now a.src_mac zero_address true sw) in
    rw code (
      known-of_receiver a after p (
        at_peer-of_requests sw.network_id zero_address frame p (receiver a after)
          (sym (ap (λ r. r.1.0) code) ∙ sent)))
requests_of_event (from_peer now q frame) sw a p good sent =
    let code = observe_remote now frame sw q a good in
    let after = known (learn now a.src_mac q false sw) in
    rw code (
      known-of_receiver a after p (
        at_peer-of_requests sw.network_id q frame p (receiver a after)
          (sym (ap (λ r. r.1.0) code) ∙ sent)))
requests_of_event (cleaned now) sw a p good sent = absurd (not_sent_when_cleaned now sw _ sent)

known-IsPart :
    (id : ℕ) (es : List Event)
    → IsPart (known (observe_all es (new_switch id)).0) (last_heard es nowhere)
known-IsPart id es = Bridged-IsPart nowhere (switch_bridges id es) (λ k. inl refl)

-- After any run of a new switch, let it handle one more frame. If it sends that frame to one peer
-- only, then the last readable frame from the address that the frame is for came from that peer.
pub sent_where_heard :
    (id : ℕ) (es : List Event) (e : Event) (a : EthernetFrame) (p : Bytes)
    → parse_ethernet_frame (frame_of e) ≡ ok a
    → (observe e (observe_all es (new_switch id)).0).1.0 ≡ to_peer p id (frame_of e) ∷ []
    → hears e (last_heard es nowhere) (mac_to_key a.dst_mac) ≡ some (at_peer p)
unfolding new_switch
sent_where_heard id es e a p good sent =
    let sw = (observe_all es (new_switch id)).0 in
    let (v, same) = observe_all-IsValid es (new_switch id) (new_switch-IsValid id) in
    let (_, _, step) = observe-IsStep e sw v in
    let found = requests_of_event e sw a p good (rw same sent) in
    elim (Bridge-IsPart (last_heard es nowhere) step (known-IsPart id es) (mac_to_key a.dst_mac)) [
      | inl gone ↦ absurd (cc (gone, found))
      | inr there ↦ sym there ∙ found
    ]
