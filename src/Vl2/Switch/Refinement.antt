-- ===== src/Vl2/Switch/Refinement.antt =====
-- A switch does what the bridge of Vl2/Switch/Bridge promises (internal/vl2/switch.go).
use mathlib.Core.Path.{subst}
use zerogo.Base.{
  ℕ, ◌≡◌, inl, inr, refl, ◌∙◌, ap, Bool, true, false, none, some, Option, List, [], ◌∷◌, Bytes,
  Table, get, get-delete, if◌then◌else◌, ok, err, arith, Bool-cases, Option-cases, Result-cases,
}
use zerogo.Vl2.Frame.{EthernetFrame, FrameError, parse_ethernet_frame}
use zerogo.Vl2.Mac.{mac_to_key}
use zerogo.Vl2.Sender.{recorder}
use zerogo.Vl2.Switch.{
  Switch, MacEntry, new_switch, learn, zero_address, is_group, clean_expired, handle_local_frame,
  handle_remote_frame, forward_local, forward_remote,
}
use zerogo.Vl2.Switch.Learning.{
  IsValid, MakesRoom, learn_lem, learn-IsValid, clean_expired_lem, clean_expired-IsValid,
  new_switch-IsValid,
}
use zerogo.Vl2.Switch.Runs.{Event, from_device, from_peer, cleaned}
use zerogo.Vl2.Switch.Bridge.{
  Place, here, at_peer, Places, nowhere, heard, ForgetsOne, ForgetsRemote, Output, requests,
  injected, receiver, Bridge, bad_local, bad_remote, local, remote, aged, Bridged, stop, go,
}

abbrev pub place_of : MacEntry → Place
place_of v = if v.is_local then here else at_peer v.peer_addr

abbrev pub place_found : Option MacEntry → Option Place
place_found none = none
place_found (some v) = some (place_of v)

-- What a switch knows, without the times and the order of its table.
abbrev pub known : Switch → Places
known sw k = place_found (get k sw.mac_table)

-- What an event does to a switch, and what it leads to.
unfoldable pub observe : Event → Switch → Switch × Output
observe (from_device now frame) sw =
    let (sw', log, e) = handle_local_frame recorder now frame sw [] in (sw', (log, none))
observe (from_peer now peer frame) sw =
    let (sw', log, inject, e) = handle_remote_frame recorder now peer frame sw [] in
    (sw', (log, inject))
observe (cleaned now) sw = ((clean_expired now sw).0, ([], none))

unfoldable pub observe_all : List Event → Switch → Switch × List Output
observe_all [] sw = (sw, [])
observe_all (e ∷ es) sw =
    let (sw', o) = observe e sw in let (sw'', os) = observe_all es sw' in (sw'', o ∷ os)

room-ForgetsOne :
    (m r : Table MacEntry)
    → MakesRoom m r
    → ForgetsOne (λ k. place_found (get k m)) (λ k. place_found (get k r))
room-ForgetsOne m r (inl (_, e)) = inl (λ k. ap (λ t. place_found (get k t)) e)
room-ForgetsOne m r (inr (j, v, _, _, _, e)) =
    inr (j, λ k. ground (arith, get-delete j k m, ap (λ t. place_found (get k t)) e))

module _ (now : ℕ) (mac peer : Bytes) (is_local : Bool) (sw : Switch) (v : IsValid sw) where
  -- Learning forgets at most one address and then hears the source.
  known-learn :
      (r : Places) × ForgetsOne (known sw) r
      × ((k : Bytes)
          → known (learn now mac peer is_local sw) k
            ≡ heard mac (if is_local then here else at_peer peer) r k)
  known-learn =
      let (r, room, found) = learn_lem now mac peer is_local sw v in
      (
        λ k. place_found (get k r),
        room-ForgetsOne sw.mac_table r room,
        λ k. ground (arith, found k),
      )

known-clean_expired :
    (now : ℕ) (sw : Switch) → IsValid sw → ForgetsRemote (known sw) (known (clean_expired now sw).0)
known-clean_expired now sw v k =
    let after = (clean_expired_lem now sw v).0 k in
    elim (Option-cases (get k sw.mac_table)) [
      | inl none_known ↦ inl (ground (arith, after))
      | inr (entry, found) ↦ elim (Bool-cases entry.is_local) [
        | inl near ↦ inl (ground (arith, after))
        | inr far ↦ elim (Option-cases (get k (clean_expired now sw).0.mac_table)) [
          | inl gone ↦ inr (entry.peer_addr, ground arith, ground arith)
          | inr (left, still) ↦ inl (ground (arith, after))
        ]
      ]
    ]

module _ (a : EthernetFrame) (frame : Bytes) (sw : Switch) where
  forward_local_lem :
      (forward_local recorder sw a frame []).0
      ≡ requests sw.network_id zero_address frame (receiver a (known sw))
  unfolding forward_local
  forward_local_lem = elim (Bool-cases (is_group a)) [
    | inl group ↦ rw group refl
    | inr one ↦ elim (Option-cases (get (mac_to_key a.dst_mac) sw.mac_table)) [
      | inl unknown ↦ rw (one, unknown) refl
      | inr (v, found) ↦ elim (Bool-cases v.is_local) [
        | inl near ↦ rw (one, found, near) refl
        | inr far ↦ rw (one, found, far) refl
      ]
    ]
  ]

  forward_remote_lem :
      (peer : Bytes)
      → ((forward_remote recorder peer sw a frame []).0
          ≡ requests sw.network_id peer frame (receiver a (known sw)))
        × ((forward_remote recorder peer sw a frame []).1 ≡ injected frame (receiver a (known sw)))
  unfolding forward_remote
  forward_remote_lem peer = elim (Bool-cases (is_group a)) [
    | inl group ↦ rw group (refl, refl)
    | inr one ↦ elim (Option-cases (get (mac_to_key a.dst_mac) sw.mac_table)) [
      | inl unknown ↦ rw (one, unknown) (refl, refl)
      | inr (v, found) ↦ elim (Bool-cases v.is_local) [
        | inl near ↦ rw (one, found, near) (refl, refl)
        | inr far ↦ rw (one, found, far) (refl, refl)
      ]
    ]
  ]

module _ (now : ℕ) (frame : Bytes) (sw : Switch) where
  observe_bad :
      (peer : Bytes) (e : FrameError)
      → parse_ethernet_frame frame ≡ err e
      → (observe (from_device now frame) sw ≡ (sw, ([], none)))
        × (observe (from_peer now peer frame) sw ≡ (sw, ([], none)))
  unfolding observe handle_local_frame handle_remote_frame
  observe_bad peer e bad = rw (bad, observe, handle_local_frame, handle_remote_frame) (refl, refl)

  pub observe_local :
      (a : EthernetFrame)
      → parse_ethernet_frame frame ≡ ok a
      → let after = learn now a.src_mac zero_address true sw in
        observe (from_device now frame) sw
        ≡ (after, (requests sw.network_id zero_address frame (receiver a (known after)), none))
  unfolding observe handle_local_frame learn
  observe_local a good =
      rw
        (
          good,
          observe,
          handle_local_frame,
          forward_local_lem a frame (learn now a.src_mac zero_address true sw),
        )
        refl

  pub observe_remote :
      (peer : Bytes) (a : EthernetFrame)
      → parse_ethernet_frame frame ≡ ok a
      → let after = learn now a.src_mac peer false sw in
        let place = receiver a (known after) in
        observe (from_peer now peer frame) sw
        ≡ (after, (requests sw.network_id peer frame place, injected frame place))
  unfolding observe handle_remote_frame learn
  observe_remote peer a good =
      let (sent, put_in) = forward_remote_lem a frame (learn now a.src_mac peer false sw) peer in
      rw (good, observe, handle_remote_frame, sent, put_in) refl

-- One event, from a table that is valid.
abbrev pub IsStep : Event → Switch → Type 0
IsStep e sw =
    IsValid (observe e sw).0
    × ((observe e sw).0.network_id ≡ sw.network_id)
    × Bridge sw.network_id (known sw) e (observe e sw).1 (known (observe e sw).0)

cleaned-IsStep : (now : ℕ) (sw : Switch) → IsValid sw → IsStep (cleaned now) sw
unfolding observe clean_expired
cleaned-IsStep now sw v = (
  clean_expired-IsValid now sw v,
  refl,
  aged now (known (clean_expired now sw).0) (known-clean_expired now sw v),
)

pub observe-IsStep : (e : Event) (sw : Switch) → IsValid sw → IsStep e sw
unfolding learn
observe-IsStep (from_device now frame) sw v = elim (Result-cases (parse_ethernet_frame frame)) [
  | inl (e, bad) ↦ rw (observe_bad now frame sw [] e bad).0 (v, refl, bad_local now frame e bad)
  | inr (a, good) ↦
      let (r, forgets, hears) = known-learn now a.src_mac zero_address true sw v in
      rw (observe_local now frame sw a good) (
        learn-IsValid now a.src_mac zero_address true sw v,
        refl,
        local now frame a r _ good forgets hears,
      )
]
observe-IsStep (from_peer now p frame) sw v = elim (Result-cases (parse_ethernet_frame frame)) [
  | inl (e, bad) ↦ rw (observe_bad now frame sw p e bad).1 (v, refl, bad_remote now p frame e bad)
  | inr (a, good) ↦
      let (r, forgets, hears) = known-learn now a.src_mac p false sw v in
      rw (observe_remote now frame sw p a good) (
        learn-IsValid now a.src_mac p false sw v,
        refl,
        remote now p frame a r _ good forgets hears,
      )
]
observe-IsStep (cleaned now) sw v = cleaned-IsStep now sw v

observe_all-Bridged :
    (es : List Event) (sw : Switch)
    → IsValid sw
    → Bridged sw.network_id (known sw) es (observe_all es sw).1 (known (observe_all es sw).0)
unfolding observe_all
observe_all-Bridged [] sw v = stop (known sw)
observe_all-Bridged (e ∷ es) sw v =
    let (v', same, step) = observe-IsStep e sw v in
    let rest = observe_all-Bridged es (observe e sw).0 v' in
    go e es (observe e sw).1 _ (known sw) (known (observe e sw).0) _ step (
      subst
        (λ n.
          Bridged n (known (observe e sw).0) es (observe_all es (observe e sw).0).1
            (known (observe_all es (observe e sw).0).0))
        same rest)

pub observe_all-IsValid :
    (es : List Event) (sw : Switch)
    → IsValid sw
    → IsValid (observe_all es sw).0 × ((observe_all es sw).0.network_id ≡ sw.network_id)
unfolding observe_all
observe_all-IsValid [] sw v = (v, refl)
observe_all-IsValid (e ∷ es) sw v =
    let (v', same, _) = observe-IsStep e sw v in
    let (v'', same') = observe_all-IsValid es (observe e sw).0 v' in (v'', same' ∙ same)

-- Whatever frames arrive and whenever it is cleaned, what a new switch asks of its sender and
-- injects is what a bridge of its network does that at first knows no address: it hears the source
-- of every frame it can read, forgets at most one address for each, and only addresses of peers
-- when it is cleaned.
pub switch_bridges :
    (id : ℕ) (es : List Event)
    → Bridged id nowhere es
        (observe_all es (new_switch id)).1
        (known (observe_all es (new_switch id)).0)
unfolding new_switch get
switch_bridges id es = observe_all-Bridged es (new_switch id) (new_switch-IsValid id)
