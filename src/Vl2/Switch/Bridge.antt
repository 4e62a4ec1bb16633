-- ===== src/Vl2/Switch/Bridge.antt =====
-- What a switch promises (internal/vl2/switch.go), without its table: a bridge knows for some
-- addresses on which side they are, hears the source of every frame, and may forget.
use zerogo.Base.{
  ℕ, ◌≡◌, ◌⊎◌, none, some, Option, List, [], ◌∷◌, Bytes, bytes_eq, if◌then◌else◌, ok, err,
}
use zerogo.Vl2.Frame.{EthernetFrame, FrameError, parse_ethernet_frame}
use zerogo.Vl2.Mac.{mac_to_key}
use zerogo.Vl2.Sender.{Sent, to_peer, to_all_but}
use zerogo.Vl2.Switch.{zero_address, is_group}
use zerogo.Vl2.Switch.Runs.{Event, from_device, from_peer, cleaned}

pub data Place : Type 0 where
  here : Place
  at_peer : Bytes → Place

-- Where the addresses are that the bridge knows.
abbrev pub Places : Type 0
Places = Bytes → Option Place

abbrev pub nowhere : Places
nowhere k = none

abbrev pub heard : Bytes → Place → Places → Places
heard mac p s k = if bytes_eq (mac_to_key mac) k then some p else s k

abbrev pub forget : Bytes → Places → Places
forget j s k = if bytes_eq j k then none else s k

-- `t` is `s` without at most one address.
abbrev pub ForgetsOne : Places → Places → Type 0
ForgetsOne s t = ((k : Bytes) → t k ≡ s k) ⊎ ((j : Bytes) × ((k : Bytes) → t k ≡ forget j s k))

-- `t` knows nothing that `s` does not, and all that `s` has on the device's side.
abbrev pub ForgetsRemote : Places → Places → Type 0
ForgetsRemote s t =
    (k : Bytes) → (t k ≡ s k) ⊎ ((p : Bytes) × (s k ≡ some (at_peer p)) × (t k ≡ none))

-- What a frame leads to: the requests to the sender, and what is injected into the device.
abbrev pub Output : Type 0
Output = List Sent × Option Bytes

-- A frame without one known receiver goes to everybody but the peer `from`, and to the device if it
-- came from a peer.
abbrev pub requests : ℕ → Bytes → Bytes → Option Place → List Sent
requests id from frame none = to_all_but from id frame ∷ []
requests id from frame (some here) = []
requests id from frame (some (at_peer p)) = to_peer p id frame ∷ []

abbrev pub injected : Bytes → Option Place → Option Bytes
injected frame none = some frame
injected frame (some here) = some frame
injected frame (some (at_peer p)) = none

-- The one place where a frame's receiver is known to be.
abbrev pub receiver : EthernetFrame → Places → Option Place
receiver a s = if is_group a then none else s (mac_to_key a.dst_mac)

-- One event of the bridge of network `id`. Before it hears a frame's source it may forget one
-- address, and when it is cleaned any on the side of peers.
pub data Bridge (id : ℕ) (s : Places) : Event → Output → Places → Type 0 where
  bad_local :
      (now : ℕ) (frame : Bytes) (e : FrameError)
      → parse_ethernet_frame frame ≡ err e
      → Bridge id s (from_device now frame) ([], none) s
  bad_remote :
      (now : ℕ) (peer frame : Bytes) (e : FrameError)
      → parse_ethernet_frame frame ≡ err e
      → Bridge id s (from_peer now peer frame) ([], none) s
  local :
      (now : ℕ) (frame : Bytes) (a : EthernetFrame) (r t : Places)
      → parse_ethernet_frame frame ≡ ok a
      → ForgetsOne s r
      → ((k : Bytes) → t k ≡ heard a.src_mac here r k)
      → Bridge id s (from_device now frame) (requests id zero_address frame (receiver a t), none) t
  remote :
      (now : ℕ) (peer frame : Bytes) (a : EthernetFrame) (r t : Places)
      → parse_ethernet_frame frame ≡ ok a
      → ForgetsOne s r
      → ((k : Bytes) → t k ≡ heard a.src_mac (at_peer peer) r k)
      → Bridge id s
          (from_peer now peer frame)
          (requests id peer frame (receiver a t), injected frame (receiver a t))
          t
  aged : (now : ℕ) (t : Places) → ForgetsRemote s t → Bridge id s (cleaned now) ([], none) t

-- A run of the bridge with what each event leads to.
pub data Bridged (id : ℕ) : Places → List Event → List Output → Places → Type 0 where
  stop : (s : Places) → Bridged id s [] [] s
  go :
      (e : Event) (es : List Event) (o : Output) (os : List Output) (s t u : Places)
      → Bridge id s e o t
      → Bridged id t es os u
      → Bridged id s (e ∷ es) (o ∷ os) u
