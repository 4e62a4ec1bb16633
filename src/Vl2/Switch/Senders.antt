-- ===== src/Vl2/Switch/Senders.antt =====
-- What a sender keeps, the switch keeps (internal/vl2/switch.go).
use zerogo.Base.{ℕ, inl, inr, true, false, Option, none, some, Bytes, get, Result-cases, Bool-cases}
use zerogo.Vl2.Frame.{parse_ethernet_frame}
use zerogo.Vl2.Mac.{mac_to_key}
use zerogo.Vl2.Sender.{PeerSender}
use zerogo.Vl2.Switch.{
  Switch, MacEntry, learn, zero_address, is_group, handle_local_frame, handle_remote_frame,
  route_local, route_remote,
}
use zerogo.Vl2.Switch.Learning.{IsValid, learn-IsValid}

-- Both requests keep what `P` says of the state.
pub record Keeps {ℓ} {W : Type ℓ} (P : W → Type ℓ) (sender : PeerSender W) : Type ℓ where
  pub on_send :
      (peer : Bytes) (id : ℕ) (frame : Bytes) (w : W)
      → P w
      → P (sender.send_to_peer peer id frame w).0
  pub on_broadcast :
      (id : ℕ) (frame exclude : Bytes) (w : W)
      → P w
      → P (sender.broadcast_to_peers id frame exclude w).0

module _ {ℓ} {W : Type ℓ} (P : W → Type ℓ) (sender : PeerSender W) (k : Keeps P sender) where
  route_local-Keeps :
      (sw : Switch) (o : Option MacEntry) (frame : Bytes) (w : W)
      → P w
      → P (route_local sender sw o frame w).0
  unfolding route_local
  route_local-Keeps sw none frame w h = k.on_broadcast sw.network_id frame zero_address w h
  route_local-Keeps sw (some v) frame w h = elim (Bool-cases (v.is_local)) [
    | inl here ↦ rw here h
    | inr far ↦ rw far (k.on_send v.peer_addr sw.network_id frame w h)
  ]

  route_remote-Keeps :
      (peer : Bytes) (sw : Switch) (o : Option MacEntry) (frame : Bytes) (w : W)
      → P w
      → P (route_remote sender peer sw o frame w).0
  unfolding route_remote
  route_remote-Keeps peer sw none frame w h = k.on_broadcast sw.network_id frame peer w h
  route_remote-Keeps peer sw (some v) frame w h = elim (Bool-cases (v.is_local)) [
    | inl here ↦ rw here h
    | inr far ↦ rw far (k.on_send v.peer_addr sw.network_id frame w h)
  ]

  pub handle_local_frame-Keeps :
      (now : ℕ) (frame : Bytes) (sw : Switch) (w : W)
      → IsValid sw
      → P w
      → IsValid (handle_local_frame sender now frame sw w).0
        × P (handle_local_frame sender now frame sw w).1
  unfolding handle_local_frame
  handle_local_frame-Keeps now frame sw w v h = elim (Result-cases (parse_ethernet_frame frame)) [
    | inl (e, bad) ↦ rw (bad, handle_local_frame) (v, h)
    | inr (a, good) ↦
        let sw' = learn now a.src_mac zero_address true sw in
        elim (Bool-cases (is_group a)) [
          | inl group ↦
              rw (good, handle_local_frame, group)
                (
                  learn-IsValid now a.src_mac zero_address true sw v,
                  k.on_broadcast sw'.network_id frame zero_address w h,
                )
          | inr one ↦
              rw (good, handle_local_frame, one)
                (
                  learn-IsValid now a.src_mac zero_address true sw v,
                  route_local-Keeps sw' (get (mac_to_key a.dst_mac) sw'.mac_table) frame w h,
                )
        ]
  ]

  pub handle_remote_frame-Keeps :
      (now : ℕ) (peer frame : Bytes) (sw : Switch) (w : W)
      → IsValid sw
      → P w
      → IsValid (handle_remote_frame sender now peer frame sw w).0
        × P (handle_remote_frame sender now peer frame sw w).1
  unfolding handle_remote_frame
  handle_remote_frame-Keeps now peer frame sw w v h =
      elim (Result-cases (parse_ethernet_frame frame)) [
        | inl (e, bad) ↦ rw (bad, handle_remote_frame) (v, h)
        | inr (a, good) ↦
            let sw' = learn now a.src_mac peer false sw in
            elim (Bool-cases (is_group a)) [
              | inl group ↦
                  rw (good, handle_remote_frame, group)
                    (
                      learn-IsValid now a.src_mac peer false sw v,
                      k.on_broadcast sw'.network_id frame peer w h,
                    )
              | inr one ↦
                  rw (good, handle_remote_frame, one)
                    (
                      learn-IsValid now a.src_mac peer false sw v,
                      route_remote-Keeps peer sw' (get (mac_to_key a.dst_mac) sw'.mac_table) frame w
                          h,
                    )
            ]
      ]
