-- ===== src/Vl2/Switch/Routing.antt =====
-- Where a switch sends the frames that it is given (internal/vl2/switch.go).
use zerogo.Base.{
  ℕ, ◌<◌, ◌≡◌, ◌≢◌, ◌⊎◌, inl, inr, refl, Bool, true, false, none, some, List, ◌∷◌, Bytes, get,
  length, if◌then◌else◌, arith, Bool-cases, Option-cases, bytes_eq, bytes_eq_iff, get-insert_self,
  Result-cases, ok, err,
}
use zerogo.Vl2.Frame.{EthernetFrame, FrameError, parse_ethernet_frame}
use zerogo.Vl2.Mac.{mac_to_key}
use zerogo.Vl2.Sender.{PeerSender, Sent, to_peer, to_all_but, recorder}
use zerogo.Vl2.Switch.{
  Switch, MacEntry, bad_frame, learn, mac_table_max_size, zero_address, is_group, sent_error,
  handle_local_frame, handle_remote_frame,
}
use zerogo.Vl2.Switch.Learning.{get-learn_room}

module _ {ℓ} {W : Type ℓ} (sender : PeerSender W) where
  remote_learns :
      (now : ℕ) (p frame : Bytes) (sw : Switch) (w : W) (a : EthernetFrame)
      → parse_ethernet_frame frame ≡ ok a
      → (handle_remote_frame sender now p frame sw w).0 ≡ learn now a.src_mac p false sw
  unfolding handle_remote_frame
  remote_learns now p frame sw w a e = rw (e, handle_remote_frame)

  learned-get :
      (now : ℕ) (mac p : Bytes) (is_local : Bool) (sw : Switch)
      → get (mac_to_key mac) (learn now mac p is_local sw).mac_table
        ≡ some (record { peer_addr = p; last_seen = now; is_local = is_local })
  unfolding learn
  learned-get now mac p is_local sw = get-insert_self (mac_to_key mac) _ _

  local_unicast :
      (now : ℕ) (frame : Bytes) (sw : Switch) (w : W) (b : EthernetFrame) (entry : MacEntry)
      → parse_ethernet_frame frame ≡ ok b
      → is_group b ≡ false
      → get (mac_to_key b.dst_mac) (learn now b.src_mac zero_address true sw).mac_table ≡ some entry
      → entry.is_local ≡ false
      → let after = handle_local_frame sender now frame sw w in
        let sent =
          sender.send_to_peer entry.peer_addr
            (learn now b.src_mac zero_address true sw).network_id
            frame
            w in
        (after.1 ≡ sent.0) × (after.2 ≡ sent_error sent.1)
  unfolding handle_local_frame
  local_unicast now frame sw w b entry e unicast g far =
      rw (e, handle_local_frame, unicast, g, far) (refl, refl)

  learned_twice :
      (t1 t2 : ℕ) (p m1 m2 : Bytes) (sw : Switch)
      → mac_to_key m2 ≢ mac_to_key m1
      → length (learn t1 m1 p false sw).mac_table < mac_table_max_size
      → get (mac_to_key m1) (learn t2 m2 zero_address true (learn t1 m1 p false sw)).mac_table
        ≡ some (record { peer_addr = p; last_seen = t1; is_local = false })
  learned_twice t1 t2 p m1 m2 sw h room = ground (
    arith,
    get-learn_room t2 m2 zero_address true (learn t1 m1 p false sw) room (mac_to_key m1),
    learned-get t1 m1 p false sw,
    bytes_eq_iff (mac_to_key m2) (mac_to_key m1),
  )

  -- Two frames: the first comes from peer `p`; the second, from the local device, is unicast to the
  -- address that sent the first, and has another source. While the table has room, the second goes
  -- to `p` alone, under the switch's network id, and what the sender reports is returned.
  pub reply_goes_back :
      (t1 t2 : ℕ) (p f1 f2 : Bytes) (a b : EthernetFrame) (sw : Switch) (w1 w2 : W)
      → parse_ethernet_frame f1 ≡ ok a
      → parse_ethernet_frame f2 ≡ ok b
      → is_group b ≡ false
      → mac_to_key b.dst_mac ≡ mac_to_key a.src_mac
      → mac_to_key b.src_mac ≢ mac_to_key a.src_mac
      → length (handle_remote_frame sender t1 p f1 sw w1).0.mac_table < mac_table_max_size
      → let after =
          handle_local_frame sender t2 f2 (handle_remote_frame sender t1 p f1 sw w1).0 w2 in
        let sent = sender.send_to_peer p sw.network_id f2 w2 in
        (after.1 ≡ sent.0) × (after.2 ≡ sent_error sent.1)
  unfolding learn
  reply_goes_back t1 t2 p f1 f2 a b sw w1 w2 ea eb unicast dst src room =
      let first = remote_learns t1 p f1 sw w1 a ea in
      let g = learned_twice t1 t2 p a.src_mac b.src_mac sw src (rw first at room) in
      rw first (
        local_unicast t2 f2 (learn t1 a.src_mac p false sw) w2 b
          (record { peer_addr = p; last_seen = t1; is_local = false }) eb unicast (rw dst g) refl)

  remote_unicast :
      (now : ℕ) (p frame : Bytes) (sw : Switch) (w : W) (b : EthernetFrame) (entry : MacEntry)
      → parse_ethernet_frame frame ≡ ok b
      → is_group b ≡ false
      → get (mac_to_key b.dst_mac) (learn now b.src_mac p false sw).mac_table ≡ some entry
      → entry.is_local ≡ false
      → let after = handle_remote_frame sender now p frame sw w in
        (after.1 ≡ (sender.send_to_peer entry.peer_addr sw.network_id frame w).0) × (after.2 ≡ none)
  unfolding handle_remote_frame learn
  remote_unicast now p frame sw w b entry e unicast g far =
      rw (e, handle_remote_frame, unicast, g, far) (refl, refl)

  learned_from_same :
      (t1 t2 : ℕ) (p m1 m2 : Bytes) (sw : Switch)
      → length (learn t1 m1 p false sw).mac_table < mac_table_max_size
      → (t : ℕ) × (get (mac_to_key m1) (learn t2 m2 p false (learn t1 m1 p false sw)).mac_table
          ≡ some (record { peer_addr = p; last_seen = t; is_local = false }))
  learned_from_same t1 t2 p m1 m2 sw room =
      let after = get-learn_room t2 m2 p false (learn t1 m1 p false sw) room (mac_to_key m1) in
      elim (Bool-cases (bytes_eq (mac_to_key m2) (mac_to_key m1))) [
        | inl same ↦ (t2, ground (arith, after))
        | inr other ↦ (t1, ground (arith, after, learned-get t1 m1 p false sw))
      ]

  -- A unicast frame from peer `p` to an address that was learned from `p` itself goes back to `p`:
  -- the switch does not keep a frame off the link that it came from. It is not injected.
  pub remote_frame_reflected :
      (t1 t2 : ℕ) (p f1 f2 : Bytes) (a b : EthernetFrame) (sw : Switch) (w1 w2 : W)
      → parse_ethernet_frame f1 ≡ ok a
      → parse_ethernet_frame f2 ≡ ok b
      → is_group b ≡ false
      → mac_to_key b.dst_mac ≡ mac_to_key a.src_mac
      → length (handle_remote_frame sender t1 p f1 sw w1).0.mac_table < mac_table_max_size
      → let after =
          handle_remote_frame sender t2 p f2 (handle_remote_frame sender t1 p f1 sw w1).0 w2 in
        (after.1 ≡ (sender.send_to_peer p sw.network_id f2 w2).0) × (after.2 ≡ none)
  unfolding learn
  remote_frame_reflected t1 t2 p f1 f2 a b sw w1 w2 ea eb unicast dst room =
      let first = remote_learns t1 p f1 sw w1 a ea in
      let (t, g) = learned_from_same t1 t2 p a.src_mac b.src_mac sw (rw first at room) in
      rw first (
        remote_unicast t2 p f2 (learn t1 a.src_mac p false sw) w2 b
          (record { peer_addr = p; last_seen = t; is_local = false }) eb unicast (rw dst g) refl)

-- The requests that a switch makes of its sender for one frame from the local device, and its
-- table afterwards: none for a frame that is too short, which changes nothing; a flood to every
-- peer for a group address or an unknown one; the frame to the peer of a known remote address; none
-- for a local address. The frame goes out unchanged, and under the switch's network id.
pub handle_local_frame_cases :
    (now : ℕ) (frame : Bytes) (sw : Switch) (log : List Sent)
    → let r = handle_local_frame recorder now frame sw log in
      ((e : FrameError) × (parse_ethernet_frame frame ≡ err e)
        × (r ≡ (sw, log, some (bad_frame e))))
      ⊎ ((a : EthernetFrame) × (parse_ethernet_frame frame ≡ ok a)
          × (r.0 ≡ learn now a.src_mac zero_address true sw)
          × (r.2 ≡ none)
          × ((((is_group a ≡ true) ⊎ (get (mac_to_key a.dst_mac) r.0.mac_table ≡ none))
                × (r.1 ≡ to_all_but zero_address sw.network_id frame ∷ log))
              ⊎ ((v : MacEntry) × (is_group a ≡ false)
                  × (get (mac_to_key a.dst_mac) r.0.mac_table ≡ some v)
                  × (r.1 ≡ (
                      if v.is_local then log else to_peer v.peer_addr sw.network_id frame ∷ log)))))
unfolding handle_local_frame learn
handle_local_frame_cases now frame sw log = elim (Result-cases (parse_ethernet_frame frame)) [
  | inl (e, h) ↦ inl (e, h, ground arith)
  | inr (a, h) ↦
      let table = (learn now a.src_mac zero_address true sw).mac_table in
      inr (
        a,
        h,
        ground arith,
        ground arith,
        elim (Bool-cases (is_group a)) [
          | inl group ↦ inl (inl group, ground arith)
          | inr one ↦ elim (Option-cases (get (mac_to_key a.dst_mac) table)) [
            | inl unknown ↦ inl (inr (ground arith), ground arith)
            | inr (v, known) ↦ inr (v, one, ground arith, ground arith)
          ]
        ],
      )
]

-- The same for a frame from peer `p`, with the frame that is injected: a frame that is too short
-- changes nothing; a group or unknown address is flooded to all peers but `p` and injected; a local
-- address is injected only; a known remote address is sent to its peer only.
pub handle_remote_frame_cases :
    (now : ℕ) (p frame : Bytes) (sw : Switch) (log : List Sent)
    → let r = handle_remote_frame recorder now p frame sw log in
      ((e : FrameError) × (parse_ethernet_frame frame ≡ err e)
        × (r ≡ (sw, log, none, some (bad_frame e))))
      ⊎ ((a : EthernetFrame) × (parse_ethernet_frame frame ≡ ok a)
          × (r.0 ≡ learn now a.src_mac p false sw)
          × (r.3 ≡ none)
          × ((((is_group a ≡ true) ⊎ (get (mac_to_key a.dst_mac) r.0.mac_table ≡ none))
                × (r.1 ≡ to_all_but p sw.network_id frame ∷ log)
                × (r.2 ≡ some frame))
              ⊎ ((v : MacEntry) × (is_group a ≡ false)
                  × (get (mac_to_key a.dst_mac) r.0.mac_table ≡ some v)
                  × (r.1
                      ≡ (if v.is_local then log else to_peer v.peer_addr sw.network_id frame ∷ log))
                  × (r.2 ≡ (if v.is_local then some frame else none)))))
unfolding handle_remote_frame learn
handle_remote_frame_cases now p frame sw log = elim (Result-cases (parse_ethernet_frame frame)) [
  | inl (e, h) ↦ inl (e, h, ground arith)
  | inr (a, h) ↦
      let table = (learn now a.src_mac p false sw).mac_table in
      inr (
        a,
        h,
        ground arith,
        ground arith,
        elim (Bool-cases (is_group a)) [
          | inl group ↦ inl (inl group, ground arith, ground arith)
          | inr one ↦ elim (Option-cases (get (mac_to_key a.dst_mac) table)) [
            | inl unknown ↦ inl (inr (ground arith), ground arith, ground arith)
            | inr (v, known) ↦ inr (v, one, ground arith, ground arith, ground arith)
          ]
        ],
      )
]
