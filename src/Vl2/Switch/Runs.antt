-- ===== src/Vl2/Switch/Runs.antt =====
-- A switch over any sequence of frames and clean-ups (internal/vl2/switch.go). Each operation runs
-- under the lock of the table; a run is one order in which they take it.
use zerogo.Base.{ℕ, ◌≡◌, inl, inr, refl, ◌∙◌, true, false, List, [], ◌∷◌, Bytes, Result-cases}
use zerogo.Vl2.Frame.{parse_ethernet_frame}
use zerogo.Vl2.Sender.{PeerSender}
use zerogo.Vl2.Switch.{
  Switch, new_switch, learn, clean_expired, handle_local_frame, handle_remote_frame, zero_address,
}
use zerogo.Vl2.Switch.Learning.{IsValid, new_switch-IsValid, learn-IsValid, clean_expired-IsValid}

-- What happens to a switch, each with its time.
pub data Event : Type 0 where
  from_device : ℕ → Bytes → Event
  from_peer : ℕ → Bytes → Bytes → Event
  cleaned : ℕ → Event

module _ {ℓ} {W : Type ℓ} (sender : PeerSender W) where
  unfoldable pub step : Event → Switch → W → Switch × W
  unfolding handle_local_frame handle_remote_frame clean_expired
  step (from_device now frame) sw w =
      let (sw', w', e) = handle_local_frame sender now frame sw w in (sw', w')
  step (from_peer now peer frame) sw w =
      let (sw', w', inject, e) = handle_remote_frame sender now peer frame sw w in (sw', w')
  step (cleaned now) sw w = ((clean_expired now sw).0, w)

  unfoldable pub run : List Event → Switch → W → Switch × W
  run [] sw w = (sw, w)
  run (e ∷ es) sw w = run es (step e sw w).0 (step e sw w).1

  step-IsValid :
      (e : Event) (sw : Switch) (w : W)
      → IsValid sw
      → IsValid (step e sw w).0 × ((step e sw w).0.network_id ≡ sw.network_id)
  unfolding step learn
  step-IsValid (from_device now frame) sw w v = elim (Result-cases (parse_ethernet_frame frame)) [
    | inl (e, h) ↦ rw (h, step, handle_local_frame) (v, refl)
    | inr (a, h) ↦
        rw (h, step, handle_local_frame) (learn-IsValid now a.src_mac zero_address true sw v, refl)
  ]
  step-IsValid (from_peer now p frame) sw w v = elim (Result-cases (parse_ethernet_frame frame)) [
    | inl (e, h) ↦ rw (h, step, handle_remote_frame) (v, refl)
    | inr (a, h) ↦
        rw (h, step, handle_remote_frame) (learn-IsValid now a.src_mac p false sw v, refl)
  ]
  step-IsValid (cleaned now) sw w v = (clean_expired-IsValid now sw v, refl)

  run-IsValid_from :
      (es : List Event) (sw : Switch) (w : W)
      → IsValid sw
      → IsValid (run es sw w).0 × ((run es sw w).0.network_id ≡ sw.network_id)
  unfolding run
  run-IsValid_from [] sw w v = (v, refl)
  run-IsValid_from (e ∷ es) sw w v =
      let (v', same) = step-IsValid e sw w v in
      let (v'', same') = run-IsValid_from es (step e sw w).0 (step e sw w).1 v' in
      (v'', same' ∙ same)

  -- Whatever frames arrive and whenever it is cleaned, a switch never holds more than 4096 MAC
  -- entries nor two for one address, and it keeps its network id.
  pub run-IsValid :
      (id : ℕ) (es : List Event) (w : W)
      → IsValid (run es (new_switch id) w).0 × ((run es (new_switch id) w).0.network_id ≡ id)
  unfolding new_switch
  run-IsValid id es w = run-IsValid_from es (new_switch id) w (new_switch-IsValid id)
