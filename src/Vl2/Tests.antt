-- ===== src/Vl2/Tests.antt =====
-- Inputs on which the theorems about internal/vl2 are used.
use zerogo.Base.{
  List, ℕ, ◌<◌, ◌≡◌, ◌≢◌, refl, ap, false, some, none, [], ◌∷◌, ◌++◌, Bytes, get_or, insert, length,
  ok, arith, be16,
}
use zerogo.Vl2.Frame.{is_broadcast, is_multicast, EthernetFrame, parse_ethernet_frame}
use zerogo.Vl2.Mac.{mac_to_key}
use zerogo.Vl2.Sender.{to_peer, recorder}
use zerogo.Vl2.Switch.{
  Switch, MacEntry, mac_table_max_size, mac_table_expiry, new_switch, bad_frame, handle_local_frame,
  handle_remote_frame, clean_expired, zero_address, is_group,
}
use zerogo.Vl2.Switch.Learning.{IsValid}
use zerogo.Vl2.Switch.Routing.{reply_goes_back}
use zerogo.Vl2.Switch.Bridge.{Bridged, nowhere, at_peer}
use zerogo.Vl2.Switch.Refinement.{observe, observe_all, known, switch_bridges}
use zerogo.Vl2.Switch.History.{hears, last_heard, sent_where_heard}
use zerogo.Vl2.Switch.Runs.{Event, from_device, from_peer, cleaned, run, run-IsValid}

abbrev mac_a : Bytes
mac_a = 2 ∷ 0 ∷ 1 ∷ 1 ∷ 1 ∷ 1 ∷ []

abbrev mac_b : Bytes
mac_b = 2 ∷ 0 ∷ 1 ∷ 2 ∷ 2 ∷ 2 ∷ []

abbrev frame_of : Bytes → Bytes → ℕ → Bytes
frame_of dst src content = dst ++ (src ++ 8 ∷ 0 ∷ content ∷ [])

abbrev parsed_of : Bytes → Bytes → ℕ → EthernetFrame
parsed_of dst src content = record {
  dst_mac = dst;
  src_mac = src;
  ether_type = 0x0800;
  payload = content ∷ [];
  raw = frame_of dst src content;
}

-- From `a` to `b`, and back.
abbrev request : Bytes
request = frame_of mac_b mac_a 9

abbrev response : Bytes
response = frame_of mac_a mac_b 7

request_parsed : parse_ethernet_frame request ≡ ok (parsed_of mac_b mac_a 9)
unfolding parse_ethernet_frame be16
request_parsed = refl

response_parsed : parse_ethernet_frame response ≡ ok (parsed_of mac_a mac_b 7)
unfolding parse_ethernet_frame be16
response_parsed = refl

abbrev peer_a : Bytes
peer_a = 1 ∷ 2 ∷ 3 ∷ 4 ∷ 5 ∷ []

run-IsValid_example :
    let events = from_device 5 request ∷ from_peer 6 peer_a response ∷ cleaned 7 ∷ [] in
    IsValid (run recorder events (new_switch 77) []).0
    × ((run recorder events (new_switch 77) []).0.network_id ≡ 77)
run-IsValid_example =
    run-IsValid recorder 77 (from_device 5 request ∷ from_peer 6 peer_a response ∷ cleaned 7 ∷ [])
      []

one_learned :
    length (handle_remote_frame recorder 5 peer_a request (new_switch 77) []).0.mac_table
    < mac_table_max_size
unfolding handle_remote_frame zerogo.Vl2.Switch.learn new_switch parse_ethernet_frame insert
one_learned = omega arith

different_keys : mac_to_key mac_b ≢ mac_to_key mac_a
unfolding mac_to_key
different_keys e = absurd (let f : 2 ≡ 1 = ap (λ m. get_or m 3 0) e in omega arith)

not_group : is_group (parsed_of mac_a mac_b 7) ≡ false
unfolding is_broadcast is_multicast
not_group = refl

reply_goes_back_example :
    let after =
      handle_local_frame recorder 6 response
        (handle_remote_frame recorder 5 peer_a request (new_switch 77) []).0
        [] in
    (after.1 ≡ to_peer peer_a 77 response ∷ []) × (after.2 ≡ none)
unfolding new_switch
reply_goes_back_example =
    reply_goes_back recorder 5 6 peer_a request response (parsed_of mac_b mac_a 9)
      (parsed_of mac_a mac_b 7) (new_switch 77) [] [] request_parsed response_parsed not_group refl
      different_keys one_learned

abbrev two_frames : List Event
two_frames = from_peer 5 peer_a request ∷ from_device 6 response ∷ []

switch_bridges_example :
    Bridged 77 nowhere two_frames
      (observe_all two_frames (new_switch 77)).1
      (known (observe_all two_frames (new_switch 77)).0)
switch_bridges_example = switch_bridges 77 two_frames

answered :
    (observe
      (from_device 6 response)
      (observe_all (from_peer 5 peer_a request ∷ []) (new_switch 77)).0).1.0
    ≡ to_peer peer_a 77 response ∷ []
unfolding observe observe_all new_switch
answered =
    (reply_goes_back recorder 5 6 peer_a request response (parsed_of mac_b mac_a 9)
      (parsed_of mac_a mac_b 7) (new_switch 77) [] [] request_parsed response_parsed not_group refl
      different_keys one_learned).0

sent_where_heard_example :
    hears
      (from_device 6 response)
      (last_heard (from_peer 5 peer_a request ∷ []) nowhere)
      (mac_to_key mac_a)
    ≡ some (at_peer peer_a)
sent_where_heard_example =
    sent_where_heard 77 (from_peer 5 peer_a request ∷ []) (from_device 6 response)
      (parsed_of mac_a mac_b 7) peer_a response_parsed answered
