-- ===== src/Agent/Start/Tests.antt =====
-- Inputs on which the theorems about the start of an agent are used.
use zerogo.Base.{
  ℕ, ◌≡◌, refl, Bool, true, false, Option, some, none, List, [], ◌∷◌, Bytes, bytes_eq, replicate,
  copy, if◌then◌else◌, ok,
}
use zerogo.Crypto.Toy.{toy}
use zerogo.Identity.{Identity, address_from_public_key, encode_to_string, decode_string}
use zerogo.Protocol.{PeerInfo, peer_update, add_action}
use zerogo.Vl1.Manager.Soundness.{new_peer_manager-IsSound}
use zerogo.Agent.{Datagram}
use zerogo.Agent.Tap.{Local}
use zerogo.Agent.Wellformed.Hellos.{IsWellformed}
use zerogo.Agent.Wellformed.Runs.{udp_packet_from, frame_read, cleaned}
use zerogo.Agent.Client.{Client}
use zerogo.Agent.Client.Runs.{ClientEvent, agent_event, controller_event, run_client}
use zerogo.Agent.Start.{PeerEndpoint, Config, new_agent, start}
use zerogo.Agent.Start.Connections.{IsConnectedTo}
use zerogo.Agent.Start.Connected.{start_connects}
use zerogo.Agent.Start.Started.{started_run-IsWellformed}

abbrev never : List Datagram → Datagram → Bool
never log d = false

abbrev pool : Bytes
pool = replicate 64 0

-- Only "b" can be resolved, to itself.
abbrev resolve : Bytes → Option Bytes
resolve text = if bytes_eq text (98 ∷ []) then some text else none

abbrev key : Bytes
key = replicate 32 7

abbrev lost : PeerEndpoint
lost = record { public_key = encode_to_string key; address = 97 ∷ [] }

abbrev found : PeerEndpoint
found = record { public_key = encode_to_string key; address = 98 ∷ [] }

abbrev alone : Config
alone = record { controlled = false; tap_ipv4 = []; static_peers = lost ∷ found ∷ lost ∷ [] }

abbrev controlled : Config
controlled = record { controlled = true; tap_ipv4 = []; static_peers = [] }

abbrev identity : Identity
identity = record {
  address = 1 ∷ 2 ∷ 3 ∷ 4 ∷ 5 ∷ [];
  public_key = replicate 32 1;
  private_key = replicate 32 2;
}

abbrev fresh : Client
fresh = new_agent identity key false 77 0

abbrev local : Local
local = record { ipv4 = replicate 4 0; in_subnet = λ ip. false }

b_is_resolved : resolve (98 ∷ []) ≡ some (98 ∷ [])
unfolding bytes_eq
b_is_resolved = refl

key_is_read : decode_string (encode_to_string key) ≡ some key
unfolding decode_string encode_to_string
key_is_read = refl

start_connects_example :
    (after : Client) × (start toy never pool resolve 5 true (some true) alone fresh ≡ ok after)
    × IsConnectedTo (address_from_public_key toy (copy key (replicate 32 0))) after.agent.node
unfolding new_agent
start_connects_example =
    start_connects toy never pool resolve 5 true alone fresh (lost ∷ []) found (lost ∷ []) (98 ∷ [])
      key new_peer_manager-IsSound refl refl b_is_resolved key_is_read

abbrev info : PeerInfo
info = record {
  address = [];
  public_key = encode_to_string key;
  endpoints = (98 ∷ []) ∷ [];
  name = [];
}

abbrev events : List (ℕ × ClientEvent)
events =
    (5, controller_event true (some (peer_update add_action info)))
    ∷ (6, agent_event (udp_packet_from (98 ∷ []) pool))
    ∷ (7, agent_event (frame_read pool))
    ∷ (8, agent_event cleaned)
    ∷ []

waits : start toy never pool resolve 5 true none controlled fresh ≡ ok fresh
unfolding start
waits = refl

started_run-IsWellformed_example :
    IsWellformed (run_client toy never pool resolve (λ ip. none) local events fresh).agent
started_run-IsWellformed_example =
    started_run-IsWellformed toy never pool resolve (λ ip. none) local identity key false 77 0 5
      true none controlled fresh events waits
