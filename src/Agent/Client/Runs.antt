-- ===== src/Agent/Client/Runs.antt =====
-- The agent with its controller's client over any sequence of packets, frames, calls and messages
-- of the controller (internal/agent/agent.go, internal/agent/controller.go).
use zerogo.Base.{
  ℕ, inl, inr, Bool, Option, none, some, List, [], ◌∷◌, Bytes, replicate, Bool-cases, sscanf_uint,
}
use zerogo.Crypto.{Crypto}
use zerogo.Protocol.{PeerInfo, NetworkConfig, ControllerMessage, network_config, peer_update, error}
use zerogo.Vl2.Switch.Learning.{new_switch-IsValid}
use zerogo.Agent.{Datagram}
use zerogo.Agent.Tap.{Local}
use zerogo.Agent.Wellformed.Hellos.{IsWellformed}
use zerogo.Agent.Wellformed.Runs.{Event, step, step-IsWellformed}
use zerogo.Agent.Client.{
  Client, key_of_text, set_psk, set_up, or_default, connect_all, configure, configure_text,
  configure_keyed, handle_network_config, handle_controller_message,
}
use zerogo.Agent.Client.Peers.{add_peers-IsSound, handle_peer_update-IsSound}

-- What happens to an agent that has a controller. A message comes with whether a device could be
-- created.
pub data ClientEvent : Type 0 where
  agent_event : Event → ClientEvent
  controller_event : Bool → Option ControllerMessage → ClientEvent

module _ (c : Crypto) (fails : List Datagram → Datagram → Bool) (pool : Bytes)
    (resolve : Bytes → Option Bytes) where
  connect_all-IsWellformed :
      (now : ℕ) (psk : Bytes) (infos : List PeerInfo) (cl : Client)
      → IsWellformed cl.agent
      → IsWellformed (connect_all c fails pool resolve now psk infos cl).agent
  connect_all-IsWellformed now psk infos cl w = record {
    sound = add_peers-IsSound c fails pool resolve now psk infos cl.agent.node w.sound;
    valid = w.valid;
  }

  configure-IsWellformed :
      (now : ℕ) (tap : Bool) (psk : Bytes) (msg : NetworkConfig) (cl : Client)
      → IsWellformed cl.agent
      → IsWellformed (configure c fails pool resolve now tap psk msg cl).agent
  configure-IsWellformed now tap psk msg cl w =
      let id = sscanf_uint msg.network_id in
      let named = record cl { network_id = id } in
      let sized = record named { tap_mtu = or_default msg.mtu } in
      elim (Bool-cases (cl.has_device)) [
        | inl there ↦ rw there (connect_all-IsWellformed now psk msg.peers named w)
        | inr missing ↦ elim (Bool-cases tap) [
          | inl created ↦
              rw (missing, created)
                (connect_all-IsWellformed now psk msg.peers (set_up id msg sized)
                  (record { sound = w.sound; valid = new_switch-IsValid id }))
          | inr not_created ↦ rw (missing, not_created) w
        ]
      ]

  set_psk-IsWellformed :
      (psk : Bytes) (cl : Client) → IsWellformed cl.agent → IsWellformed (set_psk psk cl).agent
  set_psk-IsWellformed psk cl w = record { sound = w.sound; valid = w.valid }

  configure_keyed-IsWellformed :
      (now : ℕ) (tap : Bool) (msg : NetworkConfig) (o : Option Bytes) (cl : Client)
      → IsWellformed cl.agent
      → IsWellformed (configure_keyed c fails pool resolve now tap msg o cl).agent
  configure_keyed-IsWellformed now tap msg none cl w = w
  configure_keyed-IsWellformed now tap msg (some psk) cl w =
      configure-IsWellformed now tap psk msg (set_psk psk cl) (set_psk-IsWellformed psk cl w)

  configure_text-IsWellformed :
      (now : ℕ) (tap : Bool) (msg : NetworkConfig) (text : Bytes) (cl : Client)
      → IsWellformed cl.agent
      → IsWellformed (configure_text c fails pool resolve now tap msg text cl).agent
  configure_text-IsWellformed now tap msg [] cl w =
      configure-IsWellformed now tap (replicate 32 0) msg cl w
  configure_text-IsWellformed now tap msg (x ∷ xs) cl w =
      configure_keyed-IsWellformed now tap msg (key_of_text (x ∷ xs)) cl w

  message-IsWellformed :
      (now : ℕ) (tap : Bool) (m : Option ControllerMessage) (cl : Client)
      → IsWellformed cl.agent
      → IsWellformed (handle_controller_message c fails pool resolve now tap m cl).agent
  unfolding handle_controller_message handle_network_config
  message-IsWellformed now tap none cl w = w
  message-IsWellformed now tap (some (network_config msg)) cl w =
      configure_text-IsWellformed now tap msg msg.psk cl w
  message-IsWellformed now tap (some (peer_update action info)) cl w = record {
    sound = handle_peer_update-IsSound c fails pool resolve now action info cl.agent.node w.sound;
    valid = w.valid;
  }
  message-IsWellformed now tap (some (error code)) cl w = w

module _ (c : Crypto) (fails : List Datagram → Datagram → Bool) (pool : Bytes)
    (resolve : Bytes → Option Bytes) (gateway : Bytes → Option Bytes) (local : Local) where
  unfoldable pub client_step : ℕ → ClientEvent → Client → Client
  client_step now (agent_event e) cl = record cl {
    agent = step c fails pool gateway local now e cl.agent;
  }
  client_step now (controller_event tap m) cl =
      handle_controller_message c fails pool resolve now tap m cl

  -- Events with their times.
  unfoldable pub run_client : List (ℕ × ClientEvent) → Client → Client
  run_client [] cl = cl
  run_client ((now, e) ∷ es) cl = run_client es (client_step now e cl)

  client_step-IsWellformed :
      (now : ℕ) (e : ClientEvent) (cl : Client)
      → IsWellformed cl.agent
      → IsWellformed (client_step now e cl).agent
  unfolding client_step
  client_step-IsWellformed now (agent_event e) cl w =
      step-IsWellformed c fails pool gateway local now e cl.agent w
  client_step-IsWellformed now (controller_event tap m) cl w =
      message-IsWellformed c fails pool resolve now tap m cl w

  -- Whatever packets, frames, calls and messages of the controller reach an agent, in any order and
  -- whatever writes fail: a peer that its endpoint index finds is a known peer with that endpoint,
  -- and its switch holds at most 4096 MAC entries and no two for one address. So it is at every
  -- time if it is at the start.
  pub run_client-IsWellformed :
      (es : List (ℕ × ClientEvent)) (cl : Client)
      → IsWellformed cl.agent
      → IsWellformed (run_client es cl).agent
  unfolding run_client
  run_client-IsWellformed [] cl w = w
  run_client-IsWellformed ((now, e) ∷ es) cl w =
      run_client-IsWellformed es (client_step now e cl) (client_step-IsWellformed now e cl w)
