-- ===== src/Agent/Start/Started.antt =====
-- An agent from its start on (internal/agent/agent.go, internal/agent/controller.go).
use mathlib.Core.Path.{subst}
use zerogo.Base.{
  ℕ, ◌≡◌, inl, inr, Bool, true, false, Option, none, some, List, Bytes, Bool-cases, Result, ok, err,
}
use zerogo.Crypto.{Crypto}
use zerogo.Identity.{Identity}
use zerogo.Vl1.Manager.Soundness.{new_peer_manager-IsSound}
use zerogo.Vl2.Switch.Learning.{new_switch-IsValid}
use zerogo.Agent.{Datagram}
use zerogo.Agent.Tap.{Local}
use zerogo.Agent.Wellformed.Hellos.{IsWellformed}
use zerogo.Agent.Client.{Client}
use zerogo.Agent.Client.Runs.{ClientEvent, run_client, run_client-IsWellformed}
use zerogo.Agent.Start.{Config, StartError, new_agent, start, start_static}
use zerogo.Agent.Start.Connected.{add_static_peers-IsSound}

new_agent-IsWellformed :
    (identity : Identity) (psk : Bytes) (gaming : Bool) (id mtu : ℕ)
    → IsWellformed (new_agent identity psk gaming id mtu).agent
unfolding new_agent
new_agent-IsWellformed identity psk gaming id mtu = record {
  sound = new_peer_manager-IsSound;
  valid = tt;
}

abbrev ResultIsWellformed : Result StartError Client → Type 0
ResultIsWellformed (err e) = Unit
ResultIsWellformed (ok cl) = IsWellformed cl.agent

module _ (c : Crypto) (fails : List Datagram → Datagram → Bool) (pool : Bytes)
    (resolve : Bytes → Option Bytes) where
  start_static-IsWellformed :
      (now : ℕ) (device : Option Bool) (config : Config) (cl : Client)
      → IsWellformed cl.agent
      → ResultIsWellformed (start_static c fails pool resolve now device config cl)
  start_static-IsWellformed now none config cl w = tt
  start_static-IsWellformed now (some is_tun) config cl w = record {
    sound =
        add_static_peers-IsSound c fails pool resolve now config.static_peers cl.agent.node w.sound;
    valid = new_switch-IsValid cl.network_id;
  }

  start-IsWellformed :
      (now : ℕ) (bound : Bool) (device : Option Bool) (config : Config) (cl : Client)
      → IsWellformed cl.agent
      → ResultIsWellformed (start c fails pool resolve now bound device config cl)
  unfolding start
  start-IsWellformed now false device config cl w = tt
  start-IsWellformed now true device config cl w = elim (Bool-cases config.controlled) [
    | inl controlled ↦ rw controlled w
    | inr alone ↦
        rw alone (start_static-IsWellformed now device (record config { controlled = false }) cl w)
  ]

module _ (c : Crypto) (fails : List Datagram → Datagram → Bool) (pool : Bytes)
    (resolve : Bytes → Option Bytes) (gateway : Bytes → Option Bytes) (local : Local) where
  -- A new agent is started, and then packets, frames, calls and messages of the controller reach
  -- it, in any order and whatever writes fail. At every time a peer that its endpoint index finds
  -- is a known peer with that endpoint, and its switch holds at most 4096 MAC entries and no two
  -- for one address.
  pub started_run-IsWellformed :
      (identity : Identity) (psk : Bytes) (gaming : Bool) (id mtu now : ℕ) (bound : Bool)
      (device : Option Bool) (config : Config) (cl : Client) (es : List (ℕ × ClientEvent))
      → start c fails pool resolve now bound device config (new_agent identity psk gaming id mtu)
        ≡ ok cl
      → IsWellformed (run_client c fails pool resolve gateway local es cl).agent
  started_run-IsWellformed identity psk gaming id mtu now bound device config cl es started =
      let fresh = new_agent identity psk gaming id mtu in
      run_client-IsWellformed c fails pool resolve gateway local es cl (
        subst ResultIsWellformed started (
          start-IsWellformed c fails pool resolve now bound device config fresh
            (new_agent-IsWellformed identity psk gaming id mtu)))
