-- ===== src/Enrollment/Discovery.antt =====
-- How agents learn of each other's endpoints by the controller (internal/agent/controller.go,
-- internal/controller/ws.go).
use zerogo.Base.{ℕ, ◌≡◌, refl, ap, ◌∙◌, Bool, Option, none, some, List, ◌∷◌, Bytes, get, get_elem?}
use zerogo.Crypto.{Crypto}
use zerogo.Identity.{Identity}
use zerogo.Protocol.{join}
use zerogo.Controller.Store.{Database, NodeRow, MemberRow}
use zerogo.Controller.Sessions.{
  Ref, AgentConn, Hub, handle_message, peer_info, conn_of, online_endpoints,
}
use zerogo.Controller.Sessions.Consistent.{joined_conn}
use zerogo.Agent.{Datagram, Node}
use zerogo.Agent.Client.{join_message, first_resolved, add_peer_from_info}
use zerogo.Agent.Client.Peers.{add_peer_from_info-of_unresolved}

module _ (c : Crypto) (fails : List Datagram → Datagram → Bool) (pool : Bytes)
    (resolve : Bytes → Option Bytes) where
  own_endpoint_unresolved :
      (identity : Identity) (networks : List Bytes) (id port : ℕ)
      → ((text : Bytes) → resolve (58 ∷ text) ≡ none)
      → first_resolved resolve (join_message identity networks id port).endpoints ≡ none
  unfolding first_resolved join_message
  own_endpoint_unresolved identity networks id port no_host = rw (no_host _) refl

  module _ {W : Type 0} (d : Database W) where
    -- An online agent joins. From what the controller then tells another agent of it as a member,
    -- that agent adds no peer and nothing changes there: the only endpoint that it announces is a
    -- colon and its port, and `net.ResolveUDPAddr` gives no address for a text without a host.
    pub joined_not_reached :
        (identity : Identity) (networks : List Bytes) (id port now later : ℕ) (r : Ref)
        (addr : Bytes) (hub : Hub W) (conn : AgentConn) (m : MemberRow) (row : NodeRow)
        (psk : Bytes) (node : Node)
        → ((text : Bytes) → resolve (58 ∷ text) ≡ none)
        → get addr hub.agents ≡ some r
        → get_elem? hub.conns r ≡ some conn
        → m.node_address ≡ addr
        → let msg = join_message identity networks id port in
          let after = handle_message d now r addr (some (join msg)) hub in
          add_peer_from_info c fails pool resolve later psk (peer_info after m row) node ≡ node
    unfolding join_message
    joined_not_reached identity networks id port now later r addr hub conn m row psk node no_host
          online there named =
        let msg = join_message identity networks id port in
        let after = handle_message d now r addr (some (join msg)) hub in
        let known : online_endpoints (conn_of m.node_address after.agents after.conns)
            ≡ msg.endpoints =
          rw (named, joined_conn d now r addr msg hub conn online there) refl in
        add_peer_from_info-of_unresolved c fails pool resolve later psk (peer_info after m row) node
          (ap (first_resolved resolve) known
            ∙ own_endpoint_unresolved identity networks id port no_host)
