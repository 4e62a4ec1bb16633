-- ===== src/Controller/Sessions/Registry.antt =====
-- The map of connected agents (internal/controller/ws.go, lines 60 to 108 and 264 to 304).
use mathlib.Core.List.{append_assoc, append-nil}
use zerogo.Base.{
  ℕ, ◌≡◌, inl, inr, refl, sym, ap, ◌∙◌, true, List, [], ◌∷◌, ◌++◌, Bytes, Table, All, All-append,
  get_elem?, Bool-cases, if◌then◌else◌, format_uint,
}
use zerogo.Protocol.{PeerInfo, PeerAction, ControllerMessage, peer_update}
use zerogo.Controller.Sessions.{
  Ref, AgentConn, Hub, send_json, joined_network, update_each, broadcast_peer_update,
}

-- What is written to a connection that has joined the network.
abbrev pub IsTold : Bytes → ControllerMessage → List AgentConn → Ref × ControllerMessage → Type 0
IsTold network m conns (r, m') = (m' ≡ m) × (joined_network network (get_elem? conns r) ≡ true)

-- `x` stands somewhere in `xs`.
abbrev pub IsIn {ℓ} : {A : Type ℓ} → A → List A → Type ℓ
IsIn {A} x xs = (pre : List A) × (post : List A) × (xs ≡ pre ++ x ∷ post)

-- The messages of the loop over the map, the latest first.
told : Bytes → ControllerMessage → List AgentConn → Table Ref → List (Ref × ControllerMessage)
told network m conns [] = []
told network m conns ((_, r) ∷ agents) =
    told network m conns agents
    ++ (if joined_network network (get_elem? conns r) then (r, m) ∷ [] else [])

told-IsTold :
    (network : Bytes) (m : ControllerMessage) (conns : List AgentConn) (agents : Table Ref)
    → All (IsTold network m conns) (told network m conns agents)
unfolding told
told-IsTold network m conns [] = tt
told-IsTold network m conns ((a, r) ∷ agents) =
    All-append (IsTold network m conns) (told network m conns agents)
      (if joined_network network (get_elem? conns r) then (r, m) ∷ [] else [])
      (told-IsTold network m conns agents)
      (elim (Bool-cases (joined_network network (get_elem? conns r))) [
        | inl joined ↦ rw joined ((refl, joined), tt)
        | inr not_joined ↦ rw not_joined tt
      ])

module _ {W : Type 0} where
  update_each_lem :
      (network : Bytes) (m : ControllerMessage) (agents : Table Ref) (hub : Hub W)
      → update_each network m agents hub
        ≡ record hub { sent = told network m hub.conns agents ++ hub.sent }
  unfolding update_each told
  update_each_lem network m [] hub = refl
  update_each_lem network m ((a, r) ∷ agents) hub =
      elim (Bool-cases (joined_network network (get_elem? hub.conns r))) [
        | inl joined ↦ rw joined (
            update_each_lem network m agents (send_json r m hub)
            ∙ ap (λ sent. record hub { sent = sent })
                (sym (append_assoc (told network m hub.conns agents) ((r, m) ∷ []) hub.sent)))
        | inr not_joined ↦
            rw (not_joined, append-nil (told network m hub.conns agents))
              (update_each_lem network m agents hub)
      ]

  pub broadcast-IsTold :
      (id : ℕ) (action : PeerAction) (peer : PeerInfo) (hub : Hub W)
      → (new : List (Ref × ControllerMessage)) × (broadcast_peer_update id action peer hub
          ≡ record hub { sent = new ++ hub.sent })
        × All (IsTold (format_uint id) (peer_update action peer) hub.conns) new
  unfolding broadcast_peer_update
  broadcast-IsTold id action peer hub =
      let network = format_uint id in
      let m = peer_update action peer in
      (
        told network m hub.conns hub.agents,
        update_each_lem network m hub.agents hub,
        told-IsTold network m hub.conns hub.agents,
      )
