-- ===== src/Controller/Sessions/Access.antt =====
-- Who is told what (internal/controller/ws.go, lines 188 to 261).
use zerogo.Base.{
  ℕ, ◌≡◌, ◌⊎◌, inl, inr, refl, ap, true, false, Option, none, some, ◌∷◌, Bytes, Bool-cases,
}
use zerogo.Protocol.{ControllerMessage, network_config, error}
use zerogo.Controller.Store.{Database, NetworkRow, MemberRow}
use zerogo.Controller.Sessions.{
  Ref, Hub, config_of, pending, with_db, answer_found, answer_network, answer_key,
  send_network_config,
}

module _ {W : Type 0} where
  pub sent-with_db : (o : Option W) (hub : Hub W) → (with_db o hub).sent ≡ hub.sent
  sent-with_db none hub = refl
  sent-with_db (some w) hub = refl

module _ {W : Type 0} (d : Database W) where
  -- What the answer to a request of `addr` for `network` rests on.
  abbrev pub IsAnswer : Hub W → Bytes → Bytes → ControllerMessage → Type 0
  IsAnswer hub addr network m =
      ((m ≡ error 404)
        × ((d.key network ≡ none)
            ⊎ ((id : ℕ) × (d.key network ≡ some id) × (d.first_network id hub.db ≡ none))))
      ⊎ ((id : ℕ) × (net : NetworkRow) × (d.key network ≡ some id)
          × (d.first_network id hub.db ≡ some net)
          × (((m ≡ error 403)
                × ((d.first_member id addr hub.db ≡ none)
                    ⊎ ((member : MemberRow) × (d.first_member id addr hub.db ≡ some member)
                        × (member.authorized ≡ false))))
              ⊎ ((member : MemberRow) × (d.first_member id addr hub.db ≡ some member)
                  × (member.authorized ≡ true)
                  × (m ≡ network_config (config_of d hub addr network id net member)))))

  found_IsAnswer :
      (r : Ref) (addr network : Bytes) (id : ℕ) (net : NetworkRow) (o : Option MemberRow)
      (hub : Hub W)
      → d.key network ≡ some id
      → d.first_network id hub.db ≡ some net
      → d.first_member id addr hub.db ≡ o
      → (m : ControllerMessage) × ((answer_found d r addr network id net o hub).sent
          ≡ (r, m) ∷ hub.sent)
        × IsAnswer hub addr network m
  found_IsAnswer r addr network id net (some member) hub k n f =
      elim (Bool-cases (member.authorized)) [
        | inl granted ↦ (
          network_config (config_of d hub addr network id net member),
          rw granted refl,
          inr (id, net, k, n, inr (member, f, granted, refl)),
        )
        | inr refused ↦
            (error 403, rw refused refl, inr (id, net, k, n, inl (refl, inr (member, f, refused))))
      ]
  found_IsAnswer r addr network id net none hub k n f = (
    error 403,
    ap (λ sent. (r, error 403) ∷ sent)
        (sent-with_db (d.create_member (pending net.id addr) hub.db) hub),
    inr (id, net, k, n, inl (refl, inl f)),
  )

  network_IsAnswer :
      (r : Ref) (addr network : Bytes) (id : ℕ) (o : Option NetworkRow) (hub : Hub W)
      → d.key network ≡ some id
      → d.first_network id hub.db ≡ o
      → (m : ControllerMessage) × ((answer_network d r addr network id o hub).sent
          ≡ (r, m) ∷ hub.sent)
        × IsAnswer hub addr network m
  network_IsAnswer r addr network id none hub k n = (error 404, refl, inl (refl, inr (id, k, n)))
  network_IsAnswer r addr network id (some net) hub k n =
      found_IsAnswer r addr network id net (d.first_member id addr hub.db) hub k n refl

  key_IsAnswer :
      (r : Ref) (addr network : Bytes) (o : Option ℕ) (hub : Hub W)
      → d.key network ≡ o
      → (m : ControllerMessage) × ((answer_key d r addr network o hub).sent ≡ (r, m) ∷ hub.sent)
        × IsAnswer hub addr network m
  key_IsAnswer r addr network none hub k = (error 404, refl, inl (refl, inl k))
  key_IsAnswer r addr network (some id) hub k =
      network_IsAnswer r addr network id (d.first_network id hub.db) hub k refl

  -- A request for a network's configuration is answered by exactly one message on the connection
  -- that made it: 404 if there is no such network, 403 if the address that the connection claims is
  -- no authorized member, and else the configuration, with the address that the member was
  -- assigned.
  pub send_network_config-IsAnswer :
      (r : Ref) (addr network : Bytes) (hub : Hub W)
      → (m : ControllerMessage) × ((send_network_config d r addr network hub).sent
          ≡ (r, m) ∷ hub.sent)
        × IsAnswer hub addr network m
  unfolding send_network_config
  send_network_config-IsAnswer r addr network hub =
      key_IsAnswer r addr network (d.key network) hub refl
