-- ===== src/Vl2/Sender.antt =====
-- The interface `PeerSender` of internal/vl2/switch.go: how a switch reaches its peers. `W` is the
-- state of whatever carries the frames.
use zerogo.Base.{ℕ, Option, none, List, ◌∷◌, Bytes}

-- `out_of_range` stands for the panic of a slice out of range.
pub data SendError : Type 0 where
  unknown_peer peer_not_connected no_cipher no_path write_failed out_of_range : SendError

pub record PeerSender {ℓ} (W : Type ℓ) : Type ℓ where
  pub send_to_peer : Bytes → ℕ → Bytes → W → W × Option SendError
  pub broadcast_to_peers : ℕ → Bytes → Bytes → W → W × Option SendError

-- A request that a switch made of its sender.
pub data Sent : Type 0 where
  to_peer : Bytes → ℕ → Bytes → Sent
  to_all_but : Bytes → ℕ → Bytes → Sent

-- A sender that keeps the requests, the latest first.
abbrev pub recorder : PeerSender (List Sent)
recorder = record {
  send_to_peer = λ peer network frame log. (to_peer peer network frame ∷ log, none);
  broadcast_to_peers = λ network frame exclude log. (to_all_but exclude network frame ∷ log, none);
}
