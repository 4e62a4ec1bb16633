-- ===== src/Agent/Broadcast.antt =====
-- What a broadcast writes (internal/agent/agent.go, lines 837 to 871).
use zerogo.Base.{ℕ, ◌≡◌, ◌≢◌, Bool, some, List, ◌++◌, Bytes, All}
use zerogo.Crypto.{Crypto, Laws}
use zerogo.Vl1.Packet.RoundTrip.{header_bytes}
use zerogo.Vl1.Cipher.{NoiseCipher, encrypt}
use zerogo.Vl1.Peer.{Peer}
use zerogo.Agent.{Datagram, Node, path_to, data_header}

-- The datagram is the frame, encrypted for a peer other than `exclude`, on the way to that peer.
pub record IsCopy (c : Crypto) (id : ℕ) (frame exclude : Bytes) (d : Datagram) : Type 0 where
  pub peer : Peer
  pub cipher : NoiseCipher
  pub other : peer.address ≢ exclude
  pub has : peer.cipher ≡ some cipher
  pub on_its_way :
      path_to peer (header_bytes (data_header id) ++ (encrypt c frame cipher).1) ≡ some d

module _ (c : Crypto) (laws : Laws c) (fails : List Datagram → Datagram → Bool) (pool : Bytes)
    (id : ℕ) (frame exclude : Bytes) where
  -- The log of `after` is that of `node` and copies of the frame before it.
  abbrev Extends : Node → Node → Type 0
  Extends after node =
      (new : List Datagram) × (after.sent ≡ new ++ node.sent) × All (IsCopy c id frame exclude) new
