-- ===== src/Vl1/Peer.antt =====
-- internal/vl1/peer.go, lines 14 to 253: a remote node. Times and intervals are nanoseconds; `now`
-- is what `time.Now` gives, and a time that was never set is 0. An endpoint is the text that
-- `UDPAddr.String` gives for it, the only thing the code compares. A connection is a number.
pub mod Activity
mod Tests
use zerogo.Base.{
  ℕ, ◌-◌, ◌+◌, ◌*◌, Bool, true, false, not, ◌&&◌, Option, none, some, List, [], ◌∷◌, Bytes, ltb,
  ◌==◌, if◌then◌else◌, Result, ok, err,
}
use zerogo.Crypto.{Crypto}
use zerogo.Vl1.Cipher.{NoiseCipher, CipherError, encrypt, decrypt, encrypt_to, decrypt_to}

pub data PeerState : Type 0 where
  state_new state_handshake state_connected state_dead : PeerState

pub data IceState : Type 0 where
  ice_none ice_gathering ice_signaling ice_connecting ice_connected ice_failed ice_closed : IceState

abbrev pub second : ℕ
second = 1_000_000_000

abbrev pub default_keepalive_interval : ℕ
default_keepalive_interval = 15 * second

abbrev pub gaming_keepalive_interval : ℕ
gaming_keepalive_interval = 5 * second

abbrev pub peer_timeout : ℕ
peer_timeout = 60 * second

pub record Peer : Type 0 where
  pub address : Bytes
  pub public_key : Bytes
  pub state : PeerState
  pub endpoint : Option Bytes
  pub cipher : Option NoiseCipher
  pub ice_conn : Option ℕ
  pub ice_state : IceState
  pub last_seen : ℕ
  pub last_send : ℕ
  pub latency_ms : ℕ
  pub handshake_at : ℕ
  pub keepalive_interval : ℕ

-- `NewPeer`.
abbrev pub new_peer : Bytes → Bytes → Option Bytes → Peer
new_peer addr pub_key endpoint = record {
  address = addr;
  public_key = pub_key;
  state = state_new;
  endpoint = endpoint;
  cipher = none;
  ice_conn = none;
  ice_state = ice_none;
  last_seen = 0;
  last_send = 0;
  latency_ms = 0;
  handshake_at = 0;
  keepalive_interval = 0;
}

-- `SetCipher`.
unfoldable pub set_cipher : ℕ → NoiseCipher → Peer → Peer
set_cipher now nc p = record p { cipher = some nc; state = state_connected; last_seen = now }

-- The error of a peer without a cipher, or one of its cipher.
pub data PeerError : Type 0 where
  no_cipher : PeerError
  cipher_error : CipherError → PeerError

-- A cipher's result as its peer's.
abbrev pub as_peer_error {ℓ} : {A : Type ℓ} → Result CipherError A → Result PeerError A
as_peer_error (ok a) = ok a
as_peer_error (err e) = err (cipher_error e)

-- A call of the cipher, whose counters the peer then holds.
abbrev with_cipher {ℓ} :
    {A : Type ℓ}
    → (NoiseCipher → NoiseCipher × Result PeerError A)
    → Peer
    → Peer × Result PeerError A
with_cipher call p = elim (p.cipher) [
  | none ↦ (p, err no_cipher)
  | some nc ↦ let (nc', r) = call nc in (record p { cipher = some nc' }, r)
]

module _ (c : Crypto) where
  -- `Encrypt`, `Decrypt`, `EncryptTo` (its inner result is none where the cipher panics) and
  -- `DecryptTo`.
  unfoldable pub encrypt_for : Bytes → Peer → Peer × Result PeerError Bytes
  encrypt_for plaintext =
      with_cipher (λ nc. let (nc', msg) = encrypt c plaintext nc in (nc', ok msg))

  unfoldable pub decrypt_from : Bytes → Peer → Peer × Result PeerError Bytes
  decrypt_from ciphertext =
      with_cipher (λ nc. let (nc', r) = decrypt c ciphertext nc in (nc', as_peer_error r))

  unfoldable pub encrypt_to_for :
      Bytes → Bytes → Peer → Peer × Result PeerError (Option (Bytes × ℕ))
  encrypt_to_for dst plaintext =
      with_cipher (λ nc. let (nc', r) = encrypt_to c dst plaintext nc in (nc', ok r))

  unfoldable pub decrypt_to_from : Bytes → Bytes → Peer → Peer × Result PeerError (Bytes × Bytes)
  decrypt_to_from dst ciphertext =
      with_cipher (λ nc. let (nc', r) = decrypt_to c dst ciphertext nc in (nc', as_peer_error r))

abbrev is_state_connected : PeerState → Bool
is_state_connected state_connected = true
is_state_connected _ = false

abbrev pub is_state_dead : PeerState → Bool
is_state_dead state_dead = true
is_state_dead _ = false

abbrev is_some {ℓ} : {A : Type ℓ} → Option A → Bool
is_some none = false
is_some (some a) = true

-- `IsConnected`.
unfoldable pub is_connected : Peer → Bool
is_connected p = is_state_connected p.state && is_some p.cipher

-- `IsAlive`.
unfoldable pub is_alive : ℕ → Peer → Bool
is_alive now p = ltb (now - p.last_seen) peer_timeout

-- `Touch`.
unfoldable pub touch : ℕ → Peer → Peer
touch now p = record p { last_seen = now }

-- `NeedsKeepalive`.
unfoldable pub needs_keepalive : ℕ → Peer → Bool
needs_keepalive now p =
    let interval =
      if p.keepalive_interval == 0 then default_keepalive_interval else p.keepalive_interval in
    is_state_connected p.state && ltb interval (now - p.last_send)

-- `SetICEConn`.
unfoldable pub set_ice_conn : ℕ → Peer → Peer
set_ice_conn conn p = record p { ice_conn = some conn; ice_state = ice_connected }

abbrev is_ice_connected : IceState → Bool
is_ice_connected ice_connected = true
is_ice_connected _ = false

-- `HasICE`.
unfoldable pub has_ice : Peer → Bool
has_ice p = is_some p.ice_conn && is_ice_connected p.ice_state

-- `SetICEState`.
unfoldable pub set_ice_state : IceState → Peer → Peer
set_ice_state state p = record p { ice_state = state }

-- `CloseICE`: the peer afterwards and the connection that is closed.
unfoldable pub close_ice : Peer → Peer × Option ℕ
close_ice p = (record p { ice_conn = none; ice_state = ice_closed }, p.ice_conn)
