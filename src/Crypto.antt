-- ===== src/Crypto.antt =====
-- The cryptography that the code takes from golang.org/x/crypto, as a parameter, with the laws that
-- its documentation states and that the code relies on.
pub mod Toy
use zerogo.Base.{◌+◌, ◌≤◌, ◌≡◌, Option, some, Bytes, length}

-- `hash` is `blake2s.Sum256`, and `keyed_hash key` what `blake2s.New256(key)` computes, `none` for
-- a key that it refuses. `seal` and `unseal` are ChaCha20-Poly1305 on key, nonce, input and
-- additional data.
pub record Crypto : Type 0 where
  pub hash : Bytes → Bytes
  pub keyed_hash : Bytes → Bytes → Option Bytes
  pub x25519 : Bytes → Bytes → Option Bytes
  pub basepoint : Bytes
  pub seal : Bytes → Bytes → Bytes → Bytes → Bytes
  pub unseal : Bytes → Bytes → Bytes → Bytes → Option Bytes

pub record Laws (c : Crypto) : Type 0 where
  pub length-hash : (m : Bytes) → length (c.hash m) ≡ 32
  -- `New256` takes every key of at most 32 bytes.
  pub length-keyed_hash :
      (k m : Bytes) → length k ≤ 32 → (d : Bytes) × (c.keyed_hash k m ≡ some d) × (length d ≡ 32)
  pub length-x25519 : (k u s : Bytes) → c.x25519 k u ≡ some s → length s ≡ 32
  -- Both ends of an exchange compute the same secret.
  pub x25519_comm :
      (a b pa pb : Bytes)
      → c.x25519 a c.basepoint ≡ some pa
      → c.x25519 b c.basepoint ≡ some pb
      → c.x25519 a pb ≡ c.x25519 b pa
  pub length-seal : (k n m ad : Bytes) → length (c.seal k n m ad) ≡ length m + 16
  pub unseal-seal : (k n m ad : Bytes) → c.unseal k n (c.seal k n m ad) ad ≡ some m
