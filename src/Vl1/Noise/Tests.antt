-- ===== src/Vl1/Noise/Tests.antt =====
-- Inputs on which the theorems about the handshake are used.
use zerogo.Base.{◌≡◌, refl, some, Bytes, length, replicate, ok, err}
use zerogo.Crypto.Toy.{toy, toy-Laws}
use zerogo.Vl1.Noise.{
  NoiseHandshake, new_noise_handshake, create_initiation, consume_initiation, create_response,
  consume_response, handshake_initiation_size, invalid_handshake,
}
use zerogo.Vl1.Noise.Initiation.{create_initiation-consume_initiation}
use zerogo.Vl1.Noise.Response.{create_response_refused}

abbrev nines : Bytes
nines = replicate 32 9

abbrev ones : Bytes
ones = replicate 32 1

abbrev twos : Bytes
twos = replicate 32 2

create_initiation-consume_initiation_example :
    let sent =
      create_initiation toy
        (some ones)
        (some (replicate 12 7))
        (new_noise_handshake toy ones nines nines twos) in
    (msg : Bytes) × (sent.1 ≡ ok msg)
    × (length msg ≡ handshake_initiation_size)
    × let received = consume_initiation toy msg (new_noise_handshake toy twos nines ones twos) in
      (received.1 ≡ ok tt)
      × (received.0.remote_static_pub ≡ nines)
      × (received.0.chaining_key ≡ sent.0.chaining_key)
      × (received.0.hash ≡ sent.0.hash)
create_initiation-consume_initiation_example =
    create_initiation-consume_initiation toy toy-Laws ones nines twos nines ones nines nines nines
      (replicate 12 7) twos ones refl refl refl refl refl refl refl

abbrev responder : NoiseHandshake
responder = record {
  local_static = ones;
  local_static_pub = nines;
  remote_static_pub = nines;
  local_ephemeral = replicate 32 0;
  local_ephemeral_pub = replicate 32 0;
  psk = twos;
  chaining_key = ones;
  hash = ones;
  send_key = replicate 32 0;
  recv_key = replicate 32 0;
}

create_response_refused_example :
    (msg : Bytes) × ((create_response toy (some ones) responder).1 ≡ ok msg)
    × (length msg ≡ 65)
    × (consume_response toy msg responder ≡ (responder, err invalid_handshake))
create_response_refused_example =
    create_response_refused toy toy-Laws ones nines responder responder refl refl
