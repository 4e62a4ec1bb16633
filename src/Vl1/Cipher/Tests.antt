-- ===== src/Vl1/Cipher/Tests.antt =====
-- Inputs on which the theorems about a connection's cipher are used.
use zerogo.Base.{◌≡◌, [], ◌∷◌, Bytes, replicate}
use zerogo.Crypto.Toy.{toy, toy-Laws}
use zerogo.Vl1.Cipher.{NoiseCipher, encrypt, decrypt}
use zerogo.Vl1.Cipher.Traffic.{decrypt_again}

abbrev alice : NoiseCipher
alice = record {
  send_key = replicate 32 1;
  recv_key = replicate 32 2;
  send_nonce = 258;
  recv_nonce = 0;
}

abbrev bob : NoiseCipher
bob = record {
  send_key = replicate 32 2;
  recv_key = replicate 32 1;
  send_nonce = 0;
  recv_nonce = 7;
}

abbrev hello : Bytes
hello = 104 ∷ 105 ∷ []

decrypt_again_example :
    let msg = (encrypt toy hello alice).1 in
    ((decrypt toy msg (record bob { recv_nonce = 9 })).1 ≡ (decrypt toy msg bob).1)
    × ((decrypt toy msg (decrypt toy msg bob).0).1 ≡ (decrypt toy msg bob).1)
decrypt_again_example = decrypt_again toy toy-Laws (encrypt toy hello alice).1 bob 9
