-- ===== src/Crypto/Toy.antt =====
-- Functions that satisfy the laws of the cryptography, so that the laws can hold together. They
-- hide nothing: every secret is the same, and a sealed text is the text with sixteen zero bytes.
use zerogo.Base.{
  ◌-◌, ◌≡◌, refl, ap, ◌∙◌, some, ◌++◌, Bytes, length, take, replicate, length-append, take-append,
  arith,
}
use zerogo.Crypto.{Crypto, Laws}

abbrev pub toy : Crypto
toy = record {
  hash = λ m. replicate 32 0;
  keyed_hash = λ k m. some (replicate 32 1);
  x25519 = λ k u. some (replicate 32 9);
  basepoint = replicate 32 9;
  seal = λ k n m ad. m ++ replicate 16 0;
  unseal = λ k n m ad. some (take (length m - 16) m);
}

take-sealed : (m : Bytes) → take (length (m ++ replicate 16 0) - 16) (m ++ replicate 16 0) ≡ m
take-sealed m =
    let size : length (m ++ replicate 16 0) - 16 ≡ length m =
      omega (arith, length-append m (replicate 16 0)) in
    ap (λ k. take k (m ++ replicate 16 0)) size ∙ take-append m (replicate 16 0)

pub toy-Laws : Laws toy
toy-Laws = record {
  length-hash = λ m. refl;
  length-keyed_hash = λ k m h. (replicate 32 1, refl, refl);
  length-x25519 = λ k u s e. ground arith;
  x25519_comm = λ a b pa pb ea eb. refl;
  length-seal = λ k n m ad. length-append m (replicate 16 0);
  unseal-seal = λ k n m ad. ap some (take-sealed m);
}
