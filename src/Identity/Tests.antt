-- ===== src/Identity/Tests.antt =====
-- Inputs on which the theorems about internal/identity are used.
use zerogo.Base.{◌≡◌, refl, false, true, some, none, [], ◌∷◌, ◌++◌, replicate, ok}
use zerogo.Crypto.Toy.{toy}
use zerogo.Identity.{
  Identity, address_from_public_key, clamp, load_or_generate, generate, address_of_hash,
}
use zerogo.Identity.Keys.{load_or_generate_again}

abbrev made : Identity
made = record {
  private_key = 0 ∷ (replicate 30 0 ++ 64 ∷ []);
  public_key = replicate 32 9;
  address = 1 ∷ replicate 4 0;
}

first_start :
    load_or_generate toy (some (replicate 32 0)) true true none ≡ (ok made, some made.private_key)
unfolding load_or_generate generate clamp address_from_public_key address_of_hash
first_start = refl

load_or_generate_again_example :
    load_or_generate toy none false false (some made.private_key) ≡ (ok made, some made.private_key)
load_or_generate_again_example =
    load_or_generate_again toy (replicate 32 0) none made made.private_key true true none false
      false refl first_start
