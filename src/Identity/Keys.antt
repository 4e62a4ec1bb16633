-- ===== src/Identity/Keys.antt =====
-- Private keys, and the identity that survives a restart (internal/identity/identity.go).
use Prim.Native.Nat.{bit_and, bit_or}
use zerogo.Base.{
  ℕ, zero, suc, ◌+◌, ◌*◌, ◌/◌, ◌%◌, ◌<◌, ◌≡◌, inl, inr, refl, sym, ap, Bool, true, ◌&&◌, some, none,
  [], ◌∷◌, Bytes, length, get_or, set, length-set, replicate, copy, copy_full, arith, ok, Result,
  ◌==◌, ==_iff, if◌then◌else◌, Option, Bool-cases, ◌∙◌, AreBytes,
}
use zerogo.Crypto.{Crypto}
use zerogo.Identity.{
  Identity, IdentityError, clamp, private_key_size, from_private_key, generate, generate_and_save,
  load_or_generate,
}

every_below : ℕ → (ℕ → Bool) → Bool
every_below zero p = true
every_below (suc n) p = p n && every_below n p

every_below_sound : (n : ℕ) (p : ℕ → Bool) (x : ℕ) → every_below n p ≡ true → x < n → p x ≡ true
unfolding every_below
every_below_sound zero p x h lt = absurd (omega arith)
every_below_sound (suc n) p x h lt = ground (arith, every_below_sound n p x)

low_table : every_below 256 (λ x. bit_and x 248 == x / 8 * 8) ≡ true
unfolding every_below
low_table = refl

high_table : every_below 256 (λ x. bit_or (bit_and x 127) 64 == x % 64 + 64) ≡ true
unfolding every_below
high_table = refl

low_bits : (x : ℕ) → x < 256 → bit_and x 248 ≡ x / 8 * 8
low_bits x h = (==_iff _ _).0 (every_below_sound 256 _ x low_table h)

high_bits : (x : ℕ) → x < 256 → bit_or (bit_and x 127) 64 ≡ x % 64 + 64
high_bits x h = (==_iff _ _).0 (every_below_sound 256 _ x high_table h)

get_or-set :
    (xs : Bytes) (i j v : ℕ)
    → i < length xs
    → get_or (set xs i v) j 0 ≡ (if i == j then v else get_or xs j 0)
get_or-set [] i j v h = absurd (omega arith)
get_or-set (x ∷ xs) zero zero v h = refl
get_or-set (x ∷ xs) zero (suc j) v h = ground arith
get_or-set (x ∷ xs) (suc i) zero v h = ground arith
get_or-set (x ∷ xs) (suc i) (suc j) v h = ground (arith, get_or-set xs i j v)

get_or-lt : (xs : Bytes) (i : ℕ) → AreBytes xs → get_or xs i 0 < 256
get_or-lt [] i h = omega arith
get_or-lt (x ∷ xs) zero h = h.0
get_or-lt (x ∷ xs) (suc i) h = get_or-lt xs i h.1

pub length-clamp : (k : Bytes) → length (clamp k) ≡ length k
unfolding clamp
length-clamp k = length-set _ 31 _ ∙ length-set _ 31 _ ∙ length-set k 0 _

-- A clamped key has the form that Curve25519 asks for: the low three bits of the first byte are
-- cleared, the last byte has bit 6 set and bit 7 cleared, and all else is as it was.
pub clamp_lem :
    (k : Bytes) (i : ℕ)
    → AreBytes k
    → length k ≡ private_key_size
    → get_or (clamp k) i 0 ≡ (
        if i == 0
        then get_or k 0 0 / 8 * 8
        else if i == 31
        then get_or k 31 0 % 64 + 64
        else get_or k i 0)
unfolding clamp
clamp_lem k i b l =
    let v0 = bit_and (get_or k 0 0) 248 in
    let k1 = set k 0 v0 in
    let v1 = bit_and (get_or k1 31 0) 127 in
    let k2 = set k1 31 v1 in
    let v2 = bit_or (get_or k2 31 0) 64 in
    let l1 : length k1 ≡ 32 = length-set k 0 v0 ∙ l in
    let l2 : length k2 ≡ 32 = length-set k1 31 v1 ∙ l1 in
    let e1 : get_or k1 31 0 ≡ get_or k 31 0 = get_or-set k 0 31 v0 (omega arith) in
    let e2 : get_or k2 31 0 ≡ bit_and (get_or k 31 0) 127 =
      get_or-set k1 31 31 v1 (omega arith) ∙ ap (λ x. bit_and x 127) e1 in
    let e3 : v2 ≡ get_or k 31 0 % 64 + 64 =
      ap (λ x. bit_or x 64) e2 ∙ high_bits (get_or k 31 0) (get_or-lt k 31 b) in
    ground (
      arith,
      get_or-set k2 31 i v2 (omega arith),
      get_or-set k1 31 i v1 (omega arith),
      get_or-set k 0 i v0 (omega arith),
      low_bits (get_or k 0 0) (get_or-lt k 0 b),
    )

generate-ok :
    (c : Crypto) (random : Bytes) (id : Identity)
    → generate c (some random) ≡ ok id
    → (id.private_key ≡ clamp random) × (from_private_key c (clamp random) ≡ ok id)
unfolding generate from_private_key
generate-ok c random id h = (ground arith, ground arith)

saved :
    (mkdirs writes : Bool) (file : Option Bytes) (r : Result IdentityError Identity) (id : Identity)
    (content : Bytes)
    → generate_and_save mkdirs writes file r ≡ (ok id, some content)
    → (r ≡ ok id) × (content ≡ id.private_key)
saved mkdirs writes file r id content h = (ground arith, ground arith)

load_saved :
    (c : Crypto) (random : Bytes) (id : Identity) (content : Bytes) (random' : Option Bytes)
    (mkdirs' writes' : Bool)
    → length random ≡ private_key_size
    → (generate c (some random) ≡ ok id) × (content ≡ id.private_key)
    → load_or_generate c random' mkdirs' writes' (some content) ≡ (ok id, some content)
unfolding load_or_generate
load_saved c random id content random' mkdirs' writes' l (made, e) =
    let (key, again) = generate-ok c random id made in
    let same : content ≡ clamp random = e ∙ key in
    let l' : length content ≡ 32 = ap length same ∙ length-clamp random ∙ l in
    let full : copy content (replicate 32 0) ≡ content =
      copy_full content (replicate 32 0) (sym l') in
    let test : (length content == 32) ≡ true = ground arith in rw (test, full, same, again) refl

-- A restart keeps the identity: what the first start returned, having generated it and saved it,
-- the next start loads from the file, whatever randomness and permissions it then has.
pub load_or_generate_again :
    (c : Crypto) (random : Bytes) (file : Option Bytes) (id : Identity) (content : Bytes)
    (mkdirs writes : Bool) (random' : Option Bytes) (mkdirs' writes' : Bool)
    → length random ≡ private_key_size
    → load_or_generate c (some random) mkdirs writes file ≡ (ok id, some content)
    → (load_or_generate c random' mkdirs' writes' (some content)) ≡ (ok id, some content)
unfolding load_or_generate
load_or_generate_again c random none id content mkdirs writes random' mkdirs' writes' l h =
    load_saved c random id content random' mkdirs' writes' l
      (saved mkdirs writes none _ id content h)
load_or_generate_again c random (some f) id content mkdirs writes random' mkdirs' writes' l h =
    elim (Bool-cases (length f == private_key_size)) [
      | inl loaded ↦
          let same : f ≡ content = ground arith in
          rw (← same, loaded) ((rw loaded at h) ∙ ap (λ z. (ok id, some z)) (sym same))
      | inr fresh ↦
          load_saved c random id content random' mkdirs' writes' l
            (saved mkdirs writes (some f) _ id content (rw fresh at h))
    ]
