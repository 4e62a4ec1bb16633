-- ===== src/Vl1/Noise/Keys.antt =====
-- The keys that two ends derive from a pre-shared key (internal/vl1/noise.go).
use zerogo.Base.{
  ◌≡◌, ◌≢◌, inl, inr, refl, ap₂, ◌==◌, not, [], ◌∷◌, Bytes, length, arith, Bool-cases,
}
use zerogo.Crypto.{Crypto}
use zerogo.Vl1.Noise.{is_smaller, derive_keys_from_psk}

-- Of two different keys of one length exactly one is the smaller.
is_smaller-not :
    (xs ys : Bytes) → length xs ≡ length ys → xs ≢ ys → is_smaller ys xs ≡ not (is_smaller xs ys)
unfolding is_smaller
is_smaller-not [] [] l h = absurd (h refl)
is_smaller-not [] (y ∷ ys) l h = absurd (omega arith)
is_smaller-not (x ∷ xs) [] l h = absurd (omega arith)
is_smaller-not (x ∷ xs) (y ∷ ys) l h = elim (Bool-cases (x == y)) [
  | inl same ↦
      let e : x ≡ y = ground arith in
      let rest = is_smaller-not xs ys (omega arith) (λ q. h (ap₂ (λ a rest. a ∷ rest) e q)) in
      ground (arith, rest)
  | inr other ↦ ground arith
]

-- Two nodes with one pre-shared key and different public keys derive each other's keys: what the
-- one sends with, the other receives with, in both directions.
pub derive_keys_from_psk_mirror :
    (c : Crypto) (psk a b : Bytes)
    → length a ≡ 32
    → length b ≡ 32
    → a ≢ b
    → ((derive_keys_from_psk c psk a b).0 ≡ (derive_keys_from_psk c psk b a).1)
      × ((derive_keys_from_psk c psk a b).1 ≡ (derive_keys_from_psk c psk b a).0)
unfolding derive_keys_from_psk
derive_keys_from_psk_mirror c psk a b la lb h = elim (Bool-cases (is_smaller a b)) [
  | inl smaller ↦ ground (arith, is_smaller-not a b (omega arith) h)
  | inr larger ↦ ground (arith, is_smaller-not a b (omega arith) h)
]
