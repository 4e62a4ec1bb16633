-- ===== src/Vl2/Eviction/Choice.antt =====
-- Which entry is evicted, and which are purged.
use zerogo.Base.{
  ℕ, ◌+◌, ◌≤◌, ◌≡◌, ◌⊎◌, inl, inr, refl, Bool, Option, none, some, [], ◌∷◌, Bytes, Table, get,
  Distinct, delete-Distinct, delete, if◌then◌else◌, length, arith, bytes_eq_iff, Option-cases,
}
use zerogo.Vl2.Eviction.{older, oldest, evict_oldest, purge}

abbrev pub AtMost : ℕ → Option ℕ → Type 0
AtMost t none = Unit
AtMost t (some s) = t ≤ s

abbrev Start : ℕ → Option (Bytes × ℕ) → Type 0
Start t none = Unit
Start t (some (i, s)) = t ≤ s

older-eq-some :
    (best : Option (Bytes × ℕ)) (i k : Bytes) (a : Option ℕ) (t : ℕ)
    → older best i a ≡ some (k, t)
    → (best ≡ some (k, t)) ⊎ ((i ≡ k) × (a ≡ some t))
older-eq-some best i k a t h = ground arith

module _ {ℓ} {V : Type ℓ} (age : V → Option ℕ) where
  -- No entry can be evicted.
  abbrev pub Ageless : Table V → Type 0
  Ageless [] = Unit
  Ageless ((k, v) ∷ m) = (age v ≡ none) × Ageless m

  abbrev pub NotOlder : ℕ → Table V → Type 0
  NotOlder t [] = Unit
  NotOlder t ((k, v) ∷ m) = AtMost t (age v) × NotOlder t m

  oldest-none :
      (m : Table V) (best : Option (Bytes × ℕ))
      → oldest age best m ≡ none
      → (best ≡ none) × Ageless m
  unfolding oldest
  oldest-none [] best h = (h, tt)
  oldest-none ((k, v) ∷ m) best h = ground (arith, oldest-none m (older best k (age v)) h)

  oldest-NotOlder :
      (m : Table V) (best : Option (Bytes × ℕ)) (k : Bytes) (t : ℕ)
      → oldest age best m ≡ some (k, t)
      → Start t best × NotOlder t m
  unfolding oldest
  oldest-NotOlder [] best k t h = ground arith
  oldest-NotOlder ((i, w) ∷ m) best k t h =
      ground (arith, oldest-NotOlder m (older best i (age w)) k t h)

  oldest-get :
      (m : Table V) (best : Option (Bytes × ℕ)) (k : Bytes) (t : ℕ)
      → Distinct m
      → oldest age best m ≡ some (k, t)
      → (best ≡ some (k, t)) ⊎ ((v : V) × (get k m ≡ some v) × (age v ≡ some t))
  unfolding oldest get
  oldest-get [] best k t d h = inl h
  oldest-get ((i, w) ∷ m) best k t d h = elim (oldest-get m (older best i (age w)) k t d.1 h) [
    | inl start ↦ elim (older-eq-some best i k (age w) t start) [
      | inl same ↦ inl same
      | inr (e, a) ↦ inr (w, ground (arith, bytes_eq_iff i k), a)
    ]
    | inr (v, e, a) ↦ inr (v, ground (arith, bytes_eq_iff i k), a)
  ]

  pub Ageless-get : (m : Table V) (j : Bytes) (w : V) → Ageless m → get j m ≡ some w → age w ≡ none
  unfolding get
  Ageless-get [] j w h e = absurd (cc)
  Ageless-get ((i, v) ∷ m) j w h e = ground (arith, Ageless-get m j w h.1)

  pub NotOlder-get :
      (t : ℕ) (m : Table V) (j : Bytes) (w : V) (s : ℕ)
      → NotOlder t m
      → get j m ≡ some w
      → age w ≡ some s
      → t ≤ s
  unfolding get
  NotOlder-get t [] j w s h e a = absurd (cc)
  NotOlder-get t ((i, v) ∷ m) j w s h e a = ground (arith, NotOlder-get t m j w s h.1)

  -- Either no entry has an age and the table stays, or an entry that no other is older than goes.
  pub evict_oldest-cases :
      (m : Table V)
      → Distinct m
      → (Ageless m × (evict_oldest age m ≡ m))
        ⊎ ((k : Bytes) × (v : V) × (t : ℕ) × (get k m ≡ some v)
            × (age v ≡ some t)
            × NotOlder t m
            × (evict_oldest age m ≡ delete k m))
  unfolding evict_oldest
  evict_oldest-cases m d = elim (Option-cases (oldest age none m)) [
    | inl e ↦ inl ((oldest-none m none e).1, rw e)
    | inr ((k, t), e) ↦ elim (oldest-get m none k t d e) [
      | inl h ↦ absurd (cc)
      | inr (v, g, a) ↦ inr (k, v, t, g, a, (oldest-NotOlder m none k t e).1, rw e)
    ]
  ]

  pub evict_oldest-Distinct : (m : Table V) → Distinct m → Distinct (evict_oldest age m)
  evict_oldest-Distinct m d = elim (evict_oldest-cases m d) [
    | inl (_, e) ↦ rw e d
    | inr (k, v, t, g, a, least, e) ↦ rw e (delete-Distinct k m d)
  ]

module _ {ℓ} {V : Type ℓ} (stale : V → Bool) where
  -- Purging keeps exactly the entries that are not stale, as they were.
  pub get-purge :
      (j : Bytes) (m : Table V)
      → Distinct m
      → get j (purge stale m).0
        ≡ elim (get j m) [ none ↦ none | some v ↦ if stale v then none else some v ]
  unfolding purge get
  get-purge j [] d = refl
  get-purge j ((i, w) ∷ m) d = ground (arith, get-purge j m d.1, bytes_eq_iff i j)

  -- The count is the number of entries that are gone.
  pub length-purge : (m : Table V) → length (purge stale m).0 + (purge stale m).1 ≡ length m
  unfolding purge
  length-purge [] = refl
  length-purge ((i, w) ∷ m) = ground (arith, length-purge m)

  pub purge-Distinct : (m : Table V) → Distinct m → Distinct (purge stale m).0
  unfolding purge
  purge-Distinct [] d = tt
  purge-Distinct ((i, w) ∷ m) d = ground (arith, purge-Distinct m d.1, get-purge i m d.1)
