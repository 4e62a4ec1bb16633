-- ===== src/Vl2/Eviction.antt =====
-- The two loops that the MAC table (internal/vl2/switch.go) and the ARP cache
-- (internal/vl2/arp.go) share: the choice of the oldest entry, and the removal of stale entries.
pub mod Choice
use zerogo.Base.{
  ℕ, suc, Bool, Option, none, some, List, [], ◌∷◌, Bytes, Table, delete, ltb, if◌then◌else◌,
}

-- One round of `evictOldest`: `none` is `first == true`, and an entry without an age is skipped.
abbrev pub older : Option (Bytes × ℕ) → Bytes → Option ℕ → Option (Bytes × ℕ)
older best k none = best
older none k (some t) = some (k, t)
older (some (j, least)) k (some t) = if ltb t least then some (k, t) else some (j, least)

module _ {ℓ} {V : Type ℓ} where
  unfoldable pub oldest : (V → Option ℕ) → Option (Bytes × ℕ) → Table V → Option (Bytes × ℕ)
  oldest age best [] = best
  oldest age best ((k, v) ∷ m) = oldest age (older best k (age v)) m

  abbrev pub without : Option (Bytes × ℕ) → Table V → Table V
  without none m = m
  without (some (k, t)) m = delete k m

  -- `evictOldest`.
  unfoldable pub evict_oldest : (V → Option ℕ) → Table V → Table V
  unfolding oldest
  evict_oldest age m = without (oldest age none m) m

  -- The loop of `CleanExpired`: the entries that stay, and the number of those removed.
  unfoldable pub purge : (V → Bool) → Table V → Table V × ℕ
  purge stale [] = ([], 0)
  purge stale ((k, v) ∷ m) =
      let (rest, removed) = purge stale m in
      if stale v then (rest, suc removed) else ((k, v) ∷ rest, removed)
