-- ===== src/Base/Maps.antt =====
-- Go maps with byte-array or string keys: an association list. The order of the list is the order
-- in which `range` meets the entries; Go leaves it open.
use Prim.Native.Nat.{suc, ◌≤◌, ◌<◌}
use mathlib.Core.Path.{◌≡◌, refl}
use mathlib.Core.Option.{Option, none, some}
use mathlib.Core.List.{List, [], ◌∷◌}
use native.Mathlib.Omega.{arith}
use zerogo.Base.Tests.{if◌then◌else◌}
use zerogo.Base.Lists.{length}
use zerogo.Base.Wire.{Bytes, bytes_eq, bytes_eq_iff, bytes_eq_refl}

abbrev pub Table {ℓ} : Type ℓ → Type ℓ
Table V = List (Bytes × V)

module _ {ℓ} {V : Type ℓ} where
  -- `m[k]` with its second result.
  unfoldable pub get : Bytes → Table V → Option V
  get k [] = none
  get k ((j, v) ∷ m) = if bytes_eq j k then some v else get k m

  -- `m[k] = v`.
  unfoldable pub insert : Bytes → V → Table V → Table V
  insert k v [] = (k, v) ∷ []
  insert k v ((j, w) ∷ m) = if bytes_eq j k then (j, v) ∷ m else (j, w) ∷ insert k v m

  -- `delete(m, k)`.
  unfoldable pub delete : Bytes → Table V → Table V
  delete k [] = []
  delete k ((j, w) ∷ m) = if bytes_eq j k then delete k m else (j, w) ∷ delete k m

  pub get-insert :
      (k j : Bytes) (v : V) (m : Table V)
      → get j (insert k v m) ≡ (if bytes_eq k j then some v else get j m)
  unfolding get insert
  get-insert k j v [] = refl
  get-insert k j v ((i, w) ∷ m) =
      ground (arith, bytes_eq_iff k j, bytes_eq_iff i k, bytes_eq_iff i j, get-insert k j v m)

  pub get-insert_self : (k : Bytes) (v : V) (m : Table V) → get k (insert k v m) ≡ some v
  get-insert_self k v m = ground (arith, get-insert k k v m, bytes_eq_refl k)

  pub get-delete :
      (k j : Bytes) (m : Table V) → get j (delete k m) ≡ (if bytes_eq k j then none else get j m)
  unfolding get delete
  get-delete k j [] = ground arith
  get-delete k j ((i, w) ∷ m) =
      ground (arith, bytes_eq_iff k j, bytes_eq_iff i k, bytes_eq_iff i j, get-delete k j m)

  -- `len(m)` after an insertion: one more for a new key only.
  pub length-insert :
      (k : Bytes) (v : V) (m : Table V)
      → length (insert k v m) ≡ elim (get k m) [ none ↦ suc (length m) | some _ ↦ length m ]
  unfolding get insert
  length-insert k v [] = refl
  length-insert k v ((i, w) ∷ m) = ground (arith, length-insert k v m)

  pub length-insert-le : (k : Bytes) (v : V) (m : Table V) → length (insert k v m) ≤ suc (length m)
  length-insert-le k v m = ground (arith, length-insert k v m)

  pub length-delete-le : (k : Bytes) (m : Table V) → length (delete k m) ≤ length m
  unfolding delete
  length-delete-le k [] = omega arith
  length-delete-le k ((i, w) ∷ m) = ground (arith, length-delete-le k m)

  -- Deleting a key that is there makes room.
  pub length-delete-lt :
      (k : Bytes) (m : Table V) (v : V) → get k m ≡ some v → length (delete k m) < length m
  unfolding get delete
  length-delete-lt k [] v h = absurd (cc)
  length-delete-lt k ((i, w) ∷ m) v h = ground (arith, length-delete-le k m, length-delete-lt k m v)

  -- A key has one entry.
  abbrev pub Distinct : Table V → Type ℓ
  Distinct [] = Unit
  Distinct ((k, v) ∷ m) = (get k m ≡ none) × Distinct m

  pub insert-Distinct : (k : Bytes) (v : V) (m : Table V) → Distinct m → Distinct (insert k v m)
  unfolding insert get
  insert-Distinct k v [] d = (refl, tt)
  insert-Distinct k v ((i, w) ∷ m) d =
      ground (arith, get-insert k i v m, bytes_eq_iff i k, bytes_eq_iff k i, insert-Distinct k v m)

  pub delete-Distinct : (k : Bytes) (m : Table V) → Distinct m → Distinct (delete k m)
  unfolding delete
  delete-Distinct k [] d = tt
  delete-Distinct k ((i, w) ∷ m) d = ground (arith, get-delete k i m, delete-Distinct k m)
