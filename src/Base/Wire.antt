-- ===== src/Base/Wire.antt =====
-- Byte slices as lists of numbers, Go's `copy`, and the encodings of `encoding/binary`.
use Prim.Native.Nat.{ℕ, zero, suc, ◌+◌, ◌*◌, ◌/◌, ◌%◌, ◌≤◌, ◌<◌}
use mathlib.Core.Path.{◌≡◌, refl, ap, ap₂}
use mathlib.Core.Bool.{Bool, true, false, ◌&&◌}
use mathlib.Core.Logic.{◌↔◌}
use mathlib.Core.List.{List, [], ◌∷◌, ◌++◌}
use native.Mathlib.Omega.{arith}
use zerogo.Base.Tests.{◌==◌}
use zerogo.Base.Lists.{length, drop, get_or, replicate, All}

abbrev pub Bytes : Type 0
Bytes = List ℕ

-- Every element is a byte.
abbrev pub AreBytes : Bytes → Type 0
AreBytes = All (λ x. x < 256)

-- Equality of Go arrays and of strings, byte by byte.
unfoldable pub bytes_eq : Bytes → Bytes → Bool
bytes_eq [] [] = true
bytes_eq [] (y ∷ ys) = false
bytes_eq (x ∷ xs) [] = false
bytes_eq (x ∷ xs) (y ∷ ys) = x == y && bytes_eq xs ys

pub bytes_eq_iff : (xs ys : Bytes) → (bytes_eq xs ys ≡ true) ↔ (xs ≡ ys)
unfolding bytes_eq
bytes_eq_iff [] [] = ground arith
bytes_eq_iff [] (y ∷ ys) = ground arith
bytes_eq_iff (x ∷ xs) [] = ground arith
bytes_eq_iff (x ∷ xs) (y ∷ ys) = ground (arith, bytes_eq_iff xs ys)

pub bytes_eq_refl : (xs : Bytes) → bytes_eq xs xs ≡ true
bytes_eq_refl xs = (bytes_eq_iff xs xs).1 refl

-- `copy(dst, src)`: as many bytes as both have.
unfoldable pub copy : Bytes → Bytes → Bytes
copy [] ds = ds
copy (s ∷ ss) [] = []
copy (s ∷ ss) (d ∷ ds) = s ∷ copy ss ds

-- `copy(dst[off:], src)`.
unfoldable pub copy_at : ℕ → Bytes → Bytes → Bytes
unfolding copy
copy_at zero src ds = copy src ds
copy_at (suc off) src [] = []
copy_at (suc off) src (d ∷ ds) = d ∷ copy_at off src ds

pub copy_full : (src dst : Bytes) → length dst ≡ length src → copy src dst ≡ src
unfolding copy
copy_full [] [] h = refl
copy_full [] (d ∷ ds) h = absurd (omega arith)
copy_full (s ∷ ss) [] h = absurd (omega arith)
copy_full (s ∷ ss) (d ∷ ds) h = ap (◌∷◌ s) (copy_full ss ds (omega arith))

pub copy-replicate : (src : Bytes) → copy src (replicate (length src) 0) ≡ src
unfolding copy
copy-replicate [] = refl
copy-replicate (s ∷ ss) = ap (◌∷◌ s) (copy-replicate ss)

-- A copy into a larger slice leaves the rest of it.
pub copy-append :
    (src dst : Bytes) → length src ≤ length dst → copy src dst ≡ src ++ drop (length src) dst
unfolding copy
copy-append [] dst h = refl
copy-append (s ∷ ss) [] h = absurd (omega arith)
copy-append (s ∷ ss) (d ∷ ds) h = ap (◌∷◌ s) (copy-append ss ds (omega arith))

pub length-copy : (src dst : Bytes) → length (copy src dst) ≡ length dst
unfolding copy
length-copy [] dst = refl
length-copy (s ∷ ss) [] = refl
length-copy (s ∷ ss) (d ∷ ds) = ap suc (length-copy ss ds)

-- `binary.BigEndian.Uint16` and `PutUint16`; `b` holds at least two bytes.
unfoldable pub be16 : Bytes → ℕ
be16 b = get_or b 0 0 * 256 + get_or b 1 0

unfoldable pub put_be16 : ℕ → Bytes
put_be16 v = v / 256 % 256 ∷ v % 256 ∷ []

-- `binary.BigEndian.Uint32` and `PutUint32`.
unfoldable pub be32 : Bytes → ℕ
be32 b = get_or b 0 0 * 16777216 + get_or b 1 0 * 65536 + get_or b 2 0 * 256 + get_or b 3 0

unfoldable pub put_be32 : ℕ → Bytes
put_be32 v = v / 16777216 % 256 ∷ v / 65536 % 256 ∷ v / 256 % 256 ∷ v % 256 ∷ []

pub be16-put_be16 : (v : ℕ) → v < 65536 → be16 (put_be16 v) ≡ v
unfolding be16 put_be16
be16-put_be16 v h = omega arith

pub be32-put_be32 : (v : ℕ) → v < 4294967296 → be32 (put_be32 v) ≡ v
unfolding be32 put_be32
be32-put_be32 v h = omega arith

pub put_be16-be16 : (a b : ℕ) → a < 256 → b < 256 → put_be16 (be16 (a ∷ b ∷ [])) ≡ a ∷ b ∷ []
unfolding be16 put_be16
put_be16-be16 a b ha hb = ap₂ (λ x y. x ∷ y ∷ []) (omega arith) (omega arith)
