-- ===== src/Base/Decimal.antt =====
-- Decimal text of numbers: `fmt.Sprintf("%d", n)`, `strconv.ParseUint(s, 10, 32)` and what
-- `fmt.Sscanf(s, "%d", &n)` reads into a `uint32`.
use Prim.Native.Nat.{ℕ, zero, suc, ◌+◌, ◌-◌, ◌*◌, ◌/◌, ◌%◌, ◌<◌}
use mathlib.Core.Path.{◌≡◌, refl}
use mathlib.Core.Logic.{inl, inr}
use mathlib.Core.Bool.{Bool, true, ◌&&◌, ◌||◌}
use mathlib.Core.Option.{Option, none, some}
use mathlib.Core.List.{[], ◌∷◌, ◌++◌}
use native.Mathlib.Omega.{arith}
use zerogo.Base.Tests.{ltb, leb, ◌==◌, if◌then◌else◌, Bool-cases}
use zerogo.Base.Wire.{Bytes}
use zerogo.Base.Lists.{All}

-- The text of a number below 10 ^ `fuel`.
unfoldable pub format_from : ℕ → ℕ → Bytes
format_from zero n = []
format_from (suc fuel) n =
    let rest = format_from fuel (n / 10) in
    if ltb n 10 then (48 + n) ∷ [] else rest ++ (48 + n % 10) ∷ []

-- A `uint32` has at most ten digits.
unfoldable pub format_uint : ℕ → Bytes
format_uint n = format_from 10 n

abbrev pub is_digit : ℕ → Bool
is_digit c = leb 48 c && leb c 57

unfoldable pub parse_digits : ℕ → Bytes → Option ℕ
parse_digits acc [] = some acc
parse_digits acc (c ∷ s) = if is_digit c then parse_digits (acc * 10 + (c - 48)) s else none

abbrev pub fits_32 : Option ℕ → Option ℕ
fits_32 none = none
fits_32 (some n) = if ltb n 4294967296 then some n else none

unfoldable pub parse_uint : Bytes → Option ℕ
parse_uint [] = none
parse_uint (c ∷ s) = fits_32 (parse_digits 0 (c ∷ s))

unfoldable pub skip_space : Bytes → Bytes
skip_space [] = []
skip_space (c ∷ s) = if c == 32 || (c == 9 || c == 13) then skip_space s else c ∷ s

-- Digits and underscores, which the scanner takes before it parses.
unfoldable pub scan_number : Bytes → Bytes
scan_number [] = []
scan_number (c ∷ s) = if is_digit c || c == 95 then c ∷ scan_number s else []

-- 0 where nothing can be read, as the variable is left.
unfoldable pub sscanf_uint : Bytes → ℕ
sscanf_uint s = elim (parse_uint (scan_number (skip_space s))) [ none ↦ 0 | some n ↦ n ]

parse_digits-append :
    (acc n : ℕ) (xs ys : Bytes)
    → parse_digits acc xs ≡ some n
    → parse_digits acc (xs ++ ys) ≡ parse_digits n ys
unfolding parse_digits
parse_digits-append acc n [] ys e = ground arith
parse_digits-append acc n (x ∷ xs) ys e =
    ground (arith, parse_digits-append (acc * 10 + (x - 48)) n xs ys)

-- Enough fuel for `n`.
abbrev Fits : ℕ → ℕ → Type 0
Fits zero n = n < 10
Fits (suc fuel) n = Fits fuel (n / 10)

parse_digits-format_from :
    (fuel n : ℕ) → Fits fuel n → parse_digits 0 (format_from (suc fuel) n) ≡ some n
unfolding parse_digits format_from
parse_digits-format_from zero n h = ground arith
parse_digits-format_from (suc fuel) n h = elim (Bool-cases (ltb n 10)) [
  | inl small ↦ rw small (ground arith)
  | inr large ↦
      rw
        (
          large,
          parse_digits-append 0 (n / 10) (format_from (suc fuel) (n / 10)) ((48 + n % 10) ∷ [])
              (parse_digits-format_from fuel (n / 10) h),
        )
        (ground arith)
]

parse_uint-of_digits :
    (s : Bytes) (n : ℕ) → parse_digits 0 s ≡ some n → 0 < n → n < 4294967296 → parse_uint s ≡ some n
unfolding parse_uint parse_digits
parse_uint-of_digits [] n e pos fits = absurd (ground arith)
parse_uint-of_digits (c ∷ s) n e pos fits = ground arith

parse_uint-zero : parse_uint (format_from 10 0) ≡ some 0
unfolding parse_uint parse_digits format_from
parse_uint-zero = refl

-- The text of a number that fits 32 bits is parsed back to it.
pub parse_uint-format_uint : (n : ℕ) → n < 4294967296 → parse_uint (format_uint n) ≡ some n
unfolding format_uint
parse_uint-format_uint zero h = parse_uint-zero
parse_uint-format_uint (suc n) h =
    parse_uint-of_digits (format_from 10 (suc n)) (suc n)
      (parse_digits-format_from 9 (suc n) (omega arith)) (omega arith) h

abbrev AreDigits : Bytes → Type 0
AreDigits = All (λ c. is_digit c ≡ true)

append-AreDigits : (xs ys : Bytes) → AreDigits xs → AreDigits ys → AreDigits (xs ++ ys)
append-AreDigits [] ys hx hy = hy
append-AreDigits (x ∷ xs) ys hx hy = (hx.0, append-AreDigits xs ys hx.1 hy)

format_from-AreDigits : (fuel n : ℕ) → AreDigits (format_from fuel n)
unfolding format_from
format_from-AreDigits zero n = tt
format_from-AreDigits (suc fuel) n = elim (Bool-cases (ltb n 10)) [
  | inl small ↦ rw small (ground arith)
  | inr large ↦ rw large (
      append-AreDigits (format_from fuel (n / 10)) ((48 + n % 10) ∷ [])
        (format_from-AreDigits fuel (n / 10)) (ground arith))
]

scan_number-AreDigits : (s : Bytes) → AreDigits s → scan_number s ≡ s
unfolding scan_number
scan_number-AreDigits [] h = refl
scan_number-AreDigits (c ∷ s) h = ground (arith, scan_number-AreDigits s h.1)

skip_space-AreDigits : (s : Bytes) → AreDigits s → skip_space s ≡ s
unfolding skip_space
skip_space-AreDigits [] h = refl
skip_space-AreDigits (c ∷ s) h = ground arith

-- What is printed is read back as well by the scanner.
pub sscanf_uint-format_uint : (n : ℕ) → n < 4294967296 → sscanf_uint (format_uint n) ≡ n
unfolding sscanf_uint
sscanf_uint-format_uint n h =
    let digits : AreDigits (format_uint n) = unfold format_uint in format_from-AreDigits 10 n in
    rw
      (
        skip_space-AreDigits (format_uint n) digits,
        scan_number-AreDigits (format_uint n) digits,
        parse_uint-format_uint n h,
        sscanf_uint,
      )
      refl

-- The text of a byte.
pub format_uint-of_byte :
    (v : ℕ)
    → v < 256
    → format_uint v ≡ (
        if ltb v 10
        then (48 + v) ∷ []
        else if ltb v 100
        then (48 + v / 10) ∷ (48 + v % 10) ∷ []
        else (48 + v / 100) ∷ (48 + v / 10 % 10) ∷ (48 + v % 10) ∷ [])
unfolding format_uint format_from
format_uint-of_byte v h = elim (Bool-cases (ltb v 10)) [
  | inl one ↦ rw one refl
  | inr more ↦ elim (Bool-cases (ltb v 100)) [
    | inl two ↦ rw (more, two) (ground arith)
    | inr three ↦ rw (more, three) (ground arith)
  ]
]
