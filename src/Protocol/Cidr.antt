-- ===== src/Protocol/Cidr.antt =====
-- The texts of IPv4 addresses and ranges that the code reads by `net.ParseIP` and `net.ParseCIDR`
-- and writes by `IP.String`. Texts of IPv6 addresses are refused here.
use mathlib.Core.List.{append-nil}
use zerogo.Base.{
  ℕ, ◌+◌, ◌-◌, ◌*◌, ◌/◌, ◌%◌, ◌^◌, ◌<◌, ◌≤◌, ◌≡◌, refl, sym, ap, ◌∙◌, true, false, ◌&&◌, Option,
  none, some, [], ◌∷◌, ◌++◌, Bytes, AreBytes, length, get_or, be32, put_be32, ltb, leb, ◌==◌,
  if◌then◌else◌, format_uint, parse_uint, format_uint-of_byte, parse_uint-format_uint, Bool-cases,
  inl, inr, arith,
}

-- The loop of the parser: the text, the value and number of digits of the current field, and the
-- fields before it, the last first.
unfoldable pub parse_fields : Bytes → ℕ → ℕ → Bytes → Option Bytes
parse_fields [] value digits (c ∷ b ∷ a ∷ []) =
    if digits == 0 then none else some (a ∷ b ∷ c ∷ value ∷ [])
parse_fields [] value digits fields = none
parse_fields (c ∷ s) value digits fields =
    let more = parse_fields s (value * 10 + (c - 48)) (digits + 1) fields in
    let next = parse_fields s 0 0 (value ∷ fields) in
    if leb 48 c && leb c 57
    then (if digits == 1 && value == 0
        then none
        else if ltb 255 (value * 10 + (c - 48))
        then none
        else more)
    else if c == 46
    then (if digits == 0 then none else if length fields == 3 then none else next)
    else none

-- `net.ParseIP`.
unfoldable pub parse_ip : Bytes → Option Bytes
parse_ip s = parse_fields s 0 0 []

-- `IP.String`.
unfoldable pub format_ip : Bytes → Bytes
format_ip ip =
    format_uint (get_or ip 0 0)
    ++ 46
      ∷ (format_uint (get_or ip 1 0)
          ++ 46 ∷ (format_uint (get_or ip 2 0) ++ 46 ∷ format_uint (get_or ip 3 0)))

-- The text before the first slash and the text behind it.
unfoldable pub split_slash : Bytes → Option (Bytes × Bytes)
split_slash [] = none
split_slash (c ∷ s) =
    let rest = split_slash s in
    if c == 47
    then some ([], s)
    else elim rest [ none ↦ none | some (pre, post) ↦ some (c ∷ pre, post) ]

abbrev pub ip_and_ones : Option Bytes → Option ℕ → Option (Bytes × ℕ)
ip_and_ones (some ip) (some ones) = if ltb 32 ones then none else some (ip, ones)
ip_and_ones _ _ = none

abbrev pub parse_halves : Option (Bytes × Bytes) → Option (Bytes × ℕ)
parse_halves none = none
parse_halves (some (pre, post)) = ip_and_ones (parse_ip pre) (parse_uint post)

-- `net.ParseCIDR`: the address and the length of the prefix.
unfoldable pub parse_cidr : Bytes → Option (Bytes × ℕ)
parse_cidr s = parse_halves (split_slash s)

-- `fmt.Sprintf("%s/%d", ip.String(), ones)`.
unfoldable pub format_cidr : Bytes → ℕ → Bytes
format_cidr ip ones = format_ip ip ++ 47 ∷ format_uint ones

-- The address of the network, with zero bits behind the prefix.
unfoldable pub mask_ip : Bytes → ℕ → Bytes
mask_ip ip ones = put_be32 (be32 ip - be32 ip % 2 ^ (32 - ones))

-- One digit of a field.
parse_digit :
    (d value digits next : ℕ) (s fields : Bytes)
    → d < 10
    → (digits == 1 && value == 0) ≡ false
    → value * 10 + d ≡ next
    → next < 256
    → parse_fields ((48 + d) ∷ s) value digits fields ≡ parse_fields s next (digits + 1) fields
unfolding parse_fields
parse_digit d value digits next s fields small second value_next fits =
    let digit : (leb 48 (48 + d) && leb (48 + d) 57) ≡ true = ground arith in
    let e : 48 + d - 48 ≡ d = omega arith in
    let below : ltb 255 next ≡ false = ground arith in rw (digit, second, e, value_next, below) refl

-- The text of a byte is read as the next field.
parse_fields-format_uint :
    (v : ℕ) (rest fields : Bytes)
    → v < 256
    → (k : ℕ) × (0 < k)
      × (parse_fields (format_uint v ++ rest) 0 0 fields ≡ parse_fields rest v k fields)
parse_fields-format_uint v rest fields h = elim (Bool-cases (ltb v 10)) [
  | inl one ↦ (
    1,
    omega arith,
    rw (format_uint-of_byte v h, one)
        (parse_digit v 0 0 v rest fields (ground arith) refl (omega arith) h),
  )
  | inr more ↦ elim (Bool-cases (ltb v 100)) [
    | inl two ↦
        let tens : (1 == 1 && v / 10 == 0) ≡ false = ground arith in
        (
          2,
          omega arith,
          rw (format_uint-of_byte v h, more, two)
              (parse_digit (v / 10) 0 0 (v / 10) ((48 + v % 10) ∷ rest) fields (ground arith) refl
                  (omega arith) (omega arith)
                ∙ parse_digit (v % 10) (v / 10) 1 v rest fields (omega arith) tens (omega arith) h),
        )
    | inr three ↦
        let hundreds : (1 == 1 && v / 100 == 0) ≡ false = ground arith in
        (
          3,
          omega arith,
          rw (format_uint-of_byte v h, more, three)
              (parse_digit (v / 100) 0 0 (v / 100) ((48 + v / 10 % 10) ∷ (48 + v % 10) ∷ rest)
                  fields (omega arith) refl (omega arith) (omega arith)
                ∙ parse_digit (v / 10 % 10) (v / 100) 1 (v / 10) ((48 + v % 10) ∷ rest) fields
                    (omega arith) hundreds (omega arith) (omega arith)
                ∙ parse_digit (v % 10) (v / 10) 2 v rest fields (omega arith) refl (omega arith) h),
        )
  ]
]

after_dot :
    (v digits : ℕ) (rest fields : Bytes)
    → 0 < digits
    → (length fields == 3) ≡ false
    → parse_fields (46 ∷ rest) v digits fields ≡ parse_fields rest 0 0 (v ∷ fields)
unfolding parse_fields
after_dot v digits rest fields pos room =
    let some_digits : (digits == 0) ≡ false = ground arith in rw (some_digits, room) refl

at_end :
    (a b c v digits : ℕ)
    → 0 < digits
    → parse_fields [] v digits (c ∷ b ∷ a ∷ []) ≡ some (a ∷ b ∷ c ∷ v ∷ [])
unfolding parse_fields
at_end a b c v digits pos =
    let some_digits : (digits == 0) ≡ false = ground arith in rw some_digits refl

-- A field that is followed by a dot.
parse_field :
    (v : ℕ) (rest fields : Bytes)
    → v < 256
    → (length fields == 3) ≡ false
    → parse_fields (format_uint v ++ 46 ∷ rest) 0 0 fields ≡ parse_fields rest 0 0 (v ∷ fields)
parse_field v rest fields h room =
    let (k, pos, e) = parse_fields-format_uint v (46 ∷ rest) fields h in
    e ∙ after_dot v k rest fields pos room

-- An address that is printed is parsed back to itself.
pub parse_ip-format_ip :
    (ip : Bytes) → length ip ≡ 4 → AreBytes ip → parse_ip (format_ip ip) ≡ some ip
unfolding parse_ip format_ip
parse_ip-format_ip (a ∷ b ∷ c ∷ e ∷ []) four bytes =
    let (k, pos, last) = parse_fields-format_uint e [] (c ∷ b ∷ a ∷ []) (omega arith) in
    parse_field a (format_uint b ++ 46 ∷ (format_uint c ++ 46 ∷ format_uint e)) [] (omega arith)
      refl
    ∙ parse_field b (format_uint c ++ 46 ∷ format_uint e) (a ∷ []) (omega arith) refl
    ∙ parse_field c (format_uint e) (b ∷ a ∷ []) (omega arith) refl
    ∙ ap (λ s. parse_fields s 0 0 (c ∷ b ∷ a ∷ [])) (sym (append-nil (format_uint e)))
    ∙ last
    ∙ at_end a b c e k pos
parse_ip-format_ip (a ∷ b ∷ c ∷ d ∷ e ∷ r) four bytes = absurd (omega arith)
parse_ip-format_ip _ four bytes = absurd (omega arith)

-- No slash in the text before one.
abbrev NoSlash : Bytes → Type 0
NoSlash [] = Unit {0}
NoSlash (c ∷ s) = ((c == 47) ≡ false) × NoSlash s

split_slash-append : (xs ys : Bytes) → NoSlash xs → split_slash (xs ++ 47 ∷ ys) ≡ some (xs, ys)
unfolding split_slash
split_slash-append [] ys h = refl
split_slash-append (x ∷ xs) ys h = rw (split_slash-append xs ys h.1, h.0) refl

append-NoSlash : (xs ys : Bytes) → NoSlash xs → NoSlash ys → NoSlash (xs ++ ys)
append-NoSlash [] ys hx hy = hy
append-NoSlash (x ∷ xs) ys hx hy = (hx.0, append-NoSlash xs ys hx.1 hy)

format_uint-NoSlash : (v : ℕ) → v < 256 → NoSlash (format_uint v)
format_uint-NoSlash v h = elim (Bool-cases (ltb v 10)) [
  | inl one ↦ rw (format_uint-of_byte v h, one) (ground arith)
  | inr more ↦ elim (Bool-cases (ltb v 100)) [
    | inl two ↦ rw (format_uint-of_byte v h, more, two) (ground arith)
    | inr three ↦ rw (format_uint-of_byte v h, more, three) (ground arith)
  ]
]

format_ip-NoSlash : (ip : Bytes) → length ip ≡ 4 → AreBytes ip → NoSlash (format_ip ip)
unfolding format_ip
format_ip-NoSlash (a ∷ b ∷ c ∷ d ∷ []) four bytes =
    append-NoSlash (format_uint a) _ (format_uint-NoSlash a (omega arith)) (
      refl,
      append-NoSlash (format_uint b) _ (format_uint-NoSlash b (omega arith)) (
        refl,
        append-NoSlash (format_uint c) _ (format_uint-NoSlash c (omega arith))
            (refl, format_uint-NoSlash d (omega arith)),
      ),
    )
format_ip-NoSlash (a ∷ b ∷ c ∷ d ∷ e ∷ r) four bytes = absurd (omega arith)
format_ip-NoSlash _ four bytes = absurd (omega arith)

pub parse_cidr-format_cidr :
    (ip : Bytes) (ones : ℕ)
    → length ip ≡ 4
    → AreBytes ip
    → ones ≤ 32
    → parse_cidr (format_cidr ip ones) ≡ some (ip, ones)
unfolding parse_cidr format_cidr
parse_cidr-format_cidr ip ones four bytes short =
    let range : ltb 32 ones ≡ false = ground arith in
    rw
      (
        split_slash-append (format_ip ip) (format_uint ones) (format_ip-NoSlash ip four bytes),
        parse_ip-format_ip ip four bytes,
        parse_uint-format_uint ones (omega arith),
        range,
      )
      refl
