-- ===== src/Controller/Tables.antt =====
-- A database whose tables are lists. It meets the laws that `Controller.Store` asks of one.
use mathlib.Core.Path.{subst}
use zerogo.Base.{
  ℕ, ◌≡◌, ◌≢◌, refl, sym, ap, inl, inr, Bool, true, not, ◌&&◌, ◌||◌, Option, none, some, List, [],
  ◌∷◌, ◌++◌, Bytes, All, arith, bytes_eq, bytes_eq_iff, bytes_eq_refl, ◌==◌, Bool-cases,
  if◌then◌else◌, parse_uint, parse_uint-format_uint,
}
use zerogo.Controller.Store.{Database, Laws, IsOther, NetworkRow, NodeRow, MemberRow}

pub record Tables : Type 0 where
  pub networks : List NetworkRow
  pub nodes : List NodeRow
  pub members : List MemberRow

-- The rows that pass a test, and the first of them.
unfoldable pub where_rows {ℓ} : {A : Type ℓ} → (A → Bool) → List A → List A
where_rows test [] = []
where_rows test (x ∷ xs) = let rest = where_rows test xs in if test x then x ∷ rest else rest

unfoldable pub first_row {ℓ} : {A : Type ℓ} → (A → Bool) → List A → Option A
first_row test [] = none
first_row test (x ∷ xs) = if test x then some x else first_row test xs

-- A change of the rows that pass a test.
unfoldable pub change_rows {ℓ} : {A : Type ℓ} → (A → Bool) → (A → A) → List A → List A
change_rows test f [] = []
change_rows test f (x ∷ xs) = (if test x then f x else x) ∷ change_rows test f xs

abbrev pub is_member : ℕ → Bytes → MemberRow → Bool
is_member id addr m = m.network_id == id && bytes_eq m.node_address addr

abbrev pub is_network : ℕ → NetworkRow → Bool
is_network id n = n.id == id

abbrev pub is_node : Bytes → NodeRow → Bool
is_node addr n = bytes_eq n.address addr

abbrev pub or_old : Bytes → Bytes → Bytes
or_old [] old = old
or_old (c ∷ s) old = c ∷ s

abbrev pub or_kept {ℓ} : {A : Type ℓ} → Option A → A → A
or_kept none old = old
or_kept (some new) old = new

-- The fields of `m` that are not zero, over those of `old`.
abbrev pub merge_member : MemberRow → MemberRow → MemberRow
merge_member m old = record old {
  authorized = m.authorized || old.authorized;
  ip_address = or_old m.ip_address old.ip_address;
  name = or_old m.name old.name;
}

unfoldable pub assign_in : MemberRow → List MemberRow → List MemberRow
assign_in m [] = m ∷ []
assign_in m (x ∷ xs) =
    if is_member m.network_id m.node_address x then merge_member m x ∷ xs else x ∷ assign_in m xs

unfoldable pub assign_node_in : NodeRow → List NodeRow → List NodeRow
assign_node_in n [] = n ∷ []
assign_node_in n (x ∷ xs) =
    if is_node n.address x
    then record x {
      public_key = or_old n.public_key x.public_key;
      platform = or_old n.platform x.platform;
      last_seen = n.last_seen;
    }
      ∷ xs
    else x ∷ assign_node_in n xs

abbrev pub with_members : (List MemberRow → List MemberRow) → Tables → Tables
with_members f w = record w { members = f w.members }

abbrev pub with_networks : (List NetworkRow → List NetworkRow) → Tables → Tables
with_networks f w = record w { networks = f w.networks }

abbrev pub if_found {ℓ} : {A : Type ℓ} → Option A → Tables → Option Tables
if_found none w = none
if_found (some row) w = some w

abbrev pub tables : Database Tables
tables = record {
  key = parse_uint;
  first_network = λ id w. first_row (is_network id) w.networks;
  all_networks = λ w. w.networks;
  create_network = λ n w. some (with_networks (λ ns. ns ++ n ∷ []) w);
  update_network = λ id u. with_networks (
      change_rows (is_network id) (λ n. record n {
        name = or_kept u.name n.name;
        description = or_kept u.description n.description;
        ip_range = or_kept u.ip_range n.ip_range;
        mtu = or_kept u.mtu n.mtu;
        multicast = or_kept u.multicast n.multicast;
      }));
  all_nodes = λ w. w.nodes;
  delete_network = λ id. with_networks (where_rows (λ n. not (is_network id n)));
  first_node = λ addr w. first_row (is_node addr) w.nodes;
  assign_node = λ n w. record w { nodes = assign_node_in n w.nodes };
  touch_node = λ addr now w. record w {
    nodes = change_rows (is_node addr) (λ n. record n { last_seen = now }) w.nodes;
  };
  first_member = λ id addr w. first_row (is_member id addr) w.members;
  members_of = λ id w. where_rows (λ m. m.network_id == id) w.members;
  members_with_ip =
      λ id w. where_rows (λ m. m.network_id == id && not (bytes_eq m.ip_address [])) w.members;
  authorized_members = λ id w. where_rows (λ m. m.network_id == id && m.authorized) w.members;
  authorized_but = λ id addr w.
      where_rows (λ m. m.network_id == id && (not (bytes_eq m.node_address addr) && m.authorized))
        w.members;
  create_member = λ m w. some (with_members (λ ms. ms ++ m ∷ []) w);
  assign_member = λ m w. some (with_members (assign_in m) w);
  update_member = λ id addr u w. if_found (first_row (is_member id addr) w.members) (
      with_members
        (change_rows (is_member id addr) (λ m. record m {
          authorized = u.authorized;
          ip_address = or_kept u.ip_address m.ip_address;
          name = or_kept u.name m.name;
        }))
        w);
  delete_member = λ id addr. with_members (where_rows (λ m. not (is_member id addr m)));
}

first_network_id :
    (id : ℕ) (ns : List NetworkRow) (n : NetworkRow)
    → first_row (is_network id) ns ≡ some n
    → n.id ≡ id
unfolding first_row
first_network_id id [] n e = absurd (cc)
first_network_id id (x ∷ ns) n e = ground (arith, first_network_id id ns n)

where_IsOther :
    (id : ℕ) (addr : Bytes) (ms : List MemberRow)
    → All (IsOther id addr) (
        where_rows
          (λ m. m.network_id == id && (not (bytes_eq m.node_address addr) && m.authorized))
          ms)
unfolding where_rows
where_IsOther id addr [] = tt
where_IsOther id addr (m ∷ ms) =
    ground (arith, bytes_eq_iff m.node_address addr, where_IsOther id addr ms)

is_member_self : (m : MemberRow) → is_member m.network_id m.node_address m ≡ true
is_member_self m = ground (arith, bytes_eq_refl m.node_address)

or_old-of_given : (new old : Bytes) → new ≢ [] → or_old new old ≡ new
or_old-of_given [] old given = absurd (given refl)
or_old-of_given (c ∷ s) old given = refl

first_row-assign_in :
    (m : MemberRow) (ms : List MemberRow)
    → m.authorized ≡ true
    → m.ip_address ≢ []
    → (row : MemberRow) × (first_row (is_member m.network_id m.node_address) (assign_in m ms)
        ≡ some row)
      × (row.authorized ≡ true)
      × (row.ip_address ≡ m.ip_address)
unfolding first_row assign_in
first_row-assign_in m [] granted given = (m, rw (is_member_self m) refl, granted, refl)
first_row-assign_in m (x ∷ ms) granted given =
    elim (Bool-cases (is_member m.network_id m.node_address x)) [
      | inl own ↦ (
        merge_member m x,
        rw own (rw own refl),
        rw granted refl,
        or_old-of_given m.ip_address x.ip_address given,
      )
      | inr other ↦
          let (row, found, is_granted, ip) = first_row-assign_in m ms granted given in
          (row, rw other (rw other found), is_granted, ip)
    ]

first_row-where_rows :
    (id : ℕ) (addr : Bytes) (ms : List MemberRow)
    → first_row (is_member id addr) (where_rows (λ m. not (is_member id addr m)) ms) ≡ none
unfolding first_row where_rows
first_row-where_rows id addr [] = refl
first_row-where_rows id addr (m ∷ ms) = elim (Bool-cases (is_member id addr m)) [
  | inl own ↦ rw own (first_row-where_rows id addr ms)
  | inr other ↦ rw (other, other) (first_row-where_rows id addr ms)
]

some_injective : (v w : Tables) → some v ≡ some w → v ≡ w
some_injective v w e = cc e

pub tables-Laws : Laws tables
tables-Laws = record {
  key-format_uint = parse_uint-format_uint;
  first_network-id = λ id w. first_network_id id w.networks;
  authorized_but-IsOther = λ id addr w. where_IsOther id addr w.members;
  first_member-assign_member = λ m w w' e granted given.
      subst
        (λ v.
          (row : MemberRow) × (first_row (is_member m.network_id m.node_address) v.members
            ≡ some row)
          × (row.authorized ≡ true)
          × (row.ip_address ≡ m.ip_address))
        (some_injective (with_members (assign_in m) w) w' e)
        (first_row-assign_in m w.members granted given);
  first_network-assign_member = λ m w w' id e.
      ap (λ v. first_row (is_network id) v.networks)
        (sym (some_injective (with_members (assign_in m) w) w' e));
  first_member-delete_member = λ id addr w. first_row-where_rows id addr w.members;
  first_network-delete_member = λ id addr w other. refl;
}
