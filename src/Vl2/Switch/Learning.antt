-- ===== src/Vl2/Switch/Learning.antt =====
-- The MAC table: its bound, what learning adds and drops, what expiry removes
-- (internal/vl2/switch.go).
use zerogo.Base.{
  ℕ, ◌+◌, ◌≤◌, ◌<◌, ◌≡◌, ◌⊎◌, inl, inr, refl, Bool, none, some, [], ◌∷◌, Bytes, Table, get, delete,
  get-insert, length-insert-le, length-delete-lt, Distinct, insert-Distinct, length, ltb, leb,
  if◌then◌else◌, arith, Bool-cases, bytes_eq,
}
use zerogo.Vl2.Eviction.Choice.{
  evict_oldest-cases, evict_oldest-Distinct, Ageless, NotOlder-get, get-purge, length-purge,
  purge-Distinct,
}
use zerogo.Vl2.Mac.{mac_to_key}
use zerogo.Vl2.Switch.{
  Switch, MacEntry, mac_age, evict_oldest_mac, learn, clean_expired, is_stale, mac_table_max_size,
  mac_table_expiry, new_switch,
}

-- The table is a map with at most 4096 entries.
pub record IsValid (sw : Switch) : Type 0 where
  pub distinct : Distinct sw.mac_table
  pub bounded : length sw.mac_table ≤ mac_table_max_size

pub new_switch-IsValid : (id : ℕ) → IsValid (new_switch id)
unfolding new_switch
new_switch-IsValid id = record { distinct = tt; bounded = omega arith }

-- The table `r` from which learning goes on: `m` itself if it has room; if it is full, `m` without
-- one entry, which is no newer than any other.
abbrev pub MakesRoom : Table MacEntry → Table MacEntry → Type 0
MakesRoom m r =
    ((length m < mac_table_max_size) × (r ≡ m))
    ⊎ ((k : Bytes) × (v : MacEntry) × (mac_table_max_size ≤ length m)
        × (get k m ≡ some v)
        × ((j : Bytes) (w : MacEntry) → get j m ≡ some w → v.last_seen ≤ w.last_seen)
        × (r ≡ delete k m))

room : Table MacEntry → Table MacEntry
room m = if leb mac_table_max_size (length m) then evict_oldest_mac m else m

Ageless-nil : (m : Table MacEntry) → Ageless mac_age m → length m ≡ 0
Ageless-nil [] h = refl
Ageless-nil ((k, v) ∷ m) h = absurd (ground arith)

room-MakesRoom : (m : Table MacEntry) → Distinct m → MakesRoom m (room m)
unfolding room evict_oldest_mac
room-MakesRoom m d = elim (Bool-cases (leb mac_table_max_size (length m))) [
  | inl full ↦ elim (evict_oldest-cases mac_age m d) [
    | inl (none_old, _) ↦ absurd (ground (arith, Ageless-nil m none_old))
    | inr (k, v, t, g, a, least, e) ↦
        let same : t ≡ v.last_seen = ground arith in
        inr (
          k,
          v,
          ground arith,
          g,
          λ j w h. NotOlder-get mac_age v.last_seen m j w w.last_seen (rw same at least) h refl,
          rw (full, e),
        )
  ]
  | inr free ↦ inl (ground arith, ground arith)
]

room-Distinct : (m : Table MacEntry) → Distinct m → Distinct (room m)
unfolding room evict_oldest_mac
room-Distinct m d = ground (arith, evict_oldest-Distinct mac_age m d)

length-room : (m : Table MacEntry) → Distinct m → length m ≤ 4096 → length (room m) < 4096
length-room m d h = elim (room-MakesRoom m d) [
  | inl (free, e) ↦ rw e free
  | inr (k, v, full, g, _, e) ↦ rw e (omega (arith, length-delete-lt k m v g))
]

module _ (now : ℕ) (mac peer : Bytes) (is_local : Bool) (sw : Switch) where
  pub learn-IsValid : IsValid sw → IsValid (learn now mac peer is_local sw)
  unfolding learn room
  learn-IsValid h = record {
    distinct =
        insert-Distinct (mac_to_key mac) _ (room sw.mac_table)
          (room-Distinct sw.mac_table h.distinct);
    bounded = omega (
      arith,
      length-insert-le (mac_to_key mac) _ (room sw.mac_table),
      length-room sw.mac_table h.distinct h.bounded,
    );
  }

  -- After `learn` the source address leads to the peer that was given, and any other address leads
  -- where it led in the table `r`: the table itself, or, if that was full, the table without one
  -- entry that is no newer than any other.
  pub learn_lem :
      IsValid sw
      → (r : Table MacEntry) × MakesRoom sw.mac_table r
        × ((j : Bytes)
            → get j (learn now mac peer is_local sw).mac_table ≡ (
                if bytes_eq (mac_to_key mac) j
                then some (record { peer_addr = peer; last_seen = now; is_local = is_local })
                else get j r))
  unfolding learn room
  learn_lem h = (
    room sw.mac_table,
    room-MakesRoom sw.mac_table h.distinct,
    λ j. get-insert (mac_to_key mac) j _ (room sw.mac_table),
  )

  -- With room in the table nothing is forgotten.
  pub get-learn_room :
      length sw.mac_table < mac_table_max_size
      → (j : Bytes)
      → get j (learn now mac peer is_local sw).mac_table ≡ (
          if bytes_eq (mac_to_key mac) j
          then some (record { peer_addr = peer; last_seen = now; is_local = is_local })
          else get j sw.mac_table)
  unfolding learn
  get-learn_room h j = ground (
    arith,
    get-insert (mac_to_key mac) j
        (record { peer_addr = peer; last_seen = now; is_local = is_local }) sw.mac_table,
  )

-- `clean_expired` drops exactly the remote entries that were last seen more than five minutes ago,
-- keeps all others as they were, and returns the number dropped.
pub clean_expired_lem :
    (now : ℕ) (sw : Switch)
    → IsValid sw
    → ((j : Bytes)
        → get j (clean_expired now sw).0.mac_table ≡ elim (get j sw.mac_table) [
          | none ↦ none
          | some v ↦
              if v.is_local
              then some v
              else if ltb (v.last_seen + mac_table_expiry) now
              then none
              else some v
        ])
      × (length (clean_expired now sw).0.mac_table + (clean_expired now sw).1 ≡ length sw.mac_table)
unfolding clean_expired
clean_expired_lem now sw h = (
  (λ j. ground (arith, get-purge (is_stale now) j sw.mac_table h.distinct)),
  length-purge (is_stale now) sw.mac_table,
)

pub clean_expired-IsValid : (now : ℕ) (sw : Switch) → IsValid sw → IsValid (clean_expired now sw).0
unfolding clean_expired
clean_expired-IsValid now sw h = record {
  distinct = purge-Distinct (is_stale now) sw.mac_table h.distinct;
  bounded = omega (arith, length-purge (is_stale now) sw.mac_table, h.bounded);
}
