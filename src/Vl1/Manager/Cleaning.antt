-- ===== src/Vl1/Manager/Cleaning.antt =====
-- `CleanDead` (internal/vl1/peer.go, lines 381 to 397).
use zerogo.Base.{
  ℕ, suc, ◌+◌, ◌≡◌, ◌≢◌, inl, inr, refl, true, false, Option, none, some, [], ◌∷◌, Bytes, Table,
  get, delete, get-delete, length, bytes_eq, bytes_eq_iff, bytes_eq_refl, if◌then◌else◌, arith,
  Bool-cases, Distinct, delete-Distinct,
}
use zerogo.Vl1.Manager.{Ref, PeerManager, drop_peer, clean_entries, clean_dead, peer_is, is_dead}
use zerogo.Vl1.Manager.Soundness.{IsSound, drop_peer-IsSound}

length-delete_absent : (k : Bytes) (m : Table Ref) → get k m ≡ none → length (delete k m) ≡ length m
unfolding get delete
length-delete_absent k [] h = refl
length-delete_absent k ((i, w) ∷ m) h = ground (arith, length-delete_absent k m)

length-delete_present :
    (k : Bytes) (m : Table Ref) (v : Ref)
    → Distinct m
    → get k m ≡ some v
    → suc (length (delete k m)) ≡ length m
unfolding get delete
length-delete_present k [] v d h = absurd (cc)
length-delete_present k ((i, w) ∷ m) v d h =
    ground (arith, length-delete_absent k m, length-delete_present k m v, bytes_eq_iff i k)

-- The manager knows the peers of the entries that the loop still has to see.
Covers : Table Ref → PeerManager → Type 0
Covers entries pm = (a : Bytes) (r : Ref) → get a entries ≡ some r → get a pm.peers ≡ some r

Covers-tail :
    (addr : Bytes) (r : Ref) (entries : Table Ref) (pm : PeerManager)
    → Distinct ((addr, r) ∷ entries)
    → Covers ((addr, r) ∷ entries) pm
    → Covers entries pm
unfolding Covers get
Covers-tail addr r entries pm d cov a q h =
    let differs : addr ≢ a =
      λ e. absurd (let g : get a entries ≡ none = rw⁻¹ e d.0 in ground arith) in
    cov a q (ground (arith, bytes_eq_iff addr a))

Covers-drop :
    (addr : Bytes) (r : Ref) (entries : Table Ref) (pm : PeerManager)
    → Distinct ((addr, r) ∷ entries)
    → Covers ((addr, r) ∷ entries) pm
    → Covers entries (drop_peer addr r pm)
unfolding Covers get drop_peer
Covers-drop addr r entries pm d cov a q h =
    let differs : addr ≢ a =
      λ e. absurd (let g : get a entries ≡ none = rw⁻¹ e d.0 in ground arith) in
    ground (arith, bytes_eq_iff addr a, get-delete addr a pm.peers, cov a q)

Covers-head :
    (addr : Bytes) (r : Ref) (entries : Table Ref) (pm : PeerManager)
    → Covers ((addr, r) ∷ entries) pm
    → get addr pm.peers ≡ some r
unfolding Covers get
Covers-head addr r entries pm cov = cov addr r (ground (arith, bytes_eq_refl addr))

clean_entries_nil : (now : ℕ) (pm : PeerManager) → clean_entries now [] pm ≡ (pm, 0)
unfolding clean_entries
clean_entries_nil now pm = refl

-- A round of the loop.
module _ (now : ℕ) (addr : Bytes) (r : Ref) (entries : Table Ref) (pm : PeerManager) where
  clean_entries_dead :
      peer_is (is_dead now) r pm ≡ true
      → clean_entries now ((addr, r) ∷ entries) pm ≡ (
        (clean_entries now entries (drop_peer addr r pm)).0,
        suc (clean_entries now entries (drop_peer addr r pm)).1,
      )
  unfolding clean_entries
  clean_entries_dead dead = rw dead refl

  clean_entries_alive :
      peer_is (is_dead now) r pm ≡ false
      → clean_entries now ((addr, r) ∷ entries) pm ≡ clean_entries now entries pm
  unfolding clean_entries
  clean_entries_alive lives = rw lives refl

clean_entries-IsSound :
    (now : ℕ) (entries : Table Ref) (pm : PeerManager)
    → Distinct entries
    → Covers entries pm
    → IsSound pm
    → IsSound (clean_entries now entries pm).0
clean_entries-IsSound now [] pm d cov s = rw (clean_entries_nil now pm) s
clean_entries-IsSound now ((addr, r) ∷ entries) pm d cov s =
    elim (Bool-cases (peer_is (is_dead now) r pm)) [
      | inl dead ↦ rw (clean_entries_dead now addr r entries pm dead) (
          clean_entries-IsSound now entries (drop_peer addr r pm) d.1
            (Covers-drop addr r entries pm d cov)
            (drop_peer-IsSound addr r pm s (Covers-head addr r entries pm cov)))
      | inr lives ↦
          rw (clean_entries_alive now addr r entries pm lives)
            (clean_entries-IsSound now entries pm d.1 (Covers-tail addr r entries pm d cov) s)
    ]

-- Removing the dead keeps the index right.
pub clean_dead-IsSound : (now : ℕ) (pm : PeerManager) → IsSound pm → IsSound (clean_dead now pm).0
unfolding clean_dead Covers
clean_dead-IsSound now pm s = clean_entries-IsSound now pm.peers pm s.distinct (λ a r h. h) s

-- What the loop leaves of an address that it still has to see.
abbrev pub survivor : ℕ → PeerManager → Option Ref → Option Ref
survivor now pm none = none
survivor now pm (some r) = if peer_is (is_dead now) r pm then none else some r

abbrev or_else : Option Ref → Option Ref → Option Ref → Option Ref
or_else none here after = here
or_else (some r) here after = after

clean_entries_lem :
    (now : ℕ) (entries : Table Ref) (pm : PeerManager)
    → Distinct entries
    → Covers entries pm
    → Distinct pm.peers
    → let (pm', removed) = clean_entries now entries pm in
      (pm'.heap ≡ pm.heap)
      × (removed + length pm'.peers ≡ length pm.peers)
      × ((a : Bytes)
          → get a pm'.peers
            ≡ or_else (get a entries) (get a pm.peers) (survivor now pm (get a entries)))
unfolding get drop_peer
clean_entries_lem now [] pm d cov s = rw (clean_entries_nil now pm) (refl, omega arith, λ a. refl)
clean_entries_lem now ((addr, r) ∷ entries) pm d cov s =
    elim (Bool-cases (peer_is (is_dead now) r pm)) [
      | inl dead ↦
          let (heaps, counts, kept) =
            clean_entries_lem now entries (drop_peer addr r pm) d.1
              (Covers-drop addr r entries pm d cov) (delete-Distinct addr pm.peers s) in
          rw (clean_entries_dead now addr r entries pm dead) (
            heaps,
            omega (
              arith,
              length-delete_present addr pm.peers r s (Covers-head addr r entries pm cov),
            ),
            λ a. elim (Bool-cases (bytes_eq addr a)) [
              | inl same ↦
                  let e : addr ≡ a = (bytes_eq_iff addr a).0 same in
                  let gone : get a entries ≡ none = rw⁻¹ e d.0 in
                  ground (arith, kept a, get-delete addr a pm.peers)
              | inr other ↦ ground (arith, kept a, get-delete addr a pm.peers)
            ],
          )
      | inr lives ↦
          let (heaps, counts, kept) =
            clean_entries_lem now entries pm d.1 (Covers-tail addr r entries pm d cov) s in
          rw (clean_entries_alive now addr r entries pm lives) (
            heaps,
            counts,
            λ a. elim (Bool-cases (bytes_eq addr a)) [
              | inl same ↦
                  let e : addr ≡ a = (bytes_eq_iff addr a).0 same in
                  let gone : get a entries ≡ none = rw⁻¹ e d.0 in
                  let here : get a pm.peers ≡ some r = rw⁻¹ e (Covers-head addr r entries pm cov) in
                  ground (arith, kept a)
              | inr other ↦ ground (arith, kept a)
            ],
          )
    ]

-- Cleaning removes exactly the peers that are marked dead and were not seen for the timeout, leaves
-- the peers themselves as they are, and counts what it removed. The manager's tables are sound.
pub clean_dead_lem :
    (now : ℕ) (pm : PeerManager)
    → IsSound pm
    → let (pm', removed) = clean_dead now pm in
      (pm'.heap ≡ pm.heap)
      × (removed + length pm'.peers ≡ length pm.peers)
      × ((a : Bytes) → get a pm'.peers ≡ survivor now pm (get a pm.peers))
unfolding clean_dead Covers
clean_dead_lem now pm s =
    let (heaps, counts, kept) =
      clean_entries_lem now pm.peers pm s.distinct (λ a r h. h) s.distinct in
    (heaps, counts, λ a. ground (arith, kept a))
