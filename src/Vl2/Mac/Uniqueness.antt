-- ===== src/Vl2/Mac/Uniqueness.antt =====
-- Which nodes share a generated address (internal/vl2/mac.go).
use zerogo.Base.{ℕ, ◌%◌, ◌≡◌, ◌↔◌, refl, ◌∷◌, Bytes, length, take, arith, true}
use zerogo.Vl2.Frame.{EthernetFrame, is_unicast}
use zerogo.Vl2.Mac.{generate_mac, mac_to_key}

-- Two nodes have the same address exactly when their network ids agree in the low sixteen bits and
-- their node addresses in the first three bytes.
pub generate_mac_eq_iff :
    (i j : ℕ) (a b : Bytes)
    → length a ≡ 5
    → length b ≡ 5
    → (generate_mac i a ≡ generate_mac j b) ↔ ((i % 65536 ≡ j % 65536) × (take 3 a ≡ take 3 b))
unfolding generate_mac
generate_mac_eq_iff i j (a0 ∷ a1 ∷ a2 ∷ a) (b0 ∷ b1 ∷ b2 ∷ b) h k = ground arith
generate_mac_eq_iff i j _ _ h k = absurd (omega arith)

-- A frame sent to a generated address is unicast, and the address is its own key in a MAC table.
pub generate_mac-is_unicast :
    (i : ℕ) (a : Bytes) (f : EthernetFrame)
    → f.dst_mac ≡ generate_mac i a
    → (is_unicast f ≡ true) × (mac_to_key f.dst_mac ≡ generate_mac i a)
unfolding generate_mac is_unicast mac_to_key
generate_mac-is_unicast i a f e = rw e (refl, refl)
