-- ===== src/Tcpv4/NodeId/Tests.antt =====
-- Runs of the node ID functions, and their theorems at concrete IDs.
use ion_dtn_contrib.Prelude.{ℕ, ◌≡◌, ◌↔◌, refl, true, List, [], ◌∷◌, Option, some, arith}
use ion_dtn_contrib.Tcpv4.NodeId.{
  component_loop, parts_loop, tcpv4_node_id_is_set, tcpv4_node_id_ipn, tcpv4_node_id_matches,
  tcpv4_node_id_is_well_formed,
}
use ion_dtn_contrib.Tcpv4.NodeId.Matching.{
  IsSame, tcpv4_node_id_matches_iff, tcpv4_node_id_matches_equivalence,
}
use ion_dtn_contrib.Tcpv4.NodeId.Grammar.{IsUri, tcpv4_node_id_is_well_formed_iff}
use ion_dtn_contrib.Tcpv4.NodeId.Spelled.{tcpv4_node_id_ipn-decimal}

-- "IPN:7", "ipn:7.0" and "ipn:0.7.1" are one node.
abbrev bare : Option (List ℕ)
bare = some (b'I' ∷ b'P' ∷ b'N' ∷ b':' ∷ b'7' ∷ [])

abbrev with_service : Option (List ℕ)
with_service = some (b'i' ∷ b'p' ∷ b'n' ∷ b':' ∷ b'7' ∷ b'.' ∷ b'0' ∷ [])

abbrev qualified : Option (List ℕ)
qualified = some (b'i' ∷ b'p' ∷ b'n' ∷ b':' ∷ b'0' ∷ b'.' ∷ b'7' ∷ b'.' ∷ b'1' ∷ [])

tcpv4_node_id_matches_iff_example :
    (tcpv4_node_id_matches bare with_service ≡ true) ↔ IsSame bare with_service
tcpv4_node_id_matches_iff_example = tcpv4_node_id_matches_iff bare with_service

tcpv4_node_id_matches_equivalence_example :
    (tcpv4_node_id_is_set bare ≡ true → tcpv4_node_id_matches bare bare ≡ true)
    × (tcpv4_node_id_matches bare with_service ≡ true
        → tcpv4_node_id_matches with_service bare ≡ true)
    × (tcpv4_node_id_matches bare with_service ≡ true
        → tcpv4_node_id_matches with_service qualified ≡ true
        → tcpv4_node_id_matches bare qualified ≡ true)
tcpv4_node_id_matches_equivalence_example =
    tcpv4_node_id_matches_equivalence bare with_service qualified

bare_matches_qualified : tcpv4_node_id_matches bare qualified ≡ true
unfolding tcpv4_node_id_matches tcpv4_node_id_ipn parts_loop component_loop
bare_matches_qualified = refl

-- "ipn:1.2.3." is read as an ipn node ID, its trailing dot notwithstanding.
trailing_dot :
    tcpv4_node_id_ipn
      (some (b'i' ∷ b'p' ∷ b'n' ∷ b':' ∷ b'1' ∷ b'.' ∷ b'2' ∷ b'.' ∷ b'3' ∷ b'.' ∷ []))
    ≡ some (1, 2)
unfolding tcpv4_node_id_ipn parts_loop component_loop
trailing_dot = refl

tcpv4_node_id_ipn-decimal_example :
    (tcpv4_node_id_ipn (some (b'i' ∷ b'p' ∷ b'n' ∷ b':' ∷ b'1' ∷ b'2' ∷ [])) ≡ some (0, 12))
    × (tcpv4_node_id_ipn (some (b'i' ∷ b'p' ∷ b'n' ∷ b':' ∷ b'1' ∷ b'2' ∷ b'.' ∷ b'7' ∷ []))
        ≡ some (0, 12))
    × (tcpv4_node_id_ipn
          (some (b'i' ∷ b'p' ∷ b'n' ∷ b':' ∷ b'1' ∷ b'2' ∷ b'.' ∷ b'7' ∷ b'.' ∷ b'1' ∷ []))
        ≡ some (12, 7))
tcpv4_node_id_ipn-decimal_example =
    tcpv4_node_id_ipn-decimal (b'1' ∷ b'2' ∷ []) (b'7' ∷ []) (b'1' ∷ [])
      (record { digits = omega arith; some_digit = omega arith; small = omega arith })
      (record { digits = omega arith; some_digit = omega arith; small = omega arith })
      (record { digits = omega arith; some_digit = omega arith; small = omega arith })

tcpv4_node_id_is_well_formed_iff_example :
    (tcpv4_node_id_is_well_formed (some (b'i' ∷ b'p' ∷ b'n' ∷ b':' ∷ b'7' ∷ [])) ≡ true)
    ↔ IsUri (b'i' ∷ b'p' ∷ b'n' ∷ b':' ∷ b'7' ∷ [])
tcpv4_node_id_is_well_formed_iff_example =
    tcpv4_node_id_is_well_formed_iff (b'i' ∷ b'p' ∷ b'n' ∷ b':' ∷ b'7' ∷ [])
