-- ===== src/Tcpv4/NodeId/Matching.antt =====
-- tcpv4NodeIdMatches of CLA/tcpv4/src/tcpv4nodeid.c as a relation on node IDs.
use ion_dtn_contrib.Prelude.{
  ℕ, ◌≡◌, ◌↔◌, refl, sym, ap, ◌∙◌, Bool, true, false, not, ◌||◌, ◌&&◌, ◌==◌, list_eq_iff, List,
  Option, none, some, if◌then◌else◌, arith,
}
use mathlib.Core.Path.{ap₂}
use ion_dtn_contrib.Tcpv4.NodeId.{
  tcpv4_node_id_is_set, tcpv4_node_id_ipn, text_eq, same_node, tcpv4_node_id_matches,
}

-- What two node IDs that match have in common: both are set, and either both are ipn node IDs with
-- the same allocator and node, or neither is one and they are spelled the same way.
pub record IsSame (a b : Option (List ℕ)) : Type 0 where
  pub set_a : tcpv4_node_id_is_set a ≡ true
  pub set_b : tcpv4_node_id_is_set b ≡ true
  pub ipn : tcpv4_node_id_ipn a ≡ tcpv4_node_id_ipn b
  pub text : tcpv4_node_id_ipn a ≡ none → a ≡ b

numbers_iff : (a m b n : ℕ) → ((a == b && m == n) ≡ true) ↔ ((a ≡ b) × (m ≡ n))
numbers_iff a m b n = ground arith

same_node_iff :
    (x y : Option (ℕ × ℕ)) (same_text : Bool)
    → (same_node x y same_text ≡ true) ↔ ((x ≡ y) × (x ≡ none → same_text ≡ true))
same_node_iff (some (alloc_a, node_a)) (some (alloc_b, node_b)) t = (
  (λ e.
      let (alloc, node) = (numbers_iff alloc_a node_a alloc_b node_b).0 e in
      (ap₂ (λ a n. some (a, n)) alloc node, (λ n. absurd (cc)))),
  (λ (e, f).
      let alloc : alloc_a ≡ alloc_b = cc in
      let node : node_a ≡ node_b = cc in
      (numbers_iff alloc_a node_a alloc_b node_b).1 (alloc, node)),
)
same_node_iff (some a) none t = ((λ e. cc), (λ (e, f). cc))
same_node_iff none (some b) t = ((λ e. cc), (λ (e, f). cc))
same_node_iff none none t = ((λ e. (refl, (λ n. e))), (λ (e, f). f refl))

text_eq_iff :
    (a b : Option (List ℕ)) → tcpv4_node_id_is_set a ≡ true → (text_eq a b ≡ true) ↔ (a ≡ b)
text_eq_iff none b s = absurd (cc)
text_eq_iff (some a) none s = ((λ e. cc), (λ e. cc))
text_eq_iff (some a) (some b) s =
    ((λ e. ap some ((list_eq_iff a b).0 e)), (λ e. (list_eq_iff a b).1 (let e' : a ≡ b = cc in e')))

-- The test holds of exactly the pairs that are the same node in the sense of `IsSame`.
pub tcpv4_node_id_matches_iff :
    (a b : Option (List ℕ)) → (tcpv4_node_id_matches a b ≡ true) ↔ IsSame a b
unfolding tcpv4_node_id_matches
tcpv4_node_id_matches_iff a b = by_tests _ _ refl refl
  where
    by_tests :
        (s t : Bool)
        → tcpv4_node_id_is_set a ≡ s
        → tcpv4_node_id_is_set b ≡ t
        → ((if not s || not t
              then false
              else same_node (tcpv4_node_id_ipn a) (tcpv4_node_id_ipn b) (text_eq a b))
            ≡ true)
          ↔ IsSame a b
    by_tests false t e f = ((λ h. cc), (λ h. cc))
    by_tests true false e f = ((λ h. cc), (λ h. cc))
    by_tests true true e f =
        let node = same_node_iff (tcpv4_node_id_ipn a) (tcpv4_node_id_ipn b) (text_eq a b) in
        let text = text_eq_iff a b e in
        (
          (λ h. record {
            set_a = e;
            set_b = f;
            ipn = (node.0 h).0;
            text = λ n. text.0 ((node.0 h).1 n);
          }),
          (λ h. node.1 (h.ipn, (λ n. text.1 (h.text n)))),
        )

IsSame-sym : (a b : Option (List ℕ)) → IsSame a b → IsSame b a
IsSame-sym a b h = record {
  set_a = h.set_b;
  set_b = h.set_a;
  ipn = sym h.ipn;
  text = λ n. sym (h.text (h.ipn ∙ n));
}

IsSame-trans : (a b c : Option (List ℕ)) → IsSame a b → IsSame b c → IsSame a c
IsSame-trans a b c h k = record {
  set_a = h.set_a;
  set_b = k.set_b;
  ipn = h.ipn ∙ k.ipn;
  text = λ n. h.text n ∙ k.text (sym h.ipn ∙ n);
}

-- Matching is an equivalence on the node IDs that are set: every one matches itself, the order of
-- two does not matter, and what matches the same node ID matches.
pub tcpv4_node_id_matches_equivalence :
    (a b c : Option (List ℕ))
    → (tcpv4_node_id_is_set a ≡ true → tcpv4_node_id_matches a a ≡ true)
      × (tcpv4_node_id_matches a b ≡ true → tcpv4_node_id_matches b a ≡ true)
      × (tcpv4_node_id_matches a b ≡ true
          → tcpv4_node_id_matches b c ≡ true
          → tcpv4_node_id_matches a c ≡ true)
tcpv4_node_id_matches_equivalence a b c = (
  (λ s.
      (tcpv4_node_id_matches_iff a a).1
        (record { set_a = s; set_b = s; ipn = refl; text = λ n. refl })),
  (λ h. (tcpv4_node_id_matches_iff b a).1 (IsSame-sym a b ((tcpv4_node_id_matches_iff a b).0 h))),
  (λ h k. (tcpv4_node_id_matches_iff a c).1 (
      IsSame-trans a b c ((tcpv4_node_id_matches_iff a b).0 h)
        ((tcpv4_node_id_matches_iff b c).0 k))),
)
