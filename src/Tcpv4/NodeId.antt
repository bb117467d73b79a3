-- ===== src/Tcpv4/NodeId.antt =====
-- The node IDs of CLA/tcpv4/src/tcpv4nodeid.c. A string is the list of its characters without the
-- final zero, `none` for NULL.
pub mod Matching
pub mod Spelled
pub mod Grammar
mod Tests
use ion_dtn_contrib.Prelude.{
  ℕ, zero, suc, ◌+◌, ◌-◌, ◌*◌, ◌/◌, ◌%◌, ◌^◌, Bool, true, false, ◌&&◌, ◌||◌, not, ltb, leb, ◌==◌,
  if◌then◌else◌, list_eq, List, [], ◌∷◌, ◌++◌, Option, none, some,
}

abbrev pub is_between : ℕ → ℕ → ℕ → Bool
is_between lo hi c = leb lo c && leb c hi

-- The end of the loop of readComponent: no digit, no component.
abbrev pub component_end : ℕ → ℕ → List ℕ → Option (ℕ × List ℕ)
component_end n digits cursor = if digits == 0 then none else some (n, cursor)

-- The loop of readComponent; `none` is NULL.
unfoldable pub component_loop : List ℕ → ℕ → ℕ → Option (ℕ × List ℕ)
component_loop [] n digits = component_end n digits []
component_loop (c ∷ cursor) n digits =
    let rest = component_loop cursor ((n * 10 + (c - b'0')) % 2 ^ 64) (suc digits) in
    if is_between b'0' b'9' c
    then (if ltb ((2 ^ 64 - 1 - (c - b'0')) / 10) n then none else rest)
    else component_end n digits (c ∷ cursor)

abbrev pub read_component : List ℕ → Option (ℕ × List ℕ)
read_component cursor = component_loop cursor 0 0

-- The loop of tcpv4NodeIdIpn, which reads at most `left` more components: the components and the
-- cursor behind them.
unfoldable pub parts_loop : ℕ → List ℕ → List ℕ → Option (List ℕ × List ℕ)
parts_loop zero parts cursor = some (parts, cursor)
parts_loop (suc left) parts cursor = elim (read_component cursor) [
  | none ↦ none
  | some (part, []) ↦ some (parts ++ (part ∷ []), [])
  | some (part, c ∷ behind) ↦
      let rest = parts_loop left (parts ++ (part ∷ [])) behind in
      if c == b'.' then rest else some (parts ++ (part ∷ []), c ∷ behind)
]

-- The allocator and the node: one or two components stand for the default allocator.
abbrev pub allocator_node : List ℕ × List ℕ → Option (ℕ × ℕ)
allocator_node (parts, c ∷ cursor) = none
allocator_node ([], []) = none
allocator_node (node ∷ [], []) = some (0, node)
allocator_node (node ∷ service ∷ [], []) = some (0, node)
allocator_node (allocator ∷ node ∷ service ∷ more, []) = some (allocator, node)

abbrev pub to_lower : ℕ → ℕ
to_lower c = if is_between b'A' b'Z' c then c + 32 else c

-- What stands behind "ipn:" in any case.
abbrev pub behind_ipn : List ℕ → Option (List ℕ)
behind_ipn (i ∷ p ∷ n ∷ colon ∷ cursor) =
    if to_lower i == b'i' && (to_lower p == b'p' && (to_lower n == b'n' && to_lower colon == b':'))
    then some cursor
    else none
behind_ipn node_id = none

abbrev pub tcpv4_node_id_is_set : Option (List ℕ) → Bool
tcpv4_node_id_is_set none = false
tcpv4_node_id_is_set (some []) = false
tcpv4_node_id_is_set (some (c ∷ cs)) = true

abbrev pub ipn_read : Option (List ℕ × List ℕ) → Option (ℕ × ℕ)
ipn_read none = none
ipn_read (some read) = allocator_node read

abbrev pub ipn_text : Option (List ℕ) → Option (ℕ × ℕ)
ipn_text none = none
ipn_text (some cursor) = ipn_read (parts_loop 3 [] cursor)

-- The allocator and the node number, `none` for a result of 0.
unfoldable pub tcpv4_node_id_ipn : Option (List ℕ) → Option (ℕ × ℕ)
tcpv4_node_id_ipn none = none
tcpv4_node_id_ipn (some node_id) =
    if tcpv4_node_id_is_set (some node_id) then ipn_text (behind_ipn node_id) else none

abbrev pub text_eq : Option (List ℕ) → Option (List ℕ) → Bool
text_eq (some a) (some b) = list_eq a b
text_eq (some a) none = false
text_eq none b = false

abbrev pub same_node : Option (ℕ × ℕ) → Option (ℕ × ℕ) → Bool → Bool
same_node (some (alloc_a, node_a)) (some (alloc_b, node_b)) same_text =
    alloc_a == alloc_b && node_a == node_b
same_node (some a) none same_text = false
same_node none (some b) same_text = false
same_node none none same_text = same_text

unfoldable pub tcpv4_node_id_matches : Option (List ℕ) → Option (List ℕ) → Bool
tcpv4_node_id_matches a b =
    if not (tcpv4_node_id_is_set a) || not (tcpv4_node_id_is_set b)
    then false
    else same_node (tcpv4_node_id_ipn a) (tcpv4_node_id_ipn b) (text_eq a b)

abbrev pub is_alpha : ℕ → Bool
is_alpha c = is_between b'A' b'Z' c || is_between b'a' b'z' c

-- The condition of the first loop of tcpv4NodeIdIsWellFormed at index `i`.
abbrev pub is_scheme_char : ℕ → ℕ → Bool
is_scheme_char i c =
    is_alpha c || (ltb 0 i && (is_between b'0' b'9' c || (c == b'+' || (c == b'-' || c == b'.'))))

-- The first loop, from index `i`: the index at its end and the octets from there.
unfoldable pub scheme_loop : ℕ → List ℕ → ℕ × List ℕ
scheme_loop i [] = (i, [])
scheme_loop i (c ∷ cs) =
    let rest = scheme_loop (suc i) cs in if is_scheme_char i c then rest else (i, c ∷ cs)

-- The second loop.
unfoldable pub rest_loop : List ℕ → Bool
rest_loop [] = true
rest_loop (c ∷ cs) = let rest = rest_loop cs in if ltb c 0x21 || ltb 0x7e c then false else rest

abbrev pub after_scheme : ℕ × List ℕ → Bool
after_scheme (i, []) = false
after_scheme (i, c ∷ cs) = if i == 0 || not (c == b':') then false else rest_loop cs

unfoldable pub tcpv4_node_id_is_well_formed : Option (List ℕ) → Bool
tcpv4_node_id_is_well_formed none = false
tcpv4_node_id_is_well_formed (some node_id) = after_scheme (scheme_loop 0 node_id)
