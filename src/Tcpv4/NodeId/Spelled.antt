-- ===== src/Tcpv4/NodeId/Spelled.antt =====
-- tcpv4NodeIdIpn of CLA/tcpv4/src/tcpv4nodeid.c on the spellings of RFC 9758.
use ion_dtn_contrib.Prelude.{
  ℕ, suc, ◌+◌, ◌-◌, ◌*◌, ◌/◌, ◌^◌, ◌≤◌, ◌<◌, ◌≡◌, refl, sym, ap, ◌∙◌, true, false, ltb, ◌==◌,
  if_yes, if_no, List, [], ◌∷◌, ◌++◌, append-nil, length, All, some, arith,
}
use ion_dtn_contrib.Tcpv4.NodeId.{
  is_between, component_end, component_loop, read_component, parts_loop, ipn_read,
  tcpv4_node_id_ipn,
}

abbrev IsDigit : ℕ → Type 0
IsDigit c = (b'0' ≤ c) × (c ≤ b'9')

abbrev decimal_from : ℕ → List ℕ → ℕ
decimal_from n [] = n
decimal_from n (c ∷ cs) = decimal_from (n * 10 + (c - b'0')) cs

-- The number that the digits spell.
abbrev pub decimal : List ℕ → ℕ
decimal = decimal_from 0

-- One digit or more, of a number below 2 ^ 64.
pub record IsNumber (text : List ℕ) : Type 0 where
  pub digits : All IsDigit text
  pub some_digit : 0 < length text
  pub small : decimal text < 2 ^ 64

abbrev Stops : List ℕ → Type 0
Stops [] = Unit
Stops (c ∷ cs) = is_between b'0' b'9' c ≡ false

decimal_from_le : (n : ℕ) (cs : List ℕ) → n ≤ decimal_from n cs
decimal_from_le n [] = omega arith
decimal_from_le n (c ∷ cs) = omega (arith, decimal_from_le (n * 10 + (c - b'0')) cs)

component_loop-stop :
    (rest : List ℕ) (n k : ℕ) → Stops rest → component_loop rest n k ≡ component_end n k rest
unfolding component_loop
component_loop-stop [] n k s = refl
component_loop-stop (c ∷ cs) n k s = if_no (is_between b'0' b'9' c) _ _ s

digit_between : (c : ℕ) → IsDigit c → is_between b'0' b'9' c ≡ true
digit_between c d = ground arith

no_overflow :
    (n c : ℕ)
    → IsDigit c
    → n * 10 + (c - b'0') < 2 ^ 64
    → ltb ((2 ^ 64 - 1 - (c - b'0')) / 10) n ≡ false
no_overflow n c d h = ground arith

component_loop-digits :
    (text rest : List ℕ) (n k : ℕ)
    → All IsDigit text
    → decimal_from n text < 2 ^ 64
    → Stops rest
    → component_loop (text ++ rest) n k ≡ component_end (decimal_from n text) (length text + k) rest
unfolding component_loop
component_loop-digits [] rest n k d h s =
    component_loop-stop rest n k s ∙ ap (λ j. component_end n j rest) (omega arith)
component_loop-digits (c ∷ cs) rest n k d h s =
    let low = decimal_from_le (n * 10 + (c - b'0')) cs in
    if_yes (is_between b'0' b'9' c) _ _ (digit_between c d.0)
    ∙ if_no (ltb ((2 ^ 64 - 1 - (c - b'0')) / 10) n) _ _
        (no_overflow n c d.0 (omega (arith, low, h)))
    ∙ ap (λ m. component_loop (cs ++ rest) m (suc k)) (omega (arith, low, h))
    ∙ component_loop-digits cs rest (n * 10 + (c - b'0')) (suc k) d.1 h s
    ∙ ap (λ j. component_end (decimal_from n (c ∷ cs)) j rest)
        (let e : length cs + suc k ≡ length (c ∷ cs) + k = omega arith in e)

component_end-some :
    (n digits : ℕ) (rest : List ℕ) → 0 < digits → component_end n digits rest ≡ some (n, rest)
component_end-some n digits rest h = if_no (digits == 0) _ _ (ground arith)

read_component-decimal :
    (text rest : List ℕ)
    → IsNumber text
    → Stops rest
    → read_component (text ++ rest) ≡ some (decimal text, rest)
read_component-decimal text rest v s =
    component_loop-digits text rest 0 0 v.digits v.small s
    ∙ component_end-some (decimal text) (length text + 0) rest (omega (arith, v.some_digit))

parts_loop-last :
    (left : ℕ) (parts text : List ℕ)
    → IsNumber text
    → parts_loop (suc left) parts text ≡ some (parts ++ (decimal text ∷ []), [])
unfolding parts_loop
parts_loop-last left parts text v =
    let e : read_component text ≡ some (decimal text, []) =
      ap read_component (sym (append-nil text)) ∙ read_component-decimal text [] v tt in
    rw (e, parts_loop) refl

parts_loop-dot :
    (left : ℕ) (parts text behind : List ℕ)
    → IsNumber text
    → parts_loop (suc left) parts (text ++ (b'.' ∷ behind))
      ≡ parts_loop left (parts ++ (decimal text ∷ [])) behind
unfolding parts_loop
parts_loop-dot left parts text behind v =
    rw (read_component-decimal text (b'.' ∷ behind) v refl, parts_loop) refl

abbrev ipn_colon : List ℕ
ipn_colon = b'i' ∷ b'p' ∷ b'n' ∷ b':' ∷ []

-- The three spellings of an ipn node ID, with any numbers of 64 bits: a node number alone and one
-- with a service number belong to allocator 0; with three components the first is the allocator and
-- the second the node.
pub tcpv4_node_id_ipn-decimal :
    (a b c : List ℕ)
    → IsNumber a
    → IsNumber b
    → IsNumber c
    → (tcpv4_node_id_ipn (some (ipn_colon ++ a)) ≡ some (0, decimal a))
      × (tcpv4_node_id_ipn (some (ipn_colon ++ (a ++ (b'.' ∷ b)))) ≡ some (0, decimal a))
      × (tcpv4_node_id_ipn (some (ipn_colon ++ (a ++ (b'.' ∷ (b ++ (b'.' ∷ c))))))
          ≡ some (decimal a, decimal b))
unfolding tcpv4_node_id_ipn
tcpv4_node_id_ipn-decimal a b c u v w = (
  ap ipn_read (parts_loop-last 2 [] a u),
  ap ipn_read (parts_loop-dot 2 [] a b u ∙ parts_loop-last 1 (decimal a ∷ []) b v),
  ap ipn_read (
      parts_loop-dot 2 [] a (b ++ (b'.' ∷ c)) u
      ∙ parts_loop-dot 1 (decimal a ∷ []) b c v
      ∙ parts_loop-last 0 (decimal a ∷ decimal b ∷ []) c w),
)
