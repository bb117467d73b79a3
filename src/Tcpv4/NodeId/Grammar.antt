-- ===== src/Tcpv4/NodeId/Grammar.antt =====
-- tcpv4NodeIdIsWellFormed of CLA/tcpv4/src/tcpv4nodeid.c against the grammar of a URI.
use ion_dtn_contrib.Prelude.{
  ℕ, suc, ◌+◌, ◌≤◌, ◌<◌, ◌≡◌, ◌↔◌, ◌⊎◌, refl, ap, ◌∙◌, Bool, true, false, if_yes, if_no,
  if◌then◌else◌, List, [], ◌∷◌, ◌++◌, length, All, some, arith,
}
use ion_dtn_contrib.Tcpv4.NodeId.{
  is_scheme_char, scheme_loop, rest_loop, after_scheme, tcpv4_node_id_is_well_formed,
}

abbrev IsLetter : ℕ → Type 0
IsLetter c = ((b'A' ≤ c) × (c ≤ b'Z')) ⊎ ((b'a' ≤ c) × (c ≤ b'z'))

abbrev IsMark : ℕ → Type 0
IsMark c = ((b'0' ≤ c) × (c ≤ b'9')) ⊎ ((c ≡ b'+') ⊎ ((c ≡ b'-') ⊎ (c ≡ b'.')))

-- A letter, a digit, '+', '-' or '.', the last four not at the front.
abbrev SchemeFrom : ℕ → List ℕ → Type 0
SchemeFrom i [] = Unit
SchemeFrom i (c ∷ cs) = (IsLetter c ⊎ ((0 < i) × IsMark c)) × SchemeFrom (suc i) cs

is_scheme_char_iff : (i c : ℕ) → (is_scheme_char i c ≡ true) ↔ (IsLetter c ⊎ ((0 < i) × IsMark c))
is_scheme_char_iff i c = ground arith

-- A printable character that is no space.
abbrev IsVisible : ℕ → Type 0
IsVisible c = (0x21 ≤ c) × (c ≤ 0x7e)

-- A scheme, a colon and printable characters.
pub record IsUri (text : List ℕ) : Type 0 where
  pub scheme : List ℕ
  pub rest : List ℕ
  pub split : text ≡ scheme ++ (b':' ∷ rest)
  pub some_char : 0 < length scheme
  pub allowed : SchemeFrom 0 scheme
  pub visible : All IsVisible rest

rest_loop_iff : (cs : List ℕ) → (rest_loop cs ≡ true) ↔ All IsVisible cs
unfolding rest_loop
rest_loop_iff [] = ((λ e. tt), (λ a. refl))
rest_loop_iff (c ∷ cs) = ground (arith, rest_loop_iff cs)

colon_ends : (i : ℕ) → is_scheme_char i b':' ≡ false
colon_ends i = ground arith

scheme_loop-append :
    (i : ℕ) (s rest : List ℕ)
    → SchemeFrom i s
    → scheme_loop i (s ++ (b':' ∷ rest)) ≡ (length s + i, b':' ∷ rest)
unfolding scheme_loop
scheme_loop-append i [] rest a =
    if_no (is_scheme_char i b':') _ _ (colon_ends i) ∙ ap (λ j. (j, b':' ∷ rest)) (omega arith)
scheme_loop-append i (c ∷ s) rest a =
    if_yes (is_scheme_char i c) _ _ ((is_scheme_char_iff i c).1 a.0)
    ∙ scheme_loop-append (suc i) s rest a.1
    ∙ ap (λ j. (j, b':' ∷ rest)) (let e : length s + suc i ≡ suc (length s) + i = omega arith in e)

-- What the first loop leaves: the octets before the cursor are a scheme.
scheme_loop_front :
    (i : ℕ) (cs : List ℕ)
    → (s : List ℕ) × (cs ≡ s ++ (scheme_loop i cs).1)
      × SchemeFrom i s
      × ((scheme_loop i cs).0 ≡ length s + i)
unfolding scheme_loop
scheme_loop_front i [] = ([], refl, tt, omega arith)
scheme_loop_front i (c ∷ cs) = by_test (is_scheme_char i c) refl (scheme_loop_front (suc i) cs)
  where
    by_test :
        (b : Bool)
        → is_scheme_char i c ≡ b
        → (s : List ℕ) × (cs ≡ s ++ (scheme_loop (suc i) cs).1)
          × SchemeFrom (suc i) s
          × ((scheme_loop (suc i) cs).0 ≡ length s + suc i)
        → (s : List ℕ) × (c ∷ cs ≡ s ++ (if b then scheme_loop (suc i) cs else (i, c ∷ cs)).1)
          × SchemeFrom i s
          × ((if b then scheme_loop (suc i) cs else (i, c ∷ cs)).0 ≡ length s + i)
    by_test true e (s, f, a, n) = (
      c ∷ s,
      ap (λ l. c ∷ l) f,
      ((is_scheme_char_iff i c).0 e, a),
      n ∙ (let m : length s + suc i ≡ suc (length s) + i = omega arith in m),
    )
    by_test false e h = ([], refl, tt, omega arith)

after_scheme_tests :
    (i c : ℕ) (r : List ℕ)
    → (after_scheme (i, c ∷ r) ≡ true) ↔ ((0 < i) × (c ≡ b':') × (rest_loop r ≡ true))
after_scheme_tests i c r = ground arith

read-IsUri :
    (cs s : List ℕ) (i : ℕ) (rest : List ℕ)
    → cs ≡ s ++ rest
    → SchemeFrom 0 s
    → i ≡ length s + 0
    → after_scheme (i, rest) ≡ true
    → IsUri cs
read-IsUri cs s i [] f a n e = absurd (cc)
read-IsUri cs s i (c ∷ r) f a n e =
    let (positive, colon, visible) = (after_scheme_tests i c r).0 e in
    record {
      scheme = s;
      rest = r;
      split = f ∙ ap (λ d. s ++ (d ∷ r)) colon;
      some_char = omega (arith, positive, n);
      allowed = a;
      visible = (rest_loop_iff r).0 visible;
    }

-- A node ID is well-formed exactly if it is a URI: a scheme that begins with a letter, a colon, and
-- printable characters.
pub tcpv4_node_id_is_well_formed_iff :
    (text : List ℕ) → (tcpv4_node_id_is_well_formed (some text) ≡ true) ↔ IsUri text
unfolding tcpv4_node_id_is_well_formed
tcpv4_node_id_is_well_formed_iff text =
    let (s, f, a, n) = scheme_loop_front 0 text in
    (
      (λ e. read-IsUri text s _ _ f a n e),
      (λ u.
          ap (λ l. after_scheme (scheme_loop 0 l)) u.split
          ∙ ap after_scheme (scheme_loop-append 0 u.scheme u.rest u.allowed)
          ∙ (after_scheme_tests (length u.scheme + 0) b':' u.rest).1
              (omega (arith, u.some_char), refl, (rest_loop_iff u.rest).1 u.visible)),
    )
