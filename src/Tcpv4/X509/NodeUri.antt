-- ===== src/Tcpv4/X509/NodeUri.antt =====
-- tcpv4X509IsNodeId of CLA/tcpv4/src/tcpv4x509.c by the form of a URI.
use ion_dtn_contrib.Prelude.{
  ℕ, suc, ◌+◌, ◌-◌, ◌<◌, ◌≤◌, ◌≡◌, ◌↔◌, ◌⊎◌, inl, inr, refl, sym, ap, ◌∙◌, Bool, true, false, ◌&&◌,
  ◌||◌, not, ◌==◌, ltb, ltb→lt, lt→ltb, Bool-cases, if_no, list_eq, list_eq_iff, List, [], ◌∷◌,
  ◌++◌, length, length-append, take, drop, get_or, drop-get_or, take-append-drop,
  take-length_append, drop-length_append, some, arith,
}
use ion_dtn_contrib.Tcpv4.X509.{
  begins_with, ipn_scheme, dtn_scheme, dtn_none, tcpv4_x509_is_node_id,
}

-- `uri` has the scheme, and behind it `rest`.
abbrev pub HasScheme : List ℕ → List ℕ → Type 0
HasScheme scheme uri = (rest : List ℕ) × (uri ≡ scheme ++ rest)

-- Behind the scheme dtn: two slashes, and no other before the last, which is that of an empty demux.
abbrev no_slash : List ℕ → Bool
no_slash [] = true
no_slash (c ∷ cs) = not (c == b'/') && no_slash cs

abbrev empty_demux : List ℕ → Bool
empty_demux body = begins_with (b'/' ∷ b'/' ∷ []) body && no_slash (drop 2 body)

-- A URI of the scheme dtn with at least two characters and a slash behind the scheme.
abbrev EndsInSlash : (List ℕ → Type 0) → List ℕ → Type 0
EndsInSlash P uri =
    (body : List ℕ) × (1 < length body) × (uri ≡ dtn_scheme ++ (body ++ (b'/' ∷ []))) × P body

-- What RFC 9174 has as node IDs, with the schemes that the code has no rule for: of the scheme ipn
-- with the service number 0, "dtn:none", or of the scheme dtn with an empty demux.
abbrev pub NamesNode : List ℕ → Type 0
NamesNode uri =
    ((body : List ℕ) × (0 < length body) × (uri ≡ ipn_scheme ++ (body ++ (b'.' ∷ b'0' ∷ []))))
    ⊎ ((uri ≡ dtn_none)
        ⊎ (EndsInSlash (λ body. empty_demux body ≡ true) uri
            ⊎ (¬ HasScheme ipn_scheme uri × ¬ HasScheme dtn_scheme uri)))

-- A URI of the scheme dtn that ends in a slash although its demux is not empty, as in
-- "dtn://node/inbox/", or that has no two slashes before the node name.
abbrev pub OtherSlash : List ℕ → Type 0
OtherSlash uri = EndsInSlash (λ body. empty_demux body ≡ false) uri

-- Both together, as the code tests for them.
abbrev PassesTest : List ℕ → Type 0
PassesTest uri =
    ((body : List ℕ) × (0 < length body) × (uri ≡ ipn_scheme ++ (body ++ (b'.' ∷ b'0' ∷ []))))
    ⊎ ((uri ≡ dtn_none)
        ⊎ (((body : List ℕ) × (1 < length body) × (uri ≡ dtn_scheme ++ (body ++ (b'/' ∷ []))))
            ⊎ (¬ HasScheme ipn_scheme uri × ¬ HasScheme dtn_scheme uri)))

passes-split : (uri : List ℕ) → PassesTest uri → NamesNode uri ⊎ OtherSlash uri
passes-split uri (inl ipn) = inl (inl ipn)
passes-split uri (inr (inl none)) = inl (inr (inl none))
passes-split uri (inr (inr (inl (body, n, e)))) = elim (Bool-cases (empty_demux body)) [
  | inl empty ↦ inl (inr (inr (inl (body, n, e, empty))))
  | inr more ↦ inr (body, n, e, more)
]
passes-split uri (inr (inr (inr other))) = inl (inr (inr (inr other)))

split-passes : (uri : List ℕ) → NamesNode uri ⊎ OtherSlash uri → PassesTest uri
split-passes uri (inl (inl ipn)) = inl ipn
split-passes uri (inl (inr (inl none))) = inr (inl none)
split-passes uri (inl (inr (inr (inl (body, n, e, empty))))) = inr (inr (inl (body, n, e)))
split-passes uri (inl (inr (inr (inr other)))) = inr (inr (inr other))
split-passes uri (inr (body, n, e, more)) = inr (inr (inl (body, n, e)))

begins_with_iff : (scheme uri : List ℕ) → (begins_with scheme uri ≡ true) ↔ HasScheme scheme uri
begins_with_iff scheme uri = (
  (λ e. (
    drop (length scheme) uri,
    sym (take-append-drop (length scheme) uri)
        ∙ ap (λ l. l ++ drop (length scheme) uri) ((list_eq_iff _ scheme).0 e),
  )),
  (λ (rest, e).
      (list_eq_iff _ scheme).1 (ap (take (length scheme)) e ∙ take-length_append scheme rest)),
)

-- The last octets of `r` are `e`.
ends_iff :
    (r e : List ℕ)
    → length e ≤ length r
    → (list_eq (drop (length r - length e) r) e ≡ true) ↔ ((body : List ℕ) × (r ≡ body ++ e))
ends_iff r e h = (
  (λ t. (
    take (length r - length e) r,
    sym (take-append-drop (length r - length e) r)
        ∙ ap (λ l. take (length r - length e) r ++ l) ((list_eq_iff _ e).0 t),
  )),
  (λ (body, f).
      let n : length r - length e ≡ length body =
        omega (arith, ap length f, length-append {0} body e) in
      (list_eq_iff _ e).1
        (ap (λ i. drop i r) n ∙ ap (drop (length body)) f ∙ drop-length_append body e)),
)

and_true : (b c : Bool) → (b && c) ≡ true → (b ≡ true) × (c ≡ true)
and_true true c e = (refl, e)
and_true false c e = absurd (cc)

and_both : (b c : Bool) → b ≡ true → c ≡ true → (b && c) ≡ true
and_both b c e f = ap (λ d. d && c) e ∙ f

abbrev dot_zero : List ℕ
dot_zero = b'.' ∷ b'0' ∷ []

-- The test on a URI of the scheme ipn.
ipn_iff :
    (r : List ℕ)
    → ((ltb 6 (length (ipn_scheme ++ r))
          && list_eq (drop (length (ipn_scheme ++ r) - 2) (ipn_scheme ++ r)) dot_zero)
        ≡ true)
      ↔ ((body : List ℕ) × (0 < length body) × (r ≡ body ++ dot_zero))
ipn_iff r = (
  (λ t.
      let (long, last) = and_true _ _ t in
      let more = ltb→lt 6 (length (ipn_scheme ++ r)) long in
      let (body, f) =
        (ends_iff r dot_zero (omega (arith, more))).0 (sym (at_end (omega (arith, more))) ∙ last) in
      (body, omega (arith, more, ap length f, length-append {0} body dot_zero), f)),
  (λ (body, some_char, f).
      let n : length r ≡ length body + 2 =
        omega (arith, ap length f, length-append {0} body dot_zero) in
      and_both _ _ (lt→ltb 6 (length (ipn_scheme ++ r)) (omega (arith, n, some_char)))
        (at_end (omega (arith, n)) ∙ (ends_iff r dot_zero (omega (arith, n))).1 (body, f))),
)
  where
    at_end :
        2 ≤ length r
        → list_eq (drop (length (ipn_scheme ++ r) - 2) (ipn_scheme ++ r)) dot_zero
          ≡ list_eq (drop (length r - 2) r) dot_zero
    at_end h =
        ap (λ i. list_eq (drop i (ipn_scheme ++ r)) dot_zero)
          (let e : length (ipn_scheme ++ r) - 2 ≡ suc (suc (suc (suc (length r - 2)))) =
              omega arith in
            e)

abbrev slash : List ℕ
slash = b'/' ∷ []

-- The last octet, read by its index.
last_iff :
    (r : List ℕ)
    → 0 < length r
    → (get_or r (length r - 1) 0 == b'/') ≡ list_eq (drop (length r - 1) r) slash
last_iff r h =
    let e : suc (length r - 1) ≡ length r = omega arith in
    let behind : drop (suc (length r - 1)) r ≡ [] = ap (λ i. drop i r) e ∙ drop-length r in
    sym (
      ap (λ l. list_eq l slash)
        (drop-get_or (length r - 1) r 0 (omega arith)
          ∙ ap (λ l. get_or r (length r - 1) 0 ∷ l) behind)
      ∙ and_true_right _)
  where
    and_true_right : (b : Bool) → (b && true) ≡ b
    and_true_right true = refl
    and_true_right false = refl

    drop-length : (l : List ℕ) → drop (length l) l ≡ []
    drop-length [] = refl
    drop-length (x ∷ l) = drop-length l

-- The second test on a URI of the scheme dtn.
dtn_iff :
    (r : List ℕ)
    → ((ltb 6 (length (dtn_scheme ++ r))
          && get_or (dtn_scheme ++ r) (length (dtn_scheme ++ r) - 1) 0 == b'/')
        ≡ true)
      ↔ ((body : List ℕ) × (1 < length body) × (r ≡ body ++ slash))
dtn_iff r = (
  (λ t.
      let (long, last) = and_true _ _ t in
      let more = ltb→lt 6 (length (dtn_scheme ++ r)) long in
      let (body, f) =
        (ends_iff r slash (omega (arith, more))).0 (sym (at_end (omega (arith, more))) ∙ last) in
      (body, omega (arith, more, ap length f, length-append {0} body slash), f)),
  (λ (body, some_char, f).
      let n : length r ≡ length body + 1 =
        omega (arith, ap length f, length-append {0} body slash) in
      and_both _ _ (lt→ltb 6 (length (dtn_scheme ++ r)) (omega (arith, n, some_char)))
        (at_end (omega (arith, n)) ∙ (ends_iff r slash (omega (arith, n))).1 (body, f))),
)
  where
    at_end :
        1 ≤ length r
        → (get_or (dtn_scheme ++ r) (length (dtn_scheme ++ r) - 1) 0 == b'/')
          ≡ list_eq (drop (length r - 1) r) slash
    at_end h =
        ap (λ i. get_or (dtn_scheme ++ r) i 0 == b'/')
          (let e : length (dtn_scheme ++ r) - 1 ≡ suc (suc (suc (suc (length r - 1)))) =
              omega arith in
            e)
        ∙ last_iff r (omega arith)

or_iff : (b c : Bool) → ((b || c) ≡ true) ↔ ((b ≡ true) ⊎ (c ≡ true))
or_iff b c = ground arith

names : List ℕ → Bool
names uri = tcpv4_x509_is_node_id (some uri)

module _ (r : List ℕ) where
  ipn_names :
      (names (ipn_scheme ++ r) ≡ true)
      ↔ ((body : List ℕ) × (0 < length body) × (r ≡ body ++ dot_zero))
  unfolding names tcpv4_x509_is_node_id
  ipn_names = ipn_iff r

  dtn_names :
      (names (dtn_scheme ++ r) ≡ true)
      ↔ ((dtn_scheme ++ r ≡ dtn_none) ⊎ ((body : List ℕ) × (1 < length body) × (r ≡ body ++ slash)))
  unfolding names tcpv4_x509_is_node_id
  dtn_names = (
    (λ t. elim ((or_iff _ _).0 t) [
      | inl same ↦ inl ((list_eq_iff (dtn_scheme ++ r) dtn_none).0 same)
      | inr last ↦ inr ((dtn_iff r).0 last)
    ]),
    (λ s. elim s [
      | inl same ↦ (or_iff _ _).1 (inl ((list_eq_iff (dtn_scheme ++ r) dtn_none).1 same))
      | inr last ↦ (or_iff _ _).1 (inr ((dtn_iff r).1 last))
    ]),
  )

other_names :
    (uri : List ℕ)
    → begins_with ipn_scheme uri ≡ false
    → begins_with dtn_scheme uri ≡ false
    → names uri ≡ true
unfolding names tcpv4_x509_is_node_id
other_names uri e f =
    if_no (begins_with ipn_scheme uri) _ _ e ∙ if_no (begins_with dtn_scheme uri) _ _ f

no_scheme : (scheme uri : List ℕ) → begins_with scheme uri ≡ false → ¬ HasScheme scheme uri
no_scheme scheme uri e h = absurd (let f = sym e ∙ (begins_with_iff scheme uri).1 h in cc)

not_begun : (scheme uri : List ℕ) → ¬ HasScheme scheme uri → begins_with scheme uri ≡ false
not_begun scheme uri h = elim (Bool-cases (begins_with scheme uri)) [
  | inl e ↦ absurd (h ((begins_with_iff scheme uri).0 e))
  | inr e ↦ e
]

names-PassesTest : (uri : List ℕ) → names uri ≡ true → PassesTest uri
names-PassesTest uri t = elim (Bool-cases (begins_with ipn_scheme uri)) [
  | inl ipn ↦
      let (r, e) = (begins_with_iff ipn_scheme uri).0 ipn in
      let (body, n, f) = (ipn_names r).0 (sym (ap names e) ∙ t) in
      inl (body, n, e ∙ ap (λ l. ipn_scheme ++ l) f)
  | inr not_ipn ↦ elim (Bool-cases (begins_with dtn_scheme uri)) [
    | inl dtn ↦
        let (r, e) = (begins_with_iff dtn_scheme uri).0 dtn in
        elim ((dtn_names r).0 (sym (ap names e) ∙ t)) [
          | inl same ↦ inr (inl (e ∙ same))
          | inr (body, n, f) ↦ inr (inr (inl (body, n, e ∙ ap (λ l. dtn_scheme ++ l) f)))
        ]
    | inr not_dtn ↦
        inr (inr (inr (no_scheme ipn_scheme uri not_ipn, no_scheme dtn_scheme uri not_dtn)))
  ]
]

PassesTest-names : (uri : List ℕ) → PassesTest uri → names uri ≡ true
PassesTest-names uri (inl (body, n, e)) =
    ap names e ∙ (ipn_names (body ++ dot_zero)).1 (body, n, refl)
PassesTest-names uri (inr (inl e)) =
    ap names e ∙ (dtn_names (b'n' ∷ b'o' ∷ b'n' ∷ b'e' ∷ [])).1 (inl refl)
PassesTest-names uri (inr (inr (inl (body, n, e)))) =
    ap names e ∙ (dtn_names (body ++ slash)).1 (inr (body, n, refl))
PassesTest-names uri (inr (inr (inr (not_ipn, not_dtn)))) =
    other_names uri (not_begun ipn_scheme uri not_ipn) (not_begun dtn_scheme uri not_dtn)

pub tcpv4_x509_is_node_id_iff :
    (uri : List ℕ) → (tcpv4_x509_is_node_id (some uri) ≡ true) ↔ (NamesNode uri ⊎ OtherSlash uri)
unfolding names
tcpv4_x509_is_node_id_iff uri = (
  (λ t. passes-split uri (names-PassesTest uri t)),
  (λ s. PassesTest-names uri (split-passes uri s)),
)
