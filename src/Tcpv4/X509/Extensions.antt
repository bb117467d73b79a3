-- ===== src/Tcpv4/X509/Extensions.antt =====
-- The loop of tcpv4X509HasExtension in CLA/tcpv4/src/tcpv4x509.c over a list of extensions.
use mathlib.Core.Path.{subst}
use ion_dtn_contrib.Prelude.{
  ℕ, zero, suc, ◌+◌, ◌<◌, ◌≡◌, inl, inr, refl, sym, ap, ◌∙◌, Bool, true, false, ◌&&◌, ◌||◌, ltb,
  lt→ltb, if_yes, if_no, ge→ltb, ◌==◌, ==_iff, Bool-cases, list_eq, List, [], ◌∷◌, ◌++◌,
  append_assoc, length, All, take, drop, Option, some, arith,
}
use ion_dtn_contrib.Wire.Size.{size_add}
use ion_dtn_contrib.Tcpv4.X509.{der_tlv, entry_test, entry_found, after_entry, entries_loop}
use ion_dtn_contrib.Tcpv4.X509.View.{View, View-take, View-inside, View-skip, View-sum}
use ion_dtn_contrib.Tcpv4.X509.Tlv.{IsLength, IsTlv, der_tlv_span}
use ion_dtn_contrib.Tcpv4.X509.Found.{Found-view, der_tlv-IsTlv}

-- An Extension with the OID `oid`: a SEQUENCE that begins with it.
pub record Entry : Type 0 where
  pub oid : List ℕ
  pub len_octets : List ℕ
  pub body : List ℕ

abbrev pub entry_octets : Entry → List ℕ
entry_octets e = (0x30 ∷ e.len_octets) ++ e.body

pub record IsEntry (e : Entry) : Type 0 where
  pub measured : IsLength (length e.body) e.len_octets
  pub named : IsTlv 6 e.oid e.body

abbrev pub entries_octets : List Entry → List ℕ
entries_octets [] = []
entries_octets (e ∷ es) = entry_octets e ++ entries_octets es

abbrev pub has_oid : List ℕ → List Entry → Bool
has_oid oid [] = false
has_oid oid (e ∷ es) = list_eq e.oid oid || has_oid oid es

list_eq_length : (xs ys : List ℕ) → (length xs == length ys) ≡ false → list_eq xs ys ≡ false
list_eq_length [] [] h = absurd (cc)
list_eq_length [] (y ∷ ys) h = refl
list_eq_length (x ∷ xs) [] h = refl
list_eq_length (x ∷ xs) (y ∷ ys) h =
    let shorter : (length xs == length ys) ≡ false = ground arith in
    ground (arith, list_eq_length xs ys shorter)

-- `idLen == oidLen && memcmp(...) == 0` compares the two OIDs.
oid_test :
    (id oid memory : List ℕ)
    → take (length id) memory ≡ id
    → (length id == length oid && list_eq (take (length oid) memory) oid) ≡ list_eq id oid
oid_test id oid memory e = elim (Bool-cases (length id == length oid)) [
  | inl same ↦
      ap (λ b. b && list_eq (take (length oid) memory) oid) same
      ∙ ap (λ n. list_eq (take n memory) oid) (sym ((==_iff (length id) (length oid)).0 same))
      ∙ ap (λ l. list_eq l oid) e
  | inr other ↦
      ap (λ b. b && list_eq (take (length oid) memory) oid) other
      ∙ sym (list_eq_length id oid other)
]

module _ (der oid : List ℕ) where
  entry_test_lem :
      {end off : ℕ} (id body : List ℕ)
      → View der end off body
      → IsTlv 6 id body
      → entry_test der oid (der_tlv der end off 6) ≡ some (list_eq id oid)
  entry_test_lem {end} {off} id body v t =
      let (o, found, same, e) = der_tlv-IsTlv id body v t in
      let w = subst (λ l. View der end o (l ++ found.value.rest)) same (Found-view body v found) in
      ap (entry_test der oid) e
      ∙ ap some (oid_test id oid (drop o der) (View-take id found.value.rest w))

  abbrev pub entry_end : ℕ → Entry → ℕ
  entry_end off e = (off + suc (length e.len_octets)) + length e.body

  module _ (len off : ℕ) (e : Entry) (rest : List ℕ) (ok : IsEntry e)
      (v : View der len off (entry_octets e ++ rest)) where
    pub entry_view : View der len (off + suc (length e.len_octets)) (e.body ++ rest)
    entry_view =
        View-skip (0x30 ∷ e.len_octets) (e.body ++ rest)
          (subst (View der len off) (append_assoc (0x30 ∷ e.len_octets) e.body rest) v)

    pub entry_tlv : der_tlv der len off 0x30 ≡ some (off + suc (length e.len_octets), length e.body)
    entry_tlv =
        der_tlv_span der len off 0x30 e.len_octets e.body rest ok.measured
          (subst (View der len off) (append_assoc (0x30 ∷ e.len_octets) e.body rest) v)

    pub entry_sum : size_add (off + suc (length e.len_octets)) (length e.body) ≡ entry_end off e
    entry_sum = View-sum e.body rest entry_view

    pub entry_inside : View der (entry_end off e) (off + suc (length e.len_octets)) e.body
    entry_inside = View-inside e.body rest entry_view

    pub entry_rest : View der len (entry_end off e) rest
    entry_rest = View-skip e.body rest entry_view

-- There is an octet before the end.
pub off_before :
    {der : List ℕ} {len off : ℕ} (x : ℕ) (s : List ℕ)
    → View der len off (x ∷ s)
    → ltb off len ≡ true
off_before {der} {len} {off} x s v = lt→ltb off len (omega (arith, v.at_end))

module _ (der oid : List ℕ) where
  pub loop_end :
      (fuel len off : ℕ)
      → View der len off []
      → entries_loop (suc fuel) der len off oid ≡ some false
  unfolding entries_loop
  loop_end fuel len off v = if_no (ltb off len) _ _ (ge→ltb off len (omega (arith, v.at_end)))

  -- One round of the loop.
  pub loop_round :
      (fuel len off : ℕ) (r : Option (ℕ × ℕ))
      → ltb off len ≡ true
      → der_tlv der len off 0x30 ≡ r
      → entries_loop (suc fuel) der len off oid
        ≡ entry_found (λ seq_end. entries_loop fuel der len seq_end oid) der oid r
  unfolding entries_loop
  loop_round fuel len off r e f =
      if_yes (ltb off len) _ _ e
      ∙ ap (entry_found (λ seq_end. entries_loop fuel der len seq_end oid) der oid) f

  after_tested : (b c : Bool) → after_entry (some c) (some b) ≡ some (b || c)
  after_tested true c = refl
  after_tested false c = refl

  -- The loop finds the OID exactly among the extensions of the list.
  pub entries_loop_lem :
      (fuel len off : ℕ) (es : List Entry)
      → All IsEntry es
      → View der len off (entries_octets es)
      → length es < fuel
      → entries_loop fuel der len off oid ≡ some (has_oid oid es)
  entries_loop_lem zero len off es a v h = absurd (omega arith)
  entries_loop_lem (suc fuel) len off [] a v h = loop_end fuel len off v
  entries_loop_lem (suc fuel) len off (e ∷ es) a v h =
      let rest = entries_octets es in
      let inner = off + suc (length e.len_octets) in
      let sum = entry_sum der oid len off e rest a.0 v in
      loop_round fuel len off (some (inner, length e.body)) (off_before 0x30 _ v)
        (entry_tlv der oid len off e rest a.0 v)
      ∙ ap
          (λ end.
            after_entry (entries_loop fuel der len end oid)
              (entry_test der oid (der_tlv der end inner 6)))
          sum
      ∙ ap (after_entry (entries_loop fuel der len (entry_end der oid off e) oid)) (
          entry_test_lem der oid e.oid e.body (entry_inside der oid len off e rest a.0 v) a.0.named)
      ∙ ap (λ r. after_entry r (some (list_eq e.oid oid)))
          (entries_loop_lem fuel len (entry_end der oid off e) es a.1
            (entry_rest der oid len off e rest a.0 v) (omega arith))
      ∙ after_tested (list_eq e.oid oid) (has_oid oid es)
