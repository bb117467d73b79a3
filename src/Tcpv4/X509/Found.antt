-- ===== src/Tcpv4/X509/Found.antt =====
-- What derTlv of CLA/tcpv4/src/tcpv4x509.c has read where it succeeds.
use mathlib.Core.Path.{subst}
use ion_dtn_contrib.Prelude.{
  ℕ, suc, ◌+◌, ◌-◌, ◌≡◌, inl, inr, refl, sym, ap, ◌∙◌, false, ◌||◌, not, ltb, ◌==◌, ==_iff, if_yes,
  if_no, Bool-cases, ltb→lt, ltb→ge, List, [], ◌∷◌, ◌++◌, length, All, All-take, take, drop,
  take-append-drop, length-take, Option, none, some, arith,
}
use ion_dtn_contrib.Wire.Size.{IsByte}
use ion_dtn_contrib.Tcpv4.X509.{der_tlv, tlv_length}
use ion_dtn_contrib.Tcpv4.X509.View.{View, View-next, View-skip}
use ion_dtn_contrib.Tcpv4.X509.Tlv.{
  IsLength, IsTlv, value_from, cut_at, der_tlv_span, der_tlv_nil, der_tlv_one, der_tlv_pair,
  tlv_length_short, tlv_length_long, tlv_length_counted_none,
}

-- What derTlv has read where it succeeds.
pub record Found (off tag : ℕ) (span : List ℕ) (o n : ℕ) : Type 0 where
  pub content : List ℕ
  pub value : IsTlv tag content span
  pub at_content : o ≡ off + suc (length value.len_octets)
  pub counts : n ≡ length content

failed : (r : Option (ℕ × ℕ)) (o n : ℕ) → r ≡ none → r ≡ some (o, n) → ⊥
failed r o n e f = absurd (let g : none ≡ some (o, n) = sym e ∙ f in cc)

some_pair : (a b c d : ℕ) → ◌≡◌ {A = Option (ℕ × ℕ)} (some (a, b)) (some (c, d)) → (a ≡ c) × (b ≡ d)
some_pair a b c d e = (cc, cc)

-- The content is cut off at its length.
module _ (off tag o n : ℕ) (h s : List ℕ) where
  cut-Found :
      (i m : ℕ)
      → cut_at s i m ≡ some (o, n)
      → i ≡ off + suc (length h)
      → IsLength m h
      → Found off tag (tag ∷ (h ++ s)) o n
  cut-Found i m e at_i measured = elim (Bool-cases (ltb (length s) m)) [
    | inl short ↦ absurd (failed _ o n (if_yes (ltb (length s) m) _ _ short) e)
    | inr fits ↦
        let (at_o, counts) = some_pair i m o n (sym (if_no (ltb (length s) m) _ _ fits) ∙ e) in
        let taken : length (take m s) ≡ m =
          omega (arith, length-take {0} m s, ltb→ge (length s) m fits) in
        record {
          content = take m s;
          value = record {
            len_octets = h;
            rest = drop m s;
            split = ap (λ l. tag ∷ (h ++ l)) (sym (take-append-drop m s));
            measured = subst (λ k. IsLength k h) (sym taken) measured;
          };
          at_content = sym at_o ∙ at_i;
          counts = omega (arith, counts, taken);
        }
  ]

module _ {der : List ℕ} {len off tag o n : ℕ} where
  length-Found :
      (b : ℕ) (s : List ℕ)
      → View der len (suc (suc off)) s
      → IsByte b
      → All IsByte s
      → tlv_length der len (suc (suc off)) b ≡ some (o, n)
      → Found off tag (tag ∷ b ∷ s) o n
  length-Found b s v byte bytes e = elim (Bool-cases (ltb b 128)) [
    | inl short ↦
        cut-Found off tag o n (b ∷ []) s (suc (suc off)) b
          (sym (tlv_length_short der len (suc (suc off)) b s v (omega (arith, ltb→lt b 128 short)))
            ∙ e)
          (omega arith) (inl (ltb→lt b 128 short, refl))
    | inr long ↦ by_count (b - 128) (omega (arith, byte, ltb→ge b 128 long))
  ]
    where
      count-Found :
          (k : ℕ)
          → b ≡ 128 + k
          → (k == 0 || (ltb 8 k || ltb (length s) k)) ≡ false
          → Found off tag (tag ∷ b ∷ s) o n
      count-Found k f good =
          let ds = take k s in
          let counted : length ds ≡ k = ground (arith, length-take {0} k s) in
          let w = subst (View der len (suc (suc off))) (sym (take-append-drop k s)) v in
          let octets = All-take IsByte k s bytes in
          let h : b ≡ 128 + length ds = omega arith in
          let long =
            tlv_length_long der len (suc (suc off)) ds (drop k s) w octets (ground arith)
              (ground arith) in
          let at = ap (tlv_length der len (suc (suc off))) h in
          subst (λ l. Found off tag (tag ∷ b ∷ l) o n) (take-append-drop k s)
            (cut-Found off tag o n (b ∷ ds) (drop k s) (suc (suc off) + length ds) (value_from 0 ds)
              (sym long ∙ sym at ∙ e) (omega arith)
              (inr (record {
                octets = ds;
                counted = ap (λ c. c ∷ ds) h;
                some_octet = ground arith;
                at_most = ground arith;
                bytes = octets;
                number = refl;
              })))

      by_count : (k : ℕ) → b ≡ 128 + k → Found off tag (tag ∷ b ∷ s) o n
      by_count k f = elim (Bool-cases (k == 0 || (ltb 8 k || ltb (length s) k))) [
        | inl bad ↦ absurd (
            failed _ o n
              (ap (tlv_length der len (suc (suc off))) f
                ∙ tlv_length_counted_none der len (suc (suc off)) k s v (omega (arith, f, byte))
                    bad)
              e)
        | inr good ↦ count-Found k f good
      ]

  pub der_tlv-Found :
      (span : List ℕ)
      → View der len off span
      → All IsByte span
      → der_tlv der len off tag ≡ some (o, n)
      → Found off tag span o n
  der_tlv-Found [] v a e = absurd (failed _ o n (der_tlv_nil der len off tag v) e)
  der_tlv-Found (x ∷ []) v a e = absurd (failed _ o n (der_tlv_one der len off tag x v) e)
  der_tlv-Found (x ∷ b ∷ s) v a e = elim (Bool-cases (x == tag)) [
    | inr other ↦ absurd (
        failed _ o n
          (der_tlv_pair der len off tag x b s v ∙ if_yes (not (x == tag)) _ _ (ap not other)) e)
    | inl same ↦
        subst (λ t. Found off tag (t ∷ b ∷ s) o n) (sym ((==_iff x tag).0 same))
          (length-Found b s (View-next b s (View-next x (b ∷ s) v)) a.1.0 a.1.1 (
            sym (if_no (not (x == tag)) _ _ (ap not same))
            ∙ sym (der_tlv_pair der len off tag x b s v)
            ∙ e))
  ]

-- The content lies where the result says, and the rest behind it.
module _ {der : List ℕ} {len off tag o n : ℕ} (span : List ℕ) (v : View der len off span) where
  pub Found-view : (f : Found off tag span o n) → View der len o (f.content ++ f.value.rest)
  Found-view f =
      subst (λ i. View der len i (f.content ++ f.value.rest)) (sym f.at_content)
        (View-skip (tag ∷ f.value.len_octets) (f.content ++ f.value.rest)
          (subst (View der len off) f.value.split v))

-- A value of the tag is found.
pub der_tlv-IsTlv :
    {der : List ℕ} {len off tag : ℕ} (content span : List ℕ)
    → View der len off span
    → IsTlv tag content span
    → (o : ℕ) × (f : Found off tag span o (length content)) × (f.content ≡ content)
      × (der_tlv der len off tag ≡ some (o, length content))
der_tlv-IsTlv {der} {len} {off} {tag} content span v t = (
  off + suc (length t.len_octets),
  record { content = content; value = t; at_content = refl; counts = refl },
  refl,
  der_tlv_span der len off tag t.len_octets content t.rest t.measured
      (subst (View der len off) t.split v),
)
