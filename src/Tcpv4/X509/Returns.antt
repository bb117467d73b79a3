-- ===== src/Tcpv4/X509/Returns.antt =====
-- The loop of tcpv4X509HasExtension in CLA/tcpv4/src/tcpv4x509.c ends on any octets.
use mathlib.Core.Path.{subst}
use ion_dtn_contrib.Prelude.{
  ℕ, zero, suc, ◌+◌, ◌<◌, ◌^◌, ◌≡◌, inl, inr, refl, sym, ap, ◌∙◌, Bool, true, false, ◌==◌,
  Option-cases, if_case, List, [], ◌∷◌, ◌++◌, length, length-append, All, All-append_back,
  All-append_front, drop, Option, none, some, arith,
}
use ion_dtn_contrib.Wire.Size.{IsByte, size_add}
use ion_dtn_contrib.Tcpv4.X509.{
  der_tlv, inner_list, entered, after_entry, entry_test, entries_loop, tcpv4_x509_has_extension,
}
use ion_dtn_contrib.Tcpv4.X509.View.{View, View-whole, View-skip, View-sum, View-drop}
use ion_dtn_contrib.Tcpv4.X509.Found.{Found, Found-view, der_tlv-Found}
use ion_dtn_contrib.Tcpv4.X509.Extensions.{loop_round, loop_end, off_before}

abbrev pub Answers : Option Bool → Type 0
Answers r = (b : Bool) × (r ≡ some b)

after_entry-Answers : (rest t : Option Bool) → Answers rest → Answers (after_entry rest t)
after_entry-Answers rest none a = (false, refl)
after_entry-Answers rest (some true) a = (true, refl)
after_entry-Answers rest (some false) a = a

module _ (tag o n off : ℕ) (span : List ℕ) (a : All IsByte span) (f : Found off tag span o n) where
  Found-bytes : All IsByte (f.content ++ f.value.rest)
  Found-bytes =
      All-append_back IsByte (tag ∷ f.value.len_octets) (f.content ++ f.value.rest)
        (subst (All IsByte) f.value.split a)

  rest_shorter : length f.value.rest < length span
  rest_shorter = omega (
    arith,
    ap length f.value.split,
    length-append {0} f.value.len_octets (f.content ++ f.value.rest),
    length-append {0} f.content f.value.rest,
  )

-- Every round goes beyond the entry that it has read.
loop-Answers :
    (der oid : List ℕ) (fuel len off : ℕ) (span : List ℕ)
    → All IsByte span
    → View der len off span
    → length span < fuel
    → Answers (entries_loop fuel der len off oid)
loop-Answers der oid zero len off span a v h = absurd (omega arith)
loop-Answers der oid (suc fuel) len off [] a v h = (false, loop_end der oid fuel len off v)
loop-Answers der oid (suc fuel) len off (x ∷ s) a v h =
    elim (Option-cases (der_tlv der len off 0x30)) [
      | inl missing ↦ (false, loop_round der oid fuel len off none (off_before x s v) missing)
      | inr ((o, n), found) ↦
          let f = der_tlv-Found (x ∷ s) v a found in
          let w = Found-view (x ∷ s) v f in
          let sum = ap (size_add o) f.counts ∙ View-sum f.content f.value.rest w in
          let bytes = Found-bytes 0x30 o n off (x ∷ s) a f in
          let shorter = rest_shorter 0x30 o n off (x ∷ s) a f in
          let round = loop_round der oid fuel len off (some (o, n)) (off_before x s v) found in
          subst Answers (sym round) (
            after_entry-Answers _ (entry_test der oid (der_tlv der (size_add o n) o 6)) (
              subst (λ end. Answers (entries_loop fuel der len end oid)) (sym sum)
                (loop-Answers der oid fuel len (o + length f.content) f.value.rest
                  (All-append_back IsByte f.content f.value.rest bytes)
                  (View-skip f.content f.value.rest w) (omega arith))))
    ]

-- The list that the loop walks is a part of the buffer.
record Walked (r : List ℕ × ℕ) : Type 0 where
  span : List ℕ
  bytes : All IsByte span
  seen : View (r.0) (r.1) 0 span

module _ (der buf : List ℕ) (len : ℕ) (a : All IsByte buf) (v : View der len 0 buf) where
  whole_Walked : Walked (der, len)
  whole_Walked = record { span = buf; bytes = a; seen = v }

  entered-Walked : Walked (entered der len (der_tlv der len 0 0x30))
  entered-Walked = elim (Option-cases (der_tlv der len 0 0x30)) [
    | inl missing ↦ subst (λ r. Walked (entered der len r)) (sym missing) whole_Walked
    | inr ((o, n), found) ↦
        let f = der_tlv-Found buf v a found in
        let inside : Walked (drop o der, n) = record {
          span = f.content;
          bytes = All-append_front IsByte f.content f.value.rest (Found-bytes 0x30 o n 0 buf a f);
          seen =
              subst (λ k. View (drop o der) k 0 f.content) (sym f.counts)
                (View-drop f.content f.value.rest (Found-view buf v f));
        } in
        subst (λ r. Walked (entered der len r)) (sym found)
          (if_case Walked (size_add o n == len) _ _
            (λ e. by_inner o n inside (der_tlv der len o 0x30)) (λ e. whole_Walked))
  ]
    where
      by_inner :
          (o n : ℕ)
          → Walked (drop o der, n)
          → (r : Option (ℕ × ℕ)) → Walked (inner_list der len o n r)
      by_inner o n inside none = whole_Walked
      by_inner o n inside (some p) = inside

-- Whether an extension is there is answered for any octets: the walk over them ends.
pub tcpv4_x509_has_extension_returns :
    (buf more oid : List ℕ)
    → All IsByte buf
    → length buf < 2 ^ 64
    → (b : Bool) × (tcpv4_x509_has_extension (some (buf ++ more)) (length buf) (some oid) ≡ some b)
unfolding tcpv4_x509_has_extension
tcpv4_x509_has_extension_returns buf more oid a small =
    let walked = entered-Walked (buf ++ more) buf (length buf) a (View-whole buf more small) in
    if_case Answers (length oid == 0) _ _ (λ e. (false, refl))
      (λ e.
        loop-Answers _ oid _ _ 0 walked.span walked.bytes walked.seen
          (omega (arith, walked.seen.at_end)))
