-- ===== src/Tcpv4/X509/Entries.antt =====
-- tcpv4X509HasExtension of CLA/tcpv4/src/tcpv4x509.c on a list of extensions.
use mathlib.Core.Path.{subst}
use ion_dtn_contrib.Prelude.{
  ℕ, suc, ◌+◌, ◌<◌, ◌≤◌, ◌^◌, ◌≡◌, ◌⊎◌, inl, inr, refl, sym, ap, ◌∙◌, Bool, true, false, ◌==◌,
  ==_iff, if◌then◌else◌, if_yes, if_no, List, [], ◌∷◌, ◌++◌, append_assoc, append-nil, length,
  length-append, All, drop, none, some, arith,
}
use ion_dtn_contrib.Wire.Size.{size_add}
use ion_dtn_contrib.Tcpv4.X509.{
  der_tlv, inner_list, entered, after_entry, entry_test, entries_loop, tcpv4_x509_has_extension,
}
use ion_dtn_contrib.Tcpv4.X509.View.{View, View-whole, View-skip, View-sum, View-inside, View-drop}
use ion_dtn_contrib.Tcpv4.X509.Tlv.{IsLength, der_tlv_nil, der_tlv_other, der_tlv_span}
use ion_dtn_contrib.Tcpv4.X509.Extensions.{
  Entry, IsEntry, entry_octets, entries_octets, has_oid, entry_tlv, entry_view, entries_loop_lem,
  loop_round, off_before,
}

-- The extensions as a list or, with its header, as a SEQUENCE of them.
abbrev pub IsExtensions : List Entry → List ℕ → Type 0
IsExtensions es buf =
    (buf ≡ entries_octets es)
    ⊎ ((h : List ℕ) × IsLength (length (entries_octets es)) h
        × (buf ≡ (0x30 ∷ h) ++ entries_octets es))

length-entries : (es : List Entry) → length es ≤ length (entries_octets es)
length-entries [] = omega arith
length-entries (e ∷ es) =
    omega (arith, length-append {0} (entry_octets e) (entries_octets es), length-entries es)

module _ (der oid : List ℕ) (len : ℕ) where
  has_extension_by :
      (list : List ℕ) (n : ℕ)
      → entered der len (der_tlv der len 0 0x30) ≡ (list, n)
      → 0 < length oid
      → tcpv4_x509_has_extension (some der) len (some oid) ≡ entries_loop (suc n) list n 0 oid
  unfolding tcpv4_x509_has_extension
  has_extension_by list n e h =
      if_no (length oid == 0) _ _ (ground arith)
      ∙ ap (λ (p : List ℕ × ℕ). entries_loop (suc (p.1)) (p.0) (p.1) 0 oid) e

  -- The list without a header is walked as it is.
  entered_bare :
      (es : List Entry)
      → All IsEntry es
      → View der len 0 (entries_octets es)
      → entered der len (der_tlv der len 0 0x30) ≡ (der, len)
  entered_bare [] a v = ap (entered der len) (der_tlv_nil der len 0 0x30 v)
  entered_bare (e ∷ es) a v =
      ap (entered der len) (entry_tlv der oid len 0 e rest a.0 v) ∙ by_end _ refl
    where
      rest : List ℕ
      rest = entries_octets es

      o : ℕ
      o = 0 + suc (length e.len_octets)

      no_sequence : der_tlv der len o 0x30 ≡ none
      no_sequence =
          der_tlv_other der len o 0x30 6 _
            (subst (λ l. View der len o (l ++ rest)) a.0.named.split
              (entry_view der oid len 0 e rest a.0 v))
            (omega arith)

      by_end :
          (b : Bool)
          → (size_add o (length e.body) == len) ≡ b
          → (if size_add o (length e.body) == len
              then inner_list der len o (length e.body) (der_tlv der len o 0x30)
              else (der, len))
            ≡ (der, len)
      by_end false f = if_no (size_add o (length e.body) == len) _ _ f
      by_end true f =
          if_yes (size_add o (length e.body) == len) _ _ f
          ∙ ap (inner_list der len o (length e.body)) no_sequence

  module _ (h inside : List ℕ) (m : IsLength (length inside) h)
      (v : View der len 0 ((0x30 ∷ h) ++ inside)) where
    header_view : View der len 0 ((0x30 ∷ h) ++ (inside ++ []))
    header_view = subst (λ l. View der len 0 ((0x30 ∷ h) ++ l)) (sym (append-nil inside)) v

    inside_view : View der len (0 + suc (length h)) (inside ++ [])
    inside_view = View-skip (0x30 ∷ h) (inside ++ []) header_view

    header_found : der_tlv der len 0 0x30 ≡ some (0 + suc (length h), length inside)
    header_found = der_tlv_span der len 0 0x30 h inside [] m header_view

    -- The header is that of the whole list.
    header_end : size_add (0 + suc (length h)) (length inside) ≡ len
    header_end =
        View-sum inside [] inside_view
        ∙ omega (arith, v.at_end, length-append {0} (0x30 ∷ h) inside)

    entered_header :
        entered der len (der_tlv der len 0 0x30)
        ≡ inner_list der len
            (0 + suc (length h))
            (length inside)
            (der_tlv der len (0 + suc (length h)) 0x30)
    entered_header =
        ap (entered der len) header_found
        ∙ if_yes (size_add (0 + suc (length h)) (length inside) == len) _ _
            ((==_iff _ len).1 header_end)

    -- Inside a SEQUENCE of no extensions there is nothing to enter.
    empty_found : inside ≡ [] → entries_loop (suc len) der len 0 oid ≡ some false
    empty_found e =
        let o : ℕ = 0 + suc (length h) in
        let at_end = subst (View der (o + length inside) o) e (View-inside inside [] inside_view) in
        let rest = λ (seq_end : ℕ). entries_loop len der len seq_end oid in
        loop_round der oid len len 0 _ (off_before 0x30 _ v) header_found
        ∙ ap (λ seq_end. after_entry (rest seq_end) (entry_test der oid (der_tlv der seq_end o 6)))
            (View-sum inside [] inside_view)
        ∙ ap (λ r. after_entry (rest (o + length inside)) (entry_test der oid r))
            (der_tlv_nil der (o + length inside) o 6 at_end)

  -- A list of well-formed extensions, with or without the header of the SEQUENCE that it is, has the
  -- extension exactly if the OID is that of one of them.
  entries_found :
      (es : List Entry) (buf : List ℕ)
      → All IsEntry es
      → View der len 0 buf
      → 0 < length oid
      → IsExtensions es buf
      → tcpv4_x509_has_extension (some der) len (some oid) ≡ some (has_oid oid es)
  entries_found es buf a v h (inl e) =
      let w = subst (View der len 0) e v in
      has_extension_by der len (entered_bare es a w) h
      ∙ entries_loop_lem der oid (suc len) len 0 es a w (omega (arith, w.at_end, length-entries es))
  entries_found [] buf a v h (inr (head, m, e)) =
      let w = subst (View der len 0) e v in
      has_extension_by der len
        (entered_header head [] m w
          ∙ ap (inner_list der len (0 + suc (length head)) 0)
              (der_tlv_nil der len (0 + suc (length head)) 0x30 (inside_view head [] m w)))
        h
      ∙ empty_found head [] m w refl
  entries_found (x ∷ es) buf a v h (inr (head, m, e)) =
      let w = subst (View der len 0) e v in
      let o = 0 + suc (length head) in
      let inside = entries_octets (x ∷ es) in
      let sub = inside_view head inside m w in
      let first =
        subst (View der len o) (append_assoc (entry_octets x) (entries_octets es) []) sub in
      has_extension_by (drop o der) (length inside)
        (entered_header head inside m w
          ∙ ap (inner_list der len o (length inside))
              (entry_tlv der oid len o x (entries_octets es ++ []) a.0 first))
        h
      ∙ entries_loop_lem (drop o der) oid (suc (length inside)) (length inside) 0 (x ∷ es) a
          (View-drop inside [] sub) (omega (arith, length-entries (x ∷ es)))

-- In a list of well-formed extensions, with or without the header of the SEQUENCE that it is, the
-- extension is found exactly if the OID, which is not empty, is that of one of them.
pub tcpv4_x509_has_extension-entries :
    (es : List Entry) (buf more oid : List ℕ)
    → All IsEntry es
    → IsExtensions es buf
    → length buf < 2 ^ 64
    → 0 < length oid
    → tcpv4_x509_has_extension (some (buf ++ more)) (length buf) (some oid) ≡ some (has_oid oid es)
tcpv4_x509_has_extension-entries es buf more oid a e small h =
    entries_found (buf ++ more) oid (length buf) es buf a (View-whole buf more small) h e
