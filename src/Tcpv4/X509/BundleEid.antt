-- ===== src/Tcpv4/X509/BundleEid.antt =====
-- tcpv4X509BundleEid of CLA/tcpv4/src/tcpv4x509.c against the encoding of a BundleEID.
use mathlib.Core.Path.{subst}
use ion_dtn_contrib.Prelude.{
  ℕ, suc, ◌+◌, ◌<◌, ◌^◌, ◌≡◌, ◌⊎◌, inl, inr, refl, sym, ap, ◌∙◌, Bool, true, false, not, ◌||◌, leb,
  ◌==◌, ==_iff, if◌then◌else◌, if_yes, if_no, if_case, Bool-cases, Option-cases, List, [], ◌∷◌,
  ◌++◌, length, All, All-append_front, All-append_back, drop, Option, none, some, ℤ, pos, minus_one,
  arith,
}
use ion_dtn_contrib.Wire.Size.{IsByte, size_add}
use ion_dtn_contrib.Tcpv4.X509.{
  der_tlv, c_string, copied, wrapped, eid_copied, tcpv4_x509_bundle_eid,
}
use ion_dtn_contrib.Tcpv4.X509.View.{View, View-whole, View-take, View-inside, View-sum}
use ion_dtn_contrib.Tcpv4.X509.Tlv.{IsTlv, der_tlv_other}
use ion_dtn_contrib.Tcpv4.X509.Found.{Found, Found-view, der_tlv-Found, der_tlv-IsTlv}

-- An IA5String, alone or in the wrapper [0].
abbrev pub IsEid : List ℕ → List ℕ → Type 0
IsEid text buf =
    IsTlv 0x16 text buf ⊎ ((inner : List ℕ) × IsTlv 0xa0 inner buf × IsTlv 0x16 text inner)

-- A text that fits `cap` octets with its final zero.
abbrev pub IsText : ℕ → List ℕ → Type 0
IsText cap text = (0 < length text) × (length text < cap) × All (λ c. 0 < c) text

-- `into` with the text and a zero at its front.
abbrev pub terminated : List ℕ → List ℕ → List ℕ
terminated text into = text ++ (0 ∷ drop (suc (length text)) into)

c_string-terminated :
    (text behind : List ℕ) → All (λ c. 0 < c) text → c_string (text ++ (0 ∷ behind)) ≡ text
c_string-terminated [] behind a = refl
c_string-terminated (c ∷ text) behind a =
    if_no (c == 0) _ _ (ground (arith, a.0)) ∙ ap (λ l. c ∷ l) (c_string-terminated text behind a.1)

c_string_whole :
    (text behind : List ℕ)
    → length (c_string (text ++ (0 ∷ behind))) ≡ length text
    → All (λ c. 0 < c) text
c_string_whole [] behind e = tt
c_string_whole (c ∷ text) behind e = elim (Bool-cases (c == 0)) [
  | inl zero_char ↦
      absurd (let f = sym (ap length (if_yes (c == 0) [] _ zero_char)) ∙ e in omega (arith, f))
  | inr char ↦
      let f = sym (ap length (if_no (c == 0) [] _ char)) ∙ e in
      (ground (arith, char), c_string_whole text behind (omega (arith, f)))
]

module _ (der into : List ℕ) (cap : ℕ) where
  copied_view :
      {len off : ℕ} (text rest : List ℕ)
      → View der len off (text ++ rest)
      → copied der off (length text) into ≡ terminated text into
  copied_view text rest v =
      ap (λ l. l ++ (0 ∷ drop (suc (length text)) into)) (View-take text rest v)

  eid_copied_text :
      {len off : ℕ} (text rest : List ℕ)
      → View der len off (text ++ rest)
      → IsText cap text
      → eid_copied der into cap (some (off, length text)) ≡ (pos 0, terminated text into)
  eid_copied_text {len} {off} text rest v (some_char, fits, chars) =
      if_no (length text == 0 || leb cap (length text)) _ _ (ground arith)
      ∙ ap (λ l. (if not (length (c_string l) == length text) then minus_one else pos 0, l))
          (copied_view text rest v)
      ∙ ap (λ (z : ℤ). (z, terminated text into))
          (if_no (not (length (c_string (terminated text into)) == length text)) _ _ (
            ground
              (arith, ap length (c_string-terminated text (drop (suc (length text)) into) chars))))

  -- What eid_copied accepts is a text.
  eid_copied-IsText :
      {len off : ℕ} (text rest : List ℕ)
      → View der len off (text ++ rest)
      → (eid_copied der into cap (some (off, length text))).0 ≡ pos 0
      → IsText cap text
        × (eid_copied der into cap (some (off, length text)) ≡ (pos 0, terminated text into))
  eid_copied-IsText {len} {off} text rest v e = by_tests _ _ refl refl
    where
      by_tests :
          (s t : Bool)
          → (length text == 0 || leb cap (length text)) ≡ s
          → (length (c_string (copied der off (length text) into)) == length text) ≡ t
          → IsText cap text
            × (eid_copied der into cap (some (off, length text)) ≡ (pos 0, terminated text into))
      by_tests true t f g = absurd (cc)
      by_tests false false f g = absurd (cc)
      by_tests false true f g =
          let whole =
            ap (λ l. length (c_string l)) (sym (copied_view text rest v))
            ∙ (==_iff _ (length text)).0 g in
          let text-IsText : IsText cap text = (
            ground (arith, f),
            ground (arith, f),
            c_string_whole text (drop (suc (length text)) into) whole,
          ) in
          (text-IsText, eid_copied_text text rest v text-IsText)

  -- The IA5String of the octets `span`.
  string_copied :
      {end off : ℕ} (text span : List ℕ)
      → View der end off span
      → IsTlv 0x16 text span
      → IsText cap text
      → eid_copied der into cap (der_tlv der end off 0x16) ≡ (pos 0, terminated text into)
  string_copied {end} {off} text span v t h =
      let (o, found, same, e) = der_tlv-IsTlv text span v t in
      let w = subst (λ l. View der end o (l ++ found.value.rest)) same (Found-view span v found) in
      ap (eid_copied der into cap) e ∙ eid_copied_text text found.value.rest w h

  abbrev IsCopy : List ℕ → ℤ × List ℕ → Type 0
  IsCopy span r =
      (text : List ℕ) × IsTlv 0x16 text span × IsText cap text × (r ≡ (pos 0, terminated text into))

  string_copied-IsCopy :
      {end off : ℕ} (span : List ℕ)
      → View der end off span
      → All IsByte span
      → (eid_copied der into cap (der_tlv der end off 0x16)).0 ≡ pos 0
      → IsCopy span (eid_copied der into cap (der_tlv der end off 0x16))
  string_copied-IsCopy {end} {off} span v a e = elim (Option-cases (der_tlv der end off 0x16)) [
    | inl missing ↦ absurd (let f = sym (ap (λ r. (eid_copied der into cap r).0) missing) ∙ e in cc)
    | inr ((o, n), found) ↦
        let f = der_tlv-Found span v a found in
        let at = found ∙ ap (λ k. some (o, k)) f.counts in
        let (text-IsText, r) =
          eid_copied-IsText f.content f.value.rest (Found-view span v f)
            (sym (ap (λ r. (eid_copied der into cap r).0) at) ∙ e) in
        (f.content, f.value, text-IsText, ap (eid_copied der into cap) at ∙ r)
  ]

  eid_copied_result :
      (r : Option (ℕ × ℕ))
      → ((eid_copied der into cap r).0 ≡ pos 0) ⊎ ((eid_copied der into cap r).0 ≡ minus_one)
  eid_copied_result none = inr refl
  eid_copied_result (some (off, vlen)) = ground arith

-- What a call with `cap` octets at `into` has done with a value: it has copied the text of an
-- IA5String that fits and has no zero in it, or has failed, and there is no such text.
abbrev pub Outcome : List ℕ → List ℕ → ℕ → ℤ × List ℕ → Type 0
Outcome buf into cap r =
    ((text : List ℕ) × IsEid text buf × IsText cap text × (r ≡ (pos 0, terminated text into)))
    ⊎ ((r.0 ≡ minus_one) × ¬ ((text : List ℕ) × IsEid text buf × IsText cap text))

module _ (buf more into : List ℕ) (cap : ℕ) (small : length buf < 2 ^ 64) where
  abbrev der : List ℕ
  der = buf ++ more

  abbrev result : ℤ × List ℕ
  result = tcpv4_x509_bundle_eid (some der) (length buf) into cap

  whole : View der (length buf) 0 buf
  whole = View-whole buf more small

  -- The result, by what the first call of derTlv returns.
  result_by :
      (w : Option (ℕ × ℕ)) (end off : ℕ)
      → der_tlv der (length buf) 0 0xa0 ≡ w
      → wrapped (length buf) w ≡ (end, off)
      → (cap == 0) ≡ false
      → result ≡ eid_copied der into cap (der_tlv der end off 0x16)
  unfolding tcpv4_x509_bundle_eid
  result_by w end off e f some_room =
      if_no (cap == 0) _ _ some_room
      ∙ ap (λ (p : ℕ × ℕ). eid_copied der into cap (der_tlv der (p.0) (p.1) 0x16))
          (ap (wrapped (length buf)) e ∙ f)

  result_no_room : (cap == 0) ≡ true → result ≡ (minus_one, into)
  unfolding tcpv4_x509_bundle_eid
  result_no_room e = if_yes (cap == 0) _ _ e

  -- The result where the first call finds a wrapper: that for the octets inside it.
  result_inside :
      (o n : ℕ) (f : Found 0 0xa0 buf o n)
      → der_tlv der (length buf) 0 0xa0 ≡ some (o, n)
      → (cap == 0) ≡ false
      → (result ≡ eid_copied der into cap (der_tlv der (o + length f.content) o 0x16))
        × View der (o + length f.content) o f.content
  result_inside o n f e some_room =
      let v = Found-view buf whole f in
      (
        result_by (some (o, n)) (o + length f.content) o e
            (ap (λ k. (size_add o k, o)) f.counts
              ∙ ap (λ end. (end, o)) (View-sum f.content f.value.rest v))
            some_room,
        View-inside f.content f.value.rest v,
      )

  result_whole :
      (text : List ℕ) → IsEid text buf → IsText cap text → result ≡ (pos 0, terminated text into)
  result_whole text (inl t) h =
      result_by none (length buf) 0
        (der_tlv_other der (length buf) 0 0xa0 0x16 _
          (subst (View der (length buf) 0) t.split whole) (omega arith))
        refl (ground (arith, h.1))
      ∙ string_copied der into cap text buf whole t h
  result_whole text (inr (inner, w, t)) h =
      let (o, found, same, e) = der_tlv-IsTlv inner buf whole w in
      let (r, v) = result_inside o (length inner) found e (ground (arith, h.1)) in
      r ∙ string_copied der into cap text found.content v (subst (IsTlv 0x16 text) (sym same) t) h

  abbrev Read : ℤ × List ℕ → Type 0
  Read r = (text : List ℕ) × IsEid text buf × IsText cap text × (r ≡ (pos 0, terminated text into))

  result_read : All IsByte buf → (cap == 0) ≡ false → result.0 ≡ pos 0 → Read result
  result_read a some_room e = elim (Option-cases (der_tlv der (length buf) 0 0xa0)) [
    | inl missing ↦
        let r = result_by none (length buf) 0 missing refl some_room in
        let (text, t, h, copy) =
          string_copied-IsCopy der into cap buf whole a
            (sym (ap (λ (p : ℤ × List ℕ). p.0) r) ∙ e) in
        (text, inl t, h, r ∙ copy)
    | inr ((o, n), found) ↦
        let f = der_tlv-Found buf whole a found in
        let (r, v) = result_inside o n f found some_room in
        let inside =
          All-append_back IsByte (0xa0 ∷ f.value.len_octets) (f.content ++ f.value.rest)
            (subst (All IsByte) f.value.split a) in
        let (text, t, h, copy) =
          string_copied-IsCopy der into cap f.content v
            (All-append_front IsByte f.content f.value.rest inside)
            (sym (ap (λ (p : ℤ × List ℕ). p.0) r) ∙ e) in
        (text, inr (f.content, f.value, t), h, r ∙ copy)
  ]

  result_status : (result.0 ≡ pos 0) ⊎ (result.0 ≡ minus_one)
  unfolding tcpv4_x509_bundle_eid
  result_status =
      if_case (λ (r : ℤ × List ℕ). (r.0 ≡ pos 0) ⊎ (r.0 ≡ minus_one)) (cap == 0) _ _ (λ e. inr refl)
        (λ e. eid_copied_result der into cap (
          let (end, off) = wrapped (length buf) (der_tlv der (length buf) 0 0xa0) in
          der_tlv der end off 0x16))

  -- A BundleEID is read, from the first `length buf` octets of the memory at `der`, exactly if they
  -- begin with an IA5String, alone or in the wrapper [0], whose text is not empty, fits `cap` octets
  -- with its final zero and has no zero in it: the text and a zero are copied, and else the result
  -- is -1.
  pub tcpv4_x509_bundle_eid-Outcome : All IsByte buf → Outcome buf into cap result
  tcpv4_x509_bundle_eid-Outcome a = elim result_status [
    | inl read ↦ elim (Bool-cases (cap == 0)) [
      | inl no_room ↦
          absurd (let e = sym (ap (λ (p : ℤ × List ℕ). p.0) (result_no_room no_room)) ∙ read in cc)
      | inr some_room ↦ inl (result_read a some_room read)
    ]
    | inr failed ↦ inr (
      failed,
      λ (text, t, h).
          absurd
            (let e = sym (ap (λ (p : ℤ × List ℕ). p.0) (result_whole text t h)) ∙ failed in cc),
    )
  ]
