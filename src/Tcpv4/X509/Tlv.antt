-- ===== src/Tcpv4/X509/Tlv.antt =====
-- derTlv of CLA/tcpv4/src/tcpv4x509.c against the distinguished encoding of X.690, chapter 8.1.
use native.Mathlib.Nat.{pow-suc}
use mathlib.Core.Path.{subst}
use ion_dtn_contrib.Prelude.{
  ℕ, zero, suc, ◌+◌, ◌*◌, ◌%◌, ◌^◌, ◌≤◌, ◌<◌, ◌≡◌, ◌≢◌, ◌⊎◌, inl, inr, refl, ap, ◌∙◌, Bool, true,
  ◌&&◌, ◌||◌, not, ltb, leb, ◌==◌, ==_iff, if◌then◌else◌, if_yes, if_no, lt→ltb, ge→ltb, List, [],
  ◌∷◌, ◌++◌, length, All, length-append, get_or, Option, none, some, bit_and, bit_or, arith,
}
use ion_dtn_contrib.Prelude.Bits.{bit_or-shifted}
use ion_dtn_contrib.Wire.Size.{IsByte, size_sub}
use ion_dtn_contrib.Tcpv4.X509.{length_loop, tlv_content, tlv_length, der_tlv}
use ion_dtn_contrib.Tcpv4.X509.View.{View, View-get, View-skip, View-next, View-left}

-- The number with the octets `ds` behind those of `n`.
abbrev pub value_from : ℕ → List ℕ → ℕ
value_from n [] = n
value_from n (d ∷ ds) = value_from (n * 256 + d) ds

-- The long form of a length: the number of its octets, and the octets.
pub record IsLong (n : ℕ) (h : List ℕ) : Type 0 where
  pub octets : List ℕ
  pub counted : h ≡ (128 + length octets) ∷ octets
  pub some_octet : 0 < length octets
  pub at_most : length octets ≤ 8
  pub bytes : All IsByte octets
  pub number : value_from 0 octets ≡ n

-- The length octets `h` stand for `n`.
abbrev pub IsLength : ℕ → List ℕ → Type 0
IsLength n h = ((n < 128) × (h ≡ n ∷ [])) ⊎ IsLong n h

-- The octets `span` begin with a value of the tag that has this content.
pub record IsTlv (tag : ℕ) (content span : List ℕ) : Type 0 where
  pub len_octets : List ℕ
  pub rest : List ℕ
  pub split : span ≡ (tag ∷ len_octets) ++ (content ++ rest)
  pub measured : IsLength (length content) len_octets

pow_256_le : (k : ℕ) → k < 8 → 256 ^ k ≤ 2 ^ 56
pow_256_le zero h = omega arith
pow_256_le (suc zero) h = omega arith
pow_256_le (suc (suc zero)) h = omega arith
pow_256_le (suc (suc (suc zero))) h = omega arith
pow_256_le (suc (suc (suc (suc zero)))) h = omega arith
pow_256_le (suc (suc (suc (suc (suc zero))))) h = omega arith
pow_256_le (suc (suc (suc (suc (suc (suc zero)))))) h = omega arith
pow_256_le (suc (suc (suc (suc (suc (suc (suc zero))))))) h = omega arith
pow_256_le (suc (suc (suc (suc (suc (suc (suc (suc k)))))))) h = absurd (omega arith)

shifted_octet : (n d : ℕ) → n < 2 ^ 56 → d < 256 → bit_or (n * 2 ^ 8 % 2 ^ 64) d ≡ n * 256 + d
shifted_octet n d h b =
    let e : n * 2 ^ 8 % 2 ^ 64 ≡ n * 2 ^ 8 = omega arith in
    rw (e, bit_or-shifted 8 n d b) (omega arith)

length_loop_view :
    (der : List ℕ) (len : ℕ) (ds s : List ℕ) (k i n : ℕ)
    → View der len i (ds ++ s)
    → All IsByte ds
    → n < 256 ^ k
    → k + length ds ≤ 8
    → length_loop (length ds) der i n ≡ (i + length ds, value_from n ds)
unfolding length_loop
length_loop_view der len [] s k i n v a h e =
    ap (λ j. (j, n)) (let p : i ≡ i + 0 = omega arith in p)
length_loop_view der len (d ∷ ds) s k i n v a h e =
    ap (λ m. length_loop (length ds) der (suc i) m)
      (ap (λ c. bit_or (n * 2 ^ 8 % 2 ^ 64) c) (View-get d (ds ++ s) v)
        ∙ shifted_octet n d (omega (arith, h, pow_256_le k (omega arith))) a.0)
    ∙ length_loop_view der len ds s (suc k) (suc i) (n * 256 + d) (View-next d (ds ++ s) v) a.1
        (omega (arith, pow-suc 256 k, h, a.0)) (omega arith)
    ∙ ap (λ j. (j, value_from (n * 256 + d) ds))
        (let p : suc i + length ds ≡ i + suc (length ds) = omega arith in p)

is_low_seven : ℕ → Bool
is_low_seven k = bit_and (128 + k) 0x7f == k

low_seven_below : ℕ → Bool
low_seven_below zero = true
low_seven_below (suc n) = is_low_seven n && low_seven_below n

low_seven_sound : (n k : ℕ) → low_seven_below n ≡ true → k < n → is_low_seven k ≡ true
unfolding low_seven_below
low_seven_sound zero k h l = absurd (omega arith)
low_seven_sound (suc n) k h l = ground (arith, low_seven_sound n k)

low_seven : (k : ℕ) → k < 128 → bit_and (128 + k) 0x7f ≡ k
unfolding low_seven_below is_low_seven
low_seven k h = (==_iff _ k).0 (low_seven_sound 128 k refl h)

-- The result for the length `n`, where the octets `s` are left from index `i` on.
abbrev pub cut_at : List ℕ → ℕ → ℕ → Option (ℕ × ℕ)
cut_at s i n = if ltb (length s) n then none else some (i, n)

module _ (der : List ℕ) (len i : ℕ) where
  tlv_content_view : (n : ℕ) (s : List ℕ) → View der len i s → tlv_content len (i, n) ≡ cut_at s i n
  tlv_content_view n s v = ap (λ left. if ltb left n then none else some (i, n)) (View-left s v)

  pub tlv_length_short :
      (b : ℕ) (s : List ℕ) → View der len i s → b < 128 → tlv_length der len i b ≡ cut_at s i b
  unfolding tlv_length
  tlv_length_short b s v h = if_yes (ltb b 0x80) _ _ (lt→ltb b 0x80 h) ∙ tlv_content_view b s v

  tlv_length_counted :
      (k : ℕ) (s : List ℕ)
      → View der len i s
      → k < 128
      → tlv_length der len i (128 + k) ≡ (
          if k == 0 || (ltb 8 k || ltb (length s) k)
          then none
          else tlv_content len (length_loop k der i 0))
  unfolding tlv_length
  tlv_length_counted k s v h =
      if_no (ltb (128 + k) 0x80) _ _ (ge→ltb (128 + k) 0x80 (omega arith))
      ∙ ap
          (λ o.
            if o == 0 || (ltb 8 o || ltb (size_sub len i) o)
            then none
            else tlv_content len (length_loop o der i 0))
          (low_seven k h)
      ∙ ap
          (λ left.
            if k == 0 || (ltb 8 k || ltb left k)
            then none
            else tlv_content len (length_loop k der i 0))
          (View-left s v)

  pub tlv_length_long :
      (ds s : List ℕ)
      → View der len i (ds ++ s)
      → All IsByte ds
      → 0 < length ds
      → length ds ≤ 8
      → tlv_length der len i (128 + length ds) ≡ cut_at s (i + length ds) (value_from 0 ds)
  tlv_length_long ds s v a h k =
      tlv_length_counted (length ds) (ds ++ s) v (omega arith)
      ∙ if_no (length ds == 0 || (ltb 8 (length ds) || ltb (length (ds ++ s)) (length ds))) _ _
          (ground (arith, length-append ds s))
      ∙ ap (tlv_content len) (length_loop_view der len ds s 0 i 0 v a (omega arith) (omega arith))
      ∙ ap
          (λ left.
            if ltb left (value_from 0 ds) then none else some (i + length ds, value_from 0 ds))
          (View-left s (View-skip ds s v))

  -- A length that goes beyond the octets that there are.
  pub tlv_length_counted_none :
      (k : ℕ) (s : List ℕ)
      → View der len i s
      → k < 128
      → (k == 0 || (ltb 8 k || ltb (length s) k)) ≡ true
      → tlv_length der len i (128 + k) ≡ none
  tlv_length_counted_none k s v h e =
      tlv_length_counted k s v h ∙ if_yes (k == 0 || (ltb 8 k || ltb (length s) k)) _ _ e

module _ (der : List ℕ) (len off tag : ℕ) where
  pub der_tlv_nil : View der len off [] → der_tlv der len off tag ≡ none
  unfolding der_tlv
  der_tlv_nil v =
      if_yes (leb len off || (ltb (size_sub len off) 2 || not (get_or der off 0 == tag))) _ _
        (ground (arith, v.at_end))

  pub der_tlv_one : (x : ℕ) → View der len off (x ∷ []) → der_tlv der len off tag ≡ none
  unfolding der_tlv
  der_tlv_one x v =
      if_yes (leb len off || (ltb (size_sub len off) 2 || not (get_or der off 0 == tag))) _ _
        (by_left (leb len off) (size_sub len off) (View-left (x ∷ []) v))
    where
      by_left :
          (p : Bool) (left : ℕ)
          → left ≡ 1
          → (p || (ltb left 2 || not (get_or der off 0 == tag))) ≡ true
      by_left p left e = ground arith

  pub der_tlv_pair :
      (x b : ℕ) (s : List ℕ)
      → View der len off (x ∷ b ∷ s)
      → der_tlv der len off tag
        ≡ (if not (x == tag) then none else tlv_length der len (suc (suc off)) b)
  unfolding der_tlv
  der_tlv_pair x b s v =
      ap (λ t. if t then none else tlv_length der len (suc (suc off)) (get_or der (suc off) 0))
        (by_left (size_sub len off) (get_or der off 0) (View-left (x ∷ b ∷ s) v)
          (View-get x (b ∷ s) v))
      ∙ ap (λ c. if not (x == tag) then none else tlv_length der len (suc (suc off)) c)
          (View-get b s (View-next x (b ∷ s) v))
    where
      by_left :
          (left y : ℕ)
          → left ≡ suc (suc (length s))
          → y ≡ x
          → (leb len off || (ltb left 2 || not (y == tag))) ≡ not (x == tag)
      by_left left y e f = ground (arith, v.at_end)

  -- A value of another tag.
  pub der_tlv_other :
      (x : ℕ) (s : List ℕ) → View der len off (x ∷ s) → x ≢ tag → der_tlv der len off tag ≡ none
  der_tlv_other x [] v h = der_tlv_one x v
  der_tlv_other x (b ∷ s) v h = der_tlv_pair x b s v ∙ if_yes (not (x == tag)) _ _ (ground arith)

  -- A value of the tag, with its length octets before the content and what follows behind it.
  pub der_tlv_span :
      (h content rest : List ℕ)
      → IsLength (length content) h
      → View der len off ((tag ∷ h) ++ (content ++ rest))
      → der_tlv der len off tag ≡ some (off + suc (length h), length content)
  der_tlv_span h content rest (inl (small, e)) v =
      let w = subst (λ k. View der len off ((tag ∷ k) ++ (content ++ rest))) e v in
      let n = length content in
      der_tlv_pair tag n (content ++ rest) w
      ∙ if_no (not (tag == tag)) _ _ (ground arith)
      ∙ tlv_length_short der len (suc (suc off)) n (content ++ rest)
          (View-next n _ (View-next tag _ w)) small
      ∙ if_no (ltb (length (content ++ rest)) n) _ _
          (ge→ltb _ n (omega (arith, length-append {0} content rest)))
      ∙ ap (λ i. some (i, n))
          (let p : suc (suc off) ≡ off + suc (length h) = omega (arith, ap length e) in p)
  der_tlv_span h content rest (inr long) v =
      let w = subst (λ k. View der len off ((tag ∷ k) ++ (content ++ rest))) long.counted v in
      let ds = long.octets in
      der_tlv_pair tag (128 + length ds) (ds ++ (content ++ rest)) w
      ∙ if_no (not (tag == tag)) _ _ (ground arith)
      ∙ tlv_length_long der len (suc (suc off)) ds (content ++ rest)
          (View-next (128 + length ds) _ (View-next tag _ w)) long.bytes long.some_octet
          long.at_most
      ∙ if_no (ltb (length (content ++ rest)) (value_from 0 ds)) _ _
          (ge→ltb _ (value_from 0 ds) (omega (arith, long.number, length-append {0} content rest)))
      ∙ ap (λ n. some (suc (suc off) + length ds, n)) long.number
      ∙ ap (λ i. some (i, length content))
          (let p : suc (suc off) + length ds ≡ off + suc (length h) =
              omega (arith, ap length long.counted) in
            p)
