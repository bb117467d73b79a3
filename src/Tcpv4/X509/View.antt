-- ===== src/Tcpv4/X509/View.antt =====
-- A part of a buffer as the offsets of CLA/tcpv4/src/tcpv4x509.c see it.
use mathlib.Core.Path.{subst}
use ion_dtn_contrib.Prelude.{
  ℕ, ◌+◌, ◌<◌, ◌^◌, ◌≡◌, refl, sym, ap, ◌∙◌, suc, List, [], ◌∷◌, ◌++◌, append_assoc, length,
  length-append, take, drop, get_or, take-length_append, drop-length_append, arith,
}
use ion_dtn_contrib.Wire.Size.{size_add, size_sub}

-- The octets from offset `off` to the end `len` are `span`.
pub record View (der : List ℕ) (len off : ℕ) (span : List ℕ) : Type 0 where
  pub front : List ℕ
  pub more : List ℕ
  pub split : der ≡ front ++ (span ++ more)
  pub at_off : off ≡ length front
  pub at_end : len ≡ off + length span
  pub small : len < 2 ^ 64

get_or-front :
    (front : List ℕ) (x : ℕ) (xs : List ℕ) (d : ℕ) → get_or (front ++ (x ∷ xs)) (length front) d ≡ x
get_or-front [] x xs d = refl
get_or-front (y ∷ front) x xs d = get_or-front front x xs d

pub View-whole :
    (der : List ℕ) (more : List ℕ) → length der < 2 ^ 64 → View (der ++ more) (length der) 0 der
View-whole der more h = record {
  front = [];
  more = more;
  split = refl;
  at_off = refl;
  at_end = omega arith;
  small = h;
}

module _ {der : List ℕ} {len off : ℕ} where
  pub View-get : (x : ℕ) (span : List ℕ) → View der len off (x ∷ span) → get_or der off 0 ≡ x
  View-get x span v =
      ap (λ l. get_or l off 0) v.split
      ∙ ap (λ i. get_or (v.front ++ (x ∷ (span ++ v.more))) i 0) v.at_off
      ∙ get_or-front v.front x (span ++ v.more) 0

  pub View-skip : (s t : List ℕ) → View der len off (s ++ t) → View der len (off + length s) t
  View-skip s t v = record {
    front = v.front ++ s;
    more = v.more;
    split =
        v.split
        ∙ ap (λ l. v.front ++ l) (append_assoc s t v.more)
        ∙ sym (append_assoc v.front s (t ++ v.more));
    at_off = omega (arith, v.at_off, length-append {0} v.front s);
    at_end = omega (arith, v.at_end, length-append {0} s t);
    small = v.small;
  }

  pub View-inside : (s t : List ℕ) → View der len off (s ++ t) → View der (off + length s) off s
  View-inside s t v = record {
    front = v.front;
    more = t ++ v.more;
    split = v.split ∙ ap (λ l. v.front ++ l) (append_assoc s t v.more);
    at_off = v.at_off;
    at_end = refl;
    small = omega (arith, v.small, v.at_end, length-append {0} s t);
  }

  pub View-next : (x : ℕ) (s : List ℕ) → View der len off (x ∷ s) → View der len (suc off) s
  View-next x s v =
      subst (λ i. View der len i s) (let e : off + 1 ≡ suc off = omega arith in e)
        (View-skip (x ∷ []) s v)

  pub View-take : (s t : List ℕ) → View der len off (s ++ t) → take (length s) (drop off der) ≡ s
  View-take s t v =
      ap (λ i. take (length s) (drop i der)) v.at_off
      ∙ ap (λ l. take (length s) (drop (length v.front) l)) v.split
      ∙ ap (take (length s)) (drop-length_append v.front ((s ++ t) ++ v.more))
      ∙ ap (take (length s)) (append_assoc s t v.more)
      ∙ take-length_append s (t ++ v.more)

  -- What is left of the buffer, as the code computes it.
  pub View-left : (span : List ℕ) → View der len off span → size_sub len off ≡ length span
  View-left span v = omega (arith, v.at_end, v.small)

  pub View-sum :
      (s t : List ℕ) → View der len off (s ++ t) → size_add off (length s) ≡ off + length s
  View-sum s t v = omega (arith, v.at_end, v.small, length-append {0} s t)

  -- The part at the front, seen from its own first octet.
  pub View-drop : (s t : List ℕ) → View der len off (s ++ t) → View (drop off der) (length s) 0 s
  View-drop s t v =
      let behind = v.more in
      let e =
        ap (λ i. drop i der) v.at_off
        ∙ ap (drop (length v.front)) v.split
        ∙ drop-length_append v.front ((s ++ t) ++ behind)
        ∙ append_assoc s t behind in
      subst (λ l. View l (length s) 0 s) (sym e)
        (View-whole s (t ++ behind) (omega (arith, v.small, v.at_end, length-append {0} s t)))
