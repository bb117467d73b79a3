-- ===== src/Wire/Reader/Cut.antt =====
-- A read at any offset that finds only a part of a value's octets fails.
use ion_dtn_contrib.Prelude.{
  ℕ, ◌+◌, ◌^◌, ◌<◌, ◌≡◌, ap, sym, ◌∙◌, true, List, [], ◌∷◌, ◌++◌, append-nil, All, All-append,
  All-append_back, length, length-append, length-drop, drop, drop-append, arith,
}
use ion_dtn_contrib.Wire.Size.{IsByte}
use ion_dtn_contrib.Wire.Reader.{Reader, Read}
use ion_dtn_contrib.Wire.Reader.Laws.{IsValid}
use ion_dtn_contrib.Wire.Reader.Exact.{Exact, Ahead}
use ion_dtn_contrib.Wire.Reader.Stable.{Stable, extend}

module _ {M : Type 0} (f : Read M) (m : M) (bs : List ℕ) (x : Exact f bs m) (st : Stable f) where
  -- The missing octets added, the read would go past the end of what was there.
  pub read_cut :
      (r : Reader) (front : List ℕ) (y : ℕ) (back : List ℕ)
      → IsValid r
      → r.ok ≡ true
      → All IsByte bs
      → length r.buf + length bs < 2 ^ 31
      → drop r.off r.buf ≡ front
      → bs ≡ front ++ (y ∷ back)
      → (f r).1.ok ≡ true
      → ⊥
  read_cut r front y back v going bytes small e g good =
      let more : List ℕ = y ∷ back in
      let len : length front + length more ≡ length bs =
        omega (arith, ap length g, length-append front more) in
      let ahead : Ahead bs [] (extend more r) = record {
        valid = record {
          within = omega (arith, v.within, length-append r.buf more);
          small = omega (arith, small, len, length-append r.buf more);
          octets =
              All-append IsByte r.buf more v.octets
                (All-append_back IsByte front more (rw (← g) bytes));
        };
        going = going;
        next =
            drop-append r.off r.buf more v.within
            ∙ ap (λ l. l ++ more) e
            ∙ sym g
            ∙ sym (append-nil bs);
      } in
      let same = st.at more r v (omega (arith, small, len)) good in
      let k = st.safe.at r v in
      let all = x.at (extend more r) [] ahead in
      omega (
        arith,
        len,
        ap length e,
        length-drop r.off r.buf,
        v.within,
        k.valid.within,
        ap length k.same_buf,
        ap (λ p. p.1.off) (sym same ∙ all),
      )
