-- ===== src/Wire/Reader/Whole.antt =====
-- Reading from the start of a buffer: a whole message gives its value and its length as the
-- result; a part of one leaves the reader failed, so that the result is 0.
use ion_dtn_contrib.Prelude.{
  ℕ, suc, ◌+◌, ◌^◌, ◌<◌, ◌≡◌, refl, ap, sym, ◌∙◌, true, false, List, [], ◌∷◌, ◌++◌, append-nil, All,
  All-append_front, length, length-append, pos, int_cast-pos, arith,
}
use ion_dtn_contrib.Wire.Size.{IsByte}
use ion_dtn_contrib.Wire.Pointer.{IsBuffer}
use ion_dtn_contrib.Wire.Reader.{Reader, Read, r_init, r_result}
use ion_dtn_contrib.Wire.Reader.Laws.{IsValid}
use ion_dtn_contrib.Wire.Reader.Exact.{Exact, Ahead, skip}
use ion_dtn_contrib.Wire.Reader.Stable.{Stable}

pub init-IsValid : (buf : List ℕ) → IsBuffer buf → IsValid (r_init buf)
unfolding r_init
init-IsValid buf b = record { within = omega arith; small = b.small; octets = b.bytes }

init-Ahead : (bs rest : List ℕ) → IsBuffer (bs ++ rest) → Ahead bs rest (r_init (bs ++ rest))
unfolding r_init
init-Ahead bs rest b = record { valid = init-IsValid (bs ++ rest) b; going = refl; next = refl }

-- A part of a buffer, and the room for the rest.
pub part-IsValid :
    (bs front back : List ℕ)
    → IsBuffer bs
    → bs ≡ front ++ back
    → IsValid (r_init front) × (length front + length back < 2 ^ 31)
part-IsValid bs front back b e =
    let bytes : All IsByte (front ++ back) = rw (← e) b.bytes in
    let len : length front + length back ≡ length bs =
      omega (arith, ap length e, length-append front back) in
    (
      init-IsValid front (record {
        bytes = All-append_front IsByte front back bytes;
        small = omega (arith, len, b.small);
      }),
      omega (arith, len, b.small),
    )

pub skip_result : (n : ℕ) (buf : List ℕ) → n < 2 ^ 31 → r_result (skip n (r_init buf)) ≡ pos n
unfolding r_result r_init
skip_result n buf h = ground (arith, int_cast-pos n)

pub failed_result : (r : Reader) → r.ok ≡ false → r_result r ≡ pos 0
unfolding r_result
failed_result r e = rw e

-- The result of a reader that did not fail is its offset.
pub result_off :
    (r : Reader) (n : ℕ) → IsValid r → r_result r ≡ pos (suc n) → (r.ok ≡ true) × (r.off ≡ suc n)
unfolding r_result
result_off r n v e = ground (arith, v, int_cast-pos r.off)

module _ {M : Type 0} (f : Read M) (m : M) (bs : List ℕ) (x : Exact f bs m) where
  pub read_whole :
      (rest : List ℕ)
      → IsBuffer (bs ++ rest)
      → f (r_init (bs ++ rest)) ≡ (m, skip (length bs) (r_init (bs ++ rest)))
  read_whole rest b = x.at (r_init (bs ++ rest)) rest (init-Ahead bs rest b)

  -- A successful read of a part would be the read of the whole.
  pub read_part :
      (front : List ℕ) (y : ℕ) (back : List ℕ)
      → Stable f
      → IsBuffer bs
      → bs ≡ front ++ (y ∷ back)
      → (f (r_init front)).1.ok ≡ true
      → ⊥
  unfolding r_init
  read_part front y back st b e good =
      let (v, room) = part-IsValid bs front (y ∷ back) b e in
      let len : length front + length (y ∷ back) ≡ length bs =
        omega (arith, ap length e, length-append front (y ∷ back)) in
      let k = st.safe.at (r_init front) v in
      let same = st.at (y ∷ back) (r_init front) v room good in
      let all = rw e at (rw append-nil at (read_whole [] (rw append-nil b))) in
      omega (
        arith,
        len,
        ap length e,
        k.valid.within,
        ap length k.same_buf,
        ap (λ p. p.1.off) (sym same ∙ all),
      )
