-- ===== src/Tcpv4/Ext/Listed.antt =====
-- A loop over the extension items of CLA/tcpv4/src/tcpv4msg.c on a list of whole items.
use ion_dtn_contrib.Prelude.{
  ℕ, zero, suc, ◌+◌, ◌<◌, ◌≡◌, refl, ap, ◌∙◌, List, [], ◌∷◌, All, length, length-drop, drop, Option,
  none, some, ℤ, pos, arith,
}
use ion_dtn_contrib.Wire.Pointer.{IsBuffer}
use ion_dtn_contrib.Wire.Reader.Laws.{IsValid}
use ion_dtn_contrib.Tcpv4.Msg.Types.{Tcpv4ExtItem}
use ion_dtn_contrib.Tcpv4.Ext.{next_ext_item}
use ion_dtn_contrib.Tcpv4.Ext.Walk.{
  item_layout, IsExtItem, at_off, next_ext_item_end, next_ext_item_whole,
}
use ion_dtn_contrib.Tcpv4.Ext.Find.{
  items_layout, length-items_layout, step_over, over_IsValid, start,
}

-- Such a loop: what a round makes of the step and of the rounds behind it, and what that comes to.
module _ {A : Type 0} (round : ℤ → Option Tcpv4ExtItem → Option A → Option A)
    (loop : ℕ → List ℕ → ℕ → Option A)
    (one_round : (fuel : ℕ) (buf : List ℕ) (off : ℕ)
      → loop (suc fuel) buf off
        ≡ round
            (next_ext_item buf off).rc
            (next_ext_item buf off).item
            (loop fuel buf (next_ext_item buf off).off))
    (value : List Tcpv4ExtItem → A)
    (at_end : (rest : Option A) → round (pos 0) none rest ≡ some (value []))
    (at_item : (m : Tcpv4ExtItem) (ms : List Tcpv4ExtItem)
      → round (pos 1) (some m) (some (value ms)) ≡ some (value (m ∷ ms))) where
  loop-items :
      (ms : List Tcpv4ExtItem) (fuel : ℕ) (buf : List ℕ) (off : ℕ)
      → All IsExtItem ms
      → IsValid (at_off buf off)
      → drop off buf ≡ items_layout ms
      → length ms < fuel
      → loop fuel buf off ≡ some (value ms)
  loop-items ms zero buf off a v e le = absurd (omega (arith, le))
  loop-items [] (suc fuel) buf off a v e le =
      let here : off ≡ length buf = omega (arith, ap length e, length-drop off buf, v.within) in
      one_round fuel buf off
      ∙ ap (λ s. round s.rc s.item (loop fuel buf s.off))
          (ap (next_ext_item buf) here ∙ next_ext_item_end buf)
      ∙ at_end _
  loop-items (m ∷ ms) (suc fuel) buf off a v e le =
      let n = length (item_layout m) in
      let rest =
        loop-items ms fuel buf (off + n) a.1
          (over_IsValid buf off n (item_layout m) (items_layout ms) refl e v)
          (step_over buf off n (item_layout m) (items_layout ms) refl e) (omega (arith, le)) in
      one_round fuel buf off
      ∙ ap (λ s. round s.rc s.item (loop fuel buf s.off))
          (next_ext_item_whole buf off m (items_layout ms) a.0 v e)
      ∙ ap (round (pos 1) (some m)) rest
      ∙ at_item m ms

  pub walk-items :
      (ms : List Tcpv4ExtItem)
      → All IsExtItem ms
      → IsBuffer (items_layout ms)
      → loop (suc (length (items_layout ms))) (items_layout ms) 0 ≡ some (value ms)
  walk-items ms a b =
      loop-items ms (suc (length (items_layout ms))) (items_layout ms) 0 a (start _ b) refl
        (omega (arith, length-items_layout ms))
