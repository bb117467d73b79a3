-- ===== src/Tcpv4/Rx/Welcome.antt =====
-- The extension items of a START segment for which handleXferSegment of CLA/tcpv4/src/tcpv4rx.c does
-- not refuse it: none at all, or the Transfer Length that tcpv4tx.c sends.
use mathlib.Core.Option.{some-injective}
use ion_dtn_contrib.Prelude.{
  ℕ, suc, ◌^◌, ◌≤◌, ◌<◌, ◌≡◌, sym, ap, ◌∙◌, false, List, [], ◌++◌, append-nil, length, none, some,
  pos, arith,
}
use ion_dtn_contrib.Wire.Pointer.{octets}
use ion_dtn_contrib.Tcpv4.Msg.Types.{Tcpv4XferSegment}
use ion_dtn_contrib.Tcpv4.Ext.{find_xfer_length, found_or}
use ion_dtn_contrib.Tcpv4.Ext.Walk.{next_ext_item_end, next_ext_item_whole, item_layout, item_bytes}
use ion_dtn_contrib.Tcpv4.Ext.Find.{
  find_xfer_length_absent, find_xfer_length-encode, xfer_length_item, xfer_length_item-IsExtItem,
  encode_xfer_length_ext_lem,
}
use ion_dtn_contrib.Tcpv4.Rx.Conn.{RxConfig}
use ion_dtn_contrib.Tcpv4.Rx.Segment.{
  critical_loop, critical_round, segment_has_critical_ext, told_length,
}
use ion_dtn_contrib.Tcpv4.Rx.Accepted.{IsWelcome}

critical_loop_end :
    (fuel : ℕ) (buf : List ℕ) → critical_loop (suc fuel) buf (length buf) ≡ some false
unfolding critical_loop
critical_loop_end fuel buf =
    ap (λ step. critical_round step.rc step.item (critical_loop fuel buf step.off))
      (next_ext_item_end buf)

pub empty-IsWelcome :
    (cfg : RxConfig) (m : Tcpv4XferSegment) → octets m.xfer_ext ≡ [] → IsWelcome cfg m
unfolding segment_has_critical_ext
empty-IsWelcome cfg m e = record {
  plain =
      ap (λ l. found_or false (critical_loop (suc (length l)) l 0)) e
      ∙ ap (found_or false) (critical_loop_end 0 []);
  total = λ t h.
      let none_told : none ≡ some t =
        ap told_length (sym (ap find_xfer_length e ∙ find_xfer_length_absent [] tt (omega arith)))
        ∙ h in
      absurd (cc);
}

-- The item that the peer sends is not critical.
length-IsWelcome_items :
    (total : ℕ) → critical_loop 14 (item_layout (xfer_length_item total)) 0 ≡ some false
unfolding critical_loop
length-IsWelcome_items total =
    let buf = item_layout (xfer_length_item total) in
    let step =
      next_ext_item_whole buf 0 (xfer_length_item total) [] (xfer_length_item-IsExtItem total)
        (record {
          within = omega arith;
          small = omega arith;
          octets = item_bytes (xfer_length_item total) (xfer_length_item-IsExtItem total);
        })
        (sym (append-nil buf)) in
    ap (λ s. critical_round s.rc s.item (critical_loop 13 buf s.off)) step
    ∙ critical_loop_end 12 buf

-- A transfer whose length the first segment tells is welcome where it fits.
pub length-IsWelcome :
    (cfg : RxConfig) (m : Tcpv4XferSegment) (total : ℕ)
    → octets m.xfer_ext ≡ item_layout (xfer_length_item total)
    → total ≤ cfg.transfer_mru
    → total < 2 ^ 64
    → IsWelcome cfg m
unfolding segment_has_critical_ext
length-IsWelcome cfg m total e fits wide = record {
  plain =
      ap (λ l. found_or false (critical_loop (suc (length l)) l 0)) e
      ∙ ap (found_or false) (length-IsWelcome_items total);
  total = λ t h.
      let found : find_xfer_length (item_layout (xfer_length_item total))
          ≡ some (pos 1, some total) =
        ap find_xfer_length (
          sym (
            ap (λ r. r.1 ++ []) (encode_xfer_length_ext_lem 13 total (omega arith) (omega arith))
            ∙ append-nil _))
        ∙ find_xfer_length-encode [] 13 total [] tt wide (omega arith) (omega arith) tt
            (omega arith) in
      let told : some total ≡ some t = ap told_length (sym (ap find_xfer_length e ∙ found)) ∙ h in
      omega (arith, some-injective total t told, fits);
}
