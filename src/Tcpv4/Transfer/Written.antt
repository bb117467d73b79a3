-- ===== src/Tcpv4/Transfer/Written.antt =====
-- What sendSegments of CLA/tcpv4/src/tcpv4tx.c writes: the segments of a bufferful.
use mathlib.Core.Path.{subst}
use ion_dtn_contrib.Prelude.{
  ℕ, zero, suc, ◌+◌, ◌^◌, ◌≤◌, ◌<◌, ◌≡◌, refl, sym, ap, ◌∙◌, Bool, true, false, ◌||◌, ◌==◌, ==_iff,
  ltb, ltb→lt, ltb→ge, if◌then◌else◌, if_yes, if_no, if_case, List, [], ◌∷◌, ◌++◌, append_assoc,
  append-nil, length, take, drop, length-take, length-drop, take-append-drop, Option, none, some,
  bit_or, arith,
}
use ion_dtn_contrib.Wire.Pointer.{octets, Points}
use ion_dtn_contrib.Tcpv4.Msg.Types.{Tcpv4XferSegment, tmsg_xfer_segment}
use ion_dtn_contrib.Tcpv4.Msg.Layout
use ion_dtn_contrib.Tcpv4.Msg.Encoding.{encode_xfer_segment_hdr-Encodes}
use ion_dtn_contrib.Tcpv4.Ext.Walk.{item_layout, item_bytes}
use ion_dtn_contrib.Tcpv4.Ext.Find.{
  xfer_length_item, xfer_length_item-IsExtItem, encode_xfer_length_ext_lem,
}
use ion_dtn_contrib.Tcpv4.Tx.Send.{
  Sent, tcpv4_tx_segs_per_write, written, then_do, chunk_size, length_ext, tx_segment, segment_hdr,
  flush, with_header, send_loop,
}
use ion_dtn_contrib.Tcpv4.Rx.Conn.{RxConfig}
use ion_dtn_contrib.Tcpv4.Rx.Welcome.{length-IsWelcome}
use ion_dtn_contrib.Tcpv4.Rx.Reassembly.{Part, wire, joined, IsPart}
use ion_dtn_contrib.Tcpv4.Transfer.Runs.{flags_read, regroup, second_no, Limits, IsRun}

module _ (cfg : RxConfig) (id mtu total : ℕ) (lim : Limits cfg id mtu total) where
  -- What tcpv4MsgEncodeXferLengthExt leaves in `ext`.
  abbrev ext_at : ℕ → Option (List ℕ)
  ext_at at = if at == 0 then some (item_layout (xfer_length_item total)) else none

  abbrev seg_at : (ℕ → ℕ → Tcpv4XferSegment)
  seg_at at chunk = tx_segment id mtu total (λ w r. true) at chunk (ext_at at)

  length_ext_on : (at : ℕ) → length_ext id mtu total (λ w r. true) at ≡ some (ext_at at)
  length_ext_on at =
      ap (λ r. if at == 0 then then_do (λ bs. some (some bs)) (written r) else some none)
        (encode_xfer_length_ext_lem 13 total (omega arith) (omega arith))
      ∙ if_case
          (λ o.
            (if at == 0 then some (some (item_layout (xfer_length_item total))) else some none)
            ≡ some o)
          (at == 0) _ _ (λ e. if_yes _ _ _ e) (λ e. if_no _ _ _ e)

  seg_of : Bool → Bool → ℕ → Tcpv4XferSegment
  seg_of s e chunk =
      let ext : Option (List ℕ) = if s then some (item_layout (xfer_length_item total)) else none in
      record {
        flags = bit_or (if s then 2 else 0) (if e then 1 else 0);
        transfer_id = id;
        xfer_ext = ext;
        xfer_ext_len = length (octets ext);
        data_length = chunk;
      }

  length_item : Points (some (item_layout (xfer_length_item total))) 13
  length_item = record {
    set = refl;
    size = refl;
    bytes = item_bytes (xfer_length_item total) (xfer_length_item-IsExtItem total);
  }

  seg_of-IsXferSegment :
      (s e : Bool) (chunk : ℕ) → chunk < 2 ^ 64 → Layout.IsXferSegment (seg_of s e chunk)
  unfolding seg_of
  seg_of-IsXferSegment true true chunk small = record {
    flags = omega arith;
    transfer_id = lim.id_wide;
    xfer_ext_len = omega arith;
    xfer_ext = length_item;
    data_length = small;
  }
  seg_of-IsXferSegment true false chunk small = record {
    flags = omega arith;
    transfer_id = lim.id_wide;
    xfer_ext_len = omega arith;
    xfer_ext = length_item;
    data_length = small;
  }
  seg_of-IsXferSegment false true chunk small = record {
    flags = omega arith;
    transfer_id = lim.id_wide;
    xfer_ext_len = omega arith;
    xfer_ext = (refl, refl);
    data_length = small;
  }
  seg_of-IsXferSegment false false chunk small = record {
    flags = omega arith;
    transfer_id = lim.id_wide;
    xfer_ext_len = omega arith;
    xfer_ext = (refl, refl);
    data_length = small;
  }

  seg_of-size :
      (s e : Bool) (chunk : ℕ)
      → length (tmsg_xfer_segment ∷ Layout.xfer_segment_layout (seg_of s e chunk)) ≤ 45
  unfolding seg_of
  seg_of-size true true chunk = omega arith
  seg_of-size true false chunk = omega arith
  seg_of-size false true chunk = omega arith
  seg_of-size false false chunk = omega arith

  seg_of-ext_len : (s e : Bool) (chunk : ℕ) → (seg_of s e chunk).xfer_ext_len ≤ 13
  unfolding seg_of
  seg_of-ext_len true e chunk = omega arith
  seg_of-ext_len false e chunk = omega arith

  segment_hdr_on :
      (at chunk : ℕ)
      → chunk < 2 ^ 64
      → segment_hdr id mtu total (λ w r. true) at chunk
        ≡ some (tmsg_xfer_segment ∷ Layout.xfer_segment_layout (seg_at at chunk))
  unfolding seg_of
  segment_hdr_on at chunk small =
      let s = at == 0 in
      let e = at + chunk == total in
      ap (then_do _) (length_ext_on at)
      ∙ ap written (
          (encode_xfer_segment_hdr-Encodes 45 (seg_at at chunk) (omega arith)
              (seg_of-IsXferSegment s e chunk small)).written
            (seg_of-size s e chunk))

  seg_at-IsPart :
      (at : ℕ) (got : List ℕ)
      → length got ≤ mtu
      → IsPart cfg id (at == 0) (at + length got == total) (seg_at at (length got)) got
  unfolding seg_of
  seg_at-IsPart at got le =
      let s = at == 0 in
      let e = at + length got == total in
      let read = flags_read s e in
      record {
        valid = seg_of-IsXferSegment s e (length got) (omega (arith, le, lim.mtu_wide));
        ext = omega (arith, seg_of-ext_len s e (length got));
        whole = refl;
        small = omega (arith, le, lim.mtu_fits);
        starts = read.0;
        ends = read.1;
        of_transfer = refl;
      }

  abbrev pub go : ℕ → List ℕ → ℕ → List ℕ → ℕ → List ℕ → Sent
  go = send_loop id mtu total (λ w r. true)

  -- What has been written, all of it segments from `at` on.
  abbrev pub Wrote : Sent → List ℕ → List ℕ → ℕ → List ℕ → Type 0
  Wrote r w run at buffer =
      (ps : List Part) × (r ≡ (some tt, w ++ (run ++ wire ps [])))
      × IsRun cfg id mtu total at ps
      × (joined ps ≡ buffer)

  chunk_facts :
      (left : ℕ)
      → 0 < left
      → (0 < chunk_size id mtu total (λ w r. true) left)
        × (chunk_size id mtu total (λ w r. true) left ≤ mtu)
        × (chunk_size id mtu total (λ w r. true) left ≤ left)
  chunk_facts left n =
      if_case (λ c. (0 < c) × (c ≤ mtu) × (c ≤ left)) (ltb mtu left) _ _
        (λ e. (lim.mtu_pos, omega arith, omega (arith, ltb→lt _ _ e)))
        (λ e. (n, ltb→ge _ _ e, omega arith))

  length_zero : (xs : List ℕ) → xs ≡ [] → (length xs == 0) ≡ true
  length_zero xs e = ap (λ l. length l == 0) e

  -- The rounds behind one that has gathered `run`, written now or with what follows.
  flush_on :
      (next : List ℕ → ℕ → List ℕ → Sent) (rest : List ℕ) (at : ℕ) (run : List ℕ) (segs : ℕ)
      → (w : List ℕ)
      → ((run : List ℕ) (segs : ℕ) (w : List ℕ)
          → (rest ≡ [] → run ≡ [])
          → Wrote (next run segs w) w run at rest)
      → Wrote (flush id mtu total (λ w r. true) next (length rest == 0) run segs w) w run at rest
  flush_on next rest at run segs w ih =
      if_case (λ r. Wrote r w run at rest) (segs == tcpv4_tx_segs_per_write || length rest == 0) _ _
        (λ e.
          let (ps, eq, r, j) = ih [] 0 (w ++ run) (λ _. refl) in
          (ps, eq ∙ ap (λ l. (some tt, l)) (append_assoc w run (wire ps [])), r, j))
        λ e. ih run segs w λ none_left.
          let over : (length rest == 0) ≡ false = second_no (segs == tcpv4_tx_segs_per_write) _ e in
          let all : (length rest == 0) ≡ true = length_zero rest none_left in absurd (cc)

  pub send_loop_on :
      (fuel : ℕ) (buffer : List ℕ) (at : ℕ) (run : List ℕ) (segs : ℕ) (w : List ℕ)
      → length buffer ≤ fuel
      → (buffer ≡ [] → run ≡ [])
      → Wrote (go fuel buffer at run segs w) w run at buffer
  unfolding send_loop
  send_loop_on fuel [] at run segs w le h =
      ([], ap (λ l. (some tt, l)) (rw (h refl) (sym (append-nil w))), tt, refl)
  send_loop_on zero (x ∷ xs) at run segs w le h = absurd (omega (arith, le))
  send_loop_on (suc fuel) (x ∷ xs) at run segs w le h =
      let buffer = x ∷ xs in
      let chunk = chunk_size id mtu total (λ w r. true) (length buffer) in
      let (chunk_pos, in_mtu, in_buffer) = chunk_facts (length buffer) (omega arith) in
      let got = take chunk buffer in
      let rest = drop chunk buffer in
      let len : chunk ≡ length got = omega (arith, length-take chunk buffer, in_buffer) in
      let hdr =
        ap (segment_hdr id mtu total (λ w r. true) at) len
        ∙ segment_hdr_on at (length got) (omega (arith, len, in_mtu, lim.mtu_wide)) in
      let (ps, eq, r, j) =
        flush_on (go fuel rest (at + chunk)) rest (at + chunk)
          (run
            ++ ((tmsg_xfer_segment ∷ Layout.xfer_segment_layout (seg_at at (length got))) ++ got))
          (segs + 1) w
          λ run segs w g.
            send_loop_on fuel rest (at + chunk) run segs w
              (omega (arith, length-drop chunk buffer, chunk_pos, le)) g in
      (
        (seg_at at (length got), got) ∷ ps,
        ap
              (with_header id mtu total (λ w r. true) (go fuel rest (at + chunk)) buffer chunk run
                segs w)
              hdr
            ∙ eq
            ∙ ap (λ l. (some tt, w ++ l))
                (regroup run
                  (tmsg_xfer_segment ∷ Layout.xfer_segment_layout (seg_at at (length got))) got
                  (wire ps [])),
        (
          seg_at-IsPart at got (omega (arith, len, in_mtu)),
          (λ z.
              length-IsWelcome cfg (seg_at at (length got)) total
                (ap octets (if_yes (at == 0) _ _ ((==_iff at 0).1 z))) lim.total_fits
                (omega (arith, lim.total_wide))),
          omega (arith, len, chunk_pos),
          subst (λ n. IsRun cfg id mtu total (at + n) ps) len r,
        ),
        ap (λ l. got ++ l) j ∙ take-append-drop chunk buffer,
      )
