-- ===== src/Tcpv4/Rx/Header.antt =====
-- recvXferSegmentHdr of CLA/tcpv4/src/tcpv4rx.c, which reads the header of a segment in up to four
-- parts, on what the peer's encoder lays down.
use ion_dtn_contrib.Prelude.{
  ℕ, zero, suc, ◌+◌, ◌*◌, ◌/◌, ◌%◌, ◌^◌, ◌≤◌, ◌<◌, ◌≡◌, refl, sym, ap, ◌∙◌, Bool, true, false, not,
  List, [], ◌∷◌, ◌++◌, length, length-append, take_front, drop-length_append, get_or, append_assoc,
  append-nil, leb, ltb, le→leb, lt→ltb, ge→ltb, if_yes, if◌then◌else◌, Option, none, some, ℤ, pos,
  bit_or, arith, All-append, ◌==◌, ==_iff,
}
use ion_dtn_contrib.Prelude.Bits.{bit_or-shifted}
use ion_dtn_contrib.Wire.Size.{be, IsByte}
use ion_dtn_contrib.Wire.Pointer.{octets}
use ion_dtn_contrib.Wire.Framed.Laws.{decode_typed-Exact}
use ion_dtn_contrib.Tcpv4.Msg.{has_start, decode_xfer_segment_hdr}
use ion_dtn_contrib.Tcpv4.Msg.Types.{Tcpv4XferSegment, tmsg_xfer_segment}
use ion_dtn_contrib.Tcpv4.Msg.Layout
use ion_dtn_contrib.Tcpv4.Msg.Segment.{xfer_segment_body-Exact, layout_bytes}
use ion_dtn_contrib.Tcpv4.Rx.Conn.{
  RxConn, Rx, give, fail, ◌>>=◌, guard, then_run, decoded, conn_recv,
}
use ion_dtn_contrib.Tcpv4.Rx.Segment.{
  tcpv4_max_ext_len, ext_len_of, recv_if, recv_ext, recv_xfer_segment_hdr,
}

-- A computation goes on with what its first call has left.
pub bind_on :
    {A B : Type 0} (m : Rx A) (f : A → Rx B) (c d : RxConn) (a : A)
    → m c ≡ (some a, d)
    → (m >>= f) c ≡ f a d
unfolding ◌>>=◌
bind_on m f c d a e = ap (then_run f) e

guard_on : (b : Bool) (c : RxConn) → b ≡ true → guard b c ≡ (some tt, c)
guard_on b c e = ap (λ (t : Bool). (if t then some tt else none, c)) e

pub conn_recv_on :
    (n : ℕ) (bs rest : List ℕ) (c : RxConn)
    → n ≡ length bs
    → c.input ≡ bs ++ rest
    → conn_recv n c ≡ (some bs, record c { input = rest })
unfolding conn_recv
conn_recv_on n bs rest c len e =
    let fits : leb n (length c.input) ≡ true =
      le→leb _ _ (omega (arith, len, ap length e, length-append bs rest)) in
    if_yes _ _ _ fits
    ∙ rw (take_front n c.input bs rest e len, len, e)
        (ap (λ l. (some bs, record c { input = l })) (drop-length_append bs rest))

pub recv_if_on :
    (n : ℕ) (bs rest : List ℕ) (c : RxConn)
    → n ≡ length bs
    → c.input ≡ bs ++ rest
    → recv_if n c ≡ (some bs, record c { input = rest })
unfolding give
recv_if_on zero [] rest c len e = ap (λ l. (some [], record c { input = l })) e
recv_if_on zero (b ∷ bs) rest c len e = absurd (omega (arith, len))
recv_if_on (suc n) bs rest c len e =
    ap (λ (m : Rx (List ℕ)). m c)
      (if_yes (ltb 0 (suc n)) (conn_recv (suc n)) (give []) (lt→ltb 0 (suc n) (omega arith)))
    ∙ conn_recv_on (suc n) bs rest c len e

joined :
    (a b c d : ℕ)
    → a < 2 ^ 8
    → b < 2 ^ 8
    → c < 2 ^ 8
    → d < 2 ^ 8
    → bit_or (bit_or (bit_or (a * 2 ^ 24 % 2 ^ 32) (b * 2 ^ 16)) (c * 2 ^ 8)) d
      ≡ a * 2 ^ 24 + b * 2 ^ 16 + c * 2 ^ 8 + d
joined a b c d ha hb hc hd =
    let none_lost : a * 2 ^ 24 % 2 ^ 32 ≡ a * 2 ^ 24 = omega (arith, ha) in
    let first : bit_or (a * 2 ^ 24) (b * 2 ^ 16) ≡ (a * 256 + b) * 2 ^ 16 =
      omega (arith, bit_or-shifted 24 a (b * 2 ^ 16) (omega (arith, hb))) in
    let second : bit_or ((a * 256 + b) * 2 ^ 16) (c * 2 ^ 8) ≡ (a * 65536 + b * 256 + c) * 2 ^ 8 =
      omega (arith, bit_or-shifted 16 (a * 256 + b) (c * 2 ^ 8) (omega (arith, hc))) in
    rw (none_lost, first, second) (bit_or-shifted 8 (a * 65536 + b * 256 + c) d hd ∙ omega arith)

-- The four octets of a length are put together again.
ext_len_of-be : (v : ℕ) → v < 2 ^ 32 → ext_len_of (be 4 v) ≡ v
ext_len_of-be v h =
    joined _ _ _ _ (omega arith) (omega arith) (omega arith) (omega arith) ∙ omega (arith, h)

be-length : (k v : ℕ) → length (be k v) ≡ k
be-length zero v = refl
be-length (suc k) v =
    length-append (be k (v / 256)) (v % 256 ∷ []) ∙ omega (arith, be-length k (v / 256))

-- The extension items of a START segment, with their length; of another segment, nothing.
abbrev ext_part : Bool → Tcpv4XferSegment → List ℕ
ext_part b m = if b then be 4 m.xfer_ext_len ++ octets m.xfer_ext else []

recv_ext_on :
    (b : Bool) (m : Tcpv4XferSegment) (rest : List ℕ) (c : RxConn)
    → Layout.HasExt b m
    → m.xfer_ext_len ≤ tcpv4_max_ext_len
    → c.input ≡ ext_part b m ++ rest
    → recv_ext b c ≡ (some (ext_part b m), record c { input = rest })
unfolding recv_ext give
recv_ext_on false m rest c p le e = ap (λ l. (some [], record c { input = l })) e
recv_ext_on true m rest c p le e =
    let len = be 4 m.xfer_ext_len in
    let len_of = ext_len_of-be m.xfer_ext_len (omega (arith, le)) in
    bind_on (conn_recv 4) _ c (record c { input = octets m.xfer_ext ++ rest }) len
      (conn_recv_on 4 len (octets m.xfer_ext ++ rest) c refl
        (e ∙ append_assoc len (octets m.xfer_ext) rest))
    ∙ bind_on (guard (not (ltb tcpv4_max_ext_len (ext_len_of len)))) _ _ _ tt
        (guard_on _ _ (ap not (ge→ltb _ _ (omega (arith, len_of, le)))))
    ∙ bind_on (recv_if (ext_len_of len)) _ _ _ (octets m.xfer_ext)
        (recv_if_on _ (octets m.xfer_ext) rest _ (len_of ∙ sym p.size) refl)

decoded_on :
    {A : Type 0} (n : ℕ) (r : ℤ × Option A) (m : A) (c : RxConn)
    → r ≡ (pos n, some m)
    → decoded n r c ≡ (some m, c)
unfolding decoded give
decoded_on n r m c e =
    ap (λ z. decoded n z c) e
    ∙ ap (λ (k : Rx _). k c) (if_yes (n == n) (give m) fail ((==_iff n n).1 refl))

decode_layout :
    (m : Tcpv4XferSegment)
    → Layout.IsXferSegment m
    → length (Layout.xfer_segment_layout m) < 2 ^ 30
    → decode_xfer_segment_hdr (tmsg_xfer_segment ∷ Layout.xfer_segment_layout m)
      ≡ (pos (suc (length (Layout.xfer_segment_layout m))), some m)
unfolding decode_xfer_segment_hdr
decode_layout m v small =
    let bs = Layout.xfer_segment_layout m in
    ap (λ l. decode_xfer_segment_hdr (tmsg_xfer_segment ∷ l)) (sym (append-nil bs))
    ∙ decode_typed-Exact _ _ m bs [] (xfer_segment_body-Exact m v) (record {
      bytes = (omega arith, All-append IsByte bs [] (layout_bytes m v) tt);
      small = omega (arith, length-append bs [], small);
    })

ext_part-length :
    (b : Bool) (m : Tcpv4XferSegment)
    → Layout.HasExt b m
    → m.xfer_ext_len ≤ tcpv4_max_ext_len
    → length (ext_part b m) ≤ 4 + tcpv4_max_ext_len
ext_part-length true m p le =
    omega (arith, length-append (be 4 m.xfer_ext_len) (octets m.xfer_ext), p.size, le)
ext_part-length false m p le = omega arith

-- The header that the peer's encoder lays down is read to its end and no further, and is the message
-- that was laid down.
pub recv_xfer_segment_hdr_on :
    (m : Tcpv4XferSegment) (rest : List ℕ) (c : RxConn)
    → Layout.IsXferSegment m
    → m.xfer_ext_len ≤ tcpv4_max_ext_len
    → c.input ≡ Layout.xfer_segment_layout m ++ rest
    → recv_xfer_segment_hdr c ≡ (some m, record c { input = rest })
unfolding recv_xfer_segment_hdr
recv_xfer_segment_hdr_on m rest c v le e =
    let front = be 1 m.flags ++ be 8 m.transfer_id in
    let ext = ext_part (has_start m.flags) m in
    let back = be 8 m.data_length in
    let flags : get_or front 0 0 ≡ m.flags = omega (arith, v.flags) in
    let small : length (Layout.xfer_segment_layout m) ≤ 21 + tcpv4_max_ext_len =
      omega (arith, length-append ext back, ext_part-length (has_start m.flags) m v.xfer_ext le) in
    bind_on (conn_recv 9) _ c (record c { input = ext ++ (back ++ rest) }) front
      (conn_recv_on 9 front _ c refl (e ∙ ap (λ l. front ++ l) (append_assoc ext back rest)))
    ∙ bind_on (recv_ext (has_start (get_or front 0 0))) _ _ (record c { input = back ++ rest }) ext
        (ap (λ f. recv_ext (has_start f) (record c { input = ext ++ (back ++ rest) })) flags
          ∙ recv_ext_on (has_start m.flags) m (back ++ rest) _ v.xfer_ext le refl)
    ∙ bind_on (conn_recv 8) _ _ (record c { input = rest }) back
        (conn_recv_on 8 back rest _ (sym (be-length 8 m.data_length)) refl)
    ∙ bind_on (guard _) _ _ _ tt (guard_on _ _ (ap not (ge→ltb _ _ (omega (arith, small)))))
    ∙ decoded_on _ _ m _ (decode_layout m v (omega (arith, small)))
