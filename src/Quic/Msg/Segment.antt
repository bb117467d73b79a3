-- ===== src/Quic/Msg/Segment.antt =====
-- The XFER_SEGMENT header of CLA/quic/src/quicmsg.c, whose extension items are there in a START
-- segment only.
use ion_dtn_contrib.Prelude.{
  ℕ, ◌^◌, ◌<◌, ◌≡◌, refl, sym, ap, ◌∙◌, true, false, if◌then◌else◌, List, [], ◌++◌, append_assoc,
  All, All-append, Option, none, arith, Bool,
}
use mathlib.Core.Path.{subst}
use ion_dtn_contrib.Wire.Size.{be, IsByte}
use ion_dtn_contrib.Wire.Octets.{be-IsByte}
use ion_dtn_contrib.Wire.Pointer.{octets}
use ion_dtn_contrib.Wire.Reader.{Read}
use ion_dtn_contrib.Wire.Reader.Laws.{Safe-bind, r_u16-Safe, r_u64-Safe, safe_rules}
use ion_dtn_contrib.Wire.Reader.Exact.{
  Exact, Exact-bind, Exact-map, Exact-eq, Exact-eq_value, r_u8-Exact-be, r_u16-Exact, r_u32-Exact,
  r_u64-Exact, r_bytes-Exact,
}
use ion_dtn_contrib.Wire.Reader.Stable.{
  Stable, Stable-bind, r_u8-Stable, r_u16-Stable, r_u64-Stable, stable_rules,
}
use ion_dtn_contrib.Wire.Reader.Sound.{
  Sound, Sound-bind, Sound-map, Sound-weaken, r_u8-Sound, r_u16-Sound, r_u32-Sound, r_u64-Sound,
  r_bytes-Sound, IsRun-Points, IsRun-octets,
}
use ion_dtn_contrib.Quic.Msg.{xfer_segment_body, xfer_segment_start, xfer_segment_tail, has_start}
use ion_dtn_contrib.Quic.Msg.Types.{QuicXferSegment}
use ion_dtn_contrib.Quic.Msg.Layout

-- The part of the layout that only a START segment has, and the end of every header.
abbrev ext_layout : Bool → QuicXferSegment → List ℕ
ext_layout b m = if b then be 4 m.xfer_ext_len ++ octets m.xfer_ext else []

abbrev end_layout : QuicXferSegment → List ℕ
end_layout m = be 8 m.segment_length ++ (be 8 m.bundle_length ++ be 1 m.service_mode)

abbrev tail_of : QuicXferSegment → Option (List ℕ) → ℕ → Read QuicXferSegment
tail_of m = xfer_segment_tail m.flags m.segment_id m.total_segments m.transfer_id

tail-Exact :
    (m : QuicXferSegment) (p : Option (List ℕ)) (n : ℕ)
    → Layout.IsXferSegment m
    → p ≡ m.xfer_ext
    → n ≡ m.xfer_ext_len
    → Exact (tail_of m p n) (end_layout m) m
unfolding xfer_segment_tail
tail-Exact m p n v e f =
    rw (e, f)
      (Exact-bind _ _ _ _ _ _ (r_u64-Exact m.segment_length v.segment_length) (
        Exact-bind _ _ _ _ _ _ (r_u64-Exact m.bundle_length v.bundle_length)
          (Exact-map _ _ _ _ (r_u8-Exact-be m.service_mode v.service_mode))))

rest-Exact :
    (b : Bool) (m : QuicXferSegment)
    → Layout.IsXferSegment m
    → Layout.HasExt b m
    → Exact
        (if b
          then xfer_segment_start m.flags m.segment_id m.total_segments m.transfer_id
          else tail_of m none 0)
        (ext_layout b m ++ end_layout m)
        m
unfolding xfer_segment_start
rest-Exact true m v p =
    Exact-eq _ (sym (append_assoc (be 4 m.xfer_ext_len) (octets m.xfer_ext) (end_layout m))) (
      Exact-bind _ _ _ _ _ _ (r_u32-Exact m.xfer_ext_len v.xfer_ext_len) (
        Exact-bind _ _ _ _ _ _
          (Exact-eq_value _ (sym p.set) (r_bytes-Exact m.xfer_ext_len (octets m.xfer_ext) p.size))
          (tail-Exact m m.xfer_ext m.xfer_ext_len v refl refl)))
rest-Exact false m v (e, f) = tail-Exact m none 0 v (sym e) (sym f)

pub xfer_segment_body-Exact :
    (m : QuicXferSegment)
    → Layout.IsXferSegment m
    → Exact xfer_segment_body (Layout.xfer_segment_layout m) m
unfolding xfer_segment_body
xfer_segment_body-Exact m v = Exact-bind _ _ _ _ _ _ (r_u8-Exact-be m.flags v.flags) (
    Exact-bind _ _ _ _ _ _ (r_u16-Exact m.segment_id v.segment_id) (
      Exact-bind _ _ _ _ _ _ (r_u16-Exact m.total_segments v.total_segments) (
        Exact-bind _ _ _ _ _ _ (r_u64-Exact m.transfer_id v.transfer_id)
          (rest-Exact (has_start m.flags) m v v.xfer_ext))))

tail-Stable : (f s n t : ℕ) (p : Option (List ℕ)) (l : ℕ) → Stable (xfer_segment_tail f s n t p l)
unfolding xfer_segment_tail
tail-Stable f s n t p l = search stable_rules

start-Stable : (f s n t : ℕ) → Stable (xfer_segment_start f s n t)
unfolding xfer_segment_start
start-Stable f s n t = search (stable_rules, tail-Stable)

rest-Stable :
    (b : Bool) (f s n t : ℕ)
    → Stable (if b then xfer_segment_start f s n t else xfer_segment_tail f s n t none 0)
rest-Stable true f s n t = start-Stable f s n t
rest-Stable false f s n t = tail-Stable f s n t none 0

pub xfer_segment_body-Stable : Stable xfer_segment_body
unfolding xfer_segment_body
xfer_segment_body-Stable = Stable-bind _ _ r_u8-Stable λ f. Stable-bind _ _ r_u16-Stable λ s.
    Stable-bind _ _ r_u16-Stable
      λ n. Stable-bind _ _ r_u64-Stable λ t. rest-Stable (has_start f) f s n t

-- What the rest of a header with the given leading fields is, and the octets that it took.
record Behind (b : Bool) (f s n t : ℕ) (m : QuicXferSegment) (bs : List ℕ) : Type 0 where
  same_flags : m.flags ≡ f
  same_segment : m.segment_id ≡ s
  same_total : m.total_segments ≡ n
  same_id : m.transfer_id ≡ t
  laid_out : bs ≡ ext_layout b m ++ end_layout m
  ext_len : m.xfer_ext_len < 2 ^ 32
  ext : Layout.HasExt b m
  segment_length : m.segment_length < 2 ^ 64
  bundle_length : m.bundle_length < 2 ^ 64
  service_mode : m.service_mode < 2 ^ 8

rest-Sound :
    (b : Bool) (f s n t : ℕ)
    → Sound
        (if b then xfer_segment_start f s n t else xfer_segment_tail f s n t none 0)
        (Behind b f s n t)
unfolding xfer_segment_start xfer_segment_tail
rest-Sound true f s n t =
    Sound-bind _ _ _ _ r_u32-Sound (λ l. search safe_rules depth 9)
      λ l xl pl.
        Sound-bind _ _ _ _ (r_bytes-Sound l) (λ o. search safe_rules depth 9)
          λ o xo po.
            Sound-bind _ _ _ _ r_u64-Sound (λ d. search safe_rules)
              λ d xd pd.
                Sound-bind _ _ _ _ r_u64-Sound (λ e. search safe_rules)
                  λ e xe pe. Sound-map _ _ _ _ r_u8-Sound λ g xg pg. record {
                    same_flags = refl;
                    same_segment = refl;
                    same_total = refl;
                    same_id = refl;
                    laid_out =
                        rw (pl.0, IsRun-octets l o xo po, pd.0, pe.0, pg.0)
                          (sym (append_assoc (be 4 l) (octets o) (be 8 d ++ (be 8 e ++ be 1 g))));
                    ext_len = pl.1;
                    ext = IsRun-Points l o xo po;
                    segment_length = pd.1;
                    bundle_length = pe.1;
                    service_mode = pg.1;
                  }
rest-Sound false f s n t =
    Sound-bind _ _ _ _ r_u64-Sound (λ d. search safe_rules)
      λ d xd pd.
        Sound-bind _ _ _ _ r_u64-Sound (λ e. search safe_rules)
          λ e xe pe. Sound-map _ _ _ _ r_u8-Sound λ g xg pg. record {
            same_flags = refl;
            same_segment = refl;
            same_total = refl;
            same_id = refl;
            laid_out = rw (pd.0, pe.0, pg.0);
            ext_len = omega arith;
            ext = (refl, refl);
            segment_length = pd.1;
            bundle_length = pe.1;
            service_mode = pg.1;
          }

-- The layout of a header with the given leading fields.
abbrev from_fields : QuicXferSegment → ℕ → ℕ → ℕ → ℕ → List ℕ
from_fields m f s n t =
    be 1 f ++ (be 2 s ++ (be 2 n ++ (be 8 t ++ (ext_layout (has_start f) m ++ end_layout m))))

pub xfer_segment_body-Sound :
    Sound xfer_segment_body (λ m bs. (bs ≡ Layout.xfer_segment_layout m) × Layout.IsXferSegment m)
unfolding xfer_segment_body
xfer_segment_body-Sound =
    Sound-bind _ _ _ _ r_u8-Sound
      (λ f. Safe-bind _ _ r_u16-Safe λ s.
        Safe-bind _ _ r_u16-Safe
          λ n. Safe-bind _ _ r_u64-Safe λ t. (rest-Stable (has_start f) f s n t).safe)
      λ f xf pf.
        Sound-bind _ _ _ _ r_u16-Sound
          (λ s.
            Safe-bind _ _ r_u16-Safe
              λ n. Safe-bind _ _ r_u64-Safe λ t. (rest-Stable (has_start f) f s n t).safe)
          λ s xs ps.
            Sound-bind _ _ _ _ r_u16-Sound
              (λ n. Safe-bind _ _ r_u64-Safe λ t. (rest-Stable (has_start f) f s n t).safe)
              λ n xn pn.
                Sound-bind _ _ _ _ r_u64-Sound (λ t. (rest-Stable (has_start f) f s n t).safe)
                  λ t xt pt. Sound-weaken _ _ _ (rest-Sound (has_start f) f s n t) λ m bs r.
                    let e = sym r.same_flags in
                    (
                      rw (pf.0, ps.0, pn.0, pt.0, r.laid_out)
                          (ap (λ u. from_fields m u s n t) e
                            ∙ ap (λ u. from_fields m m.flags u n t) (sym r.same_segment)
                            ∙ ap (λ u. from_fields m m.flags m.segment_id u t) (sym r.same_total)
                            ∙ ap (from_fields m m.flags m.segment_id m.total_segments)
                                (sym r.same_id)),
                      record {
                        flags = omega (arith, e, pf.1);
                        segment_id = omega (arith, r.same_segment, ps.1);
                        total_segments = omega (arith, r.same_total, pn.1);
                        transfer_id = omega (arith, r.same_id, pt.1);
                        xfer_ext_len = r.ext_len;
                        xfer_ext = subst (λ u. Layout.HasExt (has_start u) m) e r.ext;
                        segment_length = r.segment_length;
                        bundle_length = r.bundle_length;
                        service_mode = r.service_mode;
                      },
                    )

ext_bytes : (b : Bool) (m : QuicXferSegment) → Layout.HasExt b m → All IsByte (ext_layout b m)
ext_bytes true m p =
    All-append IsByte (be 4 m.xfer_ext_len) (octets m.xfer_ext) (be-IsByte 4 m.xfer_ext_len) p.bytes
ext_bytes false m p = tt

pub layout_bytes :
    (m : QuicXferSegment) → Layout.IsXferSegment m → All IsByte (Layout.xfer_segment_layout m)
layout_bytes m v =
    let ext = ext_layout (has_start m.flags) m in
    let end = end_layout m in
    let head =
      be 1 m.flags ++ (be 2 m.segment_id ++ (be 2 m.total_segments ++ be 8 m.transfer_id)) in
    All-append IsByte head (ext ++ end) (omega arith)
      (All-append IsByte ext end (ext_bytes (has_start m.flags) m v.xfer_ext) (omega arith))
