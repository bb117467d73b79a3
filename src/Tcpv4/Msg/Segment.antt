-- ===== src/Tcpv4/Msg/Segment.antt =====
-- The XFER_SEGMENT header of CLA/tcpv4/src/tcpv4msg.c, whose extension items are there in a START
-- segment only.
use ion_dtn_contrib.Prelude.{
  ℕ, All, All-append, ◌^◌, ◌<◌, ◌≡◌, refl, sym, ap, ◌∙◌, true, false, if◌then◌else◌, List, [], ◌++◌,
  append_assoc, Option, none, arith, Bool,
}
use mathlib.Core.Path.{subst}
use ion_dtn_contrib.Wire.Size.{be, IsByte}
use ion_dtn_contrib.Wire.Octets.{be-IsByte}
use ion_dtn_contrib.Wire.Pointer.{octets}
use ion_dtn_contrib.Wire.Reader.Laws.{Safe-bind, r_u64-Safe, safe_rules}
use ion_dtn_contrib.Wire.Reader.Exact.{
  Exact, Exact-bind, Exact-map, Exact-eq, Exact-eq_value, r_u8-Exact-be, r_u32-Exact, r_u64-Exact,
  r_bytes-Exact,
}
use ion_dtn_contrib.Wire.Reader.Stable.{
  Stable, Stable-bind, r_u8-Stable, r_u64-Stable, stable_rules,
}
use ion_dtn_contrib.Wire.Reader.Sound.{
  Sound, Sound-bind, Sound-map, Sound-weaken, IsRun-octets, r_u8-Sound, r_u32-Sound, r_u64-Sound,
  r_bytes-Sound, IsRun-Points,
}
use ion_dtn_contrib.Tcpv4.Msg.{xfer_segment_body, xfer_segment_start, xfer_segment_tail, has_start}
use ion_dtn_contrib.Tcpv4.Msg.Types.{Tcpv4XferSegment}
use ion_dtn_contrib.Tcpv4.Msg.Layout

-- The part of the layout that only a START segment has.
abbrev ext_layout : Bool → Tcpv4XferSegment → List ℕ
ext_layout b m = if b then be 4 m.xfer_ext_len ++ octets m.xfer_ext else []

tail-Exact :
    (m : Tcpv4XferSegment) (p : Option (List ℕ)) (n : ℕ)
    → Layout.IsXferSegment m
    → p ≡ m.xfer_ext
    → n ≡ m.xfer_ext_len
    → Exact (xfer_segment_tail m.flags m.transfer_id p n) (be 8 m.data_length) m
unfolding xfer_segment_tail
tail-Exact m p n v e f = rw (e, f) (Exact-map _ _ _ _ (r_u64-Exact m.data_length v.data_length))

rest-Exact :
    (b : Bool) (m : Tcpv4XferSegment)
    → Layout.IsXferSegment m
    → Layout.HasExt b m
    → Exact
        (if b
          then xfer_segment_start m.flags m.transfer_id
          else xfer_segment_tail m.flags m.transfer_id none 0)
        (ext_layout b m ++ be 8 m.data_length)
        m
unfolding xfer_segment_start
rest-Exact true m v p =
    Exact-eq _ (sym (append_assoc (be 4 m.xfer_ext_len) (octets m.xfer_ext) (be 8 m.data_length))) (
      Exact-bind _ _ _ _ _ _ (r_u32-Exact m.xfer_ext_len v.xfer_ext_len) (
        Exact-bind _ _ _ _ _ _
          (Exact-eq_value _ (sym p.set) (r_bytes-Exact m.xfer_ext_len (octets m.xfer_ext) p.size))
          (tail-Exact m m.xfer_ext m.xfer_ext_len v refl refl)))
rest-Exact false m v (e, f) = tail-Exact m none 0 v (sym e) (sym f)

pub xfer_segment_body-Exact :
    (m : Tcpv4XferSegment)
    → Layout.IsXferSegment m
    → Exact xfer_segment_body (Layout.xfer_segment_layout m) m
unfolding xfer_segment_body
xfer_segment_body-Exact m v = Exact-bind _ _ _ _ _ _ (r_u8-Exact-be m.flags v.flags) (
    Exact-bind _ _ _ _ _ _ (r_u64-Exact m.transfer_id v.transfer_id)
      (rest-Exact (has_start m.flags) m v v.xfer_ext))

tail-Stable : (f t : ℕ) (p : Option (List ℕ)) (n : ℕ) → Stable (xfer_segment_tail f t p n)
unfolding xfer_segment_tail
tail-Stable f t p n = search stable_rules

start-Stable : (f t : ℕ) → Stable (xfer_segment_start f t)
unfolding xfer_segment_start
start-Stable f t = search (stable_rules, tail-Stable)

rest-Stable :
    (b : Bool) (f t : ℕ)
    → Stable (if b then xfer_segment_start f t else xfer_segment_tail f t none 0)
rest-Stable true f t = start-Stable f t
rest-Stable false f t = tail-Stable f t none 0

pub xfer_segment_body-Stable : Stable xfer_segment_body
unfolding xfer_segment_body
xfer_segment_body-Stable =
    Stable-bind _ _ r_u8-Stable λ f. Stable-bind _ _ r_u64-Stable λ t. rest-Stable (has_start f) f t

-- What the rest of a header with the given flags and transfer is, and the octets that it took.
record Behind (b : Bool) (f t : ℕ) (m : Tcpv4XferSegment) (bs : List ℕ) : Type 0 where
  same_flags : m.flags ≡ f
  same_id : m.transfer_id ≡ t
  laid_out : bs ≡ ext_layout b m ++ be 8 m.data_length
  ext_len : m.xfer_ext_len < 2 ^ 32
  ext : Layout.HasExt b m
  data_len : m.data_length < 2 ^ 64

rest-Sound :
    (b : Bool) (f t : ℕ)
    → Sound (if b then xfer_segment_start f t else xfer_segment_tail f t none 0) (Behind b f t)
unfolding xfer_segment_start xfer_segment_tail
rest-Sound true f t =
    Sound-bind _ _ _ _ r_u32-Sound (λ n. search safe_rules)
      λ n xs p.
        Sound-bind _ _ _ _ (r_bytes-Sound n) (λ o. search safe_rules)
          λ o ys q. Sound-map _ _ _ _ r_u64-Sound λ d zs s. record {
            same_flags = refl;
            same_id = refl;
            laid_out =
                rw (p.0, IsRun-octets n o ys q, s.0)
                  (sym (append_assoc (be 4 n) (octets o) (be 8 d)));
            ext_len = p.1;
            ext = IsRun-Points n o ys q;
            data_len = s.1;
          }
rest-Sound false f t = Sound-map _ _ _ _ r_u64-Sound λ d zs s. record {
  same_flags = refl;
  same_id = refl;
  laid_out = s.0;
  ext_len = omega arith;
  ext = (refl, refl);
  data_len = s.1;
}

pub xfer_segment_body-Sound :
    Sound xfer_segment_body (λ m bs. (bs ≡ Layout.xfer_segment_layout m) × Layout.IsXferSegment m)
unfolding xfer_segment_body
xfer_segment_body-Sound =
    Sound-bind _ _ _ _ r_u8-Sound
      (λ f. Safe-bind _ _ r_u64-Safe λ t. (rest-Stable (has_start f) f t).safe)
      λ f xs p.
        Sound-bind _ _ _ _ r_u64-Sound (λ t. (rest-Stable (has_start f) f t).safe)
          λ t ys q. Sound-weaken _ _ _ (rest-Sound (has_start f) f t) λ m bs s.
            let lay : ℕ → ℕ → List ℕ =
              λ u w. be 1 u ++ (be 8 w ++ (ext_layout (has_start u) m ++ be 8 m.data_length)) in
            let e = sym s.same_flags in
            (
              rw (p.0, q.0, s.laid_out) (ap (λ u. lay u t) e ∙ ap (lay m.flags) (sym s.same_id)),
              record {
                flags = omega (arith, e, p.1);
                transfer_id = omega (arith, s.same_id, q.1);
                xfer_ext_len = s.ext_len;
                xfer_ext = subst (λ u. Layout.HasExt (has_start u) m) e s.ext;
                data_length = s.data_len;
              },
            )

ext_bytes : (b : Bool) (m : Tcpv4XferSegment) → Layout.HasExt b m → All IsByte (ext_layout b m)
ext_bytes true m p =
    All-append IsByte (be 4 m.xfer_ext_len) (octets m.xfer_ext) (be-IsByte 4 m.xfer_ext_len) p.bytes
ext_bytes false m p = tt

pub layout_bytes :
    (m : Tcpv4XferSegment) → Layout.IsXferSegment m → All IsByte (Layout.xfer_segment_layout m)
layout_bytes m v =
    let ext = ext_layout (has_start m.flags) m in
    let len = be 8 m.data_length in
    All-append IsByte (be 1 m.flags) (be 8 m.transfer_id ++ (ext ++ len)) (be-IsByte 1 m.flags) (
      All-append IsByte (be 8 m.transfer_id) (ext ++ len) (be-IsByte 8 m.transfer_id) (
        All-append IsByte ext len (ext_bytes (has_start m.flags) m v.xfer_ext)
          (be-IsByte 8 m.data_length)))
