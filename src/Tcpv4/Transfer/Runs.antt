-- ===== src/Tcpv4/Transfer/Runs.antt =====
-- Segments that follow one another in a transfer, as CLA/tcpv4/src/tcpv4tx.c writes them.
use mathlib.Core.Path.{subst}
use ion_dtn_contrib.Prelude.{
  ℕ, ◌+◌, ◌^◌, ◌≤◌, ◌<◌, ◌≡◌, refl, sym, ap, ◌∙◌, Bool, true, false, ◌||◌, ◌==◌, ==_iff,
  if◌then◌else◌, List, [], ◌∷◌, ◌++◌, append_assoc, length, length-append, bit_or, arith,
}
use ion_dtn_contrib.Tcpv4.Msg.{has_start}
use ion_dtn_contrib.Tcpv4.Msg.Types.{Tcpv4XferSegment, tmsg_xfer_segment}
use ion_dtn_contrib.Tcpv4.Msg.Layout
use ion_dtn_contrib.Tcpv4.Rx.Conn.{RxConfig}
use ion_dtn_contrib.Tcpv4.Rx.Segment.{has_end}
use ion_dtn_contrib.Tcpv4.Rx.Accepted.{IsWelcome}
use ion_dtn_contrib.Tcpv4.Rx.Reassembly.{Part, wire, joined, IsPart, IsTail, IsTransfer}

pub wire-append :
    (ps qs : List Part) (rest : List ℕ) → wire (ps ++ qs) rest ≡ wire ps (wire qs rest)
wire-append [] qs rest = refl
wire-append ((m, g) ∷ ps) qs rest =
    ap (λ l. tmsg_xfer_segment ∷ (Layout.xfer_segment_layout m ++ (g ++ l)))
      (wire-append ps qs rest)

pub wire_rest : (ps : List Part) (rest : List ℕ) → wire ps rest ≡ wire ps [] ++ rest
wire_rest [] rest = refl
wire_rest ((m, g) ∷ ps) rest =
    ap (λ l. tmsg_xfer_segment ∷ (Layout.xfer_segment_layout m ++ (g ++ l))) (wire_rest ps rest)
    ∙ ap (λ l. tmsg_xfer_segment ∷ (Layout.xfer_segment_layout m ++ l))
        (sym (append_assoc g (wire ps []) rest))
    ∙ ap (λ l. tmsg_xfer_segment ∷ l)
        (sym (append_assoc (Layout.xfer_segment_layout m) (g ++ wire ps []) rest))

pub joined-append : (ps qs : List Part) → joined (ps ++ qs) ≡ joined ps ++ joined qs
joined-append [] qs = refl
joined-append ((m, g) ∷ ps) qs =
    ap (λ l. g ++ l) (joined-append ps qs) ∙ sym (append_assoc g (joined ps) (joined qs))

-- The flags of a segment, by whether it is the first and whether it is the last.
pub flags_read :
    (s e : Bool)
    → (has_start (bit_or (if s then 2 else 0) (if e then 1 else 0)) ≡ s)
      × (has_end (bit_or (if s then 2 else 0) (if e then 1 else 0)) ≡ e)
      × (bit_or (if s then 2 else 0) (if e then 1 else 0) < 2 ^ 8)
flags_read true true = (refl, refl, omega arith)
flags_read true false = (refl, refl, omega arith)
flags_read false true = (refl, refl, omega arith)
flags_read false false = (refl, refl, omega arith)

pub regroup : (a b c d : List ℕ) → (a ++ (b ++ c)) ++ d ≡ a ++ (b ++ (c ++ d))
regroup a b c d = append_assoc a (b ++ c) d ∙ ap (λ l. a ++ l) (append_assoc b c d)

pub second_no : (a b : Bool) → a || b ≡ false → b ≡ false
second_no true b e = absurd (cc)
second_no false b e = e

differ_lt : (a b : ℕ) → a < b → (a == b) ≡ false
differ_lt a b h = ground arith

differ_gt : (a b : ℕ) → b < a → (a == b) ≡ false
differ_gt a b h = ground arith

IsPart-flags :
    (cfg : RxConfig) (id : ℕ) {s e t f : Bool} {m : Tcpv4XferSegment} {g : List ℕ}
    → s ≡ t
    → e ≡ f
    → IsPart cfg id s e m g
    → IsPart cfg id t f m g
IsPart-flags cfg id {m = m} {g = g} x y p = record {
  valid = p.valid;
  ext = p.ext;
  whole = p.whole;
  small = p.small;
  starts = p.starts ∙ x;
  ends = p.ends ∙ y;
  of_transfer = p.of_transfer;
}

module _ (cfg : RxConfig) (id mtu total : ℕ) where
  -- The limits of the session and of the transfer.
  pub record Limits : Type 0 where
    pub id_wide : id < 2 ^ 64
    pub mtu_pos : 0 < mtu
    pub mtu_fits : mtu ≤ cfg.segment_mru
    pub total_fits : total ≤ cfg.transfer_mru
    pub total_wide : total < 2 ^ 31
    pub mtu_wide : mtu < 2 ^ 64

  -- Segments that follow one another from `at`.
  abbrev pub IsRun : ℕ → List Part → Type 0
  IsRun at [] = Unit
  IsRun at ((m, g) ∷ ps) =
      IsPart cfg id (at == 0) (at + length g == total) m g
      × (at ≡ 0 → IsWelcome cfg m)
      × (0 < length g)
      × IsRun (at + length g) ps

  pub IsRun-append :
      (at : ℕ) (ps qs : List Part)
      → IsRun at ps
      → IsRun (at + length (joined ps)) qs
      → IsRun at (ps ++ qs)
  IsRun-append at [] qs r s = subst (λ n. IsRun n qs) (omega arith) s
  IsRun-append at ((m, g) ∷ ps) qs (p, w, n, r) s = (
    p,
    w,
    n,
    IsRun-append (at + length g) ps qs r
        (subst (λ k. IsRun k qs) (omega (arith, length-append g (joined ps))) s),
  )

  IsRun-IsTail :
      (at : ℕ) (ps : List Part)
      → 0 < at
      → at + length (joined ps) ≡ total
      → IsRun at ps
      → IsTail cfg id ps
  IsRun-IsTail at [] n e r = tt
  IsRun-IsTail at ((m, g) ∷ []) n e (p, w, k, r) =
      IsPart-flags cfg id (differ_gt at 0 n)
        ((==_iff (at + length g) total).1 (omega (arith, e, length-append g []))) p
  IsRun-IsTail at ((m, g) ∷ (q ∷ ps)) n e (p, w, k, r) = (
    IsPart-flags cfg id (differ_gt at 0 n)
        (differ_lt (at + length g) total
          (omega (arith, e, r.2, length-append g (joined (q ∷ ps)), length-append q.1 (joined ps))))
        p,
    IsRun-IsTail (at + length g) (q ∷ ps) (omega (arith, n))
        (omega (arith, e, length-append g (joined (q ∷ ps)))) r,
  )

  pub IsRun-IsTransfer :
      (ps : List Part) → 0 < total → length (joined ps) ≡ total → IsRun 0 ps → IsTransfer cfg id ps
  IsRun-IsTransfer [] n e r = absurd (omega (arith, n, e))
  IsRun-IsTransfer ((m, g) ∷ []) n e (p, w, k, r) = (
    w refl,
    IsPart-flags cfg id refl
        ((==_iff (0 + length g) total).1 (omega (arith, e, length-append g []))) p,
  )
  IsRun-IsTransfer ((m, g) ∷ (q ∷ ps)) n e (p, w, k, r) = (
    w refl,
    IsPart-flags cfg id refl
        (differ_lt (0 + length g) total
          (omega (arith, e, r.2, length-append g (joined (q ∷ ps)), length-append q.1 (joined ps))))
        p,
    IsRun-IsTail (0 + length g) (q ∷ ps) (omega (arith, k))
        (omega (arith, e, length-append g (joined (q ∷ ps)))) r,
  )
