-- ===== src/Tcpv4/Rx/Reassembly.antt =====
-- The reassembly of a transfer by tcpv4MessageLoop of CLA/tcpv4/src/tcpv4rx.c, however the peer has cut
-- it into segments.
use ion_dtn_contrib.Prelude.{
  ℕ, suc, ◌+◌, ◌≤◌, ◌≡◌, refl, sym, ap, ◌∙◌, Bool, true, false, List, [], ◌∷◌, ◌++◌, append_assoc,
  append-nil, length, length-append, if_yes, if_no, some, arith,
}
use mathlib.Core.Path.{subst}
use ion_dtn_contrib.Tcpv4.Msg.{has_start}
use ion_dtn_contrib.Tcpv4.Msg.Types.{Tcpv4XferSegment, tmsg_xfer_segment}
use ion_dtn_contrib.Tcpv4.Msg.Layout
use ion_dtn_contrib.Tcpv4.Rx.Conn.{RxConfig, RxConn, World, Rx, give}
use ion_dtn_contrib.Tcpv4.Rx.Segment.{
  tcpv4_max_ext_len, handle_xfer_segment, has_end, begun, swapped, finish_segment,
}
use ion_dtn_contrib.Tcpv4.Rx.Loop.{handle_message, after_message, loop_round, message_loop}
use ion_dtn_contrib.Tcpv4.Rx.Header.{bind_on}
use ion_dtn_contrib.Tcpv4.Rx.Accepted.{
  IsBenign, IsWelcome, acked, continue_transfer_on, start_transfer_on, handle_on, finish_acked,
  finish_ended,
}
use ion_dtn_contrib.Tcpv4.Rx.Sizes.{IsConfigured}

-- A segment with its data.
abbrev pub Part : Type 0
Part = Tcpv4XferSegment × List ℕ

-- What the peer writes for a transfer, and what it means by it.
abbrev pub wire : List Part → List ℕ → List ℕ
wire [] rest = rest
wire ((m, got) ∷ ps) rest =
    tmsg_xfer_segment ∷ (Layout.xfer_segment_layout m ++ (got ++ wire ps rest))

-- A round of the loop for each segment, and the rounds that follow.
abbrev pub rounds : List Part → ℕ → ℕ
rounds [] fuel = fuel
rounds (p ∷ ps) fuel = suc (rounds ps fuel)

abbrev pub joined : List Part → List ℕ
joined [] = []
joined ((m, got) ∷ ps) = got ++ joined ps

-- A well-formed segment of the transfer `id` within the limits, with these flags.
pub record IsPart (cfg : RxConfig) (id : ℕ) (start final : Bool) (m : Tcpv4XferSegment)
    (got : List ℕ) : Type 0 where
  pub valid : Layout.IsXferSegment m
  pub ext : m.xfer_ext_len ≤ tcpv4_max_ext_len
  pub whole : m.data_length ≡ length got
  pub small : m.data_length ≤ cfg.segment_mru
  pub starts : has_start m.flags ≡ start
  pub ends : has_end m.flags ≡ final
  pub of_transfer : m.transfer_id ≡ id

-- The segments behind the first: the last of them, and only it, is marked END.
abbrev pub IsTail : RxConfig → ℕ → List Part → Type 0
IsTail cfg id [] = Unit
IsTail cfg id ((m, got) ∷ []) = IsPart cfg id false true m got
IsTail cfg id ((m, got) ∷ (p ∷ ps)) = IsPart cfg id false false m got × IsTail cfg id (p ∷ ps)

-- The segments of a transfer: the first is marked START, the last END, and the first carries no
-- extension item for which it would be refused.
abbrev pub IsTransfer : RxConfig → ℕ → List Part → Type 0
IsTransfer cfg id [] = ⊥
IsTransfer cfg id ((m, got) ∷ []) = IsWelcome cfg m × IsPart cfg id true true m got
IsTransfer cfg id ((m, got) ∷ (p ∷ ps)) =
    IsWelcome cfg m × IsPart cfg id true false m got × IsTail cfg id (p ∷ ps)

-- `d` is `c` with the transfer handed over and the peer's octets up to `rest` read.
pub record HandsOver (c d : RxConn) (id : ℕ) (whole rest : List ℕ) : Type 0 where
  pub left : d.input ≡ rest
  pub idle : d.rx_active ≡ false
  pub going : d.ending ≡ c.ending
  pub flags : ℕ
  pub delivered :
      d.handed ≡ c.handed ++ (record { transfer_id = id; flags = flags; octets = whole } ∷ [])

module _ (cfg : RxConfig) (world : World) where
  -- A round of the loop on a segment that is handled.
  segment_round :
      (fuel : ℕ) (c d : RxConn) (xs : List ℕ)
      → c.input ≡ tmsg_xfer_segment ∷ xs
      → handle_xfer_segment cfg world (record c { input = xs }) ≡ (some tt, d)
      → message_loop cfg world (suc fuel) c ≡ message_loop cfg world fuel d
  unfolding message_loop handle_message give
  segment_round fuel c d xs e h =
      ap (loop_round cfg world (message_loop cfg world fuel) c) e
      ∙ ap (after_message cfg world (message_loop cfg world fuel)) (
          bind_on (handle_xfer_segment cfg world) (λ u. give false) (record c { input = xs }) d tt
            h)

module _ (cfg : RxConfig) (world : World) (b : IsBenign world) (ok : IsConfigured cfg) where
  -- The state that a segment has led to, before the end of the segment is looked at.
  abbrev Taken : RxConn → RxConn → Tcpv4XferSegment → List ℕ → List ℕ → List ℕ → Type 0
  Taken c e m bundle got rest =
      (k : ℕ) × (handle_xfer_segment cfg world c
        ≡ finish_segment cfg world m
            (record e { input = rest; rx_cap = k; rx_bundle = bundle ++ got }))

  continue_Taken :
      (id : ℕ) (last : Bool) (m : Tcpv4XferSegment) (got rest : List ℕ) (c : RxConn)
      → IsPart cfg id false last m got
      → c.rx_active ≡ true
      → c.rx_id ≡ id
      → c.rx_refused ≡ false
      → length c.rx_bundle + length got ≤ cfg.transfer_mru
      → Taken
          (record c { input = Layout.xfer_segment_layout m ++ (got ++ rest) })
          c
          m
          c.rx_bundle
          got
          rest
  continue_Taken id last m got rest c p a i r fits =
      let d = record c { input = got ++ rest } in
      handle_on cfg world b m (record c { input = Layout.xfer_segment_layout m ++ (got ++ rest) }) d
        got rest ok p.valid p.ext p.whole p.small refl
        (ap (λ (g : Rx (Unit {0})). g d) (if_no (has_start m.flags) _ _ p.starts)
          ∙ continue_transfer_on cfg world b m d a (p.of_transfer ∙ sym i))
        r refl (omega (arith, p.whole, fits))

  start_Taken :
      (id : ℕ) (last : Bool) (m : Tcpv4XferSegment) (got rest : List ℕ) (c : RxConn)
      → IsPart cfg id true last m got
      → IsWelcome cfg m
      → c.rx_active ≡ false
      → c.ending ≡ false
      → length got ≤ cfg.transfer_mru
      → Taken
          (record c { input = Layout.xfer_segment_layout m ++ (got ++ rest) })
          (begun cfg world m c)
          m
          []
          got
          rest
  start_Taken id last m got rest c p w a e fits =
      let c' = record c { input = got ++ rest } in
      let (k, started) = start_transfer_on cfg world b m c' a e w in
      handle_on cfg world b m (record c { input = Layout.xfer_segment_layout m ++ (got ++ rest) })
        (record (begun cfg world m c') { rx_cap = k }) got rest ok p.valid p.ext p.whole p.small
        refl (ap (λ (g : Rx (Unit {0})). g c') (if_yes (has_start m.flags) _ _ p.starts) ∙ started)
        refl refl (omega (arith, p.whole, fits))

  -- What the loop does with the rest of a transfer.
  abbrev Runs : RxConn → List Part → ℕ → List ℕ → List ℕ → Type 0
  Runs c ps id whole rest =
      (d : RxConn) × HandsOver c d id whole rest
      × ((fuel : ℕ) → message_loop cfg world (rounds ps fuel) c ≡ message_loop cfg world fuel d)

  last_Runs :
      (id : ℕ) (m : Tcpv4XferSegment) (got rest : List ℕ) (c e : RxConn) (bundle : List ℕ)
      → c.input ≡ wire ((m, got) ∷ []) rest
      → Taken
          (record c { input = Layout.xfer_segment_layout m ++ (got ++ rest) })
          e
          m
          bundle
          got
          rest
      → has_end m.flags ≡ true
      → m.transfer_id ≡ id
      → e.rx_refused ≡ false
      → e.ending ≡ c.ending
      → e.handed ≡ c.handed
      → Runs c ((m, got) ∷ []) id (bundle ++ got) rest
  last_Runs id m got rest c e bundle i (k, h) last same r g l =
      let f = record e { input = rest; rx_cap = k; rx_bundle = bundle ++ got } in
      let d = swapped cfg world m (record f { rx_active = false }) in
      (
        d,
        record {
          left = refl;
          idle = refl;
          going = g;
          flags = m.flags;
          delivered = rw (l, same) refl;
        },
        λ fuel. segment_round cfg world fuel c d _ i (h ∙ finish_ended cfg world b m f last r),
      )

  HandsOver-from :
      (c e d : RxConn) (id : ℕ) (whole rest : List ℕ)
      → e.ending ≡ c.ending
      → e.handed ≡ c.handed
      → HandsOver e d id whole rest
      → HandsOver c d id whole rest
  HandsOver-from c e d id whole rest g l h = record {
    left = h.left;
    idle = h.idle;
    going = h.going ∙ g;
    flags = h.flags;
    delivered =
        h.delivered
        ∙ ap (λ hs. hs ++ (record { transfer_id = id; flags = h.flags; octets = whole } ∷ [])) l;
  }

  -- What is to be shown of the segments behind the first, once `c.rx_bundle` has what came before.
  abbrev Tail : ℕ → List Part → List ℕ → Type 0
  Tail id ps rest =
      (c : RxConn)
      → c.rx_active ≡ true
      → c.rx_id ≡ id
      → c.rx_refused ≡ false
      → length c.rx_bundle + length (joined ps) ≤ cfg.transfer_mru
      → c.input ≡ wire ps rest
      → Runs c ps id (c.rx_bundle ++ joined ps) rest

  more_Runs :
      (id : ℕ) (m : Tcpv4XferSegment) (got : List ℕ) (p : Part) (ps : List Part) (rest : List ℕ)
      → (c e : RxConn) (bundle : List ℕ) → c.input ≡ wire ((m, got) ∷ (p ∷ ps)) rest
      → Taken
          (record c { input = Layout.xfer_segment_layout m ++ (got ++ wire (p ∷ ps) rest) })
          e
          m
          bundle
          got
          (wire (p ∷ ps) rest)
      → Layout.IsXferSegment m
      → has_end m.flags ≡ false
      → Tail id (p ∷ ps) rest
      → e.rx_active ≡ true
      → e.rx_id ≡ id
      → e.rx_refused ≡ false
      → e.ending ≡ c.ending
      → e.handed ≡ c.handed
      → length bundle + length (got ++ joined (p ∷ ps)) ≤ cfg.transfer_mru
      → Runs c ((m, got) ∷ (p ∷ ps)) id (bundle ++ (got ++ joined (p ∷ ps))) rest
  more_Runs id m got p ps rest c e bundle i (k, h) v last t a same r g l fits =
      let f = record e { input = wire (p ∷ ps) rest; rx_cap = k; rx_bundle = bundle ++ got } in
      let answered = finish_acked cfg world b m f v last r (
        omega (
          arith,
          length-append bundle got,
          length-append got (joined (p ∷ ps)),
          fits,
          ok.transfer_mru,
        )) in
      let (d, over, runs) =
        t (record f { sent = acked m f }) a same r
          (omega (arith, length-append bundle got, length-append got (joined (p ∷ ps)), fits))
          refl in
      (
        d,
        HandsOver-from c (record f { sent = acked m f }) d id _ rest g l
            (subst (λ w. HandsOver (record f { sent = acked m f }) d id w rest)
              (append_assoc bundle got (joined (p ∷ ps))) over),
        λ fuel.
            segment_round cfg world _ c (record f { sent = acked m f }) _ i (h ∙ answered)
            ∙ runs fuel,
      )

  later_Runs :
      (id : ℕ) (m : Tcpv4XferSegment) (got : List ℕ) (ps : List Part) (rest : List ℕ)
      → IsTail cfg id ((m, got) ∷ ps)
      → Tail id ((m, got) ∷ ps) rest
  later_Runs id m got [] rest p c a i r fits e =
      subst (λ w. Runs c ((m, got) ∷ []) id w rest)
        (ap (λ w. c.rx_bundle ++ w) (sym (append-nil got)))
        (last_Runs id m got rest c c c.rx_bundle e
          (continue_Taken id true m got rest c p a i r (omega (arith, fits, length-append got [])))
          p.ends p.of_transfer r refl refl)
  later_Runs id m got (q ∷ ps) rest (p, t) c a i r fits e =
      more_Runs id m got q ps rest c c c.rx_bundle e
        (continue_Taken id false m got (wire (q ∷ ps) rest) c p a i r
          (omega (arith, fits, length-append got (joined (q ∷ ps)))))
        p.valid p.ends (later_Runs id q.0 q.1 ps rest t) a i r refl refl fits

  -- However the peer has cut a transfer that is not longer than the Transfer MRU into segments within
  -- the Segment MRU, of which the first carries no extension item for which it would be refused, the
  -- limits being such as the options admit: a loop that is not ending and has no transfer begun hands
  -- over one transfer, whose octets are those of the segments put together, and goes on behind them,
  -- where no write, allocation or delivery fails.
  pub message_loop-transfer :
      (id : ℕ) (ps : List Part) (rest : List ℕ) (c : RxConn)
      → IsTransfer cfg id ps
      → c.rx_active ≡ false
      → c.ending ≡ false
      → length (joined ps) ≤ cfg.transfer_mru
      → c.input ≡ wire ps rest
      → (d : RxConn) × HandsOver c d id (joined ps) rest
        × ((fuel : ℕ) → message_loop cfg world (rounds ps fuel) c ≡ message_loop cfg world fuel d)
  message_loop-transfer id [] rest c t a e fits i = absurd t
  message_loop-transfer id ((m, got) ∷ []) rest c (w, p) a e fits i =
      subst (λ l. Runs c ((m, got) ∷ []) id l rest) (sym (append-nil got))
        (last_Runs id m got rest c (begun cfg world m c) [] i
          (start_Taken id true m got rest c p w a e (omega (arith, fits, length-append got [])))
          p.ends p.of_transfer refl refl refl)
  message_loop-transfer id ((m, got) ∷ (q ∷ ps)) rest c (w, p, t) a e fits i =
      more_Runs id m got q ps rest c (begun cfg world m c) [] i
        (start_Taken id false m got (wire (q ∷ ps) rest) c p w a e
          (omega (arith, fits, length-append got (joined (q ∷ ps)))))
        p.valid p.ends (later_Runs id q.0 q.1 ps rest t) refl p.of_transfer refl refl refl
        (omega (arith, fits))
