-- ===== src/Tcpv4/Rx/Ending.antt =====
-- RFC 9174 6.1 in handleXferSegment of CLA/tcpv4/src/tcpv4rx.c: a session that is ending accepts no
-- new transfer.
use ion_dtn_contrib.Prelude.{
  ℕ, ◌+◌, ◌%◌, ◌^◌, ◌≡◌, refl, ap, ◌∙◌, Bool, true, false, not, ◌&&◌, ◌||◌, ◌==◌, ltb, List, length,
  Option, none, some, if_case,
}
use ion_dtn_contrib.Tcpv4.Msg.{has_start}
use ion_dtn_contrib.Tcpv4.Msg.Types.{Tcpv4XferSegment}
use ion_dtn_contrib.Tcpv4.Rx.Conn.{RxConfig, RxConn, Handed, World, Rx, give, ◌>>=◌}
use ion_dtn_contrib.Tcpv4.Rx.Keeps.{
  Keeps, Allows, give-Keeps, ignore-Keeps, bind-Keeps, branch-Keeps, if-Keeps, fail-Keeps,
  modify-Keeps, rx_send_refuse-Keeps, tcpv4_send_sess_term-Keeps, tcpv4_send_msg_reject-Keeps,
}
use ion_dtn_contrib.Tcpv4.Rx.Outcome.{Outcome, bind-Outcome, Outcome-end, if-Outcome, Keeps-Outcome}
use ion_dtn_contrib.Tcpv4.Rx.Segment.{
  refuse, reject_segment, check_start, check_length, begun, start_transfer, continue_transfer,
  check_total, take_data, read_data, drain_octets, finish_segment, end_transfer, accept_segment,
  within_mru, handle_xfer_segment, has_end,
}
use ion_dtn_contrib.Tcpv4.Rx.Segments.{recv_xfer_segment_hdr-Keeps, drain_loop-Keeps}

-- No transfer is being accepted, and those in `h` have been handed over.
abbrev pub IsBarred : List Handed → RxConn → Type 0
IsBarred h c = (c.ending ≡ true) × (c.rx_active ≡ true → c.rx_refused ≡ true) × (c.handed ≡ h)

abbrev IsRefused : List Handed → RxConn → Type 0
IsRefused h c = (c.ending ≡ true) × (c.rx_refused ≡ true) × (c.handed ≡ h)

module _ (h : List Handed) where
  IsBarred-Allows : Allows (IsBarred h)
  IsBarred-Allows = record { read = λ c n p. p; lost = λ c p. p; written = λ c ms p. p }

  IsRefused-Allows : Allows (IsRefused h)
  IsRefused-Allows = record { read = λ c n p. p; lost = λ c p. p; written = λ c ms p. p }

  module _ (cfg : RxConfig) (world : World) where
    reject_segment-Outcome :
        (c : RxConn)
        → IsBarred h c
        → Outcome (λ u d. IsRefused h d) (IsBarred h) (reject_segment cfg world c)
    unfolding reject_segment ◌>>=◌
    reject_segment-Outcome c p = (tcpv4_send_msg_reject-Keeps IsBarred-Allows world _ _).kept c p

    -- Refusing leads there from any state that is ending.
    refuse-Outcome :
        (reason : ℕ) (m : Tcpv4XferSegment) (c : RxConn)
        → c.ending ≡ true
        → c.handed ≡ h
        → Outcome (λ u d. IsRefused h d) (IsBarred h) (refuse cfg world reason m c)
    unfolding refuse ◌>>=◌
    refuse-Outcome reason m c e l =
        (rx_send_refuse-Keeps IsRefused-Allows world reason m.transfer_id).kept
          (record c { rx_refused = true }) (e, refl, l)

    start_transfer-Outcome :
        (m : Tcpv4XferSegment) (c : RxConn)
        → IsBarred h c
        → Outcome (λ u d. IsRefused h d) (IsBarred h) (start_transfer cfg world m c)
    unfolding start_transfer check_start check_length give
    start_transfer-Outcome m c p =
        if-Outcome _ _ c.rx_active _ _ (λ a. reject_segment-Outcome c p)
          λ a.
            bind-Outcome (λ u d. d ≡ begun cfg world m c) (IsBarred h) (λ u d. IsRefused h d) _ _ c
              refl
              λ u d e.
                bind-Outcome (λ u f. IsRefused h f) (IsBarred h) (λ u f. IsRefused h f)
                  (check_start cfg world m) (λ v. check_length cfg world m) d
                  (if-Outcome _ _ d.ending _ _
                    (λ g. refuse-Outcome 6 m d g (ap (λ x. x.handed) e ∙ p.2))
                    (λ g. let on : d.ending ≡ true = ap (λ x. x.ending) e ∙ p.0 in absurd (cc)))
                  λ v f q.
                    if-Outcome _ _ f.rx_refused _ _ (λ g. q) (λ g. let on = q.1 in absurd (cc))

    continue_transfer-Outcome :
        (m : Tcpv4XferSegment) (c : RxConn)
        → IsBarred h c
        → Outcome (λ u d. IsRefused h d) (IsBarred h) (continue_transfer cfg world m c)
    unfolding continue_transfer give
    continue_transfer-Outcome m c p =
        if-Outcome _ _ (not c.rx_active || not (m.transfer_id == c.rx_id)) _ _
          (λ a. reject_segment-Outcome c p) (λ a. (p.0, p.1 (active_of c.rx_active _ a), p.2))
      where
        active_of : (a b : Bool) → not a || b ≡ false → a ≡ true
        active_of true b e = refl
        active_of false b e = absurd (cc)

    refuse-IsRefused :
        (reason : ℕ) (m : Tcpv4XferSegment) → Keeps (IsRefused h) (refuse cfg world reason m)
    unfolding refuse
    refuse-IsRefused reason m =
        bind-Keeps _ _ (modify-Keeps _ (λ c p. (p.0, refl, p.2)))
          λ u. ignore-Keeps _ (rx_send_refuse-Keeps IsRefused-Allows world reason m.transfer_id)

    take_data-IsRefused : (m : Tcpv4XferSegment) → Keeps (IsRefused h) (take_data cfg world m)
    unfolding take_data drain_octets
    take_data-IsRefused m = record {
      kept = λ c p.
          if_case {A = Option (Unit {0}) × RxConn} (λ r. IsRefused h r.1) c.rx_refused _ _
            (λ e.
              (drain_loop-Keeps IsRefused-Allows cfg world m.data_length m.data_length).kept c p)
            (λ e. let on = p.1 in absurd (cc));
    }

    read_data-IsRefused : (m : Tcpv4XferSegment) → Keeps (IsRefused h) (read_data cfg world m)
    unfolding read_data check_total
    read_data-IsRefused m =
        bind-Keeps _ _
          (branch-Keeps
            (λ c.
              not c.rx_refused
              && ltb cfg.transfer_mru ((length c.rx_bundle + m.data_length) % 2 ^ 64))
            _ _ (refuse-IsRefused 2 m) (give-Keeps tt))
          λ u. take_data-IsRefused m

    finish_segment-Outcome :
        (m : Tcpv4XferSegment) (c : RxConn)
        → IsRefused h c
        → Outcome (λ u d. IsBarred h d) (IsBarred h) (finish_segment cfg world m c)
    unfolding finish_segment end_transfer give
    finish_segment-Outcome m c p =
        if-Outcome _ _ (has_end m.flags) _ _
          (λ e.
            if-Outcome _ _ c.rx_refused _ _ (λ f. (p.0, λ a. p.1, p.2))
              (λ f. let on = p.1 in absurd (cc)))
          λ e.
            if-Outcome _ _ c.rx_refused _ _ (λ f. (p.0, λ a. p.1, p.2))
              (λ f. let on = p.1 in absurd (cc))

    fail_weaker :
        (r : Option (Unit {0}) × RxConn)
        → Outcome (λ u d. IsRefused h d) (IsRefused h) r
        → Outcome (λ u d. IsRefused h d) (IsBarred h) r
    fail_weaker (none, d) q = (q.0, λ a. q.1, q.2)
    fail_weaker (some u, d) q = q

    accept_segment-Outcome :
        (m : Tcpv4XferSegment) (c : RxConn)
        → IsBarred h c
        → Outcome (λ u d. IsBarred h d) (IsBarred h) (accept_segment cfg world m c)
    unfolding accept_segment
    accept_segment-Outcome m c p =
        bind-Outcome (λ u d. IsRefused h d) (IsBarred h) (λ u d. IsBarred h d) _ _ c
          (if_case (λ (f : Rx (Unit {0})). Outcome (λ u d. IsRefused h d) (IsBarred h) (f c))
            (has_start m.flags) _ _ (λ e. start_transfer-Outcome m c p)
            (λ e. continue_transfer-Outcome m c p))
          λ u d q.
            bind-Outcome (λ u f. IsRefused h f) (IsBarred h) (λ u f. IsBarred h f) _ _ d
              (fail_weaker (read_data cfg world m d)
                (Keeps-Outcome (IsRefused h) _ (read_data-IsRefused m) d q))
              λ v f r. finish_segment-Outcome m f r

    within_mru-IsBarred : (m : Tcpv4XferSegment) → Keeps (IsBarred h) (within_mru cfg world m)
    within_mru-IsBarred m =
        if-Keeps (ltb cfg.segment_mru m.data_length) _ _
          (bind-Keeps _ _
            (ignore-Keeps _ (tcpv4_send_sess_term-Keeps IsBarred-Allows world 5 false))
            λ u. fail-Keeps)
          (record {
            kept = λ c p.
                Outcome-end (λ u d. IsBarred h d) (IsBarred h) (IsBarred h) _
                  (accept_segment-Outcome m c p) (λ u d q. q) (λ d q. q);
          })

    handle_xfer_segment-IsBarred : Keeps (IsBarred h) (handle_xfer_segment cfg world)
    unfolding handle_xfer_segment
    handle_xfer_segment-IsBarred =
        bind-Keeps _ _ (recv_xfer_segment_hdr-Keeps IsBarred-Allows) within_mru-IsBarred

-- In a session that is ending, with no transfer being accepted, a segment hands over nothing and leaves
-- the session so, whatever the segment is and whatever write, allocation or delivery fails.
pub handle_xfer_segment_ending :
    (cfg : RxConfig) (world : World) (c : RxConn)
    → c.ending ≡ true
    → (c.rx_active ≡ true → c.rx_refused ≡ true)
    → IsBarred c.handed (handle_xfer_segment cfg world c).1
handle_xfer_segment_ending cfg world c e a =
    (handle_xfer_segment-IsBarred c.handed cfg world).kept c (e, a, refl)
