-- ===== src/Tcpv4/Rx/Bounds.antt =====
-- The reassembly buffers of CLA/tcpv4/src/tcpv4rx.c: how far they are filled and how large they grow.
use ion_dtn_contrib.Prelude.{
  ℕ, ◌+◌, ◌≤◌, ◌≡◌, refl, ap, leb, ltb, leb→le, leb→gt, true, false, List, ◌++◌, length,
  length-append, All-append, Option, none, some, arith, not, ◌&&◌,
}
use ion_dtn_contrib.Tcpv4.Rx.Conn.{RxConfig, RxConn, World, give, ◌>>=◌}
use ion_dtn_contrib.Tcpv4.Rx.Keeps.{
  Keeps, Allows, ignore-Keeps, tcpv4_send_sess_term-Keeps, rx_send_refuse-Keeps,
}
use ion_dtn_contrib.Tcpv4.Msg.Types.{Tcpv4XferSegment}
use ion_dtn_contrib.Tcpv4.Rx.Segment.{
  rx_reserve, reserved, reserve_or_term, refuse, check_total, take_data, read_data,
}
use ion_dtn_contrib.Tcpv4.Rx.Segments.{Changes, drain_octets-Keeps}
use ion_dtn_contrib.Tcpv4.Rx.Outcome.{
  Outcome, bind-Outcome, Outcome-end, Outcome-map, if-Outcome, Keeps-Outcome, recv_if-Outcome,
}
use ion_dtn_contrib.Tcpv4.Rx.Loops.{Handles, Ends, message_loop-Ends}
use ion_dtn_contrib.Tcpv4.Rx.Loop.{Ended, tcpv4_message_loop}
use ion_dtn_contrib.Tcpv4.Rx.Returns.{tcpv4_message_loop_returns}
use ion_dtn_contrib.Tcpv4.Rx.Sizes.{
  tcpv4cla_bufsz, IsConfigured, IsBounded, start-room, start-size, not_refused_under,
}
use mathlib.Core.Path.{subst}

module _ (cfg : RxConfig) (world : World) (ok : IsConfigured cfg) where
  IsBounded-Allows : Allows (IsBounded cfg)
  IsBounded-Allows = record { read = λ c n p. p; lost = λ c p. p; written = λ c ms p. p }

  abbrev Reserved : ℕ → RxConn → Unit {0} → RxConn → Type 0
  Reserved want c u d = IsBounded cfg d × (want ≤ d.rx_cap) × (d.rx_bundle ≡ c.rx_bundle)

  -- rxReserve leaves a buffer at least as large as asked for, or the one there was.
  rx_reserve-Outcome :
      (want : ℕ) (c : RxConn)
      → want ≤ cfg.transfer_mru
      → IsBounded cfg c
      → Outcome (Reserved want c) (IsBounded cfg) (rx_reserve cfg world want c)
  unfolding rx_reserve
  rx_reserve-Outcome want c le p =
      let small : want ≤ tcpv4cla_bufsz = omega (arith, le, ok.transfer_mru) in
      if-Outcome _ _ (leb want c.rx_cap) _ _ (λ e. (p, leb→le _ _ e, refl))
        λ e.
          if-Outcome _ _ (world.grants c _) _ _
            (λ f.
              (let room = start-room c.rx_cap want small in
                (
                  record {
                    filled = omega (arith, p.filled, leb→gt _ _ e, room);
                    within = p.within;
                    rx_size = start-size c.rx_cap want p.rx_size small;
                    dlv_size = p.dlv_size;
                    delivered = p.delivered;
                  },
                  room,
                  refl,
                )))
            (λ f. p)

  reserved-Outcome :
      (Q : Unit {0} → RxConn → Type 0) (o : Option (Unit {0}) × RxConn)
      → Outcome Q (IsBounded cfg) o
      → Outcome Q (IsBounded cfg) (reserved cfg world o)
  unfolding ◌>>=◌
  reserved-Outcome Q (some u, c) q = q
  reserved-Outcome Q (none, c) p =
      (tcpv4_send_sess_term-Keeps IsBounded-Allows world 5 false).kept c p

  IsBounded-Changes : Changes cfg world (IsBounded cfg)
  IsBounded-Changes = record {
    allows = IsBounded-Allows;
    at_start = λ seg c p. record {
      filled = omega arith;
      within = omega arith;
      rx_size = p.rx_size;
      dlv_size = p.dlv_size;
      delivered = p.delivered;
    };
    on_refusal = λ c p. p;
    on_reserve = λ want le. record {
      kept = λ c p.
          Outcome-end _ _ _ (rx_reserve cfg world want c) (rx_reserve-Outcome want c le p)
            (λ u d q. q.0) (λ d q. q);
    };
    at_end = λ c p. p;
    on_swap = λ seg c p. record {
      filled = omega arith;
      within = omega arith;
      rx_size = p.dlv_size;
      dlv_size = p.rx_size;
      delivered = All-append _ c.handed _ p.delivered (p.within, tt);
    };
  }

  -- Where the transfer is not being refused, its next data still fit it.
  abbrev Ready : Tcpv4XferSegment → RxConn → Type 0
  Ready seg c =
      IsBounded cfg c
      × (c.rx_refused ≡ false → length c.rx_bundle + seg.data_length ≤ cfg.transfer_mru)

  Ready-Allows : (seg : Tcpv4XferSegment) → Allows (Ready seg)
  Ready-Allows seg = record { read = λ c n p. p; lost = λ c p. p; written = λ c ms p. p }

  refuse-Ready :
      (seg : Tcpv4XferSegment) (c : RxConn)
      → IsBounded cfg c
      → Outcome (λ u d. Ready seg d) (IsBounded cfg) (refuse cfg world 2 seg c)
  unfolding refuse
  refuse-Ready seg c p =
      bind-Outcome (λ u d. Ready seg d) (IsBounded cfg) (λ u d. Ready seg d) _ _ c
        (p, λ (e : true ≡ false). absurd (cc))
        λ u d q.
          (ignore-Keeps _ (rx_send_refuse-Keeps (Ready-Allows seg) world 2 seg.transfer_id)).kept d
            q

  check_total-Ready :
      (seg : Tcpv4XferSegment) (c : RxConn)
      → seg.data_length ≤ cfg.segment_mru
      → IsBounded cfg c
      → Outcome (λ u d. Ready seg d) (IsBounded cfg) (check_total cfg world seg c)
  unfolding check_total give
  check_total-Ready seg c le p =
      if-Outcome _ _ (not c.rx_refused && ltb cfg.transfer_mru _) _ _ (λ e. refuse-Ready seg c p)
        λ e. (
          p,
          λ f.
              let under = not_refused_under c.rx_refused _ _ f e in
              omega (arith, under, p.within, le, ok.segment_mru, ok.transfer_mru),
        )

  -- Room for `n` more octets.
  abbrev Room : ℕ → RxConn → Type 0
  Room n c =
      IsBounded cfg c
      × (length c.rx_bundle + n ≤ c.rx_cap)
      × (length c.rx_bundle + n ≤ cfg.transfer_mru)

  Room-Allows : (n : ℕ) → Allows (Room n)
  Room-Allows n = record { read = λ c k p. p; lost = λ c p. p; written = λ c ms p. p }

  taken-IsBounded :
      (n : ℕ) (got : List ℕ) (c : RxConn)
      → length got ≤ n
      → Room n c
      → IsBounded cfg (record c { rx_bundle = c.rx_bundle ++ got })
  taken-IsBounded n got c le (p, cap, mru) = record {
    filled = omega (arith, length-append c.rx_bundle got, cap, le);
    within = omega (arith, length-append c.rx_bundle got, mru, le);
    rx_size = p.rx_size;
    dlv_size = p.dlv_size;
    delivered = p.delivered;
  }

  reserve-Room :
      (n : ℕ) (c : RxConn)
      → length c.rx_bundle + n ≤ cfg.transfer_mru
      → IsBounded cfg c
      → Outcome
          (λ u d. Room n d)
          (IsBounded cfg)
          (reserve_or_term cfg world (length c.rx_bundle + n) c)
  unfolding reserve_or_term
  reserve-Room n c le p =
      reserved-Outcome (λ u d. Room n d) _
        (Outcome-map (Reserved (length c.rx_bundle + n) c) (IsBounded cfg) (λ u d. Room n d)
          (rx_reserve cfg world (length c.rx_bundle + n) c)
          (rx_reserve-Outcome (length c.rx_bundle + n) c le p)
          λ u d (q, room, same).
            (q, omega (arith, ap length same, room), omega (arith, ap length same, le)))

  take_data-IsBounded :
      (seg : Tcpv4XferSegment) (c : RxConn)
      → Ready seg c
      → Outcome (λ u d. IsBounded cfg d) (IsBounded cfg) (take_data cfg world seg c)
  unfolding take_data
  take_data-IsBounded seg c (p, fits) =
      if-Outcome _ _ c.rx_refused _ _
        (λ e. Keeps-Outcome _ _ (drain_octets-Keeps IsBounded-Changes seg.data_length) c p)
        λ e.
          bind-Outcome (λ u d. Room seg.data_length d) (IsBounded cfg) (λ u d. IsBounded cfg d) _ _
            c (reserve-Room seg.data_length c (fits e) p)
            λ u d q.
              bind-Outcome (λ got g. (length got ≤ seg.data_length) × Room seg.data_length g)
                (IsBounded cfg) (λ u d. IsBounded cfg d) _ _ d
                (recv_if-Outcome (Room seg.data_length) (IsBounded cfg) _ d (Room-Allows _)
                  (λ g r. r.0) q)
                λ got g (le, room). taken-IsBounded seg.data_length got g le room

  read_data-IsBounded :
      (seg : Tcpv4XferSegment)
      → seg.data_length ≤ cfg.segment_mru
      → Keeps (IsBounded cfg) (read_data cfg world seg)
  unfolding read_data take_data
  read_data-IsBounded seg le = record {
    kept = λ c p.
        Outcome-end (λ u d. IsBounded cfg d) (IsBounded cfg) (IsBounded cfg) _
          (bind-Outcome (λ u d. Ready seg d) (IsBounded cfg) (λ u d. IsBounded cfg d)
            (check_total cfg world seg) (λ u. take_data cfg world seg) c
            (check_total-Ready seg c le p) λ u d q. take_data-IsBounded seg d q)
          (λ u d q. q) (λ d q. q);
  }

  IsBounded-Handles : Handles cfg world (IsBounded cfg)
  IsBounded-Handles = record {
    receives = record { changes = IsBounded-Changes; on_data = read_data-IsBounded };
    on_settle = λ c tx p. p;
    on_terminate = λ c p. p;
  }

  -- Whatever octets the peer sends, and whatever memory is granted, writes succeed or deliveries
  -- fail: where the configured limits are what the options admit and the buffers are within theirs
  -- before, the loop ends with a reassembly buffer that holds all that was put in it, both buffers no
  -- larger than 524288 octets, and no transfer handed over that is longer than the Transfer MRU.
  pub tcpv4_message_loop-IsBounded :
      (c : RxConn)
      → IsBounded cfg c
      → (r : Ended × RxConn) × ((tcpv4_message_loop cfg world c ≡ some r) × IsBounded cfg r.1)
  tcpv4_message_loop-IsBounded c p =
      let (r, e) = tcpv4_message_loop_returns cfg world c in
      (r, (e, subst (Ends (IsBounded cfg)) e (message_loop-Ends IsBounded-Handles _ c p)))
