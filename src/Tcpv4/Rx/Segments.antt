-- ===== src/Tcpv4/Rx/Segments.antt =====
-- What handleXferSegment of CLA/tcpv4/src/tcpv4rx.c keeps of the receiver's state: each of its steps,
-- for any predicate that their changes of the state keep.
use ion_dtn_contrib.Prelude.{
  ℕ, zero, suc, ◌+◌, ◌%◌, ◌^◌, ◌≤◌, ltb, ltb→ge, Bool, true, false, not, ◌&&◌, ◌||◌, ◌==◌, List, [],
  ◌++◌, length, Option, none, some, if_case,
}
use ion_dtn_contrib.Tcpv4.Msg.{has_start}
use ion_dtn_contrib.Tcpv4.Msg.Types.{Tcpv4XferSegment}
use ion_dtn_contrib.Tcpv4.Rx.Conn.{RxConfig, RxConn, World, Rx, fail, ◌>>◌, ignore}
use ion_dtn_contrib.Tcpv4.Rx.Keeps.{
  Keeps, Allows, give-Keeps, fail-Keeps, modify-Keeps, guard-Keeps, ignore-Keeps, bind-Keeps,
  if-Keeps, branch-Keeps, decoded-Keeps, conn_recv-Keeps, rx_await_delivery-Keeps,
  tcpv4_send_sess_term-Keeps, tcpv4_send_msg_reject-Keeps, rx_send_ack-Keeps, rx_send_refuse-Keeps,
}
use ion_dtn_contrib.Tcpv4.Rx.Segment.{
  rx_reserve, reserved, reserve_or_term, reject_segment, refuse, check_start, size_ahead,
  check_length, check_total, take_data, drain_loop, drain_octets, begun, start_transfer,
  continue_transfer, read_data, swapped, hand_over_transfer, end_transfer, finish_segment,
  accept_segment, within_mru, handle_xfer_segment, recv_if, recv_ext, recv_xfer_segment_hdr,
  has_end, segment_has_critical_ext,
}

-- The changes of the state that handleXferSegment makes.
pub record Changes (cfg : RxConfig) (world : World) (P : RxConn → Type 0) : Type 0 where
  pub allows : Allows P
  pub at_start : (seg : Tcpv4XferSegment) (c : RxConn) → P c → P (begun cfg world seg c)
  pub on_refusal : (c : RxConn) → P c → P (record c { rx_refused = true })
  pub on_reserve : (want : ℕ) → want ≤ cfg.transfer_mru → Keeps P (rx_reserve cfg world want)
  pub at_end : (c : RxConn) → P c → P (record c { rx_active = false })
  pub on_swap : (seg : Tcpv4XferSegment) (c : RxConn) → P c → P (swapped cfg world seg c)

-- The same with the reading of a segment's data.
pub record Receives (cfg : RxConfig) (world : World) (P : RxConn → Type 0) : Type 0 where
  pub changes : Changes cfg world P
  pub on_data :
      (seg : Tcpv4XferSegment)
      → seg.data_length ≤ cfg.segment_mru
      → Keeps P (read_data cfg world seg)

module _ {P : RxConn → Type 0} (allows : Allows P) where
  recv_if-Keeps : (n : ℕ) → Keeps P (recv_if n)
  recv_if-Keeps n = if-Keeps _ _ _ (conn_recv-Keeps allows n) (give-Keeps [])

  recv_ext-Keeps : (b : Bool) → Keeps P (recv_ext b)
  unfolding recv_ext
  recv_ext-Keeps true = bind-Keeps _ _ (conn_recv-Keeps allows 4) λ len.
      bind-Keeps _ _ (guard-Keeps _) λ u. bind-Keeps _ _ (recv_if-Keeps _) λ items. give-Keeps _
  recv_ext-Keeps false = give-Keeps []

  pub recv_xfer_segment_hdr-Keeps : Keeps P recv_xfer_segment_hdr
  unfolding recv_xfer_segment_hdr
  recv_xfer_segment_hdr-Keeps = bind-Keeps _ _ (conn_recv-Keeps allows 9) λ front.
      bind-Keeps _ _ (recv_ext-Keeps _) λ ext.
        bind-Keeps _ _ (conn_recv-Keeps allows 8)
          λ back. bind-Keeps _ _ (guard-Keeps _) λ u. decoded-Keeps _ _

  pub drain_loop-Keeps :
      (cfg : RxConfig) (world : World) (fuel len : ℕ) → Keeps P (drain_loop cfg world fuel len)
  unfolding drain_loop
  drain_loop-Keeps cfg world zero len = give-Keeps tt
  drain_loop-Keeps cfg world (suc fuel) len =
      if-Keeps (ltb 0 len) _ _
        (bind-Keeps _ _ (conn_recv-Keeps allows _) λ got. drain_loop-Keeps cfg world fuel _)
        (give-Keeps tt)

module _ {cfg : RxConfig} {world : World} {P : RxConn → Type 0} (r : Changes cfg world P) where
  terminate-Keeps : (m : Rx (Unit {0})) → Keeps P m → Keeps {A = Unit {0}} P (ignore m >> fail)
  terminate-Keeps m k = bind-Keeps _ _ (ignore-Keeps m k) λ u. fail-Keeps

  reserved-Keeps : (o : Option (Unit {0}) × RxConn) → P o.1 → P (reserved cfg world o).1
  reserved-Keeps (some u, c) p = p
  reserved-Keeps (none, c) p =
      (terminate-Keeps _ (tcpv4_send_sess_term-Keeps r.allows world 5 false)).kept c p

  pub reserve_or_term-Keeps :
      (want : ℕ) → Keeps P (rx_reserve cfg world want) → Keeps P (reserve_or_term cfg world want)
  unfolding reserve_or_term
  reserve_or_term-Keeps want k = record {
    kept = λ c p. reserved-Keeps (rx_reserve cfg world want c) (k.kept c p);
  }

  reject_segment-Keeps : Keeps P (reject_segment cfg world)
  unfolding reject_segment
  reject_segment-Keeps = terminate-Keeps _ (tcpv4_send_msg_reject-Keeps r.allows world _ _)

  pub refuse-Keeps : (reason : ℕ) (seg : Tcpv4XferSegment) → Keeps P (refuse cfg world reason seg)
  unfolding refuse
  refuse-Keeps reason seg =
      bind-Keeps _ _ (modify-Keeps _ r.on_refusal)
        λ u. ignore-Keeps _ (rx_send_refuse-Keeps r.allows world _ _)

  check_start-Keeps : (seg : Tcpv4XferSegment) → Keeps P (check_start cfg world seg)
  unfolding check_start
  check_start-Keeps seg =
      branch-Keeps (λ c. c.ending) _ _ (refuse-Keeps 6 seg)
        (branch-Keeps (λ c. segment_has_critical_ext seg) _ _ (refuse-Keeps 5 seg) (give-Keeps tt))

  size_ahead-Keeps : (seg : Tcpv4XferSegment) (o : Option ℕ) → Keeps P (size_ahead cfg world seg o)
  size_ahead-Keeps seg none = give-Keeps tt
  size_ahead-Keeps seg (some total) =
      if_case (Keeps P) (ltb cfg.transfer_mru total) _ _ (λ e. refuse-Keeps 2 seg)
        (λ e. reserve_or_term-Keeps total (r.on_reserve total (ltb→ge _ _ e)))

  check_length-Keeps : (seg : Tcpv4XferSegment) → Keeps P (check_length cfg world seg)
  unfolding check_length
  check_length-Keeps seg =
      branch-Keeps (λ c. c.rx_refused) _ _ (give-Keeps tt) (size_ahead-Keeps seg _)

  start_transfer-Keeps : (seg : Tcpv4XferSegment) → Keeps P (start_transfer cfg world seg)
  unfolding start_transfer
  start_transfer-Keeps seg =
      branch-Keeps (λ c. c.rx_active) _ _ reject_segment-Keeps
        (bind-Keeps _ _ (modify-Keeps _ (r.at_start seg))
          λ u. bind-Keeps _ _ (check_start-Keeps seg) λ v. check_length-Keeps seg)

  continue_transfer-Keeps : (seg : Tcpv4XferSegment) → Keeps P (continue_transfer cfg world seg)
  unfolding continue_transfer
  continue_transfer-Keeps seg =
      branch-Keeps (λ c. not c.rx_active || not (seg.transfer_id == c.rx_id)) _ _
        reject_segment-Keeps (give-Keeps tt)

  hand_over_transfer-Keeps : (seg : Tcpv4XferSegment) → Keeps P (hand_over_transfer cfg world seg)
  unfolding hand_over_transfer
  hand_over_transfer-Keeps seg =
      bind-Keeps _ _ (rx_await_delivery-Keeps world) λ u. modify-Keeps _ (r.on_swap seg)

  end_transfer-Keeps : (seg : Tcpv4XferSegment) → Keeps P (end_transfer cfg world seg)
  unfolding end_transfer
  end_transfer-Keeps seg = record {
    kept = λ c p.
        (branch-Keeps (λ d. c.rx_refused) _ _ (give-Keeps tt) (hand_over_transfer-Keeps seg)).kept _
          (r.at_end c p);
  }

  finish_segment-Keeps : (seg : Tcpv4XferSegment) → Keeps P (finish_segment cfg world seg)
  unfolding finish_segment
  finish_segment-Keeps seg =
      branch-Keeps (λ c. has_end seg.flags) _ _ (end_transfer-Keeps seg)
        (branch-Keeps (λ c. c.rx_refused) _ _ (give-Keeps tt)
          (record { kept = λ c p. (rx_send_ack-Keeps r.allows world _ _ _).kept c p }))

  pub drain_octets-Keeps : (len : ℕ) → Keeps P (drain_octets cfg world len)
  unfolding drain_octets
  drain_octets-Keeps len = drain_loop-Keeps r.allows cfg world len len

  check_total-Keeps : (seg : Tcpv4XferSegment) → Keeps P (check_total cfg world seg)
  unfolding check_total
  check_total-Keeps seg =
      branch-Keeps
        (λ c.
          not c.rx_refused
          && ltb cfg.transfer_mru ((length c.rx_bundle + seg.data_length) % 2 ^ 64))
        _ _ (refuse-Keeps 2 seg) (give-Keeps tt)

  -- Reading the data, where a predicate does not depend on how much of it there is.
  pub read_data-Keeps :
      (seg : Tcpv4XferSegment)
      → ((want : ℕ) → Keeps P (rx_reserve cfg world want))
      → ((c : RxConn) (got : List ℕ) → P c → P (record c { rx_bundle = c.rx_bundle ++ got }))
      → Keeps P (read_data cfg world seg)
  unfolding read_data take_data
  read_data-Keeps seg reserve taken = bind-Keeps _ _ (check_total-Keeps seg) λ u.
      branch-Keeps (λ c. c.rx_refused) _ _ (drain_octets-Keeps seg.data_length)
        (record {
          kept = λ c p.
              (bind-Keeps _ _ (reserve_or_term-Keeps _ (reserve _)) λ v.
                  bind-Keeps _ _ (recv_if-Keeps r.allows seg.data_length)
                    λ got. modify-Keeps _ λ d. taken d got).kept
                c p;
        })

module _ {cfg : RxConfig} {world : World} {P : RxConn → Type 0} (r : Receives cfg world P) where
  within_mru-Keeps : (seg : Tcpv4XferSegment) → Keeps P (within_mru cfg world seg)
  unfolding accept_segment
  within_mru-Keeps seg =
      if_case (Keeps P) (ltb cfg.segment_mru seg.data_length) _ _
        (λ e.
          terminate-Keeps r.changes _ (tcpv4_send_sess_term-Keeps r.changes.allows world 5 false))
        λ e.
          bind-Keeps _ _
            (if-Keeps (has_start seg.flags) _ _ (start_transfer-Keeps r.changes seg)
              (continue_transfer-Keeps r.changes seg))
            λ u.
              bind-Keeps _ _ (r.on_data seg (ltb→ge _ _ e)) λ v. finish_segment-Keeps r.changes seg

  pub handle_xfer_segment-Keeps : Keeps P (handle_xfer_segment cfg world)
  unfolding handle_xfer_segment
  handle_xfer_segment-Keeps =
      bind-Keeps _ _ (recv_xfer_segment_hdr-Keeps r.changes.allows) within_mru-Keeps
