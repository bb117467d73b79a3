-- ===== src/Tcpv4/Rx/Segment.antt =====
-- handleXferSegment of CLA/tcpv4/src/tcpv4rx.c and the functions that it calls.
use ion_dtn_contrib.Prelude.{
  ℕ, zero, suc, ◌+◌, ◌-◌, ◌*◌, ◌%◌, ◌^◌, Bool, true, false, not, ◌&&◌, ◌||◌, ◌==◌, leb, ltb,
  if◌then◌else◌, List, [], ◌∷◌, ◌++◌, length, get_or, Option, none, some, ℤ, pos, negsuc, bit_and,
  bit_or,
}
use ion_dtn_contrib.Wire.Pointer.{octets}
use ion_dtn_contrib.Tcpv4.Msg.{has_start, decode_xfer_segment_hdr}
use ion_dtn_contrib.Tcpv4.Msg.Types.{Tcpv4XferSegment, Tcpv4ExtItem, tmsg_xfer_segment}
use ion_dtn_contrib.Tcpv4.Ext.{next_ext_item, find_xfer_length, found_or}
use ion_dtn_contrib.Tcpv4.Rx.Conn.{
  RxConfig, RxConn, World, Rx, give, fail, ◌>>=◌, ◌>>◌, modify, guard, ignore, conn_recv, decoded,
  tcpv4_send_sess_term, tcpv4_send_msg_reject, rx_await_delivery, rx_send_ack, rx_send_refuse,
}

abbrev pub tcpv4_max_ext_len : ℕ
tcpv4_max_ext_len = 1024

abbrev pub tmsg_ext_critical : ℕ
tmsg_ext_critical = 1

-- `seg.flags & TMSG_FLAG_END`, as a truth value.
abbrev pub has_end : ℕ → Bool
has_end flags = not (bit_and flags 1 == 0)

-- `while (cap < want) cap <<= 1;`
unfoldable pub grow : ℕ → ℕ → ℕ → ℕ
grow zero cap want = cap
grow (suc fuel) cap want = let rest = grow fuel (cap * 2) want in if ltb cap want then rest else cap

-- `extLen` from its four octets.
abbrev pub ext_len_of : List ℕ → ℕ
ext_len_of b =
    bit_or
      (bit_or (bit_or (get_or b 0 0 * 2 ^ 24 % 2 ^ 32) (get_or b 1 0 * 2 ^ 16))
        (get_or b 2 0 * 2 ^ 8))
      (get_or b 3 0)

abbrev pub recv_if : ℕ → Rx (List ℕ)
recv_if n = if ltb 0 n then conn_recv n else give []

-- The extension items of a START segment, their length before them.
unfoldable pub recv_ext : Bool → Rx (List ℕ)
recv_ext false = give []
recv_ext true = do
  len ← conn_recv 4
  guard (not (ltb tcpv4_max_ext_len (ext_len_of len)))
  items ← recv_if (ext_len_of len)
  give (len ++ items)

unfoldable pub recv_xfer_segment_hdr : Rx Tcpv4XferSegment
recv_xfer_segment_hdr = do
  front ← conn_recv 9
  ext ← recv_ext (has_start (get_or front 0 0))
  back ← conn_recv 8
  let buf = tmsg_xfer_segment ∷ (front ++ (ext ++ back))
  guard (not (ltb (32 + tcpv4_max_ext_len) (length buf)))
  decoded (length buf) (decode_xfer_segment_hdr buf)

abbrev pub critical_round : ℤ → Option Tcpv4ExtItem → Option Bool → Option Bool
critical_round (pos n) (some item) rest =
    if n == 1
    then (if not (bit_and item.flags tmsg_ext_critical == 0) then some true else rest)
    else some false
critical_round (pos n) none rest = some false
critical_round (negsuc n) item rest = some true

-- The loop of segmentHasCriticalExt; `none` is fuel that ran out.
unfoldable pub critical_loop : ℕ → List ℕ → ℕ → Option Bool
critical_loop zero buf off = none
critical_loop (suc fuel) buf off =
    let step = next_ext_item buf off in
    let rest = critical_loop fuel buf step.off in critical_round step.rc step.item rest

-- Every item takes five octets, so the loop ends before the fuel does.
unfoldable pub segment_has_critical_ext : Tcpv4XferSegment → Bool
segment_has_critical_ext seg =
    let buf = octets seg.xfer_ext in found_or false (critical_loop (suc (length buf)) buf 0)

-- `*length` where tcpv4MsgFindXferLength returns 1.
abbrev pub told_length : Option (ℤ × Option ℕ) → Option ℕ
told_length none = none
told_length (some (pos n, total)) = if n == 1 then total else none
told_length (some (negsuc n, total)) = none

module _ (cfg : RxConfig) (world : World) where
  unfoldable pub rx_reserve : ℕ → Rx (Unit {0})
  rx_reserve want c =
      if leb want c.rx_cap
      then (some tt, c)
      else let cap = grow 32 (if c.rx_cap == 0 then 8192 else c.rx_cap) want in
        if world.grants c cap then (some tt, record c { rx_cap = cap }) else (none, c)

  abbrev pub reserved : Option (Unit {0}) × RxConn → Option (Unit {0}) × RxConn
  reserved (some u, c) = (some u, c)
  reserved (none, c) = (ignore (tcpv4_send_sess_term world 5 false) >> fail) c

  -- rxReserve, with a SESS_TERM where there is no memory.
  unfoldable pub reserve_or_term : ℕ → Rx (Unit {0})
  reserve_or_term want c = reserved (rx_reserve want c)

  unfoldable pub reject_segment : Rx (Unit {0})
  reject_segment = ignore (tcpv4_send_msg_reject world 3 tmsg_xfer_segment) >> fail

  unfoldable pub refuse : ℕ → Tcpv4XferSegment → Rx (Unit {0})
  refuse reason seg = do
    modify (λ c. record c { rx_refused = true })
    ignore (rx_send_refuse world reason seg.transfer_id)

  unfoldable pub check_start : Tcpv4XferSegment → Rx (Unit {0})
  check_start seg c =
      if c.ending
      then refuse 6 seg c
      else if segment_has_critical_ext seg
      then refuse 5 seg c
      else give tt c

  abbrev pub size_ahead : Tcpv4XferSegment → Option ℕ → Rx (Unit {0})
  size_ahead seg none = give tt
  size_ahead seg (some total) =
      if ltb cfg.transfer_mru total then refuse 2 seg else reserve_or_term total

  unfoldable pub check_length : Tcpv4XferSegment → Rx (Unit {0})
  check_length seg c =
      if c.rx_refused
      then give tt c
      else size_ahead seg (told_length (find_xfer_length (octets seg.xfer_ext))) c

  abbrev pub begun : Tcpv4XferSegment → RxConn → RxConn
  begun seg c = record c {
    rx_active = true;
    rx_id = seg.transfer_id;
    rx_bundle = [];
    rx_refused = false;
  }

  unfoldable pub start_transfer : Tcpv4XferSegment → Rx (Unit {0})
  start_transfer seg c =
      if c.rx_active
      then reject_segment c
      else (do modify (begun seg); check_start seg; check_length seg) c

  unfoldable pub continue_transfer : Tcpv4XferSegment → Rx (Unit {0})
  continue_transfer seg c =
      if not c.rx_active || not (seg.transfer_id == c.rx_id) then reject_segment c else give tt c

  unfoldable pub check_total : Tcpv4XferSegment → Rx (Unit {0})
  check_total seg c =
      if not c.rx_refused && ltb cfg.transfer_mru ((length c.rx_bundle + seg.data_length) % 2 ^ 64)
      then refuse 2 seg c
      else give tt c

  -- drainOctets, 4096 octets at a time; a round takes one octet at least.
  unfoldable pub drain_loop : ℕ → ℕ → Rx (Unit {0})
  drain_loop zero len = give tt
  drain_loop (suc fuel) len =
      let chunk = if ltb 4096 len then 4096 else len in
      let rest = λ (got : List ℕ). drain_loop fuel (len - chunk) in
      if ltb 0 len then conn_recv chunk >>= rest else give tt

  unfoldable pub drain_octets : ℕ → Rx (Unit {0})
  drain_octets len = drain_loop len len

  unfoldable pub take_data : Tcpv4XferSegment → Rx (Unit {0})
  take_data seg c =
      if c.rx_refused
      then drain_octets seg.data_length c
      else (do
        reserve_or_term (length c.rx_bundle + seg.data_length)
        got ← recv_if seg.data_length
        modify (λ c. record c { rx_bundle = c.rx_bundle ++ got }))
          c

  unfoldable pub read_data : Tcpv4XferSegment → Rx (Unit {0})
  read_data seg = check_total seg >> take_data seg

  abbrev pub swapped : Tcpv4XferSegment → RxConn → RxConn
  swapped seg c = record c {
    rx_cap = c.dlv_cap;
    dlv_cap = c.rx_cap;
    rx_bundle = [];
    handed =
        c.handed
        ++ (record { transfer_id = seg.transfer_id; flags = seg.flags; octets = c.rx_bundle } ∷ []);
  }

  unfoldable pub hand_over_transfer : Tcpv4XferSegment → Rx (Unit {0})
  hand_over_transfer seg = do rx_await_delivery world; modify (swapped seg)

  unfoldable pub end_transfer : Tcpv4XferSegment → Rx (Unit {0})
  end_transfer seg c =
      let c' = record c { rx_active = false } in
      if c.rx_refused then give tt c' else hand_over_transfer seg c'

  unfoldable pub finish_segment : Tcpv4XferSegment → Rx (Unit {0})
  finish_segment seg c =
      if has_end seg.flags
      then end_transfer seg c
      else if c.rx_refused
      then give tt c
      else rx_send_ack world seg.flags seg.transfer_id (length c.rx_bundle) c

  unfoldable pub accept_segment : Tcpv4XferSegment → Rx (Unit {0})
  accept_segment seg = do
    if has_start seg.flags then start_transfer seg else continue_transfer seg
    read_data seg
    finish_segment seg

  abbrev pub within_mru : Tcpv4XferSegment → Rx (Unit {0})
  within_mru seg =
      if ltb cfg.segment_mru seg.data_length
      then ignore (tcpv4_send_sess_term world 5 false) >> fail
      else accept_segment seg

  unfoldable pub handle_xfer_segment : Rx (Unit {0})
  handle_xfer_segment = do seg ← recv_xfer_segment_hdr; within_mru seg
