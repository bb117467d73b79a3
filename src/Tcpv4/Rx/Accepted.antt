-- ===== src/Tcpv4/Rx/Accepted.antt =====
-- The segments that handleXferSegment of CLA/tcpv4/src/tcpv4rx.c accepts, where no write, allocation
-- or delivery fails.
use ion_dtn_contrib.Prelude.{
  ℕ, ◌+◌, ◌%◌, ◌^◌, ◌≤◌, ◌<◌, ◌≡◌, refl, ap, ◌∙◌, Bool, true, false, not, ◌&&◌, ◌||◌, ◌==◌, ==_iff,
  List, [], ◌∷◌, ◌++◌, length, leb, ltb, ge→ltb, if_yes, if_no, if_case, if◌then◌else◌, Option,
  none, some, arith,
}
use ion_dtn_contrib.Wire.Pointer.{octets}
use ion_dtn_contrib.Tcpv4.Msg.{has_start}
use ion_dtn_contrib.Tcpv4.Msg.Types.{Tcpv4XferSegment, Tcpv4XferAck, tmsg_xfer_ack}
use ion_dtn_contrib.Tcpv4.Msg.Layout
use ion_dtn_contrib.Tcpv4.Ext.{find_xfer_length}
use ion_dtn_contrib.Tcpv4.Msg.Encoding.{encode_xfer_ack-Encodes}
use ion_dtn_contrib.Tcpv4.Rx.Conn.{
  RxConfig, RxConn, World, Rx, give, modify, conn_send, rx_await_delivery, rx_send_ack,
  tcpv4_send_xfer_ack,
}
use ion_dtn_contrib.Tcpv4.Rx.Segment.{
  tcpv4_max_ext_len, grow, rx_reserve, reserved, reserve_or_term, check_start, size_ahead,
  check_length, begun, start_transfer, continue_transfer, check_total, take_data, read_data,
  finish_segment, accept_segment, within_mru, handle_xfer_segment, has_end, told_length,
  segment_has_critical_ext, recv_if, recv_xfer_segment_hdr, end_transfer, hand_over_transfer,
  swapped,
}
use ion_dtn_contrib.Tcpv4.Rx.Header.{bind_on, recv_if_on, recv_xfer_segment_hdr_on}
use ion_dtn_contrib.Tcpv4.Rx.Sizes.{IsConfigured}

-- No write, allocation or delivery fails.
pub record IsBenign (world : World) : Type 0 where
  pub writes : (c : RxConn) → world.writes c ≡ true
  pub grants : (c : RxConn) (n : ℕ) → world.grants c n ≡ true
  pub delivers : (c : RxConn) → world.delivers c ≡ true

-- What a segment that begins a transfer carries is no reason to refuse it.
pub record IsWelcome (cfg : RxConfig) (m : Tcpv4XferSegment) : Type 0 where
  pub plain : segment_has_critical_ext m ≡ false
  pub total :
      (t : ℕ) → told_length (find_xfer_length (octets m.xfer_ext)) ≡ some t → t ≤ cfg.transfer_mru

-- What has been written once a segment is acknowledged with all that has been received.
abbrev pub acked : Tcpv4XferSegment → RxConn → List (List ℕ)
acked m c =
    c.sent
    ++ ((tmsg_xfer_ack
          ∷ Layout.xfer_ack_layout (record {
            flags = m.flags;
            transfer_id = m.transfer_id;
            ack_length = length c.rx_bundle;
          }))
        ∷ [])

module _ (cfg : RxConfig) (world : World) (b : IsBenign world) where
  -- The buffer may grow, and nothing else changes.
  reserve_or_term_on :
      (want : ℕ) (c : RxConn)
      → (k : ℕ) × (reserve_or_term cfg world want c ≡ (some tt, record c { rx_cap = k }))
  unfolding reserve_or_term rx_reserve
  reserve_or_term_on want c =
      if_case {A = Option (Unit {0}) × RxConn}
        (λ r. (k : ℕ) × (reserved cfg world r ≡ (some tt, record c { rx_cap = k })))
        (leb want c.rx_cap) _ _ (λ e. (c.rx_cap, refl))
        λ e. (
          grow 32 (if c.rx_cap == 0 then 8192 else c.rx_cap) want,
          ap (reserved cfg world) (if_yes (world.grants c _) _ _ (b.grants c _)),
        )

  check_total_on :
      (m : Tcpv4XferSegment) (c : RxConn)
      → IsConfigured cfg
      → c.rx_refused ≡ false
      → length c.rx_bundle + m.data_length ≤ cfg.transfer_mru
      → check_total cfg world m c ≡ (some tt, c)
  unfolding check_total give
  check_total_on m c ok r fits =
      let n = length c.rx_bundle + m.data_length in
      let low : n % 2 ^ 64 ≡ n = omega (arith, fits, ok.transfer_mru) in
      if_no (not c.rx_refused && ltb cfg.transfer_mru (n % 2 ^ 64)) _ _
        (rw (r, low) (ge→ltb cfg.transfer_mru n fits))

  take_data_on :
      (m : Tcpv4XferSegment) (c : RxConn) (got rest : List ℕ)
      → c.rx_refused ≡ false
      → m.data_length ≡ length got
      → c.input ≡ got ++ rest
      → (k : ℕ) × (take_data cfg world m c
          ≡ (some tt, record c { input = rest; rx_cap = k; rx_bundle = c.rx_bundle ++ got }))
  unfolding take_data
  take_data_on m c got rest r len e =
      let (k, res) = reserve_or_term_on (length c.rx_bundle + m.data_length) c in
      (
        k,
        if_no c.rx_refused _ _ r
            ∙ bind_on (reserve_or_term cfg world (length c.rx_bundle + m.data_length)) _ c
                (record c { rx_cap = k }) tt res
            ∙ bind_on (recv_if m.data_length) _ (record c { rx_cap = k })
                (record c { rx_cap = k; input = rest }) got
                (recv_if_on m.data_length got rest _ len e),
      )

  pub continue_transfer_on :
      (m : Tcpv4XferSegment) (c : RxConn)
      → c.rx_active ≡ true
      → m.transfer_id ≡ c.rx_id
      → continue_transfer cfg world m c ≡ (some tt, c)
  unfolding continue_transfer give
  continue_transfer_on m c a i =
      if_no (not c.rx_active || not (m.transfer_id == c.rx_id)) _ _
        (rw (a, (==_iff m.transfer_id c.rx_id).1 i) refl)

  size_ahead_on :
      (m : Tcpv4XferSegment) (o : Option ℕ) (c : RxConn)
      → ((t : ℕ) → o ≡ some t → t ≤ cfg.transfer_mru)
      → (k : ℕ) × (size_ahead cfg world m o c ≡ (some tt, record c { rx_cap = k }))
  unfolding give
  size_ahead_on m none c h = (c.rx_cap, refl)
  size_ahead_on m (some t) c h =
      let (k, e) = reserve_or_term_on t c in
      (k, ap (λ (f : Rx _). f c) (if_no (ltb cfg.transfer_mru t) _ _ (ge→ltb _ _ (h t refl))) ∙ e)

  pub start_transfer_on :
      (m : Tcpv4XferSegment) (c : RxConn)
      → c.rx_active ≡ false
      → c.ending ≡ false
      → IsWelcome cfg m
      → (k : ℕ) × (start_transfer cfg world m c
          ≡ (some tt, record (begun cfg world m c) { rx_cap = k }))
  unfolding start_transfer check_start check_length give
  start_transfer_on m c a e w =
      let d = begun cfg world m c in
      let (k, s) = size_ahead_on m (told_length (find_xfer_length (octets m.xfer_ext))) d w.total in
      (
        k,
        if_no c.rx_active _ _ a
            ∙ bind_on (modify (begun cfg world m)) _ c d tt refl
            ∙ bind_on (check_start cfg world m) _ d d tt
                (if_no c.ending _ _ e ∙ if_no (segment_has_critical_ext m) _ _ w.plain)
            ∙ s,
      )

  -- The steps of handleXferSegment up to the last, for a segment whose transfer is not refused.
  pub handle_on :
      (m : Tcpv4XferSegment) (c d : RxConn) (got rest : List ℕ)
      → IsConfigured cfg
      → Layout.IsXferSegment m
      → m.xfer_ext_len ≤ tcpv4_max_ext_len
      → m.data_length ≡ length got
      → m.data_length ≤ cfg.segment_mru
      → c.input ≡ Layout.xfer_segment_layout m ++ (got ++ rest)
      → (if has_start m.flags then start_transfer cfg world m else continue_transfer cfg world m)
          (record c { input = got ++ rest })
        ≡ (some tt, d)
      → d.rx_refused ≡ false
      → d.input ≡ got ++ rest
      → length d.rx_bundle + m.data_length ≤ cfg.transfer_mru
      → (k : ℕ) × (handle_xfer_segment cfg world c
          ≡ finish_segment cfg world m
              (record d { input = rest; rx_cap = k; rx_bundle = d.rx_bundle ++ got }))
  unfolding handle_xfer_segment accept_segment read_data
  handle_on m c d got rest ok v ext len small e first r i fits =
      let (k, taken) = take_data_on m d got rest r len i in
      let f = record d { input = rest; rx_cap = k; rx_bundle = d.rx_bundle ++ got } in
      (
        k,
        bind_on recv_xfer_segment_hdr (within_mru cfg world) c (record c { input = got ++ rest }) m
              (recv_xfer_segment_hdr_on m (got ++ rest) c v ext e)
            ∙ ap (λ (g : Rx (Unit {0})). g (record c { input = got ++ rest }))
                (if_no (ltb cfg.segment_mru m.data_length) _ _ (ge→ltb _ _ small))
            ∙ bind_on
                (if has_start m.flags
                  then start_transfer cfg world m
                  else continue_transfer cfg world m)
                _ _ d tt first
            ∙ bind_on (read_data cfg world m) _ d f tt
                (bind_on (check_total cfg world m) _ d d tt (check_total_on m d ok r fits) ∙ taken),
      )

  -- A segment that does not end its transfer is acknowledged with all that has been received.
  pub finish_acked :
      (m : Tcpv4XferSegment) (c : RxConn)
      → Layout.IsXferSegment m
      → has_end m.flags ≡ false
      → c.rx_refused ≡ false
      → length c.rx_bundle < 2 ^ 64
      → finish_segment cfg world m c ≡ (some tt, record c { sent = acked m c })
  unfolding finish_segment rx_send_ack rx_await_delivery tcpv4_send_xfer_ack conn_send
  finish_acked m c v e r small =
      let ack : Tcpv4XferAck = record {
        flags = m.flags;
        transfer_id = m.transfer_id;
        ack_length = length c.rx_bundle;
      } in
      let written =
        (encode_xfer_ack-Encodes 18 ack (omega arith)
            (record { flags = v.flags; transfer_id = v.transfer_id; ack_length = small })).written
          (omega arith) in
      if_no (has_end m.flags) _ _ e
      ∙ if_no c.rx_refused _ _ r
      ∙ bind_on (rx_await_delivery world) _ c c tt
          (ap (λ (t : Bool). (if t then some tt else none, c)) (b.delivers c))
      ∙ ap (λ z. conn_send world z c) written
      ∙ if_yes (world.writes c) _ _ (b.writes c)

  -- A segment that ends its transfer leaves it to the delivery thread.
  pub finish_ended :
      (m : Tcpv4XferSegment) (c : RxConn)
      → has_end m.flags ≡ true
      → c.rx_refused ≡ false
      → finish_segment cfg world m c
        ≡ (some tt, swapped cfg world m (record c { rx_active = false }))
  unfolding finish_segment end_transfer hand_over_transfer rx_await_delivery
  finish_ended m c e r =
      let d = record c { rx_active = false } in
      if_yes (has_end m.flags) _ _ e
      ∙ if_no c.rx_refused _ _ r
      ∙ bind_on (rx_await_delivery world) _ d d tt
          (ap (λ (t : Bool). (if t then some tt else none, d)) (b.delivers d))
