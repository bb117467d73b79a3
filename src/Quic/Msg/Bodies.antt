-- ===== src/Quic/Msg/Bodies.antt =====
-- The fields of each message of CLA/quic/src/quicmsg.c, read one by one: what is read back is what
-- was laid out, more input changes nothing, and what is read was laid out.
use ion_dtn_contrib.Prelude.{◌≡◌, sym}
use ion_dtn_contrib.Wire.Pointer.{octets}
use ion_dtn_contrib.Wire.Reader.Laws.{safe_rules}
use ion_dtn_contrib.Wire.Reader.Exact.{
  Exact, Exact-bind, Exact-map, Exact-eq_value, r_u8-Exact-be, r_u16-Exact, r_u32-Exact,
  r_u64-Exact, r_bytes-Exact,
}
use ion_dtn_contrib.Wire.Reader.Stable.{Stable, stable_rules}
use ion_dtn_contrib.Wire.Reader.Sound.{
  Sound, Sound-bind, Sound-map, r_u8-Sound, r_u16-Sound, r_u32-Sound, r_u64-Sound, r_bytes-Sound,
  IsRun-Points,
}
use ion_dtn_contrib.Quic.Msg.{
  sess_init_body, xfer_ack_body, xfer_refuse_body, sess_term_body, msg_reject_body,
}
use ion_dtn_contrib.Quic.Msg.Types.{
  QuicSessInit, QuicXferAck, QuicXferRefuse, QuicSessTerm, QuicMsgReject,
}
use ion_dtn_contrib.Quic.Msg.Layout

pub sess_init_body-Exact :
    (m : QuicSessInit) → Layout.IsSessInit m → Exact sess_init_body (Layout.sess_init_layout m) m
unfolding sess_init_body
sess_init_body-Exact m v = Exact-bind _ _ _ _ _ _ (r_u16-Exact m.keepalive v.keepalive) (
    Exact-bind _ _ _ _ _ _ (r_u64-Exact m.segment_mru v.segment_mru) (
      Exact-bind _ _ _ _ _ _ (r_u64-Exact m.datagram_mru v.datagram_mru) (
        Exact-bind _ _ _ _ _ _ (r_u64-Exact m.transfer_mru v.transfer_mru) (
          Exact-bind _ _ _ _ _ _ (r_u16-Exact m.node_id_len v.node_id_len) (
            Exact-bind _ _ _ _ _ _
              (Exact-eq_value _ (sym v.node_id.set)
                (r_bytes-Exact m.node_id_len (octets m.node_id) v.node_id.size))
              (Exact-bind _ _ _ _ _ _ (r_u32-Exact m.sess_ext_len v.sess_ext_len) (
                Exact-map _ _ _ _ (
                  Exact-eq_value _ (sym v.sess_ext.set)
                    (r_bytes-Exact m.sess_ext_len (octets m.sess_ext) v.sess_ext.size)))))))))

pub xfer_ack_body-Exact :
    (m : QuicXferAck) → Layout.IsXferAck m → Exact xfer_ack_body (Layout.xfer_ack_layout m) m
unfolding xfer_ack_body
xfer_ack_body-Exact m v = Exact-bind _ _ _ _ _ _ (r_u8-Exact-be m.flags v.flags) (
    Exact-bind _ _ _ _ _ _ (r_u16-Exact m.segment_id v.segment_id) (
      Exact-bind _ _ _ _ _ _ (r_u64-Exact m.transfer_id v.transfer_id)
        (Exact-map _ _ _ _ (r_u64-Exact m.ack_length v.ack_length))))

pub xfer_refuse_body-Exact :
    (m : QuicXferRefuse)
    → Layout.IsXferRefuse m
    → Exact xfer_refuse_body (Layout.xfer_refuse_layout m) m
unfolding xfer_refuse_body
xfer_refuse_body-Exact m v =
    Exact-bind _ _ _ _ _ _ (r_u8-Exact-be m.reason v.reason)
      (Exact-map _ _ _ _ (r_u64-Exact m.transfer_id v.transfer_id))

pub sess_term_body-Exact :
    (m : QuicSessTerm) → Layout.IsSessTerm m → Exact sess_term_body (Layout.sess_term_layout m) m
unfolding sess_term_body
sess_term_body-Exact m v = Exact-bind _ _ _ _ _ _ (r_u8-Exact-be m.flags v.flags) (
    Exact-bind _ _ _ _ _ _ (r_u8-Exact-be m.reason v.reason) (
      Exact-bind _ _ _ _ _ _ (r_u32-Exact m.sess_ext_len v.sess_ext_len) (
        Exact-map _ _ _ _ (
          Exact-eq_value _ (sym v.sess_ext.set)
            (r_bytes-Exact m.sess_ext_len (octets m.sess_ext) v.sess_ext.size)))))

pub msg_reject_body-Exact :
    (m : QuicMsgReject)
    → Layout.IsMsgReject m
    → Exact msg_reject_body (Layout.msg_reject_layout m) m
unfolding msg_reject_body
msg_reject_body-Exact m v =
    Exact-bind _ _ _ _ _ _ (r_u8-Exact-be m.rejected_type v.rejected_type)
      (Exact-map _ _ _ _ (r_u8-Exact-be m.reason v.reason))

pub sess_init_body-Stable : Stable sess_init_body
unfolding sess_init_body
sess_init_body-Stable = search stable_rules depth 10

pub xfer_ack_body-Stable : Stable xfer_ack_body
unfolding xfer_ack_body
xfer_ack_body-Stable = search stable_rules depth 10

pub xfer_refuse_body-Stable : Stable xfer_refuse_body
unfolding xfer_refuse_body
xfer_refuse_body-Stable = search stable_rules depth 10

pub sess_term_body-Stable : Stable sess_term_body
unfolding sess_term_body
sess_term_body-Stable = search stable_rules depth 10

pub msg_reject_body-Stable : Stable msg_reject_body
unfolding msg_reject_body
msg_reject_body-Stable = search stable_rules depth 10

pub sess_init_body-Sound :
    Sound sess_init_body (λ m bs. (bs ≡ Layout.sess_init_layout m) × Layout.IsSessInit m)
unfolding sess_init_body
sess_init_body-Sound =
    Sound-bind _ _ _ _ r_u16-Sound (λ a. search safe_rules depth 10)
      λ a xa pa.
        Sound-bind _ _ _ _ r_u64-Sound (λ b. search safe_rules depth 10)
          λ b xb pb.
            Sound-bind _ _ _ _ r_u64-Sound (λ c. search safe_rules depth 10)
              λ c xc pc.
                Sound-bind _ _ _ _ r_u64-Sound (λ d. search safe_rules depth 10)
                  λ d xd pd.
                    Sound-bind _ _ _ _ r_u16-Sound (λ e. search safe_rules depth 10)
                      λ e xe pe.
                        Sound-bind _ _ _ _ (r_bytes-Sound e) (λ f. search safe_rules depth 10)
                          λ f xf pf.
                            Sound-bind _ _ _ _ r_u32-Sound (λ g. search safe_rules depth 10)
                              λ g xg pg. Sound-map _ _ _ _ (r_bytes-Sound g) λ h xh ph. (
                                rw (pa.0, pb.0, pc.0, pd.0, pe.0, pf.0, pg.0, ph.0),
                                record {
                                  keepalive = pa.1;
                                  segment_mru = pb.1;
                                  datagram_mru = pc.1;
                                  transfer_mru = pd.1;
                                  node_id_len = pe.1;
                                  node_id = IsRun-Points _ _ _ pf;
                                  sess_ext_len = pg.1;
                                  sess_ext = IsRun-Points _ _ _ ph;
                                },
                              )

pub xfer_ack_body-Sound :
    Sound xfer_ack_body (λ m bs. (bs ≡ Layout.xfer_ack_layout m) × Layout.IsXferAck m)
unfolding xfer_ack_body
xfer_ack_body-Sound =
    Sound-bind _ _ _ _ r_u8-Sound (λ a. search safe_rules depth 10)
      λ a xa pa.
        Sound-bind _ _ _ _ r_u16-Sound (λ b. search safe_rules depth 10)
          λ b xb pb.
            Sound-bind _ _ _ _ r_u64-Sound (λ c. search safe_rules depth 10)
              λ c xc pc. Sound-map _ _ _ _ r_u64-Sound λ d xd pd. (
                rw (pa.0, pb.0, pc.0, pd.0),
                record { flags = pa.1; segment_id = pb.1; transfer_id = pc.1; ack_length = pd.1 },
              )

pub xfer_refuse_body-Sound :
    Sound xfer_refuse_body (λ m bs. (bs ≡ Layout.xfer_refuse_layout m) × Layout.IsXferRefuse m)
unfolding xfer_refuse_body
xfer_refuse_body-Sound =
    Sound-bind _ _ _ _ r_u8-Sound (λ a. search safe_rules depth 10)
      λ a xa pa.
        Sound-map _ _ _ _ r_u64-Sound
          λ b xb pb. (rw (pa.0, pb.0), record { reason = pa.1; transfer_id = pb.1 })

pub sess_term_body-Sound :
    Sound sess_term_body (λ m bs. (bs ≡ Layout.sess_term_layout m) × Layout.IsSessTerm m)
unfolding sess_term_body
sess_term_body-Sound =
    Sound-bind _ _ _ _ r_u8-Sound (λ a. search safe_rules depth 10)
      λ a xa pa.
        Sound-bind _ _ _ _ r_u8-Sound (λ b. search safe_rules depth 10)
          λ b xb pb.
            Sound-bind _ _ _ _ r_u32-Sound (λ c. search safe_rules depth 10)
              λ c xc pc. Sound-map _ _ _ _ (r_bytes-Sound c) λ d xd pd. (
                rw (pa.0, pb.0, pc.0, pd.0),
                record {
                  flags = pa.1;
                  reason = pb.1;
                  sess_ext_len = pc.1;
                  sess_ext = IsRun-Points _ _ _ pd;
                },
              )

pub msg_reject_body-Sound :
    Sound msg_reject_body (λ m bs. (bs ≡ Layout.msg_reject_layout m) × Layout.IsMsgReject m)
unfolding msg_reject_body
msg_reject_body-Sound =
    Sound-bind _ _ _ _ r_u8-Sound (λ a. search safe_rules depth 10)
      λ a xa pa.
        Sound-map _ _ _ _ r_u8-Sound
          λ b xb pb. (rw (pa.0, pb.0), record { rejected_type = pa.1; reason = pb.1 })
