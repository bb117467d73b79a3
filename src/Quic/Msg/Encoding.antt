-- ===== src/Quic/Msg/Encoding.antt =====
-- The encoders of CLA/quic/src/quicmsg.c write the layout of the message, or fail for want of room.
use ion_dtn_contrib.Prelude.{ℕ, ◌^◌, ◌<◌, ◌≡◌, true, [], ◌∷◌, ◌++◌, arith}
use ion_dtn_contrib.Wire.Size.{be}
use ion_dtn_contrib.Wire.Pointer.{octets, Points}
use ion_dtn_contrib.Wire.Writer.{◌▷◌, w_u32, w_bytes}
use ion_dtn_contrib.Wire.Writer.Laws.{
  Appends, Appends-bind, Appends-Encodes, Appends-if, Encodes, w_u8-Appends, w_u8-Appends-be,
  w_u16-Appends, w_u32-Appends, w_u64-Appends, w_octets-Appends,
}
use ion_dtn_contrib.Quic.Msg.{
  encode_sess_init, encode_xfer_segment_hdr, encode_xfer_ack, encode_xfer_refuse, encode_sess_term,
  encode_msg_reject, encode_keepalive, has_start,
}
use ion_dtn_contrib.Quic.Msg.Types.{
  QuicSessInit, QuicXferSegment, QuicXferAck, QuicXferRefuse, QuicSessTerm, QuicMsgReject,
  qmsg_sess_init, qmsg_xfer_segment, qmsg_xfer_ack, qmsg_xfer_refuse, qmsg_keepalive,
  qmsg_sess_term, qmsg_msg_reject,
}
use ion_dtn_contrib.Quic.Msg.Layout

ext_Appends :
    (m : QuicXferSegment)
    → Layout.IsXferSegment m
    → has_start m.flags ≡ true
    → Appends
        (λ w. w ▷ w_u32 m.xfer_ext_len ▷ w_bytes (octets m.xfer_ext) m.xfer_ext_len)
        (be 4 m.xfer_ext_len ++ octets m.xfer_ext)
ext_Appends m v e =
    let p : Points m.xfer_ext m.xfer_ext_len = rw e at v.xfer_ext in
    Appends-bind _ _ _ _ (w_u32-Appends m.xfer_ext_len)
      (w_octets-Appends m.xfer_ext m.xfer_ext_len p v.xfer_ext_len)

pub encode_sess_init-Encodes :
    (cap : ℕ) (m : QuicSessInit)
    → cap < 2 ^ 31
    → Layout.IsSessInit m
    → Encodes cap (encode_sess_init cap m) (qmsg_sess_init ∷ Layout.sess_init_layout m)
unfolding encode_sess_init
encode_sess_init-Encodes cap m small v = Appends-Encodes cap _ _ small (
    Appends-bind _ _ _ _ (w_u8-Appends qmsg_sess_init) (
      Appends-bind _ _ _ _ (w_u16-Appends m.keepalive) (
        Appends-bind _ _ _ _ (w_u64-Appends m.segment_mru) (
          Appends-bind _ _ _ _ (w_u64-Appends m.datagram_mru) (
            Appends-bind _ _ _ _ (w_u64-Appends m.transfer_mru) (
              Appends-bind _ _ _ _ (w_u16-Appends m.node_id_len) (
                Appends-bind _ _ _ _
                  (w_octets-Appends m.node_id m.node_id_len v.node_id
                    (omega (arith, v.node_id_len)))
                  (Appends-bind _ _ _ _ (w_u32-Appends m.sess_ext_len)
                    (w_octets-Appends m.sess_ext m.sess_ext_len v.sess_ext v.sess_ext_len)))))))))

pub encode_xfer_segment_hdr-Encodes :
    (cap : ℕ) (m : QuicXferSegment)
    → cap < 2 ^ 31
    → Layout.IsXferSegment m
    → Encodes cap (encode_xfer_segment_hdr cap m) (qmsg_xfer_segment ∷ Layout.xfer_segment_layout m)
unfolding encode_xfer_segment_hdr
encode_xfer_segment_hdr-Encodes cap m small v = Appends-Encodes cap _ _ small (
    Appends-bind _ _ _ _ (w_u8-Appends qmsg_xfer_segment) (
      Appends-bind _ _ _ _ (w_u8-Appends-be m.flags v.flags) (
        Appends-bind _ _ _ _ (w_u16-Appends m.segment_id) (
          Appends-bind _ _ _ _ (w_u16-Appends m.total_segments) (
            Appends-bind _ _ _ _ (w_u64-Appends m.transfer_id) (
              Appends-bind _ _ _ _ (Appends-if (has_start m.flags) _ _ (ext_Appends m v)) (
                Appends-bind _ _ _ _ (w_u64-Appends m.segment_length) (
                  Appends-bind _ _ _ _ (w_u64-Appends m.bundle_length)
                    (w_u8-Appends-be m.service_mode v.service_mode)))))))))

pub encode_xfer_ack-Encodes :
    (cap : ℕ) (m : QuicXferAck)
    → cap < 2 ^ 31
    → Layout.IsXferAck m
    → Encodes cap (encode_xfer_ack cap m) (qmsg_xfer_ack ∷ Layout.xfer_ack_layout m)
unfolding encode_xfer_ack
encode_xfer_ack-Encodes cap m small v = Appends-Encodes cap _ _ small (
    Appends-bind _ _ _ _ (w_u8-Appends qmsg_xfer_ack) (
      Appends-bind _ _ _ _ (w_u8-Appends-be m.flags v.flags) (
        Appends-bind _ _ _ _ (w_u16-Appends m.segment_id)
          (Appends-bind _ _ _ _ (w_u64-Appends m.transfer_id) (w_u64-Appends m.ack_length)))))

pub encode_xfer_refuse-Encodes :
    (cap : ℕ) (m : QuicXferRefuse)
    → cap < 2 ^ 31
    → Layout.IsXferRefuse m
    → Encodes cap (encode_xfer_refuse cap m) (qmsg_xfer_refuse ∷ Layout.xfer_refuse_layout m)
unfolding encode_xfer_refuse
encode_xfer_refuse-Encodes cap m small v = Appends-Encodes cap _ _ small (
    Appends-bind _ _ _ _ (w_u8-Appends qmsg_xfer_refuse)
      (Appends-bind _ _ _ _ (w_u8-Appends-be m.reason v.reason) (w_u64-Appends m.transfer_id)))

pub encode_sess_term-Encodes :
    (cap : ℕ) (m : QuicSessTerm)
    → cap < 2 ^ 31
    → Layout.IsSessTerm m
    → Encodes cap (encode_sess_term cap m) (qmsg_sess_term ∷ Layout.sess_term_layout m)
unfolding encode_sess_term
encode_sess_term-Encodes cap m small v = Appends-Encodes cap _ _ small (
    Appends-bind _ _ _ _ (w_u8-Appends qmsg_sess_term) (
      Appends-bind _ _ _ _ (w_u8-Appends-be m.flags v.flags) (
        Appends-bind _ _ _ _ (w_u8-Appends-be m.reason v.reason) (
          Appends-bind _ _ _ _ (w_u32-Appends m.sess_ext_len)
            (w_octets-Appends m.sess_ext m.sess_ext_len v.sess_ext v.sess_ext_len)))))

pub encode_msg_reject-Encodes :
    (cap : ℕ) (m : QuicMsgReject)
    → cap < 2 ^ 31
    → Layout.IsMsgReject m
    → Encodes cap (encode_msg_reject cap m) (qmsg_msg_reject ∷ Layout.msg_reject_layout m)
unfolding encode_msg_reject
encode_msg_reject-Encodes cap m small v = Appends-Encodes cap _ _ small (
    Appends-bind _ _ _ _ (w_u8-Appends qmsg_msg_reject) (
      Appends-bind _ _ _ _ (w_u8-Appends-be m.rejected_type v.rejected_type)
        (w_u8-Appends-be m.reason v.reason)))

pub encode_keepalive-Encodes :
    (cap : ℕ) → cap < 2 ^ 31 → Encodes cap (encode_keepalive cap) (qmsg_keepalive ∷ [])
unfolding encode_keepalive
encode_keepalive-Encodes cap small = Appends-Encodes cap _ _ small (w_u8-Appends qmsg_keepalive)
