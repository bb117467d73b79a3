-- ===== src/Quic/Msg/Codec/Encode.antt =====
-- Each message of CLA/quic/src/quicmsg.c is written in full or not at all.
use ion_dtn_contrib.Prelude.{
  ℕ, ◌+◌, ◌^◌, ◌≤◌, ◌<◌, ◌≡◌, List, ◌++◌, All, All-append, length, length-append, pos, arith,
}
use ion_dtn_contrib.Wire.Size.{be, IsByte}
use ion_dtn_contrib.Wire.Octets.{be-IsByte}
use ion_dtn_contrib.Wire.Pointer.{octets, IsBuffer}
use ion_dtn_contrib.Wire.Writer.Laws.{Encodes}
use ion_dtn_contrib.Quic.Msg.Encoding
use ion_dtn_contrib.Quic.Msg.Segment
use ion_dtn_contrib.Quic.Msg.Codec.{
  Msg, wire, IsMsg, encode_quic, sess_init, xfer_segment, xfer_ack, xfer_refuse, sess_term,
  msg_reject,
}

pub encode_quic-Encodes :
    (cap : ℕ) (m : Msg) → cap < 2 ^ 31 → IsMsg m → Encodes cap (encode_quic cap m) (wire m)
unfolding encode_quic
encode_quic-Encodes cap (sess_init m) small v = Encoding.encode_sess_init-Encodes cap m small v
encode_quic-Encodes cap (xfer_segment m) small v =
    Encoding.encode_xfer_segment_hdr-Encodes cap m small v
encode_quic-Encodes cap (xfer_ack m) small v = Encoding.encode_xfer_ack-Encodes cap m small v
encode_quic-Encodes cap (xfer_refuse m) small v = Encoding.encode_xfer_refuse-Encodes cap m small v
encode_quic-Encodes cap (sess_term m) small v = Encoding.encode_sess_term-Encodes cap m small v
encode_quic-Encodes cap (msg_reject m) small v = Encoding.encode_msg_reject-Encodes cap m small v

-- Where the message fits the buffer, the encoder writes its octets and returns their number.
pub encode_quic_fits :
    (cap : ℕ) (m : Msg)
    → cap < 2 ^ 31
    → IsMsg m
    → length (wire m) ≤ cap
    → encode_quic cap m ≡ (pos (length (wire m)), wire m)
encode_quic_fits cap m small v fits = (encode_quic-Encodes cap m small v).written fits

pub wire_bytes : (m : Msg) → IsMsg m → All IsByte (wire m)
wire_bytes (sess_init m) v = (
  omega arith,
  All-append IsByte (be 2 m.keepalive)
      ((be 8 m.segment_mru)
        ++ ((be 8 m.datagram_mru)
            ++ ((be 8 m.transfer_mru)
                ++ ((be 2 m.node_id_len)
                    ++ ((octets m.node_id) ++ ((be 4 m.sess_ext_len) ++ (octets m.sess_ext)))))))
      (be-IsByte 2 m.keepalive)
      (All-append IsByte (be 8 m.segment_mru)
        ((be 8 m.datagram_mru)
          ++ ((be 8 m.transfer_mru)
              ++ ((be 2 m.node_id_len)
                  ++ ((octets m.node_id) ++ ((be 4 m.sess_ext_len) ++ (octets m.sess_ext))))))
        (be-IsByte 8 m.segment_mru)
        (All-append IsByte (be 8 m.datagram_mru)
          ((be 8 m.transfer_mru)
            ++ ((be 2 m.node_id_len)
                ++ ((octets m.node_id) ++ ((be 4 m.sess_ext_len) ++ (octets m.sess_ext)))))
          (be-IsByte 8 m.datagram_mru)
          (All-append IsByte (be 8 m.transfer_mru)
            ((be 2 m.node_id_len)
              ++ ((octets m.node_id) ++ ((be 4 m.sess_ext_len) ++ (octets m.sess_ext))))
            (be-IsByte 8 m.transfer_mru)
            (All-append IsByte (be 2 m.node_id_len)
              ((octets m.node_id) ++ ((be 4 m.sess_ext_len) ++ (octets m.sess_ext)))
              (be-IsByte 2 m.node_id_len)
              (All-append IsByte (octets m.node_id) ((be 4 m.sess_ext_len) ++ (octets m.sess_ext))
                v.node_id.bytes
                (All-append IsByte (be 4 m.sess_ext_len) (octets m.sess_ext)
                  (be-IsByte 4 m.sess_ext_len) v.sess_ext.bytes)))))),
)
wire_bytes (xfer_segment m) v = (omega arith, Segment.layout_bytes m v)
wire_bytes (xfer_ack m) v = (
  omega arith,
  All-append IsByte (be 1 m.flags)
      ((be 2 m.segment_id) ++ ((be 8 m.transfer_id) ++ (be 8 m.ack_length))) (be-IsByte 1 m.flags)
      (All-append IsByte (be 2 m.segment_id) ((be 8 m.transfer_id) ++ (be 8 m.ack_length))
        (be-IsByte 2 m.segment_id)
        (All-append IsByte (be 8 m.transfer_id) (be 8 m.ack_length) (be-IsByte 8 m.transfer_id)
          (be-IsByte 8 m.ack_length))),
)
wire_bytes (xfer_refuse m) v = (
  omega arith,
  All-append IsByte (be 1 m.reason) (be 8 m.transfer_id) (be-IsByte 1 m.reason)
      (be-IsByte 8 m.transfer_id),
)
wire_bytes (sess_term m) v = (
  omega arith,
  All-append IsByte (be 1 m.flags)
      ((be 1 m.reason) ++ ((be 4 m.sess_ext_len) ++ (octets m.sess_ext))) (be-IsByte 1 m.flags)
      (All-append IsByte (be 1 m.reason) ((be 4 m.sess_ext_len) ++ (octets m.sess_ext))
        (be-IsByte 1 m.reason)
        (All-append IsByte (be 4 m.sess_ext_len) (octets m.sess_ext) (be-IsByte 4 m.sess_ext_len)
          v.sess_ext.bytes)),
)
wire_bytes (msg_reject m) v = (
  omega arith,
  All-append IsByte (be 1 m.rejected_type) (be 1 m.reason) (be-IsByte 1 m.rejected_type)
      (be-IsByte 1 m.reason),
)

pub wire-IsBuffer :
    (m : Msg) (rest : List ℕ)
    → IsMsg m
    → All IsByte rest
    → length (wire m) + length rest < 2 ^ 31
    → IsBuffer (wire m ++ rest)
wire-IsBuffer m rest v b small = record {
  bytes = All-append IsByte (wire m) rest (wire_bytes m v) b;
  small = omega (arith, small, length-append (wire m) rest);
}
