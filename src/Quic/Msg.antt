-- ===== src/Quic/Msg.antt =====
-- The wire-message codec of CLA/quic/src/quicmsg.c. An encoder takes the size of the buffer and
-- returns the C result with the octets written; a decoder takes the buffer and returns the C result
-- with the message, `none` where it returns before `*m` is written.
pub mod Types
pub mod Layout
pub mod Encoding
pub mod Bodies
pub mod Segment
pub mod Codec
use ion_dtn_contrib.Prelude.{ℕ, Bool, not, ◌==◌, if◌then◌else◌, List, Option, none, ℤ, bit_and}
use ion_dtn_contrib.Wire.Pointer.{octets}
use ion_dtn_contrib.Wire.Writer.{◌▷◌, w_init, w_u8, w_u16, w_u32, w_u64, w_bytes, w_result}
use ion_dtn_contrib.Wire.Reader.{Read, give, ◌>>=◌, r_u8, r_u16, r_u32, r_u64, r_bytes}
use ion_dtn_contrib.Wire.Framed.{decode_typed}
use Types.{
  QuicSessInit, QuicXferSegment, QuicXferAck, QuicXferRefuse, QuicSessTerm, QuicMsgReject,
  qmsg_sess_init, qmsg_xfer_segment, qmsg_xfer_ack, qmsg_xfer_refuse, qmsg_keepalive,
  qmsg_sess_term, qmsg_msg_reject, qmsg_flag_start,
}

-- `m->flags & QMSG_FLAG_START`, as a truth value.
abbrev pub has_start : ℕ → Bool
has_start flags = not (bit_and flags qmsg_flag_start == 0)

pub encode_sess_init : ℕ → QuicSessInit → ℤ × List ℕ
encode_sess_init cap m = w_result (
    w_init cap
    ▷ w_u8 qmsg_sess_init
    ▷ w_u16 m.keepalive
    ▷ w_u64 m.segment_mru
    ▷ w_u64 m.datagram_mru
    ▷ w_u64 m.transfer_mru
    ▷ w_u16 m.node_id_len
    ▷ w_bytes (octets m.node_id) m.node_id_len
    ▷ w_u32 m.sess_ext_len
    ▷ w_bytes (octets m.sess_ext) m.sess_ext_len)

pub encode_xfer_segment_hdr : ℕ → QuicXferSegment → ℤ × List ℕ
encode_xfer_segment_hdr cap m =
    let w =
      w_init cap
      ▷ w_u8 qmsg_xfer_segment
      ▷ w_u8 m.flags
      ▷ w_u16 m.segment_id
      ▷ w_u16 m.total_segments
      ▷ w_u64 m.transfer_id in
    let w' =
      if has_start m.flags
      then w ▷ w_u32 m.xfer_ext_len ▷ w_bytes (octets m.xfer_ext) m.xfer_ext_len
      else w in
    w_result (w' ▷ w_u64 m.segment_length ▷ w_u64 m.bundle_length ▷ w_u8 m.service_mode)

pub encode_xfer_ack : ℕ → QuicXferAck → ℤ × List ℕ
encode_xfer_ack cap m = w_result (
    w_init cap
    ▷ w_u8 qmsg_xfer_ack
    ▷ w_u8 m.flags
    ▷ w_u16 m.segment_id
    ▷ w_u64 m.transfer_id
    ▷ w_u64 m.ack_length)

pub encode_xfer_refuse : ℕ → QuicXferRefuse → ℤ × List ℕ
encode_xfer_refuse cap m =
    w_result (w_init cap ▷ w_u8 qmsg_xfer_refuse ▷ w_u8 m.reason ▷ w_u64 m.transfer_id)

pub encode_sess_term : ℕ → QuicSessTerm → ℤ × List ℕ
encode_sess_term cap m = w_result (
    w_init cap
    ▷ w_u8 qmsg_sess_term
    ▷ w_u8 m.flags
    ▷ w_u8 m.reason
    ▷ w_u32 m.sess_ext_len
    ▷ w_bytes (octets m.sess_ext) m.sess_ext_len)

pub encode_msg_reject : ℕ → QuicMsgReject → ℤ × List ℕ
encode_msg_reject cap m =
    w_result (w_init cap ▷ w_u8 qmsg_msg_reject ▷ w_u8 m.rejected_type ▷ w_u8 m.reason)

pub encode_keepalive : ℕ → ℤ × List ℕ
encode_keepalive cap = w_result (w_init cap ▷ w_u8 qmsg_keepalive)

pub sess_init_body : Read QuicSessInit
sess_init_body = do
  keepalive ← r_u16
  segment_mru ← r_u64
  datagram_mru ← r_u64
  transfer_mru ← r_u64
  node_id_len ← r_u16
  node_id ← r_bytes node_id_len
  sess_ext_len ← r_u32
  sess_ext ← r_bytes sess_ext_len
  give (record {
    keepalive = keepalive;
    segment_mru = segment_mru;
    datagram_mru = datagram_mru;
    transfer_mru = transfer_mru;
    node_id = node_id;
    node_id_len = node_id_len;
    sess_ext = sess_ext;
    sess_ext_len = sess_ext_len;
  })

pub decode_sess_init : List ℕ → ℤ × Option QuicSessInit
decode_sess_init = decode_typed qmsg_sess_init sess_init_body

-- The rest of the header, behind the extension items that only a START segment has.
pub xfer_segment_tail : ℕ → ℕ → ℕ → ℕ → Option (List ℕ) → ℕ → Read QuicXferSegment
xfer_segment_tail flags segment_id total_segments transfer_id xfer_ext xfer_ext_len = do
  segment_length ← r_u64
  bundle_length ← r_u64
  service_mode ← r_u8
  give (record {
    flags = flags;
    segment_id = segment_id;
    total_segments = total_segments;
    transfer_id = transfer_id;
    xfer_ext = xfer_ext;
    xfer_ext_len = xfer_ext_len;
    segment_length = segment_length;
    bundle_length = bundle_length;
    service_mode = service_mode;
  })

pub xfer_segment_start : ℕ → ℕ → ℕ → ℕ → Read QuicXferSegment
xfer_segment_start flags segment_id total_segments transfer_id = do
  xfer_ext_len ← r_u32
  xfer_ext ← r_bytes xfer_ext_len
  xfer_segment_tail flags segment_id total_segments transfer_id xfer_ext xfer_ext_len

pub xfer_segment_body : Read QuicXferSegment
xfer_segment_body = do
  flags ← r_u8
  segment_id ← r_u16
  total_segments ← r_u16
  transfer_id ← r_u64
  if has_start flags
      then xfer_segment_start flags segment_id total_segments transfer_id
      else xfer_segment_tail flags segment_id total_segments transfer_id none 0

pub decode_xfer_segment_hdr : List ℕ → ℤ × Option QuicXferSegment
decode_xfer_segment_hdr = decode_typed qmsg_xfer_segment xfer_segment_body

pub xfer_ack_body : Read QuicXferAck
xfer_ack_body = do
  flags ← r_u8
  segment_id ← r_u16
  transfer_id ← r_u64
  ack_length ← r_u64
  give (record {
    flags = flags;
    segment_id = segment_id;
    transfer_id = transfer_id;
    ack_length = ack_length;
  })

pub decode_xfer_ack : List ℕ → ℤ × Option QuicXferAck
decode_xfer_ack = decode_typed qmsg_xfer_ack xfer_ack_body

pub xfer_refuse_body : Read QuicXferRefuse
xfer_refuse_body = do
  reason ← r_u8
  transfer_id ← r_u64
  give (record { reason = reason; transfer_id = transfer_id })

pub decode_xfer_refuse : List ℕ → ℤ × Option QuicXferRefuse
decode_xfer_refuse = decode_typed qmsg_xfer_refuse xfer_refuse_body

pub sess_term_body : Read QuicSessTerm
sess_term_body = do
  flags ← r_u8
  reason ← r_u8
  sess_ext_len ← r_u32
  sess_ext ← r_bytes sess_ext_len
  give (record { flags = flags; reason = reason; sess_ext = sess_ext; sess_ext_len = sess_ext_len })

pub decode_sess_term : List ℕ → ℤ × Option QuicSessTerm
decode_sess_term = decode_typed qmsg_sess_term sess_term_body

unfoldable pub msg_reject_body : Read QuicMsgReject
msg_reject_body = do
  rejected_type ← r_u8
  reason ← r_u8
  give (record { rejected_type = rejected_type; reason = reason })

unfoldable pub decode_msg_reject : List ℕ → ℤ × Option QuicMsgReject
decode_msg_reject = decode_typed qmsg_msg_reject msg_reject_body
