-- ===== src/Quic/Msg/Types.antt =====
-- The message structs and codes of CLA/quic/src/quicmsg.h. A pointer field is what it points to,
-- `none` for NULL.
use ion_dtn_contrib.Prelude.{ℕ, List, Option}

pub record QuicSessInit : Type 0 where
  pub keepalive : ℕ
  pub segment_mru : ℕ
  pub datagram_mru : ℕ
  pub transfer_mru : ℕ
  pub node_id : Option (List ℕ)
  pub node_id_len : ℕ
  pub sess_ext : Option (List ℕ)
  pub sess_ext_len : ℕ

pub record QuicXferSegment : Type 0 where
  pub flags : ℕ
  pub segment_id : ℕ
  pub total_segments : ℕ
  pub transfer_id : ℕ
  pub xfer_ext : Option (List ℕ)
  pub xfer_ext_len : ℕ
  pub segment_length : ℕ
  pub bundle_length : ℕ
  pub service_mode : ℕ

pub record QuicXferAck : Type 0 where
  pub flags : ℕ
  pub segment_id : ℕ
  pub transfer_id : ℕ
  pub ack_length : ℕ

pub record QuicXferRefuse : Type 0 where
  pub reason : ℕ
  pub transfer_id : ℕ

pub record QuicSessTerm : Type 0 where
  pub flags : ℕ
  pub reason : ℕ
  pub sess_ext : Option (List ℕ)
  pub sess_ext_len : ℕ

pub record QuicMsgReject : Type 0 where
  pub rejected_type : ℕ
  pub reason : ℕ

abbrev pub qmsg_sess_init : ℕ
qmsg_sess_init = 0x01

abbrev pub qmsg_xfer_segment : ℕ
qmsg_xfer_segment = 0x02

abbrev pub qmsg_xfer_ack : ℕ
qmsg_xfer_ack = 0x03

abbrev pub qmsg_xfer_refuse : ℕ
qmsg_xfer_refuse = 0x04

abbrev pub qmsg_keepalive : ℕ
qmsg_keepalive = 0x05

abbrev pub qmsg_sess_term : ℕ
qmsg_sess_term = 0x06

abbrev pub qmsg_msg_reject : ℕ
qmsg_msg_reject = 0x07

abbrev pub qmsg_flag_start : ℕ
qmsg_flag_start = 0x02
