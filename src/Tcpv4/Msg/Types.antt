-- ===== src/Tcpv4/Msg/Types.antt =====
-- The message structs and codes of CLA/tcpv4/src/tcpv4msg.h. A pointer field is what it points to,
-- `none` for NULL.
use ion_dtn_contrib.Prelude.{ℕ, List, [], ◌∷◌, Option}

pub record Tcpv4Contact : Type 0 where
  pub version : ℕ
  pub flags : ℕ

pub record Tcpv4SessInit : Type 0 where
  pub keepalive : ℕ
  pub segment_mru : ℕ
  pub transfer_mru : ℕ
  pub node_id : Option (List ℕ)
  pub node_id_len : ℕ
  pub sess_ext : Option (List ℕ)
  pub sess_ext_len : ℕ

pub record Tcpv4XferSegment : Type 0 where
  pub flags : ℕ
  pub transfer_id : ℕ
  pub xfer_ext : Option (List ℕ)
  pub xfer_ext_len : ℕ
  pub data_length : ℕ

pub record Tcpv4XferAck : Type 0 where
  pub flags : ℕ
  pub transfer_id : ℕ
  pub ack_length : ℕ

pub record Tcpv4XferRefuse : Type 0 where
  pub reason : ℕ
  pub transfer_id : ℕ

pub record Tcpv4SessTerm : Type 0 where
  pub flags : ℕ
  pub reason : ℕ

pub record Tcpv4MsgReject : Type 0 where
  pub reason : ℕ
  pub rejected_type : ℕ

pub record Tcpv4ExtItem : Type 0 where
  pub flags : ℕ
  pub type : ℕ
  pub length : ℕ
  pub value : Option (List ℕ)

-- "dtn!"
abbrev pub tmsg_magic : List ℕ
tmsg_magic = b'd' ∷ b't' ∷ b'n' ∷ b'!' ∷ []

abbrev pub tmsg_magic_len : ℕ
tmsg_magic_len = 4

abbrev pub tmsg_xfer_segment : ℕ
tmsg_xfer_segment = 0x01

abbrev pub tmsg_xfer_ack : ℕ
tmsg_xfer_ack = 0x02

abbrev pub tmsg_xfer_refuse : ℕ
tmsg_xfer_refuse = 0x03

abbrev pub tmsg_keepalive : ℕ
tmsg_keepalive = 0x04

abbrev pub tmsg_sess_term : ℕ
tmsg_sess_term = 0x05

abbrev pub tmsg_msg_reject : ℕ
tmsg_msg_reject = 0x06

abbrev pub tmsg_sess_init : ℕ
tmsg_sess_init = 0x07

abbrev pub tmsg_flag_start : ℕ
tmsg_flag_start = 0x02

abbrev pub tmsg_xferext_length : ℕ
tmsg_xferext_length = 0x0001
