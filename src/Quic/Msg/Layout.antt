-- ===== src/Quic/Msg/Layout.antt =====
-- What the QUICCL draft lays down for the messages of CLA/quic/src/quicmsg.h: the octets of each, and
-- the values that its C struct can hold. Nothing here is read off the encoders or the decoders.
use ion_dtn_contrib.Prelude.{◌≡◌, ℕ, Bool, true, false, if◌then◌else◌, List, [], ◌++◌, none}
use ion_dtn_contrib.Wire.Size.{be, IsByte, IsU16, IsU32, IsU64}
use ion_dtn_contrib.Wire.Pointer.{octets, Points}
use ion_dtn_contrib.Quic.Msg.{has_start}
use ion_dtn_contrib.Quic.Msg.Types.{
  QuicSessInit, QuicXferSegment, QuicXferAck, QuicXferRefuse, QuicSessTerm, QuicMsgReject,
}

abbrev pub sess_init_layout : QuicSessInit → List ℕ
sess_init_layout m =
    be 2 m.keepalive
    ++ (be 8 m.segment_mru
        ++ (be 8 m.datagram_mru
            ++ (be 8 m.transfer_mru
                ++ (be 2 m.node_id_len
                    ++ (octets m.node_id ++ (be 4 m.sess_ext_len ++ (octets m.sess_ext)))))))

abbrev pub xfer_segment_layout : QuicXferSegment → List ℕ
xfer_segment_layout m =
    be 1 m.flags
    ++ (be 2 m.segment_id
        ++ (be 2 m.total_segments
            ++ (be 8 m.transfer_id
                ++ ((if has_start m.flags then be 4 m.xfer_ext_len ++ octets m.xfer_ext else [])
                    ++ (be 8 m.segment_length ++ (be 8 m.bundle_length ++ be 1 m.service_mode))))))

abbrev pub xfer_ack_layout : QuicXferAck → List ℕ
xfer_ack_layout m =
    be 1 m.flags ++ (be 2 m.segment_id ++ (be 8 m.transfer_id ++ (be 8 m.ack_length)))

abbrev pub xfer_refuse_layout : QuicXferRefuse → List ℕ
xfer_refuse_layout m = be 1 m.reason ++ (be 8 m.transfer_id)

abbrev pub sess_term_layout : QuicSessTerm → List ℕ
sess_term_layout m = be 1 m.flags ++ (be 1 m.reason ++ (be 4 m.sess_ext_len ++ (octets m.sess_ext)))

abbrev pub msg_reject_layout : QuicMsgReject → List ℕ
msg_reject_layout m = be 1 m.rejected_type ++ (be 1 m.reason)

-- The ranges of the fields' C types, and pointers with as many octets as their lengths say.
pub record IsSessInit (m : QuicSessInit) : Type 0 where
  pub keepalive : IsU16 m.keepalive
  pub segment_mru : IsU64 m.segment_mru
  pub datagram_mru : IsU64 m.datagram_mru
  pub transfer_mru : IsU64 m.transfer_mru
  pub node_id_len : IsU16 m.node_id_len
  pub node_id : Points m.node_id m.node_id_len
  pub sess_ext_len : IsU32 m.sess_ext_len
  pub sess_ext : Points m.sess_ext m.sess_ext_len

-- Only a START segment has extension items.
abbrev pub HasExt : Bool → QuicXferSegment → Type 0
HasExt true m = Points m.xfer_ext m.xfer_ext_len
HasExt false m = (m.xfer_ext ≡ none) × (m.xfer_ext_len ≡ 0)

pub record IsXferSegment (m : QuicXferSegment) : Type 0 where
  pub flags : IsByte m.flags
  pub segment_id : IsU16 m.segment_id
  pub total_segments : IsU16 m.total_segments
  pub transfer_id : IsU64 m.transfer_id
  pub xfer_ext_len : IsU32 m.xfer_ext_len
  pub xfer_ext : HasExt (has_start m.flags) m
  pub segment_length : IsU64 m.segment_length
  pub bundle_length : IsU64 m.bundle_length
  pub service_mode : IsByte m.service_mode

pub record IsXferAck (m : QuicXferAck) : Type 0 where
  pub flags : IsByte m.flags
  pub segment_id : IsU16 m.segment_id
  pub transfer_id : IsU64 m.transfer_id
  pub ack_length : IsU64 m.ack_length

pub record IsXferRefuse (m : QuicXferRefuse) : Type 0 where
  pub reason : IsByte m.reason
  pub transfer_id : IsU64 m.transfer_id

pub record IsSessTerm (m : QuicSessTerm) : Type 0 where
  pub flags : IsByte m.flags
  pub reason : IsByte m.reason
  pub sess_ext_len : IsU32 m.sess_ext_len
  pub sess_ext : Points m.sess_ext m.sess_ext_len

pub record IsMsgReject (m : QuicMsgReject) : Type 0 where
  pub rejected_type : IsByte m.rejected_type
  pub reason : IsByte m.reason
