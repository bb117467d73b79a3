-- ===== src/Tcpv4/Msg/Layout.antt =====
-- What RFC 9174 lays down for the messages of CLA/tcpv4/src/tcpv4msg.h: the octets of each, and the
-- values that its C struct can hold. Nothing here is read off the encoders or the decoders.
use ion_dtn_contrib.Prelude.{ℕ, ◌≡◌, Bool, true, false, if◌then◌else◌, List, [], ◌++◌, none}
use ion_dtn_contrib.Wire.Size.{be, IsByte, IsU16, IsU32, IsU64}
use ion_dtn_contrib.Wire.Pointer.{octets, Points}
use ion_dtn_contrib.Tcpv4.Msg.{has_start}
use ion_dtn_contrib.Tcpv4.Msg.Types.{
  Tcpv4Contact, Tcpv4SessInit, Tcpv4XferSegment, Tcpv4XferAck, Tcpv4XferRefuse, Tcpv4SessTerm,
  Tcpv4MsgReject,
}

abbrev pub contact_layout : Tcpv4Contact → List ℕ
contact_layout m = be 1 m.version ++ be 1 m.flags

abbrev pub sess_init_layout : Tcpv4SessInit → List ℕ
sess_init_layout m =
    be 2 m.keepalive
    ++ (be 8 m.segment_mru
        ++ (be 8 m.transfer_mru
            ++ (be 2 m.node_id_len
                ++ (octets m.node_id ++ (be 4 m.sess_ext_len ++ octets m.sess_ext)))))

abbrev pub xfer_segment_layout : Tcpv4XferSegment → List ℕ
xfer_segment_layout m =
    be 1 m.flags
    ++ (be 8 m.transfer_id
        ++ ((if has_start m.flags then be 4 m.xfer_ext_len ++ octets m.xfer_ext else [])
            ++ be 8 m.data_length))

abbrev pub xfer_ack_layout : Tcpv4XferAck → List ℕ
xfer_ack_layout m = be 1 m.flags ++ (be 8 m.transfer_id ++ be 8 m.ack_length)

abbrev pub xfer_refuse_layout : Tcpv4XferRefuse → List ℕ
xfer_refuse_layout m = be 1 m.reason ++ be 8 m.transfer_id

abbrev pub sess_term_layout : Tcpv4SessTerm → List ℕ
sess_term_layout m = be 1 m.flags ++ be 1 m.reason

abbrev pub msg_reject_layout : Tcpv4MsgReject → List ℕ
msg_reject_layout m = be 1 m.reason ++ be 1 m.rejected_type

-- The ranges of the fields' C types, and pointers with as many octets as their lengths say.
pub record IsContact (m : Tcpv4Contact) : Type 0 where
  pub version : IsByte m.version
  pub flags : IsByte m.flags

pub record IsSessInit (m : Tcpv4SessInit) : Type 0 where
  pub keepalive : IsU16 m.keepalive
  pub segment_mru : IsU64 m.segment_mru
  pub transfer_mru : IsU64 m.transfer_mru
  pub node_id_len : IsU16 m.node_id_len
  pub node_id : Points m.node_id m.node_id_len
  pub sess_ext_len : IsU32 m.sess_ext_len
  pub sess_ext : Points m.sess_ext m.sess_ext_len

-- Only a START segment has extension items.
abbrev pub HasExt : Bool → Tcpv4XferSegment → Type 0
HasExt true m = Points m.xfer_ext m.xfer_ext_len
HasExt false m = (m.xfer_ext ≡ none) × (m.xfer_ext_len ≡ 0)

pub record IsXferSegment (m : Tcpv4XferSegment) : Type 0 where
  pub flags : IsByte m.flags
  pub transfer_id : IsU64 m.transfer_id
  pub xfer_ext_len : IsU32 m.xfer_ext_len
  pub xfer_ext : HasExt (has_start m.flags) m
  pub data_length : IsU64 m.data_length

pub record IsXferAck (m : Tcpv4XferAck) : Type 0 where
  pub flags : IsByte m.flags
  pub transfer_id : IsU64 m.transfer_id
  pub ack_length : IsU64 m.ack_length

pub record IsXferRefuse (m : Tcpv4XferRefuse) : Type 0 where
  pub reason : IsByte m.reason
  pub transfer_id : IsU64 m.transfer_id

pub record IsSessTerm (m : Tcpv4SessTerm) : Type 0 where
  pub flags : IsByte m.flags
  pub reason : IsByte m.reason

pub record IsMsgReject (m : Tcpv4MsgReject) : Type 0 where
  pub reason : IsByte m.reason
  pub rejected_type : IsByte m.rejected_type
