-- ===== src/Tcpv4/Msg.antt =====
-- The wire-message codec of CLA/tcpv4/src/tcpv4msg.c. An encoder takes the size of the buffer and
-- returns the C result with the octets written; a decoder takes the buffer and returns the C result
-- with the message, `none` where it returns before `*m` is written.
pub mod Types
pub mod Layout
pub mod Encoding
pub mod Bodies
pub mod Contact
pub mod Opening
pub mod Segment
pub mod Codec
use ion_dtn_contrib.Prelude.{
  ℕ, ◌^◌, Bool, true, false, not, ◌&&◌, ◌==◌, list_eq, if◌then◌else◌, List, [], ◌∷◌, Option, none,
  some, ℤ, pos, minus_one, bit_and,
}
use ion_dtn_contrib.Wire.Pointer.{octets}
use ion_dtn_contrib.Wire.Writer.{◌▷◌, w_init, w_u8, w_u16, w_u32, w_u64, w_bytes, w_result}
use ion_dtn_contrib.Wire.Reader.{
  Reader, Read, give, ◌>>=◌, r_init, r_u8, r_u16, r_u32, r_u64, r_bytes, r_result,
}
use ion_dtn_contrib.Wire.Framed.{decode_typed}
use Types.{
  Tcpv4Contact, Tcpv4SessInit, Tcpv4XferSegment, Tcpv4XferAck, Tcpv4XferRefuse, Tcpv4SessTerm,
  Tcpv4MsgReject, tmsg_magic, tmsg_magic_len, tmsg_xfer_segment, tmsg_xfer_ack, tmsg_xfer_refuse,
  tmsg_keepalive, tmsg_sess_term, tmsg_msg_reject, tmsg_sess_init, tmsg_flag_start,
}

-- `m->flags & TMSG_FLAG_START`, as a truth value.
abbrev pub has_start : ℕ → Bool
has_start flags = not (bit_and flags tmsg_flag_start == 0)

pub encode_contact : ℕ → Tcpv4Contact → ℤ × List ℕ
encode_contact cap m =
    w_result (w_init cap ▷ w_bytes tmsg_magic tmsg_magic_len ▷ w_u8 m.version ▷ w_u8 m.flags)

pub encode_sess_init : ℕ → Tcpv4SessInit → ℤ × List ℕ
encode_sess_init cap m = w_result (
    w_init cap
    ▷ w_u8 tmsg_sess_init
    ▷ w_u16 m.keepalive
    ▷ w_u64 m.segment_mru
    ▷ w_u64 m.transfer_mru
    ▷ w_u16 m.node_id_len
    ▷ w_bytes (octets m.node_id) m.node_id_len
    ▷ w_u32 m.sess_ext_len
    ▷ w_bytes (octets m.sess_ext) m.sess_ext_len)

pub encode_xfer_segment_hdr : ℕ → Tcpv4XferSegment → ℤ × List ℕ
encode_xfer_segment_hdr cap m =
    let w = w_init cap ▷ w_u8 tmsg_xfer_segment ▷ w_u8 m.flags ▷ w_u64 m.transfer_id in
    let w' =
      if has_start m.flags
      then w ▷ w_u32 m.xfer_ext_len ▷ w_bytes (octets m.xfer_ext) m.xfer_ext_len
      else w in
    w_result (w' ▷ w_u64 m.data_length)

pub encode_xfer_ack : ℕ → Tcpv4XferAck → ℤ × List ℕ
encode_xfer_ack cap m =
    w_result
      (w_init cap ▷ w_u8 tmsg_xfer_ack ▷ w_u8 m.flags ▷ w_u64 m.transfer_id ▷ w_u64 m.ack_length)

pub encode_xfer_refuse : ℕ → Tcpv4XferRefuse → ℤ × List ℕ
encode_xfer_refuse cap m =
    w_result (w_init cap ▷ w_u8 tmsg_xfer_refuse ▷ w_u8 m.reason ▷ w_u64 m.transfer_id)

pub encode_keepalive : ℕ → ℤ × List ℕ
encode_keepalive cap = w_result (w_init cap ▷ w_u8 tmsg_keepalive)

pub encode_sess_term : ℕ → Tcpv4SessTerm → ℤ × List ℕ
encode_sess_term cap m = w_result (w_init cap ▷ w_u8 tmsg_sess_term ▷ w_u8 m.flags ▷ w_u8 m.reason)

pub encode_msg_reject : ℕ → Tcpv4MsgReject → ℤ × List ℕ
encode_msg_reject cap m =
    w_result (w_init cap ▷ w_u8 tmsg_msg_reject ▷ w_u8 m.reason ▷ w_u8 m.rejected_type)

pub contact_body : Read Tcpv4Contact
contact_body = do version ← r_u8; flags ← r_u8; give (record { version = version; flags = flags })

-- A short buffer makes `magic` NULL, and is no reason to reject.
pub decode_contact : List ℕ → ℤ × Option Tcpv4Contact
decode_contact buf =
    let (magic, r) = r_bytes tmsg_magic_len (r_init buf) in
    let wrong : Bool = elim magic [ none ↦ false | some bs ↦ not (list_eq bs tmsg_magic) ] in
    if wrong then (minus_one, none) else (let (m, r') = contact_body r in (r_result r', some m))

pub sess_init_body : Read Tcpv4SessInit
sess_init_body = do
  keepalive ← r_u16
  segment_mru ← r_u64
  transfer_mru ← r_u64
  node_id_len ← r_u16
  node_id ← r_bytes node_id_len
  sess_ext_len ← r_u32
  sess_ext ← r_bytes sess_ext_len
  give (record {
    keepalive = keepalive;
    segment_mru = segment_mru;
    transfer_mru = transfer_mru;
    node_id = node_id;
    node_id_len = node_id_len;
    sess_ext = sess_ext;
    sess_ext_len = sess_ext_len;
  })

pub decode_sess_init : List ℕ → ℤ × Option Tcpv4SessInit
decode_sess_init = decode_typed tmsg_sess_init sess_init_body

-- The rest of the header, behind the extension items that only a START segment has.
pub xfer_segment_tail : ℕ → ℕ → Option (List ℕ) → ℕ → Read Tcpv4XferSegment
xfer_segment_tail flags transfer_id xfer_ext xfer_ext_len = do
  data_length ← r_u64
  give (record {
    flags = flags;
    transfer_id = transfer_id;
    xfer_ext = xfer_ext;
    xfer_ext_len = xfer_ext_len;
    data_length = data_length;
  })

pub xfer_segment_start : ℕ → ℕ → Read Tcpv4XferSegment
xfer_segment_start flags transfer_id = do
  xfer_ext_len ← r_u32
  xfer_ext ← r_bytes xfer_ext_len
  xfer_segment_tail flags transfer_id xfer_ext xfer_ext_len

pub xfer_segment_body : Read Tcpv4XferSegment
xfer_segment_body = do
  flags ← r_u8
  transfer_id ← r_u64
  if has_start flags
      then xfer_segment_start flags transfer_id
      else xfer_segment_tail flags transfer_id none 0

unfoldable pub decode_xfer_segment_hdr : List ℕ → ℤ × Option Tcpv4XferSegment
decode_xfer_segment_hdr = decode_typed tmsg_xfer_segment xfer_segment_body

pub xfer_ack_body : Read Tcpv4XferAck
xfer_ack_body = do
  flags ← r_u8
  transfer_id ← r_u64
  ack_length ← r_u64
  give (record { flags = flags; transfer_id = transfer_id; ack_length = ack_length })

pub decode_xfer_ack : List ℕ → ℤ × Option Tcpv4XferAck
decode_xfer_ack = decode_typed tmsg_xfer_ack xfer_ack_body

pub xfer_refuse_body : Read Tcpv4XferRefuse
xfer_refuse_body = do
  reason ← r_u8
  transfer_id ← r_u64
  give (record { reason = reason; transfer_id = transfer_id })

pub decode_xfer_refuse : List ℕ → ℤ × Option Tcpv4XferRefuse
decode_xfer_refuse = decode_typed tmsg_xfer_refuse xfer_refuse_body

unfoldable pub sess_term_body : Read Tcpv4SessTerm
sess_term_body = do flags ← r_u8; reason ← r_u8; give (record { flags = flags; reason = reason })

unfoldable pub decode_sess_term : List ℕ → ℤ × Option Tcpv4SessTerm
decode_sess_term = decode_typed tmsg_sess_term sess_term_body

pub msg_reject_body : Read Tcpv4MsgReject
msg_reject_body = do
  reason ← r_u8
  rejected_type ← r_u8
  give (record { reason = reason; rejected_type = rejected_type })

pub decode_msg_reject : List ℕ → ℤ × Option Tcpv4MsgReject
decode_msg_reject = decode_typed tmsg_msg_reject msg_reject_body
