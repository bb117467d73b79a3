-- ===== src/Quic/Msg/Codec.antt =====
-- The messages of CLA/quic/src/quicmsg.c as one type, with the encoder and the decoder of each kind.
pub mod Encode
pub mod Decode
pub mod Outgoing
use ion_dtn_contrib.Prelude.{
  ℕ, zero, suc, ◌+◌, ◌^◌, ◌≤◌, ◌<◌, ◌≡◌, ◌≢◌, refl, ap, sym, ◌∙◌, true, false, Bool, if◌then◌else◌,
  List, [], ◌∷◌, ◌++◌, append_assoc, Option, none, some, All, All-append, length, length-append,
  take, ℤ, pos, minus_one, arith,
}
use mathlib.Core.Option
use ion_dtn_contrib.Wire.Size.{be, IsByte}
use ion_dtn_contrib.Wire.Octets.{be-IsByte}
use ion_dtn_contrib.Wire.Pointer.{octets, Points, IsBuffer}
use ion_dtn_contrib.Wire.Writer.Laws.{Encodes}
use ion_dtn_contrib.Wire.Framed.{decode_typed}
use ion_dtn_contrib.Wire.Framed.Laws.{
  decode_typed-Exact, decode_typed_part, decode_typed-Sound, decode_typed_other,
}
use ion_dtn_contrib.Quic.Msg.{
  encode_sess_init, decode_sess_init, encode_xfer_segment_hdr, decode_xfer_segment_hdr,
  encode_xfer_ack, decode_xfer_ack, encode_xfer_refuse, decode_xfer_refuse, encode_sess_term,
  decode_sess_term, encode_msg_reject, decode_msg_reject, has_start,
}
use ion_dtn_contrib.Quic.Msg.Types.{
  QuicSessInit, QuicXferSegment, QuicXferAck, QuicXferRefuse, QuicSessTerm, QuicMsgReject,
  qmsg_sess_init, qmsg_xfer_segment, qmsg_xfer_ack, qmsg_xfer_refuse, qmsg_sess_term,
  qmsg_msg_reject,
}
use ion_dtn_contrib.Quic.Msg.Encoding
use ion_dtn_contrib.Quic.Msg.Bodies
use ion_dtn_contrib.Quic.Msg.Segment
use ion_dtn_contrib.Quic.Msg.Layout

pub data Msg : Type 0 where
  sess_init : QuicSessInit → Msg
  xfer_segment : QuicXferSegment → Msg
  xfer_ack : QuicXferAck → Msg
  xfer_refuse : QuicXferRefuse → Msg
  sess_term : QuicSessTerm → Msg
  msg_reject : QuicMsgReject → Msg

pub data Kind : Type 0 where
  sess_init_kind : Kind
  xfer_segment_kind : Kind
  xfer_ack_kind : Kind
  xfer_refuse_kind : Kind
  sess_term_kind : Kind
  msg_reject_kind : Kind

-- The kind of a message, which the caller of a decoder knows from its first octet.
abbrev pub kind_of : Msg → Kind
kind_of (sess_init m) = sess_init_kind
kind_of (xfer_segment m) = xfer_segment_kind
kind_of (xfer_ack m) = xfer_ack_kind
kind_of (xfer_refuse m) = xfer_refuse_kind
kind_of (sess_term m) = sess_term_kind
kind_of (msg_reject m) = msg_reject_kind

unfoldable pub encode_quic : ℕ → Msg → ℤ × List ℕ
encode_quic cap (sess_init m) = encode_sess_init cap m
encode_quic cap (xfer_segment m) = encode_xfer_segment_hdr cap m
encode_quic cap (xfer_ack m) = encode_xfer_ack cap m
encode_quic cap (xfer_refuse m) = encode_xfer_refuse cap m
encode_quic cap (sess_term m) = encode_sess_term cap m
encode_quic cap (msg_reject m) = encode_msg_reject cap m

abbrev pub lift : {M : Type 0} → (M → Msg) → ℤ × Option M → ℤ × Option Msg
lift f (rc, m) = (rc, Option.map f m)

unfoldable pub decode_quic : Kind → List ℕ → ℤ × Option Msg
decode_quic sess_init_kind buf = lift sess_init (decode_sess_init buf)
decode_quic xfer_segment_kind buf = lift xfer_segment (decode_xfer_segment_hdr buf)
decode_quic xfer_ack_kind buf = lift xfer_ack (decode_xfer_ack buf)
decode_quic xfer_refuse_kind buf = lift xfer_refuse (decode_xfer_refuse buf)
decode_quic sess_term_kind buf = lift sess_term (decode_sess_term buf)
decode_quic msg_reject_kind buf = lift msg_reject (decode_msg_reject buf)

-- The octets of a message on the wire.
abbrev pub wire : Msg → List ℕ
wire (sess_init m) = qmsg_sess_init ∷ Layout.sess_init_layout m
wire (xfer_segment m) = qmsg_xfer_segment ∷ Layout.xfer_segment_layout m
wire (xfer_ack m) = qmsg_xfer_ack ∷ Layout.xfer_ack_layout m
wire (xfer_refuse m) = qmsg_xfer_refuse ∷ Layout.xfer_refuse_layout m
wire (sess_term m) = qmsg_sess_term ∷ Layout.sess_term_layout m
wire (msg_reject m) = qmsg_msg_reject ∷ Layout.msg_reject_layout m

-- The fields are in the ranges of their C types, and the pointers have the octets that they claim.
abbrev pub IsMsg : Msg → Type 0
IsMsg (sess_init m) = Layout.IsSessInit m
IsMsg (xfer_segment m) = Layout.IsXferSegment m
IsMsg (xfer_ack m) = Layout.IsXferAck m
IsMsg (xfer_refuse m) = Layout.IsXferRefuse m
IsMsg (sess_term m) = Layout.IsSessTerm m
IsMsg (msg_reject m) = Layout.IsMsgReject m

-- The type octet of a message.
abbrev pub type_of : Kind → ℕ
type_of sess_init_kind = qmsg_sess_init
type_of xfer_segment_kind = qmsg_xfer_segment
type_of xfer_ack_kind = qmsg_xfer_ack
type_of xfer_refuse_kind = qmsg_xfer_refuse
type_of sess_term_kind = qmsg_sess_term
type_of msg_reject_kind = qmsg_msg_reject
