-- ===== src/Tcpv4/Msg/Codec.antt =====
-- The messages of CLA/tcpv4/src/tcpv4msg.c as one type, with the encoder and the decoder of each kind.
pub mod Encode
pub mod Decode
pub mod Outgoing
use ion_dtn_contrib.Prelude.{
  ℕ, zero, suc, ◌+◌, ◌^◌, ◌≤◌, ◌<◌, ◌≡◌, ◌≢◌, refl, ap, sym, ◌∙◌, true, false, Bool, if◌then◌else◌,
  List, [], ◌∷◌, ◌++◌, append_assoc, Option, none, some, All, All-append, length, length-append,
  take, ℤ, pos, minus_one, arith,
}
use mathlib.Core.Option
use ion_dtn_contrib.Wire.Size.{be, IsByte}
use ion_dtn_contrib.Wire.Octets.{be-IsByte}
use ion_dtn_contrib.Wire.Pointer.{octets, Points, IsBuffer}
use ion_dtn_contrib.Wire.Writer.Laws.{Encodes}
use ion_dtn_contrib.Wire.Framed.{decode_typed}
use ion_dtn_contrib.Wire.Framed.Laws.{
  decode_typed-Exact, decode_typed_part, decode_typed-Sound, decode_typed_other,
}
use ion_dtn_contrib.Tcpv4.Msg.{
  encode_contact, decode_contact, encode_sess_init, decode_sess_init, encode_xfer_segment_hdr,
  decode_xfer_segment_hdr, encode_xfer_ack, decode_xfer_ack, encode_xfer_refuse, decode_xfer_refuse,
  encode_sess_term, decode_sess_term, encode_msg_reject, decode_msg_reject, has_start,
}
use ion_dtn_contrib.Tcpv4.Msg.Types.{
  Tcpv4Contact, Tcpv4SessInit, Tcpv4XferSegment, Tcpv4XferAck, Tcpv4XferRefuse, Tcpv4SessTerm,
  Tcpv4MsgReject, tmsg_magic, tmsg_sess_init, tmsg_xfer_segment, tmsg_xfer_ack, tmsg_xfer_refuse,
  tmsg_sess_term, tmsg_msg_reject,
}
use ion_dtn_contrib.Tcpv4.Msg.Encoding
use ion_dtn_contrib.Tcpv4.Msg.Bodies
use ion_dtn_contrib.Tcpv4.Msg.Segment
use ion_dtn_contrib.Tcpv4.Msg.Contact
use ion_dtn_contrib.Tcpv4.Msg.Layout

pub data Msg : Type 0 where
  contact : Tcpv4Contact → Msg
  sess_init : Tcpv4SessInit → Msg
  xfer_segment : Tcpv4XferSegment → Msg
  xfer_ack : Tcpv4XferAck → Msg
  xfer_refuse : Tcpv4XferRefuse → Msg
  sess_term : Tcpv4SessTerm → Msg
  msg_reject : Tcpv4MsgReject → Msg

pub data Kind : Type 0 where
  contact_kind : Kind
  sess_init_kind : Kind
  xfer_segment_kind : Kind
  xfer_ack_kind : Kind
  xfer_refuse_kind : Kind
  sess_term_kind : Kind
  msg_reject_kind : Kind

-- The kind of a message, which the caller of a decoder knows from its first octet.
abbrev pub kind_of : Msg → Kind
kind_of (contact m) = contact_kind
kind_of (sess_init m) = sess_init_kind
kind_of (xfer_segment m) = xfer_segment_kind
kind_of (xfer_ack m) = xfer_ack_kind
kind_of (xfer_refuse m) = xfer_refuse_kind
kind_of (sess_term m) = sess_term_kind
kind_of (msg_reject m) = msg_reject_kind

unfoldable pub encode_tcpv4 : ℕ → Msg → ℤ × List ℕ
encode_tcpv4 cap (contact m) = encode_contact cap m
encode_tcpv4 cap (sess_init m) = encode_sess_init cap m
encode_tcpv4 cap (xfer_segment m) = encode_xfer_segment_hdr cap m
encode_tcpv4 cap (xfer_ack m) = encode_xfer_ack cap m
encode_tcpv4 cap (xfer_refuse m) = encode_xfer_refuse cap m
encode_tcpv4 cap (sess_term m) = encode_sess_term cap m
encode_tcpv4 cap (msg_reject m) = encode_msg_reject cap m

abbrev pub lift : {M : Type 0} → (M → Msg) → ℤ × Option M → ℤ × Option Msg
lift f (rc, m) = (rc, Option.map f m)

unfoldable pub decode_tcpv4 : Kind → List ℕ → ℤ × Option Msg
decode_tcpv4 contact_kind buf = lift contact (decode_contact buf)
decode_tcpv4 sess_init_kind buf = lift sess_init (decode_sess_init buf)
decode_tcpv4 xfer_segment_kind buf = lift xfer_segment (decode_xfer_segment_hdr buf)
decode_tcpv4 xfer_ack_kind buf = lift xfer_ack (decode_xfer_ack buf)
decode_tcpv4 xfer_refuse_kind buf = lift xfer_refuse (decode_xfer_refuse buf)
decode_tcpv4 sess_term_kind buf = lift sess_term (decode_sess_term buf)
decode_tcpv4 msg_reject_kind buf = lift msg_reject (decode_msg_reject buf)

-- The octets of a message on the wire.
abbrev pub wire : Msg → List ℕ
wire (contact m) = tmsg_magic ++ Layout.contact_layout m
wire (sess_init m) = tmsg_sess_init ∷ Layout.sess_init_layout m
wire (xfer_segment m) = tmsg_xfer_segment ∷ Layout.xfer_segment_layout m
wire (xfer_ack m) = tmsg_xfer_ack ∷ Layout.xfer_ack_layout m
wire (xfer_refuse m) = tmsg_xfer_refuse ∷ Layout.xfer_refuse_layout m
wire (sess_term m) = tmsg_sess_term ∷ Layout.sess_term_layout m
wire (msg_reject m) = tmsg_msg_reject ∷ Layout.msg_reject_layout m

-- The fields are in the ranges of their C types, and the pointers have the octets that they claim.
abbrev pub IsMsg : Msg → Type 0
IsMsg (contact m) = Layout.IsContact m
IsMsg (sess_init m) = Layout.IsSessInit m
IsMsg (xfer_segment m) = Layout.IsXferSegment m
IsMsg (xfer_ack m) = Layout.IsXferAck m
IsMsg (xfer_refuse m) = Layout.IsXferRefuse m
IsMsg (sess_term m) = Layout.IsSessTerm m
IsMsg (msg_reject m) = Layout.IsMsgReject m

-- The type octet of a message.
abbrev pub type_of : Kind → ℕ
type_of contact_kind = b'd'
type_of sess_init_kind = tmsg_sess_init
type_of xfer_segment_kind = tmsg_xfer_segment
type_of xfer_ack_kind = tmsg_xfer_ack
type_of xfer_refuse_kind = tmsg_xfer_refuse
type_of sess_term_kind = tmsg_sess_term
type_of msg_reject_kind = tmsg_msg_reject
