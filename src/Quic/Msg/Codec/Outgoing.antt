-- ===== src/Quic/Msg/Codec/Outgoing.antt =====
-- Whatever the program hands to an encoder of CLA/quic/src/quicmsg.c, KEEPALIVE and messages with NULL
-- for no octets included, is written in full or not at all.
use ion_dtn_contrib.Prelude.{
  ℕ, ◌^◌, ◌≤◌, ◌<◌, ◌≡◌, refl, Bool, true, false, List, [], ◌∷◌, length, none, some, ℤ, pos,
  minus_one,
}
use mathlib.Core.Path.{subst}
use ion_dtn_contrib.Wire.Pointer.{octets}
use ion_dtn_contrib.Wire.Writer.Laws.{Encodes}
use ion_dtn_contrib.Quic.Msg.{
  encode_sess_init, encode_xfer_segment_hdr, encode_sess_term, encode_keepalive, has_start,
}
use ion_dtn_contrib.Quic.Msg.Types.{QuicXferSegment, qmsg_keepalive}
use ion_dtn_contrib.Quic.Msg.Encoding
use ion_dtn_contrib.Quic.Msg.Codec.{
  Msg, wire, IsMsg, encode_quic, sess_init, xfer_segment, xfer_ack, xfer_refuse, sess_term,
  msg_reject,
}
use ion_dtn_contrib.Quic.Msg.Codec.Encode.{encode_quic-Encodes}

-- What the encoders write: KEEPALIVE has no fields.
pub data Outgoing : Type 0 where
  keepalive : Outgoing
  message : Msg → Outgoing

unfoldable pub encode_outgoing : ℕ → Outgoing → ℤ × List ℕ
encode_outgoing cap keepalive = encode_keepalive cap
encode_outgoing cap (message m) = encode_quic cap m

abbrev pub outgoing_wire : Outgoing → List ℕ
outgoing_wire keepalive = qmsg_keepalive ∷ []
outgoing_wire (message m) = wire m

-- The extension items of a segment: a segment that is no START has none, whatever its fields say.
abbrev ext_set : Bool → QuicXferSegment → QuicXferSegment
ext_set true m = record m { xfer_ext = some (octets m.xfer_ext) }
ext_set false m = record m { xfer_ext = none; xfer_ext_len = 0 }

-- The message with a pointer to no octets in place of each NULL.
abbrev pub without_null : Msg → Msg
without_null (sess_init m) =
    sess_init (record m { node_id = some (octets m.node_id); sess_ext = some (octets m.sess_ext) })
without_null (xfer_segment m) = xfer_segment (ext_set (has_start m.flags) m)
without_null (xfer_ack m) = xfer_ack m
without_null (xfer_refuse m) = xfer_refuse m
without_null (sess_term m) = sess_term (record m { sess_ext = some (octets m.sess_ext) })
without_null (msg_reject m) = msg_reject m

-- The fields are in the ranges of their C types, and a pointer has the octets that it claims or is
-- NULL and claims none.
abbrev pub IsOutgoing : Outgoing → Type 0
IsOutgoing keepalive = Unit {0}
IsOutgoing (message m) = IsMsg (without_null m)

segment_same :
    (cap : ℕ) (m : QuicXferSegment) (b : Bool)
    → has_start m.flags ≡ b
    → (encode_quic cap (xfer_segment (ext_set b m)) ≡ encode_quic cap (xfer_segment m))
      × (wire (xfer_segment (ext_set b m)) ≡ wire (xfer_segment m))
unfolding encode_quic encode_xfer_segment_hdr
segment_same cap m true e = (refl, refl)
segment_same cap m false e = (rw e refl, rw e refl)

-- NULL for no octets is written like a pointer to none.
same :
    (cap : ℕ) (m : Msg)
    → (encode_quic cap (without_null m) ≡ encode_quic cap m) × (wire (without_null m) ≡ wire m)
unfolding encode_quic encode_sess_init encode_sess_term
same cap (sess_init m) = (refl, refl)
same cap (xfer_segment m) = segment_same cap m (has_start m.flags) refl
same cap (xfer_ack m) = (refl, refl)
same cap (xfer_refuse m) = (refl, refl)
same cap (sess_term m) = (refl, refl)
same cap (msg_reject m) = (refl, refl)

outgoing_Encodes :
    (cap : ℕ) (m : Outgoing)
    → cap < 2 ^ 31
    → IsOutgoing m
    → Encodes cap (encode_outgoing cap m) (outgoing_wire m)
unfolding encode_outgoing
outgoing_Encodes cap keepalive small v = Encoding.encode_keepalive-Encodes cap small
outgoing_Encodes cap (message m) small v =
    let (e, f) = same cap m in
    subst (λ bs. Encodes cap (encode_quic cap m) bs) f
      (subst (λ r. Encodes cap r (wire (without_null m))) e
        (encode_quic-Encodes cap (without_null m) small v))

-- Where the message fits the buffer, the encoder writes its octets and returns their number. A
-- message is any whose fields are in their ranges and whose pointers have the octets claimed, or are
-- NULL and claim none.
pub quic_outgoing_fits :
    (cap : ℕ) (m : Outgoing)
    → cap < 2 ^ 31
    → IsOutgoing m
    → length (outgoing_wire m) ≤ cap
    → encode_outgoing cap m ≡ (pos (length (outgoing_wire m)), outgoing_wire m)
quic_outgoing_fits cap m small v fits = (outgoing_Encodes cap m small v).written fits

-- Where such a message is longer than the buffer, the encoder returns -1.
pub quic_outgoing_no_room :
    (cap : ℕ) (m : Outgoing)
    → cap < 2 ^ 31
    → IsOutgoing m
    → cap < length (outgoing_wire m)
    → (encode_outgoing cap m).0 ≡ minus_one
quic_outgoing_no_room cap m small v over = (outgoing_Encodes cap m small v).no_room over
