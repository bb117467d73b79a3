-- ===== src/Quic/Tests.antt =====
-- Runs of the QUICCL codec, and its theorems at concrete messages.
use ion_dtn_contrib.Prelude.{
  length, ℕ, ◌≡◌, refl, List, [], ◌∷◌, ◌++◌, none, some, pos, minus_one, arith,
}
use ion_dtn_contrib.Wire.Framed.{decode_typed}
use ion_dtn_contrib.Wire.Reader.{r_init, r_u8, r_result, ◌>>=◌}
use ion_dtn_contrib.Quic.Msg.{decode_msg_reject, msg_reject_body}
use ion_dtn_contrib.Quic.Msg.Types.{QuicXferSegment}
use ion_dtn_contrib.Quic.Msg.Codec.{
  xfer_segment, xfer_segment_kind, msg_reject_kind, encode_quic, decode_quic, IsMsg,
}
use ion_dtn_contrib.Quic.Msg.Codec.Outgoing.{
  Outgoing, IsOutgoing, message, encode_outgoing, outgoing_wire, quic_outgoing_fits,
  quic_outgoing_no_room,
}
use ion_dtn_contrib.Quic.Msg.Codec.Decode.{
  Decoded, decode_quic-encode_quic, decode_quic_part, decode_quic_other, decode_quic-Sound,
}

-- The first segment of a bundle, with one extension item.
abbrev opening : QuicXferSegment
opening = record {
  flags = 2;
  segment_id = 0;
  total_segments = 3;
  transfer_id = 17;
  xfer_ext = some (0 ∷ 0 ∷ 1 ∷ 0 ∷ 0 ∷ []);
  xfer_ext_len = 5;
  segment_length = 1200;
  bundle_length = 3000;
  service_mode = 1;
}

opening-IsXferSegment : IsMsg (xfer_segment opening)
opening-IsXferSegment = record {
  flags = omega arith;
  segment_id = omega arith;
  total_segments = omega arith;
  transfer_id = omega arith;
  xfer_ext_len = omega arith;
  xfer_ext = record { set = refl; size = refl; bytes = omega arith };
  segment_length = omega arith;
  bundle_length = omega arith;
  service_mode = omega arith;
}

-- A START segment without extension items, and NULL for them.
abbrev bare_opening : Outgoing
bare_opening = message (xfer_segment (record opening { xfer_ext = none; xfer_ext_len = 0 }))

bare_opening-IsOutgoing : IsOutgoing bare_opening
bare_opening-IsOutgoing = record {
  flags = omega arith;
  segment_id = omega arith;
  total_segments = omega arith;
  transfer_id = omega arith;
  xfer_ext_len = omega arith;
  xfer_ext = record { set = refl; size = refl; bytes = tt };
  segment_length = omega arith;
  bundle_length = omega arith;
  service_mode = omega arith;
}

quic_outgoing_fits_example :
    encode_outgoing 64 bare_opening
    ≡ (pos (length (outgoing_wire bare_opening)), outgoing_wire bare_opening)
quic_outgoing_fits_example =
    quic_outgoing_fits 64 bare_opening (omega arith) bare_opening-IsOutgoing (omega arith)

quic_outgoing_no_room_example : (encode_outgoing 34 bare_opening).0 ≡ minus_one
quic_outgoing_no_room_example =
    quic_outgoing_no_room 34 bare_opening (omega arith) bare_opening-IsOutgoing (omega arith)

decode_quic-encode_quic_example :
    decode_quic xfer_segment_kind ((encode_quic 64 (xfer_segment opening)).1 ++ (9 ∷ 9 ∷ []))
    ≡ ((encode_quic 64 (xfer_segment opening)).0, some (xfer_segment opening))
decode_quic-encode_quic_example =
    decode_quic-encode_quic 64 (xfer_segment opening) (9 ∷ 9 ∷ []) (omega arith)
      opening-IsXferSegment (omega arith) (omega arith) (omega arith)

decode_quic_part_example : (decode_quic xfer_segment_kind (2 ∷ 2 ∷ 0 ∷ [])).0 ≡ pos 0
decode_quic_part_example =
    decode_quic_part (xfer_segment opening) (2 ∷ 2 ∷ 0 ∷ []) 0 _ opening-IsXferSegment (omega arith)
      refl

decode_quic_other_example : decode_quic xfer_segment_kind (5 ∷ 0 ∷ []) ≡ (minus_one, none)
decode_quic_other_example = decode_quic_other xfer_segment_kind 5 (0 ∷ []) (omega arith)

-- MSG_REJECT of a message of type 9, and an octet of the next message.
abbrev rejection : List ℕ
rejection = 7 ∷ 9 ∷ 1 ∷ 4 ∷ []

decode_quic-Sound_example : Decoded msg_reject_kind rejection 3
unfolding decode_quic decode_msg_reject msg_reject_body decode_typed r_init r_u8 ◌>>=◌ r_result
decode_quic-Sound_example =
    decode_quic-Sound msg_reject_kind rejection 2
      (record { bytes = omega arith; small = omega arith }) refl
