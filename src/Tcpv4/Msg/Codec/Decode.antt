-- ===== src/Tcpv4/Msg/Codec/Decode.antt =====
-- Each message of CLA/tcpv4/src/tcpv4msg.c is read back as it was written and asked for again while
-- octets are missing; what is read was written.
use ion_dtn_contrib.Prelude.{
  ℕ, suc, ◌+◌, ◌^◌, ◌≤◌, ◌<◌, ◌≡◌, ◌≢◌, refl, ap, ◌∙◌, List, ◌∷◌, ◌++◌, none, some, All, length,
  take, pos, minus_one, arith,
}
use mathlib.Core.Option
use ion_dtn_contrib.Wire.Size.{IsByte}
use ion_dtn_contrib.Wire.Pointer.{IsBuffer}
use ion_dtn_contrib.Wire.Framed.Laws.{
  decode_typed-Exact, decode_typed_part, decode_typed-Sound, decode_typed_other,
}
use ion_dtn_contrib.Tcpv4.Msg.{
  decode_sess_init, decode_xfer_segment_hdr, decode_xfer_ack, decode_xfer_refuse, decode_sess_term,
  decode_msg_reject,
}
use ion_dtn_contrib.Tcpv4.Msg.Types.{
  tmsg_sess_init, tmsg_xfer_segment, tmsg_xfer_ack, tmsg_xfer_refuse, tmsg_sess_term,
  tmsg_msg_reject,
}
use ion_dtn_contrib.Tcpv4.Msg.Bodies
use ion_dtn_contrib.Tcpv4.Msg.Segment
use ion_dtn_contrib.Tcpv4.Msg.Contact
use ion_dtn_contrib.Tcpv4.Msg.Codec.{
  Msg, Kind, kind_of, type_of, wire, IsMsg, encode_tcpv4, decode_tcpv4, lift, contact, sess_init,
  xfer_segment, xfer_ack, xfer_refuse, sess_term, msg_reject, contact_kind, sess_init_kind,
  xfer_segment_kind, xfer_ack_kind, xfer_refuse_kind, sess_term_kind, msg_reject_kind,
}
use ion_dtn_contrib.Tcpv4.Msg.Codec.Encode.{encode_tcpv4_fits, wire-IsBuffer, wire_bytes}

decode_wire :
    (m : Msg) (rest : List ℕ)
    → IsMsg m
    → IsBuffer (wire m ++ rest)
    → decode_tcpv4 (kind_of m) (wire m ++ rest) ≡ (pos (length (wire m)), some m)
unfolding decode_tcpv4 decode_sess_init decode_xfer_segment_hdr decode_xfer_ack decode_xfer_refuse
    decode_sess_term decode_msg_reject
decode_wire (contact m) rest v b = ap (lift contact) (Contact.decode_contact-Exact m v rest b)
decode_wire (sess_init m) rest v b =
    ap (lift sess_init) (decode_typed-Exact _ _ m _ rest (Bodies.sess_init_body-Exact m v) b)
decode_wire (xfer_segment m) rest v b =
    ap (lift xfer_segment) (decode_typed-Exact _ _ m _ rest (Segment.xfer_segment_body-Exact m v) b)
decode_wire (xfer_ack m) rest v b =
    ap (lift xfer_ack) (decode_typed-Exact _ _ m _ rest (Bodies.xfer_ack_body-Exact m v) b)
decode_wire (xfer_refuse m) rest v b =
    ap (lift xfer_refuse) (decode_typed-Exact _ _ m _ rest (Bodies.xfer_refuse_body-Exact m v) b)
decode_wire (sess_term m) rest v b =
    ap (lift sess_term) (decode_typed-Exact _ _ m _ rest (Bodies.sess_term_body-Exact m v) b)
decode_wire (msg_reject m) rest v b =
    ap (lift msg_reject) (decode_typed-Exact _ _ m _ rest (Bodies.msg_reject_body-Exact m v) b)

-- A message that fits the buffer is read back from it, whatever follows, and both calls return its
-- length.
pub decode_tcpv4-encode_tcpv4 :
    (cap : ℕ) (m : Msg) (rest : List ℕ)
    → cap < 2 ^ 31
    → IsMsg m
    → length (wire m) ≤ cap
    → All IsByte rest
    → length (wire m) + length rest < 2 ^ 31
    → decode_tcpv4 (kind_of m) ((encode_tcpv4 cap m).1 ++ rest) ≡ ((encode_tcpv4 cap m).0, some m)
decode_tcpv4-encode_tcpv4 cap m rest small v fits b room =
    rw (encode_tcpv4_fits cap m small v fits) (decode_wire m rest v (wire-IsBuffer m rest v b room))

part :
    (m : Msg) (front : List ℕ) (x : ℕ) (back : List ℕ)
    → IsMsg m
    → IsBuffer (wire m)
    → wire m ≡ front ++ (x ∷ back)
    → (decode_tcpv4 (kind_of m) front).0 ≡ pos 0
unfolding decode_tcpv4 decode_sess_init decode_xfer_segment_hdr decode_xfer_ack decode_xfer_refuse
    decode_sess_term decode_msg_reject
part (contact m) front x back v b e = Contact.decode_contact_part m v front x back b e
part (sess_init m) front x back v b e =
    decode_typed_part _ _ m _ front x back (omega arith) Bodies.sess_init_body-Stable
      (Bodies.sess_init_body-Exact m v) b e
part (xfer_segment m) front x back v b e =
    decode_typed_part _ _ m _ front x back (omega arith) Segment.xfer_segment_body-Stable
      (Segment.xfer_segment_body-Exact m v) b e
part (xfer_ack m) front x back v b e =
    decode_typed_part _ _ m _ front x back (omega arith) Bodies.xfer_ack_body-Stable
      (Bodies.xfer_ack_body-Exact m v) b e
part (xfer_refuse m) front x back v b e =
    decode_typed_part _ _ m _ front x back (omega arith) Bodies.xfer_refuse_body-Stable
      (Bodies.xfer_refuse_body-Exact m v) b e
part (sess_term m) front x back v b e =
    decode_typed_part _ _ m _ front x back (omega arith) Bodies.sess_term_body-Stable
      (Bodies.sess_term_body-Exact m v) b e
part (msg_reject m) front x back v b e =
    decode_typed_part _ _ m _ front x back (omega arith) Bodies.msg_reject_body-Stable
      (Bodies.msg_reject_body-Exact m v) b e

-- On a message of which octets are missing at the end, the decoder returns 0: more input is needed.
pub decode_tcpv4_part :
    (m : Msg) (front : List ℕ) (x : ℕ) (back : List ℕ)
    → IsMsg m
    → length (wire m) < 2 ^ 31
    → wire m ≡ front ++ (x ∷ back)
    → (decode_tcpv4 (kind_of m) front).0 ≡ pos 0
decode_tcpv4_part m front x back v small e =
    part m front x back v (record { bytes = wire_bytes m v; small = small }) e

-- What a successful call of a decoder says of its input.
pub record Decoded (k : Kind) (buf : List ℕ) (n : ℕ) : Type 0 where
  pub msg : Msg
  pub returned : (decode_tcpv4 k buf).1 ≡ some msg
  pub same_kind : kind_of msg ≡ k
  pub well_formed : IsMsg msg
  pub consumed : take n buf ≡ wire msg
  pub size : n ≡ length (wire msg)

-- On a message whose type octet is not its own, a decoder other than that of the contact header
-- returns -1 and stores nothing.
pub decode_tcpv4_other :
    (k : Kind) (t : ℕ) (rest : List ℕ)
    → k ≢ contact_kind
    → t ≢ type_of k
    → decode_tcpv4 k (t ∷ rest) ≡ (minus_one, none)
unfolding decode_tcpv4 decode_sess_init decode_xfer_segment_hdr decode_xfer_ack decode_xfer_refuse
    decode_sess_term decode_msg_reject
decode_tcpv4_other contact_kind t rest c h = absurd (c refl)
decode_tcpv4_other sess_init_kind t rest c h = ap (lift sess_init) (decode_typed_other _ _ t rest h)
decode_tcpv4_other xfer_segment_kind t rest c h =
    ap (lift xfer_segment) (decode_typed_other _ _ t rest h)
decode_tcpv4_other xfer_ack_kind t rest c h = ap (lift xfer_ack) (decode_typed_other _ _ t rest h)
decode_tcpv4_other xfer_refuse_kind t rest c h =
    ap (lift xfer_refuse) (decode_typed_other _ _ t rest h)
decode_tcpv4_other sess_term_kind t rest c h = ap (lift sess_term) (decode_typed_other _ _ t rest h)
decode_tcpv4_other msg_reject_kind t rest c h =
    ap (lift msg_reject) (decode_typed_other _ _ t rest h)

-- A decoder that returns a positive number has consumed that many octets, and these are the octets
-- of the message that it stored, a well-formed one of its kind.
pub decode_tcpv4-Sound :
    (k : Kind) (buf : List ℕ) (n : ℕ)
    → IsBuffer buf
    → (decode_tcpv4 k buf).0 ≡ pos (suc n)
    → Decoded k buf (suc n)
unfolding decode_tcpv4 decode_sess_init decode_xfer_segment_hdr decode_xfer_ack decode_xfer_refuse
    decode_sess_term decode_msg_reject
decode_tcpv4-Sound contact_kind buf n b e =
    let (m, (ret, well, front), size) = Contact.decode_contact-Sound buf n b e in
    record {
      msg = contact m;
      returned = ap (Option.map contact) ret;
      same_kind = refl;
      well_formed = well;
      consumed = front;
      size = size;
    }
decode_tcpv4-Sound sess_init_kind buf n b e =
    let (m, bs, ret, (lay, well), front, size) =
      decode_typed-Sound tmsg_sess_init _ _ buf n Bodies.sess_init_body-Sound b e in
    record {
      msg = sess_init m;
      returned = ap (Option.map sess_init) ret;
      same_kind = refl;
      well_formed = well;
      consumed = front ∙ ap (λ l. tmsg_sess_init ∷ l) lay;
      size = omega (arith, size, ap length lay);
    }
decode_tcpv4-Sound xfer_segment_kind buf n b e =
    let (m, bs, ret, (lay, well), front, size) =
      decode_typed-Sound tmsg_xfer_segment _ _ buf n Segment.xfer_segment_body-Sound b e in
    record {
      msg = xfer_segment m;
      returned = ap (Option.map xfer_segment) ret;
      same_kind = refl;
      well_formed = well;
      consumed = front ∙ ap (λ l. tmsg_xfer_segment ∷ l) lay;
      size = omega (arith, size, ap length lay);
    }
decode_tcpv4-Sound xfer_ack_kind buf n b e =
    let (m, bs, ret, (lay, well), front, size) =
      decode_typed-Sound tmsg_xfer_ack _ _ buf n Bodies.xfer_ack_body-Sound b e in
    record {
      msg = xfer_ack m;
      returned = ap (Option.map xfer_ack) ret;
      same_kind = refl;
      well_formed = well;
      consumed = front ∙ ap (λ l. tmsg_xfer_ack ∷ l) lay;
      size = omega (arith, size, ap length lay);
    }
decode_tcpv4-Sound xfer_refuse_kind buf n b e =
    let (m, bs, ret, (lay, well), front, size) =
      decode_typed-Sound tmsg_xfer_refuse _ _ buf n Bodies.xfer_refuse_body-Sound b e in
    record {
      msg = xfer_refuse m;
      returned = ap (Option.map xfer_refuse) ret;
      same_kind = refl;
      well_formed = well;
      consumed = front ∙ ap (λ l. tmsg_xfer_refuse ∷ l) lay;
      size = omega (arith, size, ap length lay);
    }
decode_tcpv4-Sound sess_term_kind buf n b e =
    let (m, bs, ret, (lay, well), front, size) =
      decode_typed-Sound tmsg_sess_term _ _ buf n Bodies.sess_term_body-Sound b e in
    record {
      msg = sess_term m;
      returned = ap (Option.map sess_term) ret;
      same_kind = refl;
      well_formed = well;
      consumed = front ∙ ap (λ l. tmsg_sess_term ∷ l) lay;
      size = omega (arith, size, ap length lay);
    }
decode_tcpv4-Sound msg_reject_kind buf n b e =
    let (m, bs, ret, (lay, well), front, size) =
      decode_typed-Sound tmsg_msg_reject _ _ buf n Bodies.msg_reject_body-Sound b e in
    record {
      msg = msg_reject m;
      returned = ap (Option.map msg_reject) ret;
      same_kind = refl;
      well_formed = well;
      consumed = front ∙ ap (λ l. tmsg_msg_reject ∷ l) lay;
      size = omega (arith, size, ap length lay);
    }
