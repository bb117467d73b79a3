-- ===== src/Wire/Framed.antt =====
-- The shape of the decoders of CLA/tcpv4/src/tcpv4msg.c and CLA/quic/src/quicmsg.c: an octet with
-- the message type, then the fields of the message.
pub mod Laws
use ion_dtn_contrib.Prelude.{
  ℕ, Bool, true, false, ◌==◌, if◌then◌else◌, List, Option, none, some, ℤ, pos, minus_one,
}
use ion_dtn_contrib.Wire.Reader.{Read, r_init, r_u8, r_result}

-- The message is `none` where the decoder returns before it writes to `*m`.
unfoldable pub decode_typed : {M : Type 0} → ℕ → Read M → List ℕ → ℤ × Option M
decode_typed type body buf =
    let (t, r) = r_u8 (r_init buf) in
    if t == type
    then (let (m, r') = body r in (r_result r', some m))
    else (if r.ok then minus_one else pos 0, none)
