-- ===== src/Tcpv4/Msg/Opening.antt =====
-- The two messages that open a session, as CLA/tcpv4/src/tcpv4msg.c writes and reads them.
use ion_dtn_contrib.Prelude.{
  ℕ, suc, ◌^◌, ◌≤◌, ◌<◌, ◌≡◌, sym, ap, ◌∙◌, [], ◌∷◌, ◌++◌, append-nil, length, none, some, pos,
  arith,
}
use mathlib.Core.Path.{subst}
use ion_dtn_contrib.Wire.Pointer.{IsBuffer}
use ion_dtn_contrib.Wire.Framed.Laws.{decode_typed-Exact}
use ion_dtn_contrib.Tcpv4.Msg.{
  encode_contact, decode_contact, encode_sess_init, decode_sess_init, sess_init_body,
}
use ion_dtn_contrib.Tcpv4.Msg.Types.{Tcpv4Contact, Tcpv4SessInit, tmsg_magic, tmsg_sess_init}
use ion_dtn_contrib.Tcpv4.Msg.Layout
use ion_dtn_contrib.Tcpv4.Msg.Encoding.{encode_contact-Encodes, encode_sess_init-Encodes}
use ion_dtn_contrib.Tcpv4.Msg.Bodies.{sess_init_body-Exact}
use ion_dtn_contrib.Tcpv4.Msg.Contact.{decode_contact-Exact}

pub encode_contact_on :
    (m : Tcpv4Contact)
    → Layout.IsContact m
    → encode_contact 6 m ≡ (pos 6, tmsg_magic ++ Layout.contact_layout m)
encode_contact_on m v = (encode_contact-Encodes 6 m (omega arith) v).written (omega arith)

pub decode_contact_on :
    (m : Tcpv4Contact)
    → Layout.IsContact m
    → IsBuffer (tmsg_magic ++ Layout.contact_layout m)
    → decode_contact (tmsg_magic ++ Layout.contact_layout m) ≡ (pos 6, some m)
decode_contact_on m v b = decode_contact-Exact m v [] b

-- Without session extension items the encoder has a NULL pointer, and the decoder one to no octets.
pub encode_sess_init_on :
    (m : Tcpv4SessInit) (cap : ℕ)
    → cap < 2 ^ 31
    → Layout.IsSessInit m
    → length (tmsg_sess_init ∷ Layout.sess_init_layout m) ≤ cap
    → m.sess_ext ≡ some []
    → encode_sess_init cap (record m { sess_ext = none }) ≡ (
      pos (length (tmsg_sess_init ∷ Layout.sess_init_layout m)),
      tmsg_sess_init ∷ Layout.sess_init_layout m,
    )
unfolding encode_sess_init
encode_sess_init_on m cap small v fits e =
    ap (λ p. encode_sess_init cap (record m { sess_ext = p })) (sym e)
    ∙ (encode_sess_init-Encodes cap m small v).written fits

pub decode_sess_init_on :
    (m : Tcpv4SessInit)
    → Layout.IsSessInit m
    → IsBuffer (tmsg_sess_init ∷ Layout.sess_init_layout m)
    → decode_sess_init (tmsg_sess_init ∷ Layout.sess_init_layout m)
      ≡ (pos (length (tmsg_sess_init ∷ Layout.sess_init_layout m)), some m)
unfolding decode_sess_init
decode_sess_init_on m v b =
    let layout = Layout.sess_init_layout m in
    let e = append-nil layout in
    subst (λ l. decode_sess_init (tmsg_sess_init ∷ l) ≡ (pos (suc (length layout)), some m)) e
      (decode_typed-Exact tmsg_sess_init sess_init_body m layout [] (sess_init_body-Exact m v)
        (subst (λ l. IsBuffer (tmsg_sess_init ∷ l)) (sym e) b))
