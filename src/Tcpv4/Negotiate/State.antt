-- ===== src/Tcpv4/Negotiate/State.antt =====
-- The fields of Tcpv4Conn (CLA/tcpv4/src/tcpv4sessint.h) that CLA/tcpv4/src/tcpv4negotiate.c reads and
-- writes, the part of the configuration that it reads, and the calls with which it reads and writes.
-- The seconds since the last traffic, which the clock counts, are left out.
use ion_dtn_contrib.Prelude.{
  ℕ, Bool, leb, ltb, if◌then◌else◌, List, [], ◌∷◌, ◌++◌, length, take, drop, Option, none, some, ℤ,
  pos, negsuc,
}
use ion_dtn_contrib.Tcpv4.Msg.{encode_sess_term, encode_msg_reject}

abbrev pub tcpv4_tls_require : ℕ
tcpv4_tls_require = 0

abbrev pub tcpv4_tls_disable : ℕ
tcpv4_tls_disable = 2

abbrev pub tcpv4_eidpol_require : ℕ
tcpv4_eidpol_require = 0

abbrev pub tcpv4_eidpol_none : ℕ
tcpv4_eidpol_none = 2

abbrev pub tcpv4_ekupol_require : ℕ
tcpv4_ekupol_require = 0

abbrev pub tmsg_term_version_mismatch : ℕ
tmsg_term_version_mismatch = 2

abbrev pub tmsg_term_busy : ℕ
tmsg_term_busy = 3

abbrev pub tmsg_term_contact_failure : ℕ
tmsg_term_contact_failure = 4

-- `node_id` is that of the engine.
pub record Config : Type 0 where
  pub tls_policy : ℕ
  pub eid_policy : ℕ
  pub eku_policy : ℕ
  pub no_verify : Bool
  pub keepalive : ℕ
  pub segment_mru : ℕ
  pub transfer_mru : ℕ
  pub node_id : List ℕ

-- `input` is what the peer has still to send, `sent` are the messages written, the latest last, and
-- `tls` is set where the pointer is not NULL. A node ID is a string without the final zero.
pub record Session : Type 0 where
  pub input : List ℕ
  pub sent : List (List ℕ)
  pub active_role : Bool
  pub busy : Bool
  pub dial_node_id : List ℕ
  pub tls : Bool
  pub peer_authenticated : Bool
  pub established : Bool
  pub peer_node_id : List ℕ
  pub route_node_id : List ℕ
  pub node_id_authenticated : Bool
  pub keepalive : ℕ
  pub segment_mtu : ℕ
  pub transfer_mtu : ℕ

-- The results of tcpv4TlsMatchNodeId, tcpv4TlsCheckKeyUsage and tcpv4TlsCheckKeyPurpose
-- (CLA/tcpv4/src/tcpv4tls.h).
pub data NodeIdMatch : Type 0 where
  success : NodeIdMatch
  absent : NodeIdMatch
  failure : NodeIdMatch
  error : NodeIdMatch

pub data KeyUsage : Type 0 where
  ok : KeyUsage
  absent : KeyUsage
  wrong : KeyUsage
  error : KeyUsage

pub data KeyPurpose : Type 0 where
  present : KeyPurpose
  absent : KeyPurpose
  no_bundle : KeyPurpose
  wrong : KeyPurpose
  error : KeyPurpose

-- What the surroundings decide: whether a write succeeds and memory is granted, how the TLS handshake
-- ends, and what the TLS library says of the peer's certificate.
pub record World : Type 0 where
  pub writes : Session → Bool
  pub grants : Session → ℕ → Bool
  pub handshake : Session → Bool
  pub peer_authenticated : Session → Bool
  pub match_node_id : List ℕ → NodeIdMatch
  pub key_usage : KeyUsage
  pub key_purpose : KeyPurpose

-- A call that returns -1 is `none`; what it did until then stays.
abbrev pub Neg : Type 0 → Type 0
Neg A = Session → Option A × Session

unfoldable pub give : {A : Type 0} → A → Neg A
give a c = (some a, c)

unfoldable pub fail : {A : Type 0} → Neg A
fail c = (none, c)

abbrev pub then_run : {A B : Type 0} → (A → Neg B) → Option A × Session → Option B × Session
then_run f (none, c) = (none, c)
then_run f (some a, c) = f a c

infixl 5 ◌>>=◌ ◌>>◌
unfoldable pub ◌>>=◌ : {A B : Type 0} → Neg A → (A → Neg B) → Neg B
◌>>=◌ m f c = then_run f (m c)

abbrev pub ◌>>◌ : {B : Type 0} → Neg (Unit {0}) → Neg B → Neg B
m >> k = m >>= λ _. k

unfoldable pub modify : (Session → Session) → Neg (Unit {0})
modify f c = (some tt, f c)

-- `oK(...)`: the result is not looked at.
unfoldable pub ignore : Neg (Unit {0}) → Neg (Unit {0})
ignore m c = (some tt, (m c).1)

unfoldable pub guard : Bool → Neg (Unit {0})
guard b c = (if b then some tt else none, c)

-- tcpv4ConnRecv where the caller wants all of `n` octets; what was read of too few is lost.
unfoldable pub receive : ℕ → Neg (List ℕ)
receive n c =
    if leb n (length c.input)
    then (some (take n c.input), record c { input = drop n c.input })
    else (none, record c { input = [] })

-- Nothing is read where nothing is wanted.
unfoldable pub receive_if : ℕ → Neg (List ℕ)
receive_if n = if ltb 0 n then receive n else give []

module _ (world : World) where
  -- tcpv4ConnSend of what an encoder has written, with the encoder's result before it.
  unfoldable pub transmit : ℤ × List ℕ → Neg (Unit {0})
  transmit (negsuc n, octets) c = (none, c)
  transmit (pos n, octets) c =
      if world.writes c then (some tt, record c { sent = c.sent ++ (octets ∷ []) }) else (none, c)

  -- `oK(tcpv4SendSessTerm(conn, reason, 0)); return -1;`
  unfoldable pub terminate : {A : Type 0} → ℕ → Neg A
  terminate reason =
      ignore (transmit (encode_sess_term 3 (record { flags = 0; reason = reason }))) >> fail

  -- `oK(tcpv4SendMsgReject(conn, reason, type)); return -1;`
  unfoldable pub send_reject : {A : Type 0} → ℕ → ℕ → Neg A
  send_reject reason type =
      ignore (transmit (encode_msg_reject 3 (record { reason = reason; rejected_type = type })))
      >> fail

  unfoldable pub demand : ℕ → Bool → Neg (Unit {0})
  demand reason b = if b then give tt else terminate reason
