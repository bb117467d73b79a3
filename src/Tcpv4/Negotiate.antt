-- ===== src/Tcpv4/Negotiate.antt =====
-- The negotiation of a session, CLA/tcpv4/src/tcpv4negotiate.c.
pub mod State
pub mod Lasts
pub mod Secure
pub mod Calls
pub mod Established
pub mod Runs
pub mod Inits
pub mod Ends
pub mod Peers
mod Tests
use ion_dtn_contrib.Prelude.{
  ℕ, zero, suc, ◌+◌, ◌*◌, ◌%◌, ◌^◌, Bool, true, false, not, ◌&&◌, ◌||◌, leb, ltb, ◌==◌,
  if◌then◌else◌, List, [], ◌∷◌, ◌++◌, length, get_or, Option, none, some, ℤ, pos, negsuc, bit_and,
  bit_or,
}
use ion_dtn_contrib.Wire.Pointer.{octets}
use ion_dtn_contrib.Tcpv4.Msg.{
  encode_contact, decode_contact, encode_sess_init, decode_sess_init, decode_msg_reject,
}
use ion_dtn_contrib.Tcpv4.Msg.Types.{
  Tcpv4Contact, Tcpv4SessInit, Tcpv4ExtItem, tmsg_sess_init, tmsg_sess_term, tmsg_msg_reject,
}
use ion_dtn_contrib.Tcpv4.Ext.{next_ext_item, found_or}
use ion_dtn_contrib.Tcpv4.NodeId.{
  tcpv4_node_id_is_set, tcpv4_node_id_matches, tcpv4_node_id_is_well_formed,
}
use ion_dtn_contrib.Tcpv4.X509.{c_string}
use ion_dtn_contrib.Tcpv4.Rx.Segment.{tcpv4_max_ext_len, tmsg_ext_critical, ext_len_of}
use ion_dtn_contrib.Tcpv4.Rx.Loop.{tmsg_reject_unexpected}
use State.{
  Config, Session, World, NodeIdMatch, KeyUsage, KeyPurpose, Neg, give, fail, ◌>>=◌, ◌>>◌, modify,
  ignore, guard, receive, receive_if, transmit, terminate, send_reject, demand, tcpv4_tls_require,
  tcpv4_tls_disable, tcpv4_eidpol_require, tcpv4_eidpol_none, tcpv4_ekupol_require,
  tmsg_term_version_mismatch, tmsg_term_busy, tmsg_term_contact_failure,
}

abbrev pub tmsg_version : ℕ
tmsg_version = 4

abbrev pub tmsg_contact_len : ℕ
tmsg_contact_len = 6

abbrev pub tmsg_contact_can_tls : ℕ
tmsg_contact_can_tls = 1

abbrev pub tcpv4_max_nodeid_len : ℕ
tcpv4_max_nodeid_len = 256

-- A decoder's result that is not positive is a failure.
unfoldable pub decoded_some : {A : Type 0} → ℤ × Option A → Neg A
decoded_some (pos (suc n), some m) = give m
decoded_some (pos (suc n), none) = fail
decoded_some (pos zero, m) = fail
decoded_some (negsuc n, m) = fail

-- `decode(buf, off, &m) == off` as a success.
unfoldable pub decoded_whole : {A : Type 0} → ℕ → ℤ × Option A → Neg A
decoded_whole off (pos n, some m) = if n == off then give m else fail
decoded_whole off (pos n, none) = fail
decoded_whole off (negsuc n, m) = fail

abbrev pub our_contact : Config → Tcpv4Contact
our_contact cfg = record {
  version = tmsg_version;
  flags = if not (cfg.tls_policy == tcpv4_tls_disable) then tmsg_contact_can_tls else 0;
}

abbrev pub our_sess_init : Config → Tcpv4SessInit
our_sess_init cfg = record {
  keepalive = cfg.keepalive % 2 ^ 16;
  segment_mru = cfg.segment_mru;
  transfer_mru = cfg.transfer_mru;
  node_id = some cfg.node_id;
  node_id_len = length cfg.node_id % 2 ^ 16;
  sess_ext = none;
  sess_ext_len = 0;
}

-- The negotiated Enable TLS parameter.
abbrev pub both_can_tls : Config → Tcpv4Contact → Bool
both_can_tls cfg peer =
    not (cfg.tls_policy == tcpv4_tls_disable) && not (bit_and peer.flags tmsg_contact_can_tls == 0)

abbrev pub item_round : ℤ → Option Tcpv4ExtItem → Option Bool → Option Bool
item_round (pos n) (some item) rest =
    if n == 1
    then (if bit_and item.flags tmsg_ext_critical == 0 then rest else some false)
    else some true
item_round (pos n) none rest = some true
item_round (negsuc n) item rest = some false

-- Whether the walk over the session extension items meets neither a critical one nor an error;
-- `none` is fuel that ran out.
unfoldable pub items_loop : ℕ → List ℕ → ℕ → Option Bool
items_loop zero buf off = none
items_loop (suc fuel) buf off =
    let step = next_ext_item buf off in
    let rest = items_loop fuel buf step.off in item_round step.rc step.item rest

-- Every item takes five octets, so the loop ends before the fuel does.
abbrev pub items_known : List ℕ → Bool
items_known buf = found_or false (items_loop (suc (length buf)) buf 0)

-- What is kept of the node ID that the peer claims.
abbrev pub claimed_node_id : Tcpv4SessInit → List ℕ
claimed_node_id peer =
    if ltb 0 peer.node_id_len && ltb peer.node_id_len tcpv4_max_nodeid_len
    then c_string (octets peer.node_id)
    else []

abbrev pub bad_node_id : Tcpv4SessInit → Bool
bad_node_id peer = ltb 0 peer.node_id_len && not (tcpv4_node_id_is_well_formed peer.node_id)

-- The node that the session may carry bundles to.
abbrev pub route : Config → Session → List ℕ → Bool → List ℕ
route cfg c claimed authenticated =
    if authenticated
    then claimed
    else if c.active_role
    then (if tcpv4_node_id_is_set (some claimed)
          && not (tcpv4_node_id_matches (some claimed) (some c.dial_node_id))
        then []
        else c.dial_node_id)
    else if cfg.eid_policy == tcpv4_eidpol_none && tcpv4_node_id_is_set (some claimed)
    then claimed
    else []

abbrev pub adopted : Config → Tcpv4SessInit → List ℕ → Bool → Session → Session
adopted cfg peer claimed authenticated c = record c {
  segment_mtu = peer.segment_mru;
  transfer_mtu = peer.transfer_mru;
  keepalive = if ltb peer.keepalive cfg.keepalive then peer.keepalive else cfg.keepalive;
  peer_node_id = claimed;
  node_id_authenticated = authenticated;
  route_node_id = route cfg c claimed authenticated;
}

module _ (cfg : Config) (world : World) where
  unfoldable pub send_contact : Neg (Unit {0})
  send_contact = transmit world (encode_contact tmsg_contact_len (our_contact cfg))

  unfoldable pub check_version : Tcpv4Contact → Neg (Unit {0})
  check_version peer c =
      if peer.version == tmsg_version
      then give tt c
      else if c.active_role
      then fail c
      else terminate world tmsg_term_version_mismatch c

  unfoldable pub check_enable_tls : Tcpv4Contact → Neg Bool
  check_enable_tls peer =
      if not (both_can_tls cfg peer) && cfg.tls_policy == tcpv4_tls_require
      then terminate world tmsg_term_contact_failure
      else give (both_can_tls cfg peer)

  unfoldable pub send_first : Neg (Unit {0})
  send_first c = if c.active_role then send_contact c else give tt c

  unfoldable pub send_reply : Neg (Unit {0})
  send_reply c = if not c.active_role then send_contact c else give tt c

  -- The value is `*enableTls`.
  unfoldable pub exchange_contact : Neg Bool
  exchange_contact = do
    send_first
    buf ← receive tmsg_contact_len
    peer ← decoded_some (decode_contact buf)
    send_reply
    check_version peer
    check_enable_tls peer

  unfoldable pub send_sess_init : Neg (Unit {0})
  send_sess_init = transmit world (encode_sess_init (64 + tcpv4_max_nodeid_len) (our_sess_init cfg))

  -- Whether the certificate authenticates the node ID.
  abbrev pub matched : NodeIdMatch → Neg Bool
  matched NodeIdMatch.success = give true
  matched NodeIdMatch.failure = terminate world tmsg_term_contact_failure
  matched NodeIdMatch.absent =
      if cfg.eid_policy == tcpv4_eidpol_require
      then terminate world tmsg_term_contact_failure
      else give false
  matched NodeIdMatch.error =
      if cfg.eid_policy == tcpv4_eidpol_require
      then terminate world tmsg_term_contact_failure
      else give false

  abbrev pub asks_certificate : Session → List ℕ → Bool
  asks_certificate c claimed =
      c.tls
      && (not cfg.no_verify
          && (not (cfg.eid_policy == tcpv4_eidpol_none) && tcpv4_node_id_is_set (some claimed)))

  unfoldable pub authenticate : List ℕ → Neg Bool
  authenticate claimed c =
      if asks_certificate c claimed then matched (world.match_node_id claimed) c else give false c

  unfoldable pub apply_sess_init : Tcpv4SessInit → Neg (Unit {0})
  apply_sess_init peer = do
    demand world tmsg_term_contact_failure (not (peer.segment_mru == 0 || peer.transfer_mru == 0))
    demand world tmsg_term_contact_failure (items_known (octets peer.sess_ext))
    demand world tmsg_term_contact_failure (not (bad_node_id peer))
    authenticated ← authenticate (claimed_node_id peer)
    modify (adopted cfg peer (claimed_node_id peer) authenticated)

  -- The length of the node ID, in the last two of the first 21 octets.
  abbrev pub node_id_len_of : List ℕ → ℕ
  node_id_len_of fixed = bit_or (get_or fixed 19 0 * 2 ^ 8) (get_or fixed 20 0) % 2 ^ 16

  -- What follows the type octet of a SESS_INIT, up to the length of the node ID.
  unfoldable pub receive_fixed : Neg (List ℕ)
  receive_fixed = do
    rest ← receive 20
    guard (not (leb tcpv4_max_nodeid_len (node_id_len_of (tmsg_sess_init ∷ rest))))
    give (tmsg_sess_init ∷ rest)

  unfoldable pub obtain : ℕ → Neg (Unit {0})
  obtain size c = guard (world.grants c size) c

  -- The rest of the message, from the node ID on.
  unfoldable pub receive_lists : ℕ → Neg (List ℕ)
  receive_lists node_id_len = do
    node_id ← receive_if node_id_len
    len ← receive 4
    guard (not (ltb tcpv4_max_ext_len (ext_len_of len)))
    items ← receive_if (ext_len_of len)
    give (node_id ++ (len ++ items))

  unfoldable pub receive_message : Neg (Unit {0})
  receive_message = do
    fixed ← receive_fixed
    obtain (21 + node_id_len_of fixed + 4 + tcpv4_max_ext_len)
    lists ← receive_lists (node_id_len_of fixed)
    peer ← decoded_whole (length (fixed ++ lists)) (decode_sess_init (fixed ++ lists))
    apply_sess_init peer

  -- `oK(tcpv4RecvMsgReject(conn, &rejectedType)); return -1;`
  unfoldable pub read_reject : Neg (Unit {0})
  read_reject = do
    ignore (do
      got ← receive 2
      rej ← decoded_whole 3 (decode_msg_reject (tmsg_msg_reject ∷ got))
      give tt)
    fail

  -- What follows the type octet.
  unfoldable pub receive_typed : ℕ → Neg (Unit {0})
  receive_typed type =
      if type == tmsg_sess_term
      then fail
      else if type == tmsg_msg_reject
      then read_reject
      else if not (type == tmsg_sess_init)
      then send_reject world tmsg_reject_unexpected type
      else receive_message

  unfoldable pub recv_sess_init : Neg (Unit {0})
  recv_sess_init = do type ← receive 1; receive_typed (get_or type 0 0)

  abbrev pub usage_ok : KeyUsage → Bool
  usage_ok KeyUsage.wrong = false
  usage_ok KeyUsage.ok = true
  usage_ok KeyUsage.absent = true
  usage_ok KeyUsage.error = true

  abbrev pub purpose_ok : KeyPurpose → Bool
  purpose_ok KeyPurpose.wrong = false
  purpose_ok KeyPurpose.no_bundle = not (cfg.eku_policy == tcpv4_ekupol_require)
  purpose_ok KeyPurpose.absent = true
  purpose_ok KeyPurpose.present = true
  purpose_ok KeyPurpose.error = true

  unfoldable pub check_cert_profile : Neg (Unit {0})
  check_cert_profile = do
    demand world tmsg_term_contact_failure (usage_ok world.key_usage)
    demand world tmsg_term_contact_failure (purpose_ok world.key_purpose)

  -- `conn->tls = tcpv4TlsHandshake(...)` and whether its chain is valid.
  unfoldable pub shake_hands : Neg (Unit {0})
  shake_hands c =
      if world.handshake c
      then (some tt, record c { tls = true; peer_authenticated = world.peer_authenticated c })
      else (none, record c { tls = false })

  unfoldable pub start_tls : Bool → Neg (Unit {0})
  start_tls false = give tt
  start_tls true = do shake_hands; if not cfg.no_verify then check_cert_profile else give tt

  -- tcpv4ConnIsBusy.
  unfoldable pub check_busy : Neg (Unit {0})
  check_busy c = if c.busy then terminate world tmsg_term_busy c else give tt c

  unfoldable pub tcpv4_establish : Neg (Unit {0})
  tcpv4_establish = do
    enable_tls ← exchange_contact
    start_tls enable_tls
    check_busy
    send_sess_init
    recv_sess_init
    modify (λ c. record c { established = true })
