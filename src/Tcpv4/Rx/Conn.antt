-- ===== src/Tcpv4/Rx/Conn.antt =====
-- The state of a session's receiver thread (the fields of Tcpv4Conn in CLA/tcpv4/src/tcpv4sessint.h)
-- and the calls with which CLA/tcpv4/src/tcpv4rx.c reads, writes and waits.
use ion_dtn_contrib.Prelude.{
  ℕ, Bool, leb, ◌==◌, if◌then◌else◌, List, [], ◌∷◌, ◌++◌, length, take, drop, Option, none, some, ℤ,
  pos, negsuc,
}
use ion_dtn_contrib.Tcpv4.Msg.{
  encode_xfer_ack, encode_xfer_refuse, encode_sess_term, encode_msg_reject,
}
use ion_dtn_contrib.Tcpv4.Tx.{TxConn}

-- The part of the configuration that reception reads.
pub record RxConfig : Type 0 where
  pub segment_mru : ℕ
  pub transfer_mru : ℕ

-- A transfer left for the delivery thread.
pub record Handed : Type 0 where
  pub transfer_id : ℕ
  pub flags : ℕ
  pub octets : List ℕ

-- `input` is what the peer has still to send, after which it closes the connection or, where
-- `broken`, reading fails. `rx_bundle` holds the rxLen octets of the buffer of rxCap that are
-- filled. `sent` are the messages written and `handed` the transfers handed over, the latest last.
pub record RxConn : Type 0 where
  pub input : List ℕ
  pub broken : Bool
  pub ending : Bool
  pub term_sent : Bool
  pub rx_active : Bool
  pub rx_id : ℕ
  pub rx_bundle : List ℕ
  pub rx_cap : ℕ
  pub rx_refused : Bool
  pub dlv_cap : ℕ
  pub sent : List (List ℕ)
  pub handed : List Handed
  pub tx : TxConn

-- What the session's surroundings decide, from all that has happened: whether a write succeeds,
-- whether memory is granted, and whether a wait for the delivery thread ends with neither a stop
-- nor a failure.
pub record World : Type 0 where
  pub writes : RxConn → Bool
  pub grants : RxConn → ℕ → Bool
  pub delivers : RxConn → Bool

-- A call that returns -1 is `none`; what it did until then stays.
abbrev pub Rx : Type 0 → Type 0
Rx A = RxConn → Option A × RxConn

unfoldable pub give : {A : Type 0} → A → Rx A
give a c = (some a, c)

abbrev pub fail : {A : Type 0} → Rx A
fail c = (none, c)

abbrev pub then_run : {A B : Type 0} → (A → Rx B) → Option A × RxConn → Option B × RxConn
then_run f (none, c) = (none, c)
then_run f (some a, c) = f a c

infixl 5 ◌>>=◌ ◌>>◌
unfoldable pub ◌>>=◌ : {A B : Type 0} → Rx A → (A → Rx B) → Rx B
unfolding give
◌>>=◌ m f c = then_run f (m c)

abbrev pub ◌>>◌ : {B : Type 0} → Rx (Unit {0}) → Rx B → Rx B
m >> k = m >>= λ _. k

abbrev pub get : Rx RxConn
get c = (some c, c)

abbrev pub modify : (RxConn → RxConn) → Rx (Unit {0})
modify f c = (some tt, f c)

abbrev pub guard : Bool → Rx (Unit {0})
guard ok c = (if ok then some tt else none, c)

-- `oK(...)`: the result is not looked at.
abbrev pub ignore : Rx (Unit {0}) → Rx (Unit {0})
ignore m c = (some tt, (m c).1)

-- `decode(buf, off, &m) != off` as a failure.
unfoldable pub decoded : {A : Type 0} → ℕ → ℤ × Option A → Rx A
unfolding give
decoded off (pos n, some m) = if n == off then give m else fail
decoded off (pos n, none) = fail
decoded off (negsuc n, m) = fail

-- tcpv4ConnRecv where the caller wants all of `n` octets; what was read of too few is lost.
unfoldable pub conn_recv : ℕ → Rx (List ℕ)
conn_recv n c =
    if leb n (length c.input)
    then (some (take n c.input), record c { input = drop n c.input })
    else (none, record c { input = [] })

module _ (world : World) where
  -- tcpv4ConnSend of what an encoder has written, with the encoder's result before it.
  unfoldable pub conn_send : ℤ × List ℕ → Rx (Unit {0})
  conn_send (negsuc n, octets) c = (none, c)
  conn_send (pos n, octets) c =
      if world.writes c then (some tt, record c { sent = c.sent ++ (octets ∷ []) }) else (none, c)

  unfoldable pub tcpv4_send_xfer_ack : ℕ → ℕ → ℕ → Rx (Unit {0})
  tcpv4_send_xfer_ack flags transfer_id ack_length = conn_send (
      encode_xfer_ack 18
        (record { flags = flags; transfer_id = transfer_id; ack_length = ack_length }))

  unfoldable pub tcpv4_send_xfer_refuse : ℕ → ℕ → Rx (Unit {0})
  tcpv4_send_xfer_refuse reason transfer_id =
      conn_send (encode_xfer_refuse 10 (record { reason = reason; transfer_id = transfer_id }))

  unfoldable pub tcpv4_send_sess_term : ℕ → Bool → Rx (Unit {0})
  tcpv4_send_sess_term reason reply =
      conn_send (encode_sess_term 3 (record { flags = if reply then 1 else 0; reason = reason }))

  unfoldable pub tcpv4_send_msg_reject : ℕ → ℕ → Rx (Unit {0})
  tcpv4_send_msg_reject reason rejected_type =
      conn_send (encode_msg_reject 3 (record { reason = reason; rejected_type = rejected_type }))

  -- rxAwaitDelivery.
  unfoldable pub rx_await_delivery : Rx (Unit {0})
  rx_await_delivery c = (if world.delivers c then some tt else none, c)

  unfoldable pub rx_send_ack : ℕ → ℕ → ℕ → Rx (Unit {0})
  rx_send_ack flags transfer_id ack_length =
      rx_await_delivery >> tcpv4_send_xfer_ack flags transfer_id ack_length

  unfoldable pub rx_send_refuse : ℕ → ℕ → Rx (Unit {0})
  rx_send_refuse reason transfer_id = rx_await_delivery >> tcpv4_send_xfer_refuse reason transfer_id
