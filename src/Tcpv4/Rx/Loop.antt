-- ===== src/Tcpv4/Rx/Loop.antt =====
-- tcpv4MessageLoop of CLA/tcpv4/src/tcpv4rx.c and the handlers of the messages other than
-- XFER_SEGMENT.
use ion_dtn_contrib.Prelude.{
  ℕ, zero, suc, Bool, true, false, not, ◌&&◌, ◌||◌, ◌==◌, if◌then◌else◌, List, [], ◌∷◌, length,
  Option, none, some, bit_and,
}
use ion_dtn_contrib.Tcpv4.Msg.{
  decode_xfer_ack, decode_xfer_refuse, decode_sess_term, decode_msg_reject,
}
use ion_dtn_contrib.Tcpv4.Msg.Types.{
  Tcpv4XferAck, Tcpv4XferRefuse, Tcpv4SessTerm, Tcpv4MsgReject, tmsg_xfer_segment, tmsg_xfer_ack,
  tmsg_xfer_refuse, tmsg_keepalive, tmsg_sess_term, tmsg_msg_reject, tmsg_sess_init,
}
use ion_dtn_contrib.Tcpv4.Tx.{TxConn, handle_xfer_ack, handle_xfer_refuse, tcpv4_tx_stop}
use ion_dtn_contrib.Tcpv4.Rx.Conn.{
  RxConfig, RxConn, World, Rx, give, fail, ◌>>=◌, ◌>>◌, modify, ignore, decoded, conn_recv,
  tcpv4_send_sess_term, tcpv4_send_msg_reject,
}
use ion_dtn_contrib.Tcpv4.Rx.Segment.{handle_xfer_segment}

abbrev pub tmsg_reject_type_unknown : ℕ
tmsg_reject_type_unknown = 1

abbrev pub tmsg_reject_unexpected : ℕ
tmsg_reject_unexpected = 3

-- What tcpv4MessageLoop returns: 0 or -1.
pub data Ended : Type 0 where
  cleanly : Ended
  failed : Ended

-- tcpv4RecvMsgReject.
unfoldable pub tcpv4_recv_msg_reject : Rx Tcpv4MsgReject
tcpv4_recv_msg_reject = do got ← conn_recv 2; decoded 3 (decode_msg_reject (tmsg_msg_reject ∷ got))

abbrev pub tells_apart : ℕ → Bool
tells_apart type = type == tmsg_xfer_segment || type == tmsg_xfer_ack || type == tmsg_sess_init

-- What startTermination and handleSessTerm do under the lock, and tcpv4TxStop.
abbrev pub terminated : RxConn → RxConn
terminated c = record c { term_sent = true; ending = true; tx = tcpv4_tx_stop c.tx }

module _ (cfg : RxConfig) (world : World) where
  unfoldable pub reject : ℕ → ℕ → Rx (Unit {0})
  reject reason type = ignore (tcpv4_send_msg_reject world reason type)

  -- The end of handleXferAck and of handleXferRefuse.
  unfoldable pub answer : ℕ → Bool × TxConn → Rx (Unit {0})
  answer type (unexpected, tx) = do
    modify (λ c. record c { tx = tx })
    if unexpected then reject tmsg_reject_unexpected type else give tt

  abbrev settle_ack : Tcpv4XferAck → Rx (Unit {0})
  settle_ack ack c = answer tmsg_xfer_ack (handle_xfer_ack c.tx ack) c

  unfoldable pub recv_xfer_ack : Rx (Unit {0})
  recv_xfer_ack = do
    got ← conn_recv 17
    ack ← decoded 18 (decode_xfer_ack (tmsg_xfer_ack ∷ got))
    settle_ack ack

  abbrev settle_refuse : Tcpv4XferRefuse → Rx (Unit {0})
  settle_refuse refuse c = answer tmsg_xfer_refuse (handle_xfer_refuse c.tx refuse) c

  unfoldable pub recv_xfer_refuse : Rx (Unit {0})
  recv_xfer_refuse = do
    got ← conn_recv 9
    refuse ← decoded 10 (decode_xfer_refuse (tmsg_xfer_refuse ∷ got))
    settle_refuse refuse

  unfoldable pub start_termination : ℕ → Rx (Unit {0})
  start_termination reason c =
      if c.term_sent
      then give tt (terminated c)
      else tcpv4_send_sess_term world reason false (terminated c)

  unfoldable pub recv_msg_reject : Rx (Unit {0})
  recv_msg_reject = do
    rej ← tcpv4_recv_msg_reject
    if tells_apart rej.rejected_type then start_termination 0 else give tt

  abbrev pub end_session : Tcpv4SessTerm → Rx Bool
  end_session term c =
      if bit_and term.flags 1 == 0 && not c.term_sent
      then (ignore (tcpv4_send_sess_term world term.reason true) >> give false) (terminated c)
      else give true (terminated c)

  -- `true` where the session is to be closed.
  unfoldable pub handle_sess_term : Rx Bool
  handle_sess_term = do
    got ← conn_recv 2
    term ← decoded 3 (decode_sess_term (tmsg_sess_term ∷ got))
    end_session term

  -- The switch of tcpv4MessageLoop.
  unfoldable pub handle_message : ℕ → Rx Bool
  handle_message type =
      if type == tmsg_xfer_segment
      then handle_xfer_segment cfg world >> give false
      else if type == tmsg_xfer_ack
      then recv_xfer_ack >> give false
      else if type == tmsg_xfer_refuse
      then recv_xfer_refuse >> give false
      else if type == tmsg_keepalive
      then give false
      else if type == tmsg_msg_reject
      then recv_msg_reject >> give false
      else if type == tmsg_sess_term
      then handle_sess_term
      else if type == tmsg_sess_init
      then reject tmsg_reject_unexpected type >> fail
      else reject tmsg_reject_type_unknown type >> fail

  -- What follows a message; `next` is the rest of the rounds.
  abbrev pub after_message :
      (RxConn → Option (Ended × RxConn)) → Option Bool × RxConn → Option (Ended × RxConn)
  after_message next (none, c) = some (failed, c)
  after_message next (some true, c) = some (cleanly, c)
  after_message next (some false, c) = next c

  abbrev pub loop_round :
      (RxConn → Option (Ended × RxConn)) → RxConn → List ℕ → Option (Ended × RxConn)
  loop_round next c [] = some (if not c.broken && c.ending then cleanly else failed, c)
  loop_round next c (type ∷ input) =
      after_message next (handle_message type (record c { input = input }))

  -- `none` is fuel that ran out.
  unfoldable pub message_loop : ℕ → RxConn → Option (Ended × RxConn)
  message_loop zero c = none
  message_loop (suc fuel) c = loop_round (message_loop fuel) c c.input

  -- Every round but the last reads an octet at least.
  abbrev pub tcpv4_message_loop : RxConn → Option (Ended × RxConn)
  tcpv4_message_loop c = message_loop (suc (length c.input)) c
