-- ===== src/Tcpv4/Rx/Loops.antt =====
-- What a message handler of CLA/tcpv4/src/tcpv4rx.c, and the message loop, keep of the receiver's
-- state.
use ion_dtn_contrib.Prelude.{
  ℕ, zero, suc, ◌≡◌, refl, ap, Bool, true, false, not, ◌&&◌, ◌==◌, List, [], ◌∷◌, drop, Option,
  none, some, bit_and,
}
use mathlib.Core.Path.{subst}
use ion_dtn_contrib.Tcpv4.Tx.{TxConn}
use ion_dtn_contrib.Tcpv4.Rx.Conn.{RxConfig, RxConn, World, Rx, give, fail, ◌>>◌}
use ion_dtn_contrib.Tcpv4.Rx.Keeps.{
  Keeps, give-Keeps, fail-Keeps, modify-Keeps, ignore-Keeps, bind-Keeps, if-Keeps, branch-Keeps,
  decoded-Keeps, conn_recv-Keeps, tcpv4_send_sess_term-Keeps, tcpv4_send_msg_reject-Keeps,
}
use ion_dtn_contrib.Tcpv4.Rx.Segments.{Receives, handle_xfer_segment-Keeps}
use ion_dtn_contrib.Tcpv4.Rx.Loop.{
  Ended, terminated, reject, answer, recv_xfer_ack, recv_xfer_refuse, start_termination,
  tcpv4_recv_msg_reject, recv_msg_reject, end_session, handle_sess_term, handle_message,
  after_message, loop_round, message_loop,
}
use ion_dtn_contrib.Tcpv4.Msg.Types.{Tcpv4SessTerm}

-- The changes of the state that a message handler makes.
pub record Handles (cfg : RxConfig) (world : World) (P : RxConn → Type 0) : Type 0 where
  pub receives : Receives cfg world P
  pub on_settle : (c : RxConn) (tx : TxConn) → P c → P (record c { tx = tx })
  pub on_terminate : (c : RxConn) → P c → P (terminated c)

module _ {cfg : RxConfig} {world : World} {P : RxConn → Type 0} (h : Handles cfg world P) where
  reject-Keeps : (reason type : ℕ) → Keeps P (reject cfg world reason type)
  unfolding reject
  reject-Keeps reason type =
      ignore-Keeps _ (tcpv4_send_msg_reject-Keeps h.receives.changes.allows world reason type)

  answer-Keeps : (type : ℕ) (b : Bool) (tx : TxConn) → Keeps P (answer cfg world type (b, tx))
  unfolding answer
  answer-Keeps type b tx =
      bind-Keeps _ _ (modify-Keeps _ (λ c. h.on_settle c tx))
        λ u. if-Keeps b _ _ (reject-Keeps _ type) (give-Keeps tt)

  recv_xfer_ack-Keeps : Keeps P (recv_xfer_ack cfg world)
  unfolding recv_xfer_ack
  recv_xfer_ack-Keeps = bind-Keeps _ _ (conn_recv-Keeps h.receives.changes.allows 17) λ got.
      bind-Keeps _ _ (decoded-Keeps _ _)
        λ ack. record { kept = λ c p. (answer-Keeps _ _ _).kept c p }

  recv_xfer_refuse-Keeps : Keeps P (recv_xfer_refuse cfg world)
  unfolding recv_xfer_refuse
  recv_xfer_refuse-Keeps = bind-Keeps _ _ (conn_recv-Keeps h.receives.changes.allows 9) λ got.
      bind-Keeps _ _ (decoded-Keeps _ _)
        λ refuse. record { kept = λ c p. (answer-Keeps _ _ _).kept c p }

  start_termination-Keeps : (reason : ℕ) → Keeps P (start_termination cfg world reason)
  unfolding start_termination
  start_termination-Keeps reason = record {
    kept = λ c p.
        (branch-Keeps (λ d. c.term_sent) _ _ (give-Keeps tt)
            (tcpv4_send_sess_term-Keeps h.receives.changes.allows world reason false)).kept
          _ (h.on_terminate c p);
  }

  recv_msg_reject-Keeps : Keeps P (recv_msg_reject cfg world)
  unfolding recv_msg_reject tcpv4_recv_msg_reject
  recv_msg_reject-Keeps =
      bind-Keeps _ _
        (bind-Keeps _ _ (conn_recv-Keeps h.receives.changes.allows 2) λ got. decoded-Keeps _ _)
        λ rej. if-Keeps _ _ _ (start_termination-Keeps 0) (give-Keeps tt)

  end_session-Keeps : (term : Tcpv4SessTerm) → Keeps P (end_session cfg world term)
  end_session-Keeps term = record {
    kept = λ c p.
        (branch-Keeps (λ d. bit_and term.flags 1 == 0 && not c.term_sent) _ _
            (bind-Keeps _ _
              (ignore-Keeps _
                (tcpv4_send_sess_term-Keeps h.receives.changes.allows world term.reason true))
              λ u. give-Keeps false)
            (give-Keeps true)).kept
          _ (h.on_terminate c p);
  }

  handle_sess_term-Keeps : Keeps P (handle_sess_term cfg world)
  unfolding handle_sess_term
  handle_sess_term-Keeps =
      bind-Keeps _ _ (conn_recv-Keeps h.receives.changes.allows 2)
        λ got. bind-Keeps _ _ (decoded-Keeps _ _) end_session-Keeps

  go_on-Keeps : (m : Rx (Unit {0})) → Keeps P m → Keeps P (m >> give false)
  go_on-Keeps m k = bind-Keeps _ _ k λ u. give-Keeps false

  stop-Keeps : (reason type : ℕ) → Keeps {A = Bool} P (reject cfg world reason type >> fail)
  stop-Keeps reason type = bind-Keeps _ _ (reject-Keeps reason type) λ u. fail-Keeps

  pub handle_message-Keeps : (type : ℕ) → Keeps P (handle_message cfg world type)
  unfolding handle_message
  handle_message-Keeps type =
      if-Keeps _ _ _ (go_on-Keeps _ (handle_xfer_segment-Keeps h.receives)) (
        if-Keeps _ _ _ (go_on-Keeps _ recv_xfer_ack-Keeps) (
          if-Keeps _ _ _ (go_on-Keeps _ recv_xfer_refuse-Keeps) (
            if-Keeps _ _ _ (give-Keeps false) (
              if-Keeps _ _ _ (go_on-Keeps _ recv_msg_reject-Keeps) (
                if-Keeps _ _ _ handle_sess_term-Keeps
                  (if-Keeps _ _ _ (stop-Keeps _ _) (stop-Keeps _ _)))))))

-- The state in which the loop has stopped, if it has.
abbrev pub Ends : (RxConn → Type 0) → Option (Ended × RxConn) → Type 0
Ends P none = Unit
Ends P (some (e, c)) = P c

module _ {cfg : RxConfig} {world : World} {P : RxConn → Type 0} (h : Handles cfg world P) where
  after_message-Ends :
      (next : RxConn → Option (Ended × RxConn)) (r : Option Bool × RxConn)
      → ((c : RxConn) → P c → Ends P (next c))
      → P r.1
      → Ends P (after_message cfg world next r)
  after_message-Ends next (none, c) k p = p
  after_message-Ends next (some true, c) k p = p
  after_message-Ends next (some false, c) k p = k c p

  loop_round-Ends :
      (next : RxConn → Option (Ended × RxConn)) (c : RxConn) (xs : List ℕ)
      → c.input ≡ xs
      → ((d : RxConn) → P d → Ends P (next d))
      → P c
      → Ends P (loop_round cfg world next c xs)
  loop_round-Ends next c [] e k p = p
  loop_round-Ends next c (type ∷ xs) e k p =
      let q : P (record c { input = xs }) =
        subst (λ ys. P (record c { input = ys })) (ap (drop 1) e)
          (h.receives.changes.allows.read c 1 p) in
      after_message-Ends next _ k ((handle_message-Keeps h type).kept _ q)

  pub message_loop-Ends : (fuel : ℕ) (c : RxConn) → P c → Ends P (message_loop cfg world fuel c)
  unfolding message_loop
  message_loop-Ends zero c p = tt
  message_loop-Ends (suc fuel) c p =
      loop_round-Ends (message_loop cfg world fuel) c c.input refl (message_loop-Ends fuel) p
