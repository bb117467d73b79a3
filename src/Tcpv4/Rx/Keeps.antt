-- ===== src/Tcpv4/Rx/Keeps.antt =====
-- Predicates on the receiver's state that a computation of Tcpv4.Rx.Conn keeps, whether it succeeds
-- or fails.
use ion_dtn_contrib.Prelude.{
  ℕ, leb, Bool, true, false, if◌then◌else◌, List, [], length, drop, Option, none, some, ℤ, pos,
  negsuc, ◌==◌, if_case,
}
use ion_dtn_contrib.Tcpv4.Rx.Conn.{
  RxConn, World, Rx, give, fail, ◌>>=◌, modify, guard, ignore, then_run, decoded, conn_recv,
  conn_send, tcpv4_send_xfer_ack, tcpv4_send_xfer_refuse, tcpv4_send_sess_term,
  tcpv4_send_msg_reject, rx_await_delivery, rx_send_ack, rx_send_refuse,
}

pub record Keeps {A : Type 0} (P : RxConn → Type 0) (m : Rx A) : Type 0 where
  pub kept : (c : RxConn) → P c → P (m c).1

module _ {P : RxConn → Type 0} where
  pub give-Keeps : {A : Type 0} (a : A) → Keeps P (give a)
  unfolding give
  give-Keeps a = record { kept = λ c p. p }

  pub fail-Keeps : {A : Type 0} → Keeps P (fail {A = A})
  fail-Keeps = record { kept = λ c p. p }

  pub modify-Keeps : (f : RxConn → RxConn) → ((c : RxConn) → P c → P (f c)) → Keeps P (modify f)
  modify-Keeps f k = record { kept = k }

  pub guard-Keeps : (b : Bool) → Keeps P (guard b)
  guard-Keeps b = record { kept = λ c p. p }

  pub ignore-Keeps : (m : Rx (Unit {0})) → Keeps P m → Keeps P (ignore m)
  ignore-Keeps m k = record { kept = k.kept }

  then_run-Keeps :
      {A B : Type 0} (f : A → Rx B) (r : Option A × RxConn)
      → ((a : A) → Keeps P (f a))
      → P r.1
      → P (then_run f r).1
  then_run-Keeps f (none, c) k p = p
  then_run-Keeps f (some a, c) k p = (k a).kept c p

  pub bind-Keeps :
      {A B : Type 0} (m : Rx A) (f : A → Rx B)
      → Keeps P m
      → ((a : A) → Keeps P (f a))
      → Keeps P (m >>= f)
  unfolding ◌>>=◌
  bind-Keeps m f km kf = record { kept = λ c p. then_run-Keeps f (m c) kf (km.kept c p) }

  pub if-Keeps :
      {A : Type 0} (b : Bool) (m n : Rx A) → Keeps P m → Keeps P n → Keeps P (if b then m else n)
  if-Keeps true m n km kn = km
  if-Keeps false m n km kn = kn

  -- The same where the test looks at the state.
  pub branch-Keeps :
      {A : Type 0} (b : RxConn → Bool) (m n : Rx A)
      → Keeps P m
      → Keeps P n
      → Keeps P (λ c. if b c then m c else n c)
  branch-Keeps {A = A} b m n km kn = record {
    kept = λ c p.
        if_case {A = Option A × RxConn} (λ r. P r.1) (b c) _ _ (λ e. km.kept c p)
          (λ e. kn.kept c p);
  }

  pub decoded-Keeps : {A : Type 0} (n : ℕ) (r : ℤ × Option A) → Keeps P (decoded n r)
  unfolding decoded
  decoded-Keeps n (pos k, some a) = if-Keeps (k == n) (give a) fail (give-Keeps a) fail-Keeps
  decoded-Keeps n (pos k, none) = fail-Keeps
  decoded-Keeps n (negsuc k, o) = fail-Keeps

pub rx_await_delivery-Keeps :
    {P : RxConn → Type 0} (world : World) → Keeps P (rx_await_delivery world)
unfolding rx_await_delivery
rx_await_delivery-Keeps world = record { kept = λ c p. p }

-- Predicates that do not depend on what was read, or kept although some of it was, and do not depend
-- on what was written.
pub record Allows (P : RxConn → Type 0) : Type 0 where
  pub read : (c : RxConn) (n : ℕ) → P c → P (record c { input = drop n c.input })
  pub lost : (c : RxConn) → P c → P (record c { input = [] })
  pub written : (c : RxConn) (ms : List (List ℕ)) → P c → P (record c { sent = ms })

module _ {P : RxConn → Type 0} (a : Allows P) where
  pub conn_recv-Keeps : (n : ℕ) → Keeps P (conn_recv n)
  unfolding conn_recv
  conn_recv-Keeps n = record {
    kept = λ c p.
        if_case {A = Option (List ℕ) × RxConn} (λ r. P r.1) (leb n (length c.input)) _ _
          (λ e. a.read c n p) (λ e. a.lost c p);
  }

  pub conn_send-Keeps : (world : World) (r : ℤ × List ℕ) → Keeps P (conn_send world r)
  unfolding conn_send
  conn_send-Keeps world (negsuc n, ms) = record { kept = λ c p. p }
  conn_send-Keeps world (pos n, ms) = record {
    kept = λ c p.
        if_case {A = Option (Unit {0}) × RxConn} (λ r. P r.1) (world.writes c) _ _
          (λ e. a.written c _ p) (λ e. p);
  }

  module _ (world : World) where
    pub tcpv4_send_sess_term-Keeps :
        (reason : ℕ) (reply : Bool) → Keeps P (tcpv4_send_sess_term world reason reply)
    unfolding tcpv4_send_sess_term
    tcpv4_send_sess_term-Keeps reason reply = conn_send-Keeps world _

    pub tcpv4_send_msg_reject-Keeps :
        (reason type : ℕ) → Keeps P (tcpv4_send_msg_reject world reason type)
    unfolding tcpv4_send_msg_reject
    tcpv4_send_msg_reject-Keeps reason type = conn_send-Keeps world _

    pub rx_send_ack-Keeps : (flags id len : ℕ) → Keeps P (rx_send_ack world flags id len)
    unfolding rx_send_ack tcpv4_send_xfer_ack
    rx_send_ack-Keeps flags id len =
        bind-Keeps _ _ (rx_await_delivery-Keeps world) λ u. conn_send-Keeps world _

    pub rx_send_refuse-Keeps : (reason id : ℕ) → Keeps P (rx_send_refuse world reason id)
    unfolding rx_send_refuse tcpv4_send_xfer_refuse
    rx_send_refuse-Keeps reason id =
        bind-Keeps _ _ (rx_await_delivery-Keeps world) λ u. conn_send-Keeps world _
