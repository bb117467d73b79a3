-- ===== src/Tcpv4/Tx/Tests.antt =====
-- A run of a session's transfer lists, and their theorems at it.
use ion_dtn_contrib.Prelude.{◌≡◌, refl, true, some}
use ion_dtn_contrib.Tcpv4.Tx.{Tcpv4Xfer, TxConn, find_self, queue_xfer, xmit_begin, tcpv4_tx_drain}
use ion_dtn_contrib.Tcpv4.Tx.Invariant.{Inv, count, count_reported}
use ion_dtn_contrib.Tcpv4.Tx.Reach.{
  Reach, here, next, queued, begun, fresh_conn, Reach-Inv, Reach-find_self,
  count_reported-tcpv4_tx_drain,
}
use ion_dtn_contrib.Tcpv4.Tx.Window.{Within, Reach-Within}

-- A bundle of 100 octets is queued, then another; the transmit thread takes the first.
abbrev one : TxConn
one = (queue_xfer (fresh_conn 1000) 7 100 (some 64)).1

abbrev two : TxConn
two = (queue_xfer one 8 50 (some 65)).1

abbrev sends : TxConn
sends = xmit_begin two

sends_reached : Reach 2 4096 (fresh_conn 1000) sends
unfolding queue_xfer xmit_begin
sends_reached =
    next (next (next here (queued 7 100 64 refl refl refl)) (queued 8 50 65 refl refl refl))
      (begun refl refl refl)

Reach-Inv_example : Inv sends
Reach-Inv_example = Reach-Inv 2 4096 sends_reached

Reach-find_self_example :
    (x : Tcpv4Xfer) × (find_self sends.tx_window 64 ≡ some x) × (x.in_flight ≡ true)
unfolding queue_xfer xmit_begin
Reach-find_self_example = Reach-find_self 2 4096 64 sends_reached refl

Reach-Within_example : Within 2 4096 sends
Reach-Within_example = Reach-Within 2 4096 sends_reached

count_reported-tcpv4_tx_drain_example :
    count_reported 7 (tcpv4_tx_drain sends).reported ≡ count 7 sends.taken
count_reported-tcpv4_tx_drain_example =
    count_reported-tcpv4_tx_drain 2 4096 1000 sends 7 sends_reached
