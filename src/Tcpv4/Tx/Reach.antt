-- ===== src/Tcpv4/Tx/Reach.antt =====
-- Every interleaving of the sender threads, the transmit thread and the receiver thread on the
-- transfer lists of CLA/tcpv4/src/tcpv4tx.c, one step for each hold of txMutex.
use ion_dtn_contrib.Prelude.{
  ℕ, ◌+◌, ◌≡◌, refl, sym, Bool, true, false, List, [], ◌∷◌, none, some, arith,
}
use mathlib.Core.Path.{subst}
use ion_dtn_contrib.Tcpv4.Msg.Types.{Tcpv4XferAck, Tcpv4XferRefuse}
use ion_dtn_contrib.Tcpv4.Tx.{
  Tcpv4Xfer, TxConn, find_self, report_all, splice, must_wait, queue_xfer, xmit_begin, xmit_end,
  handle_xfer_ack, handle_xfer_refuse, tcpv4_tx_stop, tcpv4_tx_drain,
}
use ion_dtn_contrib.Tcpv4.Tx.Lists.{total}
use ion_dtn_contrib.Tcpv4.Tx.Invariant.{Inv, Holds, carries, count, count_reported}
use ion_dtn_contrib.Tcpv4.Tx.Steps.{
  IsFresh, queue_xfer-Inv, handle_xfer_ack-Inv, handle_xfer_refuse-Inv, xmit_begin-Inv,
  xmit_end-Inv, tcpv4_tx_stop-Inv,
}

-- A session whose threads have not begun, for a peer with this Transfer MRU.
abbrev pub fresh_conn : ℕ → TxConn
fresh_conn transfer_mtu = record {
  tx_queue = [];
  tx_window = [];
  tx_count = 0;
  tx_bytes = 0;
  next_tx_id = 0;
  tx_acked_len = 0;
  tx_stopped = false;
  tx_active = false;
  transfer_mtu = transfer_mtu;
  sending = none;
  xmit_left = false;
  taken = [];
  reported = [];
}

module _ (window window_bytes : ℕ) where
  -- `queued`: a sender leaves its loop and MTAKE has given it an address that the session does not
  -- use. `ended`: the transmit thread returns from sendTransfer. `acked`, `refused`: the receiver
  -- thread has read such a message.
  pub data Step (c d : TxConn) : Type 0 where
    queued :
        (bundle size p : ℕ)
        → must_wait window window_bytes c size ≡ false
        → IsFresh c p
        → d ≡ (queue_xfer c bundle size (some p)).1
        → Step c d
    begun : c.sending ≡ none → c.xmit_left ≡ false → d ≡ xmit_begin c → Step c d
    ended : (failed : Bool) (p : ℕ) → c.sending ≡ some p → d ≡ xmit_end c failed p → Step c d
    acked : (a : Tcpv4XferAck) → d ≡ (handle_xfer_ack c a).1 → Step c d
    refused : (r : Tcpv4XferRefuse) → d ≡ (handle_xfer_refuse c r).1 → Step c d
    stopped : d ≡ tcpv4_tx_stop c → Step c d

  pub data Reach (c : TxConn) : TxConn → Type 0 where
    here : Reach c c
    next : {d e : TxConn} → Reach c d → Step d e → Reach c e

  Step-Inv : {c d : TxConn} → Step c d → Inv c → Inv d
  Step-Inv {c} (queued bundle size p w f e) v = subst Inv (sym e) (
      queue_xfer-Inv c bundle size (some p) v
        (λ q same. let s : p ≡ q = cc in subst (IsFresh c) s f))
  Step-Inv {c} (begun s l e) v = subst Inv (sym e) (xmit_begin-Inv c s v)
  Step-Inv {c} (ended failed p s e) v = subst Inv (sym e) (xmit_end-Inv c failed p s v)
  Step-Inv {c} (acked a e) v = subst Inv (sym e) (handle_xfer_ack-Inv c a v)
  Step-Inv {c} (refused r e) v = subst Inv (sym e) (handle_xfer_refuse-Inv c r v)
  Step-Inv {c} (stopped e) v = subst Inv (sym e) (tcpv4_tx_stop-Inv c v)

  fresh-Inv : (mtu : ℕ) → Inv (fresh_conn mtu)
  fresh-Inv mtu = record {
    core = record {
      counted = refl;
      sized = refl;
      busy = refl;
      distinct = λ p. omega arith;
      waiting = tt;
      live = tt;
      acked = refl;
      kept = λ b. refl;
    };
    holds = refl;
  }

  -- Whatever the threads do and in whatever order, the counts are those of the lists, the objects
  -- are distinct, a transfer that is finished is on neither list, the transfer that the transmit
  -- thread holds is in the window and alone in flight, the running acknowledgment is within the
  -- head of the window, and every bundle taken is queued, outstanding or reported, as often as it
  -- was taken.
  pub Reach-Inv : {mtu : ℕ} {c : TxConn} → Reach (fresh_conn mtu) c → Inv c
  Reach-Inv {mtu} here = fresh-Inv mtu
  Reach-Inv (next r s) = Step-Inv s (Reach-Inv r)

  -- The transmit thread never writes to an object that has been freed: the one that it holds is
  -- still in the window.
  pub Reach-find_self :
      {mtu : ℕ} {c : TxConn} (p : ℕ)
      → Reach (fresh_conn mtu) c
      → c.sending ≡ some p
      → (x : Tcpv4Xfer) × (find_self c.tx_window p ≡ some x) × (x.in_flight ≡ true)
  Reach-find_self {c = c} p r s =
      let (n, y, f, t) = subst (λ a. Holds a c.tx_window) s (Reach-Inv r).holds in (y, f, t)

count_reported-report_all :
    (b : ℕ) (xs : List Tcpv4Xfer) (log : List (ℕ × Bool))
    → count_reported b (report_all xs log) ≡ total (carries b) xs + count_reported b log
count_reported-report_all b [] log = omega arith
count_reported-report_all b (x ∷ xs) log =
    omega (arith, count_reported-report_all b xs ((x.bundle, _) ∷ log))

total-splice :
    (m : Tcpv4Xfer → ℕ) (xs dead : List Tcpv4Xfer)
    → total m (splice xs dead) ≡ total m xs + total m dead
total-splice m [] dead = omega arith
total-splice m (x ∷ xs) dead = omega (arith, total-splice m xs (x ∷ dead))

-- A session that ends, in whatever state, has reported the outcome of every bundle that it took
-- exactly as often as it took it: none is lost and none is reported twice.
pub count_reported-tcpv4_tx_drain :
    (window window_bytes mtu : ℕ) (c : TxConn) (b : ℕ)
    → Reach window window_bytes (fresh_conn mtu) c
    → count_reported b (tcpv4_tx_drain c).reported ≡ count b c.taken
unfolding tcpv4_tx_drain
count_reported-tcpv4_tx_drain window window_bytes mtu c b r = omega (
  arith,
  (Reach-Inv window window_bytes r).core.kept b,
  count_reported-report_all b (splice c.tx_window (splice c.tx_queue [])) c.reported,
  total-splice (carries b) c.tx_window (splice c.tx_queue []),
  total-splice (carries b) c.tx_queue [],
)
