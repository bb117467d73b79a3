-- ===== src/Tcpv4/Tx/Window.antt =====
-- The transmission window of CLA/tcpv4/src/tcpv4tx.c: the bounds that queueXfer waits for.
use mathlib.Core.Path.{subst}
use ion_dtn_contrib.Prelude.{
  ℕ, ◌+◌, ◌≤◌, ◌<◌, ◌≡◌, ◌⊎◌, inl, inr, sym, Bool, true, false, not, ◌&&◌, ◌||◌, ◌==◌, ltb, leb,
  if◌then◌else◌, if_case, List, [], ◌∷◌, length, Option, none, some, ℤ, arith,
}
use ion_dtn_contrib.Tcpv4.Msg.Types.{Tcpv4XferAck, Tcpv4XferRefuse}
use ion_dtn_contrib.Tcpv4.Tx.{
  Tcpv4Xfer, TxConn, find_self, find_transfer, store, tx_unlink, tcpv4_tx_finished, settle, retire,
  report, is_head, must_wait, queue_taken, queue_xfer, begin_next, xmit_begin, let_go, xmit_end,
  ack_head, handle_xfer_ack, refuse_found, handle_xfer_refuse,
}
use ion_dtn_contrib.Tcpv4.Tx.Reach.{
  Step, queued, begun, ended, acked, refused, stopped, Reach, here, next, fresh_conn, Reach-Inv,
}
use ion_dtn_contrib.Tcpv4.Tx.Lists.{total}

-- No more transfers are on the two lists than `window`, and their lengths come to no more octets than
-- `window_bytes`, unless there is a single one; a bound of 0 is none.
pub record Within (window window_bytes : ℕ) (c : TxConn) : Type 0 where
  pub count : 0 < window → length c.tx_queue + length c.tx_window ≤ window
  pub bytes :
      0 < window_bytes
      → (total (λ x. x.length) c.tx_queue + total (λ x. x.length) c.tx_window ≤ window_bytes)
        ⊎ (length c.tx_queue + length c.tx_window ≤ 1)

-- The same of the counts that queueXfer compares.
record CountsWithin (window window_bytes : ℕ) (c : TxConn) : Type 0 where
  count : 0 < window → c.tx_count ≤ window
  bytes : 0 < window_bytes → (c.tx_bytes ≤ window_bytes) ⊎ (c.tx_count ≤ 1)

-- No transfer more, and no octet more.
abbrev Shrinks : TxConn → TxConn → Type 0
Shrinks c d = (d.tx_count ≤ c.tx_count) × (d.tx_bytes ≤ c.tx_bytes)

retire-Shrinks :
    (c : TxConn) (x : Tcpv4Xfer) (o : Option (List Tcpv4Xfer)) → Shrinks c (report (retire c x o))
retire-Shrinks c x none = omega arith
retire-Shrinks c x (some w) = omega arith

settle-Shrinks : (c : TxConn) (x : Tcpv4Xfer) → Shrinks c (settle c x)
unfolding settle tcpv4_tx_finished
settle-Shrinks c x =
    if_case {A = Option Tcpv4Xfer × TxConn} (λ r. Shrinks c (report r))
      (x.in_flight || (not x.acked && not x.refused)) _ _ (λ e. omega arith)
      (λ e. by_head (is_head (store x c.tx_window) x.self))
  where
    by_head :
        (h : Bool)
        → Shrinks c (
            report (
              retire
                (if h
                  then record c { tx_window = store x c.tx_window; tx_acked_len = 0 }
                  else record c { tx_window = store x c.tx_window })
                x
                (tx_unlink (store x c.tx_window) x.self)))
    by_head true =
        retire-Shrinks (record c { tx_window = store x c.tx_window; tx_acked_len = 0 }) x
          (tx_unlink (store x c.tx_window) x.self)
    by_head false =
        retire-Shrinks (record c { tx_window = store x c.tx_window }) x
          (tx_unlink (store x c.tx_window) x.self)

ack_head-Shrinks :
    (c : TxConn) (a : Tcpv4XferAck) (w : List Tcpv4Xfer) → Shrinks c (ack_head c a w).1
ack_head-Shrinks c a [] = omega arith
ack_head-Shrinks c a (head ∷ rest) =
    if_case {A = Bool × TxConn} (λ r. Shrinks c r.1) (not (a.transfer_id == head.transfer_id)) _ _
      (λ t. omega arith)
      (λ same.
        if_case {A = Bool × TxConn} (λ r. Shrinks c r.1)
          (leb a.ack_length c.tx_acked_len || ltb head.length a.ack_length) _ _
          (λ t. settle-Shrinks c (record head { refused = true }))
          (λ within.
            if_case (Shrinks c) (a.ack_length == head.length) _ _
              (λ t.
                settle-Shrinks (record c { tx_acked_len = a.ack_length })
                  (record head { acked = true }))
              (λ t. omega arith)))

refuse_found-Shrinks :
    (c : TxConn) (r : Tcpv4XferRefuse) (o : Option Tcpv4Xfer) → Shrinks c (refuse_found c r o).1
refuse_found-Shrinks c r none = omega arith
refuse_found-Shrinks c r (some x) = settle-Shrinks c _

let_go-Shrinks : (c : TxConn) (failed : Bool) (o : Option Tcpv4Xfer) → Shrinks c (let_go c failed o)
let_go-Shrinks c failed none = omega arith
let_go-Shrinks c failed (some x) =
    settle-Shrinks (record c { sending = none; xmit_left = c.xmit_left || failed })
      (record x { in_flight = false; refused = x.refused || failed })

begin_next-Shrinks : (c : TxConn) (q : List Tcpv4Xfer) → Shrinks c (begin_next c q)
begin_next-Shrinks c [] = if_case (Shrinks c) c.tx_stopped _ _ (λ e. omega arith) (λ e. omega arith)
begin_next-Shrinks c (x ∷ q) =
    if_case (Shrinks c) c.tx_stopped _ _ (λ e. omega arith) (λ e. omega arith)

module _ (window window_bytes : ℕ) where
  Shrinks-CountsWithin :
      (c d : TxConn)
      → Shrinks c d
      → CountsWithin window window_bytes c
      → CountsWithin window window_bytes d
  Shrinks-CountsWithin c d (p, q) v = record {
    count = λ h. omega (arith, v.count h);
    bytes = λ h. elim (v.bytes h) [ inl e ↦ inl (omega arith) | inr e ↦ inr (omega arith) ];
  }

  room :
      (c : TxConn) (size : ℕ)
      → c.tx_stopped ≡ false
      → must_wait window window_bytes c size ≡ false
      → CountsWithin window window_bytes c
      → (0 < window → c.tx_count + 1 ≤ window)
        × (0 < window_bytes → (c.tx_bytes + size ≤ window_bytes) ⊎ (c.tx_count + 1 ≤ 1))
  room c size t w v = ((λ h. ground (arith, t, w)), (λ h. ground (arith, t, w)))

  queue_taken-CountsWithin :
      (c : TxConn) (bundle size p : ℕ)
      → must_wait window window_bytes c size ≡ false
      → CountsWithin window window_bytes c
      → CountsWithin window window_bytes (queue_taken c bundle size (some p)).1
  queue_taken-CountsWithin c bundle size p w v =
      if_case {A = ℤ × TxConn} (λ r. CountsWithin window window_bytes r.1) c.tx_stopped _ _ (λ e. v)
        (λ e. let (n, b) = room c size e w v in record { count = n; bytes = b })

  Step-CountsWithin :
      {c d : TxConn}
      → Step window window_bytes c d
      → CountsWithin window window_bytes c
      → CountsWithin window window_bytes d
  unfolding queue_xfer xmit_begin xmit_end handle_xfer_ack handle_xfer_refuse
  Step-CountsWithin {c} (queued bundle size p w f e) v =
      subst (CountsWithin window window_bytes) (sym e) (
        if_case {A = ℤ × TxConn} (λ r. CountsWithin window window_bytes r.1)
          (ltb c.transfer_mtu size) _ _ (λ t. v)
          (λ t. queue_taken-CountsWithin c bundle size p w v))
  Step-CountsWithin {c} (begun s l e) v =
      subst (CountsWithin window window_bytes) (sym e)
        (Shrinks-CountsWithin c _ (begin_next-Shrinks c c.tx_queue) v)
  Step-CountsWithin {c} (ended failed p s e) v =
      subst (CountsWithin window window_bytes) (sym e)
        (Shrinks-CountsWithin c _ (let_go-Shrinks c failed (find_self c.tx_window p)) v)
  Step-CountsWithin {c} (acked a e) v =
      subst (CountsWithin window window_bytes) (sym e)
        (Shrinks-CountsWithin c _ (ack_head-Shrinks c a c.tx_window) v)
  Step-CountsWithin {c} (refused r e) v = subst (CountsWithin window window_bytes) (sym e) (
      Shrinks-CountsWithin c _ (refuse_found-Shrinks c r (find_transfer c.tx_window r.transfer_id))
        v)
  Step-CountsWithin {c} (stopped e) v =
      subst (CountsWithin window window_bytes) (sym e) (Shrinks-CountsWithin c _ (omega arith) v)

  Reach-CountsWithin :
      {mtu : ℕ} {c : TxConn}
      → Reach window window_bytes (fresh_conn mtu) c
      → CountsWithin window window_bytes c
  Reach-CountsWithin here = record { count = λ h. omega arith; bytes = λ h. inr (omega arith) }
  Reach-CountsWithin (next r s) = Step-CountsWithin s (Reach-CountsWithin r)

  -- In every session, however its threads interleave, no more transfers are queued or in the window
  -- than the configured number, and their lengths come to no more than the configured octets, unless
  -- it is a single transfer; a bound of 0 is none.
  pub Reach-Within :
      {mtu : ℕ} {c : TxConn}
      → Reach window window_bytes (fresh_conn mtu) c
      → Within window window_bytes c
  Reach-Within {c = c} r =
      let v = Reach-CountsWithin r in
      let core = (Reach-Inv window window_bytes r).core in
      record {
        count = λ h. omega (arith, core.counted, v.count h);
        bytes = λ h. elim (v.bytes h) [
          | inl e ↦ inl (omega (arith, core.sized, e))
          | inr e ↦ inr (omega (arith, core.counted, e))
        ];
      }
