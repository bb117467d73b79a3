-- ===== src/Tcpv4/Tx/Steps.antt =====
-- Each operation on the transfer lists of CLA/tcpv4/src/tcpv4tx.c keeps what holds of them.
use mathlib.Core.Path.{subst}
use ion_dtn_contrib.Prelude.{
  ℕ, ◌+◌, ◌≤◌, ◌≡◌, refl, sym, ap, ◌∙◌, Bool, Bool-cases, ==_iff, ℤ, true, false, not, inl, inr,
  ◌||◌, ◌==◌, ltb, leb, if_case, List, [], ◌∷◌, ◌++◌, length, length-append, All, All-append,
  Option, none, some, arith,
}
use ion_dtn_contrib.Tcpv4.Msg.Types.{Tcpv4XferAck, Tcpv4XferRefuse}
use ion_dtn_contrib.Tcpv4.Tx.{
  Tcpv4Xfer, TxConn, find_self, find_transfer, new_xfer, queue_taken, queue_xfer, begin_next,
  xmit_begin, let_go, xmit_end, ack_head, handle_xfer_ack, refuse_found, handle_xfer_refuse,
  tcpv4_tx_stop,
}
use ion_dtn_contrib.Tcpv4.Tx.Lists.{
  total, one_if, total-append, find_self-self, find_self-append, find_transfer-find_self,
}
use ion_dtn_contrib.Tcpv4.Tx.Invariant.{
  Core, Inv, IsLive, IsWaiting, Holds, AckedWithin, is_at, flying, carries, settle-Inv, release-Inv,
}

-- No object of the session is at the address.
abbrev pub IsFresh : TxConn → ℕ → Type 0
IsFresh c p = total (is_at p) c.tx_queue + total (is_at p) c.tx_window ≡ 0

-- Where an object is in a list, the list has one at its address.
find_self-total :
    (xs : List Tcpv4Xfer) (p : ℕ) (y : Tcpv4Xfer) → find_self xs p ≡ some y → 1 ≤ total (is_at p) xs
unfolding find_self
find_self-total [] p y e = cc
find_self-total (x ∷ xs) p y e = ground (arith, find_self-total xs p y)

queue_taken-Inv :
    (c : TxConn) (bundle size : ℕ) (block : Option ℕ)
    → Inv c
    → ((p : ℕ) → block ≡ some p → IsFresh c p)
    → Inv (queue_taken c bundle size block).1
queue_taken-Inv c bundle size none v f = v
queue_taken-Inv c bundle size (some p) v f =
    if_case {A = ℤ × TxConn} (λ r. Inv r.1) c.tx_stopped _ _ (λ e. v)
      (λ e. record {
        core = record {
          counted = omega (arith, v.core.counted, length-append c.tx_queue (x ∷ []));
          sized = omega (arith, v.core.sized, total-append (λ z. z.length) c.tx_queue (x ∷ []));
          busy = ground arith;
          distinct = λ q. one_more q;
          waiting =
              All-append IsWaiting c.tx_queue (x ∷ []) v.core.waiting ((refl, refl, refl), tt);
          live = v.core.live;
          acked = v.core.acked;
          kept = λ b. omega (arith, v.core.kept b, total-append (carries b) c.tx_queue (x ∷ []));
        };
        holds = v.holds;
      })
  where
    x : Tcpv4Xfer
    x = new_xfer p bundle size

    one_more : (q : ℕ) → total (is_at q) (c.tx_queue ++ (x ∷ [])) + total (is_at q) c.tx_window ≤ 1
    one_more q = elim (Bool-cases (p == q)) [
      | inl e ↦ omega (
        arith,
        total-append (is_at q) c.tx_queue (x ∷ []),
        f p refl,
        ap (λ a. total (is_at a) c.tx_queue) ((==_iff p q).0 e),
        ap (λ a. total (is_at a) c.tx_window) ((==_iff p q).0 e),
        ap one_if e,
      )
      | inr e ↦
          omega (arith, total-append (is_at q) c.tx_queue (x ∷ []), v.core.distinct q, ap one_if e)
    ]

pub queue_xfer-Inv :
    (c : TxConn) (bundle size : ℕ) (block : Option ℕ)
    → Inv c
    → ((p : ℕ) → block ≡ some p → IsFresh c p)
    → Inv (queue_xfer c bundle size block).1
unfolding queue_xfer
queue_xfer-Inv c bundle size block v f =
    if_case {A = ℤ × TxConn} (λ r. Inv r.1) (ltb c.transfer_mtu size) _ _ (λ e. v)
      (λ e. queue_taken-Inv c bundle size block v f)

refuse_found-Inv :
    (c : TxConn) (r : Tcpv4XferRefuse) (found : Option Tcpv4Xfer)
    → Inv c
    → ((x : Tcpv4Xfer) → found ≡ some x → find_self c.tx_window x.self ≡ some x)
    → Inv (refuse_found c r found).1
refuse_found-Inv c r none v f = v
refuse_found-Inv c r (some x) v f =
    settle-Inv c _ x v (record { found = f x refl; bundle = refl; size = refl }) refl

pub handle_xfer_refuse-Inv :
    (c : TxConn) (r : Tcpv4XferRefuse) → Inv c → Inv (handle_xfer_refuse c r).1
unfolding handle_xfer_refuse
handle_xfer_refuse-Inv c r v =
    refuse_found-Inv c r (find_transfer c.tx_window r.transfer_id) v (λ x e.
      find_transfer-find_self c.tx_window r.transfer_id x e (omega (arith, v.core.distinct x.self)))

head_found :
    (w : List Tcpv4Xfer) (head : Tcpv4Xfer) (rest : List Tcpv4Xfer)
    → w ≡ head ∷ rest
    → find_self w head.self ≡ some head
unfolding find_self
head_found w head rest e = rw e (ground arith)

-- A running length within the head's is as good as the one before.
acked_to :
    (c : TxConn) (n : ℕ) → Inv c → AckedWithin c.tx_window n → Inv (record c { tx_acked_len = n })
acked_to c n v a = record {
  core = record {
    counted = v.core.counted;
    sized = v.core.sized;
    busy = v.core.busy;
    distinct = v.core.distinct;
    waiting = v.core.waiting;
    live = v.core.live;
    acked = a;
    kept = v.core.kept;
  };
  holds = v.holds;
}

ack_head-Inv :
    (c : TxConn) (a : Tcpv4XferAck) (w : List Tcpv4Xfer)
    → w ≡ c.tx_window
    → Inv c
    → Inv (ack_head c a w).1
ack_head-Inv c a [] e v = v
ack_head-Inv c a (head ∷ rest) e v =
    if_case {A = Bool × TxConn} (λ r. Inv r.1) (not (a.transfer_id == head.transfer_id)) _ _
      (λ t. v)
      (λ same.
        if_case {A = Bool × TxConn} (λ r. Inv r.1)
          (leb a.ack_length c.tx_acked_len || ltb head.length a.ack_length) _ _
          (λ t.
            settle-Inv c _ head v
              (record {
                found = head_found c.tx_window head rest (sym e);
                bundle = refl;
                size = refl;
              })
              refl)
          (λ within.
            let v' =
              acked_to c a.ack_length v
                (subst (λ l. AckedWithin l a.ack_length) e (ground (arith, within))) in
            if_case Inv (a.ack_length == head.length) _ _
              (λ t.
                settle-Inv (record c { tx_acked_len = a.ack_length }) _ head v'
                  (record {
                    found = head_found c.tx_window head rest (sym e);
                    bundle = refl;
                    size = refl;
                  })
                  refl)
              (λ t. v')))

pub handle_xfer_ack-Inv : (c : TxConn) (a : Tcpv4XferAck) → Inv c → Inv (handle_xfer_ack c a).1
unfolding handle_xfer_ack
handle_xfer_ack-Inv c a v = ack_head-Inv c a c.tx_window refl v

-- What holds does not speak of the fields that stop the threads.
relabel :
    (c : TxConn) (holder : Option ℕ) (stopped left : Bool)
    → Core c
    → Core (record c { sending = holder; tx_stopped = stopped; xmit_left = left })
relabel c holder stopped left v = record {
  counted = v.counted;
  sized = v.sized;
  busy = v.busy;
  distinct = v.distinct;
  waiting = v.waiting;
  live = v.live;
  acked = v.acked;
  kept = v.kept;
}

acked-append :
    (w : List Tcpv4Xfer) (x : Tcpv4Xfer) (n : ℕ) → AckedWithin w n → AckedWithin (w ++ (x ∷ [])) n
acked-append [] x n a = omega arith
acked-append (y ∷ w) x n a = a

begun-Inv :
    (c : TxConn) (x : Tcpv4Xfer) (queue : List Tcpv4Xfer) (id next : ℕ)
    → x ∷ queue ≡ c.tx_queue
    → Holds none c.tx_window
    → Core c
    → Inv (record c {
      tx_queue = queue;
      tx_window = c.tx_window ++ (record x { transfer_id = id; in_flight = true } ∷ []);
      next_tx_id = next;
      sending = some x.self;
    })
begun-Inv c x queue id next e idle v = record {
  core = record {
    counted = omega (arith, v.counted, ap length e, length-append c.tx_window (x' ∷ []));
    sized =
        omega
          (arith, v.sized, sum (λ z. z.length), total-append (λ z. z.length) c.tx_window (x' ∷ []));
    busy = v.busy;
    distinct = λ q.
        omega (arith, v.distinct q, sum (is_at q), total-append (is_at q) c.tx_window (x' ∷ []));
    waiting = (subst (All IsWaiting) (sym e) v.waiting).1;
    live = All-append IsLive c.tx_window (x' ∷ []) v.live (inl refl, tt);
    acked = acked-append c.tx_window x' c.tx_acked_len v.acked;
    kept = λ b.
        omega (arith, v.kept b, sum (carries b), total-append (carries b) c.tx_window (x' ∷ []));
  };
  holds = (
    omega (arith, idle, total-append flying c.tx_window (x' ∷ [])),
    x',
    find_self-append c.tx_window x' (
        omega (
          arith,
          v.distinct x.self,
          sum (is_at x.self),
          ap one_if ((==_iff x.self x.self).1 refl),
        )),
    refl,
  );
}
  where
    x' : Tcpv4Xfer
    x' = record x { transfer_id = id; in_flight = true }

    sum : (m : Tcpv4Xfer → ℕ) → m x + total m queue ≡ total m c.tx_queue
    sum m = ap (total m) e

begin_next-Inv :
    (c : TxConn) (q : List Tcpv4Xfer)
    → q ≡ c.tx_queue
    → c.sending ≡ none
    → Inv c
    → Inv (begin_next c q)
begin_next-Inv c [] e s v =
    if_case Inv c.tx_stopped _ _
      (λ t. record { core = relabel c c.sending c.tx_stopped true v.core; holds = v.holds })
      (λ t. v)
begin_next-Inv c (x ∷ queue) e s v =
    if_case Inv c.tx_stopped _ _
      (λ t. record { core = relabel c c.sending c.tx_stopped true v.core; holds = v.holds })
      (λ t.
        begun-Inv c x queue c.next_tx_id _ e (subst (λ a. Holds a c.tx_window) s v.holds) v.core)

pub xmit_begin-Inv : (c : TxConn) → c.sending ≡ none → Inv c → Inv (xmit_begin c)
unfolding xmit_begin
xmit_begin-Inv c s v = begin_next-Inv c c.tx_queue refl s v

pub tcpv4_tx_stop-Inv : (c : TxConn) → Inv c → Inv (tcpv4_tx_stop c)
tcpv4_tx_stop-Inv c v = record {
  core = relabel c c.sending true c.xmit_left v.core;
  holds = v.holds;
}

pub xmit_end-Inv :
    (c : TxConn) (failed : Bool) (p : ℕ) → c.sending ≡ some p → Inv c → Inv (xmit_end c failed p)
unfolding xmit_end
xmit_end-Inv c failed p s v =
    let (n, y, f, t) = subst (λ a. Holds a c.tx_window) s v.holds in
    subst (λ found. Inv (let_go c failed found)) (sym f)
      (release-Inv (record c { sending = none; xmit_left = c.xmit_left || failed })
        (record y { in_flight = false; refused = y.refused || failed }) y
        (relabel c none c.tx_stopped (c.xmit_left || failed) v.core)
        (record {
          found = ap (find_self c.tx_window) (find_self-self c.tx_window p y f) ∙ f;
          bundle = refl;
          size = refl;
        })
        refl n t refl)
