-- ===== src/Tcpv4/Tx.antt =====
-- The transfer lists of a session: CLA/tcpv4/src/tcpv4tx.c with the handlers of XFER_ACK and
-- XFER_REFUSE of CLA/tcpv4/src/tcpv4rx.c. What a thread does under one hold of txMutex is one
-- function. A transfer stands for the object at the address `self`: a list holds its contents.
pub mod Lists
pub mod Invariant
pub mod Steps
pub mod Reach
pub mod Window
pub mod Send
mod Tests
use ion_dtn_contrib.Prelude.{
  ℕ, zero, suc, ◌+◌, ◌-◌, ◌%◌, ◌^◌, Bool, true, false, not, ◌&&◌, ◌||◌, ltb, leb, ◌==◌,
  if◌then◌else◌, List, [], ◌∷◌, ◌++◌, length, Option, none, some, ℤ, pos, minus_one,
}
use ion_dtn_contrib.Tcpv4.Msg.Types.{Tcpv4XferAck, Tcpv4XferRefuse}

pub record Tcpv4Xfer : Type 0 where
  pub self : ℕ
  pub bundle : ℕ
  pub length : ℕ
  pub transfer_id : ℕ
  pub in_flight : Bool
  pub acked : Bool
  pub refused : Bool
  pub completed : Bool

-- TCPV4_XFER_SUCCEEDED.
abbrev pub xfer_succeeded : Tcpv4Xfer → Bool
xfer_succeeded x = x.completed || (x.acked && not x.refused)

-- The fields of Tcpv4Conn that txMutex guards, with the transfer that the transmit thread holds
-- (`sending`) and whether it has left its loop, the bundles that queueXfer has taken and the calls
-- of e->tx.done, the latest first.
pub record TxConn : Type 0 where
  pub tx_queue : List Tcpv4Xfer
  pub tx_window : List Tcpv4Xfer
  pub tx_count : ℕ
  pub tx_bytes : ℕ
  pub next_tx_id : ℕ
  pub tx_acked_len : ℕ
  pub tx_stopped : Bool
  pub tx_active : Bool
  pub transfer_mtu : ℕ
  pub sending : Option ℕ
  pub xmit_left : Bool
  pub taken : List ℕ
  pub reported : List (ℕ × Bool)

abbrev pub tx_append : List Tcpv4Xfer → Tcpv4Xfer → List Tcpv4Xfer
tx_append xs x = xs ++ (x ∷ [])

-- `none` for a result of 0.
pub tx_unlink : List Tcpv4Xfer → ℕ → Option (List Tcpv4Xfer)
tx_unlink [] p = none
tx_unlink (x ∷ xs) p =
    let rest = tx_unlink xs p in
    if x.self == p then some xs else elim rest [ none ↦ none | some ys ↦ some (x ∷ ys) ]

-- Reading and writing the object at an address.
pub find_self : List Tcpv4Xfer → ℕ → Option Tcpv4Xfer
find_self [] p = none
find_self (x ∷ xs) p = if x.self == p then some x else find_self xs p

pub store : Tcpv4Xfer → List Tcpv4Xfer → List Tcpv4Xfer
store x [] = []
store x (y ∷ ys) = if y.self == x.self then x ∷ ys else y ∷ store x ys

abbrev pub is_head : List Tcpv4Xfer → ℕ → Bool
is_head [] p = false
is_head (x ∷ xs) p = x.self == p

-- What tcpv4TxFinished does once it has unlinked `x`.
abbrev pub retire : TxConn → Tcpv4Xfer → Option (List Tcpv4Xfer) → Option Tcpv4Xfer × TxConn
retire c x none = (none, c)
retire c x (some window) = (
  some x,
  record c {
    tx_window = window;
    tx_count = c.tx_count - 1;
    tx_bytes = c.tx_bytes - x.length;
    tx_active = not (c.tx_count - 1 == 0);
  },
)

-- `x` has the present contents of the object.
pub tcpv4_tx_finished : TxConn → Tcpv4Xfer → Option Tcpv4Xfer × TxConn
tcpv4_tx_finished c x =
    if x.in_flight || (not x.acked && not x.refused)
    then (none, c)
    else let c' = if is_head c.tx_window x.self then record c { tx_acked_len = 0 } else c in
      retire c' x (tx_unlink c.tx_window x.self)

-- `if (done != NULL) e->tx.done(...)`.
abbrev pub report : Option Tcpv4Xfer × TxConn → TxConn
report (none, c) = c
report (some x, c) = record c { reported = (x.bundle, xfer_succeeded x) ∷ c.reported }

-- `x` is written to, then retired if it is finished, and its outcome reported.
unfoldable pub settle : TxConn → Tcpv4Xfer → TxConn
settle c x = report (tcpv4_tx_finished (record c { tx_window = store x c.tx_window }) x)

abbrev pub tcpv4_tx_stop : TxConn → TxConn
tcpv4_tx_stop c = record c { tx_stopped = true }

abbrev pub report_all : List Tcpv4Xfer → List (ℕ × Bool) → List (ℕ × Bool)
report_all [] log = log
report_all (x ∷ xs) log = report_all xs ((x.bundle, xfer_succeeded x) ∷ log)

-- The two loops of tcpv4TxDrain push what they unlink on a list of their own.
abbrev pub splice : List Tcpv4Xfer → List Tcpv4Xfer → List Tcpv4Xfer
splice [] dead = dead
splice (x ∷ xs) dead = splice xs (x ∷ dead)

unfoldable pub tcpv4_tx_drain : TxConn → TxConn
tcpv4_tx_drain c = record c {
  tx_stopped = true;
  tx_queue = [];
  tx_window = [];
  tx_count = 0;
  tx_bytes = 0;
  tx_active = false;
  reported = report_all (splice c.tx_window (splice c.tx_queue [])) c.reported;
}

-- The condition of the loop in which queueXfer waits for room; `window` and `window_bytes` are the
-- fields of the configuration.
abbrev pub must_wait : ℕ → ℕ → TxConn → ℕ → Bool
must_wait window window_bytes c size =
    not c.tx_stopped
    && (ltb 0 c.tx_count
        && ((ltb 0 window && leb window c.tx_count)
            || (ltb 0 window_bytes && ltb window_bytes (c.tx_bytes + size))))

abbrev pub new_xfer : ℕ → ℕ → ℕ → Tcpv4Xfer
new_xfer self bundle size = record {
  self = self;
  bundle = bundle;
  length = size;
  transfer_id = 0;
  in_flight = false;
  acked = false;
  refused = false;
  completed = false;
}

-- What queueXfer does with the object that MTAKE gave, behind its loop.
abbrev pub queue_taken : TxConn → ℕ → ℕ → Option ℕ → ℤ × TxConn
queue_taken c bundle size none = (minus_one, c)
queue_taken c bundle size (some self) = if c.tx_stopped then (minus_one, c) else (
  pos 0,
  record c {
    tx_queue = tx_append c.tx_queue (new_xfer self bundle size);
    tx_count = c.tx_count + 1;
    tx_bytes = c.tx_bytes + size;
    tx_active = true;
    taken = bundle ∷ c.taken;
  },
)

-- queueXfer, for a sender that did not time out in its loop.
unfoldable pub queue_xfer : TxConn → ℕ → ℕ → Option ℕ → ℤ × TxConn
queue_xfer c bundle size block =
    if ltb c.transfer_mtu size then (minus_one, c) else queue_taken c bundle size block

-- The transmit thread takes the head of the queue, waits where there is none, and leaves once the
-- session is stopped.
abbrev pub begin_next : TxConn → List Tcpv4Xfer → TxConn
begin_next c [] = if c.tx_stopped then record c { xmit_left = true } else c
begin_next c (x ∷ queue) = if c.tx_stopped then record c { xmit_left = true } else record c {
  tx_queue = queue;
  tx_window = tx_append c.tx_window (record x { transfer_id = c.next_tx_id; in_flight = true });
  next_tx_id = (c.next_tx_id + 1) % 2 ^ 64;
  sending = some x.self;
}

unfoldable pub xmit_begin : TxConn → TxConn
xmit_begin c = begin_next c c.tx_queue

-- The transmit thread lets go of the transfer; an object that is no longer there is `none`.
abbrev pub let_go : TxConn → Bool → Option Tcpv4Xfer → TxConn
let_go c failed none = c
let_go c failed (some x) =
    settle (record c { sending = none; xmit_left = c.xmit_left || failed })
      (record x { in_flight = false; refused = x.refused || failed })

unfoldable pub xmit_end : TxConn → Bool → ℕ → TxConn
xmit_end c failed p = let_go c failed (find_self c.tx_window p)

-- handleXferAck, with whether a MSG_REJECT is answered.
abbrev pub ack_head : TxConn → Tcpv4XferAck → List Tcpv4Xfer → Bool × TxConn
ack_head c ack [] = (true, c)
ack_head c ack (head ∷ window) =
    if not (ack.transfer_id == head.transfer_id)
    then (true, c)
    else if leb ack.ack_length c.tx_acked_len || ltb head.length ack.ack_length
    then (true, settle c (record head { refused = true }))
    else (
      false,
      let c' = record c { tx_acked_len = ack.ack_length } in
          if ack.ack_length == head.length then settle c' (record head { acked = true }) else c',
    )

unfoldable pub handle_xfer_ack : TxConn → Tcpv4XferAck → Bool × TxConn
handle_xfer_ack c ack = ack_head c ack c.tx_window

-- The loop of handleXferRefuse.
pub find_transfer : List Tcpv4Xfer → ℕ → Option Tcpv4Xfer
find_transfer [] id = none
find_transfer (x ∷ xs) id = if x.transfer_id == id then some x else find_transfer xs id

abbrev pub tmsg_refuse_completed : ℕ
tmsg_refuse_completed = 1

abbrev pub refuse_found : TxConn → Tcpv4XferRefuse → Option Tcpv4Xfer → Bool × TxConn
refuse_found c refuse none = (true, c)
refuse_found c refuse (some x) = (
  false,
  settle c (record x {
    refused = true;
    completed = x.completed || refuse.reason == tmsg_refuse_completed;
  }),
)

unfoldable pub handle_xfer_refuse : TxConn → Tcpv4XferRefuse → Bool × TxConn
handle_xfer_refuse c refuse = refuse_found c refuse (find_transfer c.tx_window refuse.transfer_id)
