-- ===== src/Tcpv4/Io/Exactly.antt =====
-- What a read of CLA/tcpv4/src/tcpv4io.c promises, and connRecvExactly.
use ion_dtn_contrib.Prelude.{
  ℕ, zero, suc, ◌+◌, ◌-◌, ◌≤◌, ◌<◌, ◌≡◌, ◌⊎◌, inl, inr, refl, sym, ap, ◌∙◌, Bool, true, false, ◌==◌,
  if_no, if_case, List, [], ◌∷◌, ◌++◌, append_assoc, append-nil, length, length-append, length-take,
  take, drop, take-append-drop, Option, none, some, ℤ, pos, minus_one, arith,
}
use mathlib.Core.Path.{subst}
use ion_dtn_contrib.Tcpv4.Io.{
  Conn, Got, StreamEnd, Errno, end_rc, smaller, stream_recv, exactly_round, exactly_loop,
  conn_recv_exactly,
}

-- The octets of the buffer that are still to be given out.
abbrev pub buffer_left : Option (List ℕ) → ℕ → ℕ → List ℕ
buffer_left none len off = []
buffer_left (some buf) len off = drop off (take len buf)

-- All that is still to be read, in order.
abbrev pub unread : Conn → List ℕ
unread c = buffer_left c.rx_buf c.rx_buf_len c.rx_buf_off ++ c.pending

-- The offsets are within the buffer, which has its full size, and the connection is one that can be read.
abbrev pub IsWithin : Option (List ℕ) → ℕ → ℕ → Type 0
IsWithin none len off = Unit {0}
IsWithin (some buf) len off = (off ≤ len) × (len ≤ length buf) × (65536 ≤ length buf)

pub record IsOpen (c : Conn) : Type 0 where
  pub within : IsWithin c.rx_buf c.rx_buf_len c.rx_buf_off
  pub readable : (c.tls ≡ true) ⊎ (c.sock_open ≡ true)

-- The octets `bs` behind `got`, with the rest still to be read.
pub record Whole (len : ℕ) (got : List ℕ) (c : Conn) (r : Got) : Type 0 where
  pub bs : List ℕ
  pub in_order : unread c ≡ bs ++ unread r.2
  pub size : length bs ≡ len
  pub returned : r.0 ≡ pos (length got + len)
  pub stored : r.1 ≡ got ++ bs
  pub kept : IsOpen r.2

-- The stream has ended, or failed, before `len` octets.
abbrev pub Short : ℕ → Conn → Got → Type 0
Short len c r = (length (unread c) < len) × ((r.0 ≡ pos 0) ⊎ (r.0 ≡ minus_one))

-- A read of `len` octets behind `got` gives the next octets that are to be read, all of them, or
-- fails for want of octets.
abbrev pub Reads : ℕ → List ℕ → Conn → Got → Type 0
Reads len got c r = Whole len got c r ⊎ Short len c r

pub end_rc-Short :
    (tls : Bool) (e : StreamEnd) → (end_rc tls e ≡ pos 0) ⊎ (end_rc tls e ≡ minus_one)
end_rc-Short tls StreamEnd.closed = inl refl
end_rc-Short true (StreamEnd.failed e) = inr refl
end_rc-Short false (StreamEnd.failed Errno.eintr) = inl refl
end_rc-Short false (StreamEnd.failed Errno.ebadf) = inl refl
end_rc-Short false (StreamEnd.failed Errno.econnreset) = inl refl
end_rc-Short false (StreamEnd.failed Errno.other) = inr refl

module _ (got : List ℕ) (c : Conn) (ok : IsOpen c) where
  pub Whole-nothing : Whole 0 got c (pos (length got), got, c)
  Whole-nothing = record {
    bs = [];
    in_order = refl;
    size = refl;
    returned = ap pos (omega arith);
    stored = sym (append-nil got);
    kept = ok;
  }

-- A read that has given `bs`, before one that reads the rest.
pub Reads-then :
    (len more : ℕ) (got bs : List ℕ) (c d : Conn) (r : Got)
    → unread c ≡ bs ++ unread d
    → length bs + more ≡ len
    → Reads more (got ++ bs) d r
    → Reads len got c r
Reads-then len more got bs c d r e n (inl w) = inl (record {
  bs = bs ++ w.bs;
  in_order = e ∙ ap (λ l. bs ++ l) w.in_order ∙ sym (append_assoc bs w.bs (unread r.2));
  size = omega (arith, length-append {0} bs w.bs, w.size, n);
  returned = w.returned ∙ ap pos (omega (arith, length-append {0} got bs, n));
  stored = w.stored ∙ append_assoc got bs w.bs;
  kept = w.kept;
})
Reads-then len more got bs c d r e n (inr (short, rc)) =
    inr (omega (arith, ap length e, length-append {0} bs (unread d), short, n), rc)

-- Nothing of the buffer is left.
abbrev pub Drained : Conn → Type 0
Drained c = buffer_left c.rx_buf c.rx_buf_len c.rx_buf_off ≡ []

-- itcp_recv() of ION: all the octets wanted, the next of the stream, or 0 or -1 where it ends or fails.
abbrev pub IsItcpRecv : (ℕ → Conn → Got) → Type 0
IsItcpRecv itcp_recv =
    (len : ℕ) (c : Conn)
    → ((len ≤ length c.pending)
        × (itcp_recv len c
            ≡ (pos len, take len c.pending, record c { pending = drop len c.pending })))
      ⊎ ((length c.pending < len)
          × (((itcp_recv len c).0 ≡ pos 0) ⊎ ((itcp_recv len c).0 ≡ minus_one)))

pub unread-Drained : (c : Conn) → Drained c → unread c ≡ c.pending
unread-Drained c e = ap (λ l. l ++ c.pending) e

pub pending_left : (c : Conn) (p : List ℕ) → IsOpen c → IsOpen (record c { pending = p })
pending_left c p ok = record { within = ok.within; readable = ok.readable }

pub smaller_bounds : (m k : ℕ) → 0 < m → (0 < smaller m (suc k)) × (smaller m (suc k) ≤ m)
smaller_bounds m k h = ground arith

pub suc_not_zero : (n : ℕ) → (suc n == 0) ≡ false
suc_not_zero n = ground arith

module _ (ready : List ℕ → ℕ) (itcp_recv : ℕ → Conn → Got) where
  -- A round of the loop, before rounds that read the rest.
  module _ (next : ℕ → List ℕ → Conn → Got) (fuel left : ℕ) (got : List ℕ) (c : Conn)
      (ok : IsOpen c) (d : Drained c) (h : suc left ≤ suc fuel)
      (ih : (m : ℕ) (more : List ℕ) (c' : Conn)
        → IsOpen c'
        → Drained c'
        → m ≤ fuel
        → Reads m more c' (next m more c')) where
    by_count :
        (x : ℕ) (xs : List ℕ) (n : ℕ)
        → c.pending ≡ x ∷ xs
        → 0 < n
        → n ≤ suc left
        → Reads (suc left) got c (
            exactly_round ready itcp_recv next (suc left) got (
              pos (length (take n (x ∷ xs))),
              take n (x ∷ xs),
              record c { pending = drop n (x ∷ xs) },
            ))
    by_count x xs zero e some_octet fits = absurd (omega arith)
    by_count x xs (suc n) e some_octet fits =
        let bs = x ∷ take n xs in
        let c' = record c { pending = drop n xs } in
        let within : length (take n xs) ≤ left = omega (arith, length-take {0} n xs) in
        Reads-then (suc left) (suc left - suc (length (take n xs))) got bs c c' _
          (unread-Drained c d
            ∙ e
            ∙ sym (ap (λ l. x ∷ l) (take-append-drop n xs))
            ∙ sym (ap (λ l. bs ++ l) (unread-Drained c' d)))
          (omega (arith, within))
          (ih (suc left - suc (length (take n xs))) (got ++ bs) c' (pending_left c (drop n xs) ok) d
            (omega arith))

    by_end :
        (rc : ℤ)
        → (rc ≡ pos 0) ⊎ (rc ≡ minus_one)
        → length (unread c) < suc left
        → Reads (suc left) got c (exactly_round ready itcp_recv next (suc left) got (rc, [], c))
    by_end rc (inl e) short =
        subst
          (λ r.
            Reads (suc left) got c (exactly_round ready itcp_recv next (suc left) got (r, [], c)))
          (sym e) (inr (short, inl refl))
    by_end rc (inr e) short =
        subst
          (λ r.
            Reads (suc left) got c (exactly_round ready itcp_recv next (suc left) got (r, [], c)))
          (sym e) (inr (short, inr refl))

    pending_Reads :
        (p : List ℕ)
        → c.pending ≡ p
        → Reads (suc left) got c (
            exactly_round ready itcp_recv next
              (suc left)
              got
              (stream_recv ready itcp_recv (suc left) p c))
    pending_Reads [] e =
        by_end (end_rc c.tls c.at_end) (end_rc-Short c.tls c.at_end)
          (omega (arith, ap length (unread-Drained c d ∙ e)))
    pending_Reads (x ∷ xs) e =
        let (some_octet, fits) = smaller_bounds (suc left) (ready (x ∷ xs)) (omega arith) in
        by_count x xs (smaller (suc left) (suc (ready (x ∷ xs)))) e some_octet fits

  exactly_loop-Reads :
      (fuel left : ℕ) (got : List ℕ) (c : Conn)
      → IsOpen c
      → Drained c
      → left ≤ fuel
      → Reads left got c (exactly_loop ready itcp_recv fuel left got c)
  unfolding exactly_loop
  exactly_loop-Reads zero zero got c ok d h = inl (Whole-nothing got c ok)
  exactly_loop-Reads zero (suc left) got c ok d h = absurd (omega arith)
  exactly_loop-Reads (suc fuel) zero got c ok d h = inl (Whole-nothing got c ok)
  exactly_loop-Reads (suc fuel) (suc left) got c ok d h =
      subst (Reads (suc left) got c) (sym (if_no (suc left == 0) _ _ (suc_not_zero left))) (
        pending_Reads (exactly_loop ready itcp_recv fuel) fuel left got c ok d h
          (exactly_loop-Reads fuel) c.pending refl)

  -- connRecvExactly gives the next octets, over TLS as over TCP.
  pub conn_recv_exactly-Reads :
      IsItcpRecv itcp_recv
      → (len : ℕ) (c : Conn) → IsOpen c
      → Drained c
      → Reads len [] c (conn_recv_exactly ready itcp_recv len c)
  unfolding conn_recv_exactly
  conn_recv_exactly-Reads itcp len c ok d =
      if_case (Reads len [] c) c.tls _ _ (λ e. exactly_loop-Reads len len [] c ok d (omega arith))
        (λ e. by_itcp (itcp len c))
    where
      by_itcp :
          ((len ≤ length c.pending)
              × (itcp_recv len c
                  ≡ (pos len, take len c.pending, record c { pending = drop len c.pending })))
            ⊎ ((length c.pending < len)
                × (((itcp_recv len c).0 ≡ pos 0) ⊎ ((itcp_recv len c).0 ≡ minus_one)))
          → Reads len [] c (itcp_recv len c)
      by_itcp (inr (short, rc)) = inr (omega (arith, ap length (unread-Drained c d), short), rc)
      by_itcp (inl (fits, e)) =
          let c' = record c { pending = drop len c.pending } in
          subst (Reads len [] c) (sym e) (
            inl (record {
              bs = take len c.pending;
              in_order =
                  unread-Drained c d
                  ∙ sym (take-append-drop len c.pending)
                  ∙ sym (ap (λ l. take len c.pending ++ l) (unread-Drained c' d));
              size = omega (arith, length-take {0} len c.pending);
              returned = ap pos (omega arith);
              stored = refl;
              kept = pending_left c (drop len c.pending) ok;
            }))
