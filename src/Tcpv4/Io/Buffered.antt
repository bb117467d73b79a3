-- ===== src/Tcpv4/Io/Buffered.antt =====
-- tcpv4ConnRecv of CLA/tcpv4/src/tcpv4io.c with its read-ahead buffer: what is read is the stream.
use ion_dtn_contrib.Prelude.{
  ℕ, zero, suc, ◌+◌, ◌-◌, ◌≤◌, ◌<◌, ◌≡◌, ◌⊎◌, inl, inr, refl, sym, ap, ◌∙◌, false, ◌&&◌, leb, ltb,
  ◌==◌, ==_iff, if_yes, if_no, if_case, List, [], ◌∷◌, ◌++◌, append_assoc, length, length-take,
  length-drop, take, drop, take-append-drop, drop-drop, Option, none, some, pos, minus_one, arith,
}
use mathlib.Core.Path.{subst}
use ion_dtn_contrib.Tcpv4.Io.{
  Conn, Got, smaller, cut_short, direct, beyond, by_buffer, buffered, tcpv4_conn_recv,
  tcpv4_rxbuf_direct,
}
use ion_dtn_contrib.Tcpv4.Io.Exactly.{
  buffer_left, unread, IsWithin, IsOpen, Reads, Reads-then, Drained, IsItcpRecv,
  conn_recv_exactly-Reads,
}
use ion_dtn_contrib.Tcpv4.Io.Fill.{cut_short-Short, HasBuffer, fill_loop-Reads}

take-take : (m n : ℕ) (xs : List ℕ) → m ≤ n → take m (take n xs) ≡ take m xs
take-take zero n xs h = refl
take-take (suc m) zero xs h = absurd (omega arith)
take-take (suc m) (suc n) [] h = refl
take-take (suc m) (suc n) (x ∷ xs) h = ap (λ l. x ∷ l) (take-take m n xs (omega arith))

drop-empty : (n : ℕ) (xs : List ℕ) → length xs ≤ n → drop n xs ≡ []
drop-empty zero [] h = refl
drop-empty zero (x ∷ xs) h = absurd (omega arith)
drop-empty (suc n) [] h = refl
drop-empty (suc n) (x ∷ xs) h = drop-empty n xs (omega arith)

-- The octets at an offset are those below the fill level too.
take-drop-take :
    (off got len : ℕ) (buf : List ℕ)
    → off + got ≤ len
    → take got (drop off (take len buf)) ≡ take got (drop off buf)
take-drop-take zero got len buf h = take-take got len buf (omega arith)
take-drop-take (suc off) got zero buf h = absurd (omega arith)
take-drop-take (suc off) got (suc len) [] h = refl
take-drop-take (suc off) got (suc len) (x ∷ buf) h = take-drop-take off got len buf (omega arith)

module _ (ready : List ℕ → ℕ) (itcp_recv : ℕ → Conn → Got) where
  -- The bulk read, behind octets from the buffer.
  direct-Reads :
      (left : ℕ) (got : List ℕ) (c : Conn) (r : Got)
      → 0 < left
      → Reads left [] c r
      → Reads left got c (direct ready itcp_recv left got r)
  direct-Reads left got c (rc, bs, c') h (inl w) =
      let stored : bs ≡ w.bs = w.stored in
      let returned : rc ≡ pos left = w.returned ∙ ap pos (omega arith) in
      subst (λ z. Reads left got c (direct ready itcp_recv left got (z, bs, c'))) (sym returned)
        (inl (record {
          bs = w.bs;
          in_order = w.in_order;
          size = w.size;
          returned = if_yes (left == left) _ _ ((==_iff left left).1 refl);
          stored = ap (λ l. got ++ l) stored;
          kept = w.kept;
        }))
  direct-Reads left got c (rc, bs, c') h (inr (short, inl e)) =
      subst (λ z. Reads left got c (direct ready itcp_recv left got (z, bs, c'))) (sym e)
        (inr (
          short,
          subst (λ z. (z ≡ pos 0) ⊎ (z ≡ minus_one))
              (sym (
                if_no (0 == left) (pos (length got + left)) (cut_short got (pos 0)) (ground arith)))
              (cut_short-Short got (pos 0) (inl refl)),
        ))
  direct-Reads left got c (rc, bs, c') h (inr (short, inr e)) =
      subst (λ z. Reads left got c (direct ready itcp_recv left got (z, bs, c'))) (sym e)
        (inr (short, cut_short-Short got minus_one (inr refl)))

  module _ (itcp : IsItcpRecv itcp_recv) where
    beyond-Reads :
        (left : ℕ) (got : List ℕ) (c : Conn)
        → 0 < left
        → IsOpen c
        → HasBuffer c
        → Drained c
        → Reads left got c (beyond ready itcp_recv left got c)
    beyond-Reads left got c h ok b d =
        if_case (Reads left got c) (leb tcpv4_rxbuf_direct left) _ _
          (λ e.
            direct-Reads left got c _ h (conn_recv_exactly-Reads ready itcp_recv itcp left c ok d))
          (λ e. fill_loop-Reads ready itcp_recv left left got c ok b (inr d) (omega arith))

    module _ (len : ℕ) (buf : List ℕ) (c : Conn) (h : 0 < len) (ok : IsOpen c)
        (e : c.rx_buf ≡ some buf) where
      abbrev got : ℕ
      got = smaller (c.rx_buf_len - c.rx_buf_off) len

      abbrev front : List ℕ
      front = take got (drop c.rx_buf_off buf)

      abbrev moved : Conn
      moved = record c { rx_buf_off = c.rx_buf_off + got }

      inside : IsWithin (some buf) c.rx_buf_len c.rx_buf_off
      inside = subst (λ o. IsWithin o c.rx_buf_len c.rx_buf_off) e ok.within

      got_bounds : (c.rx_buf_off + got ≤ c.rx_buf_len) × (got ≤ len)
      got_bounds = let i = inside.0 in ground arith

      moved_unread : unread c ≡ front ++ unread moved
      moved_unread =
          let filled = take c.rx_buf_len buf in
          ap (λ o. buffer_left o c.rx_buf_len c.rx_buf_off ++ c.pending) e
          ∙ ap (λ l. l ++ c.pending) (sym (take-append-drop got (drop c.rx_buf_off filled)))
          ∙ append_assoc (take got (drop c.rx_buf_off filled)) (drop got (drop c.rx_buf_off filled))
              c.pending
          ∙ ap (λ l. l ++ (drop got (drop c.rx_buf_off filled) ++ c.pending))
              (take-drop-take c.rx_buf_off got c.rx_buf_len buf got_bounds.0)
          ∙ ap (λ l. front ++ (l ++ c.pending))
              (sym (drop-drop c.rx_buf_off got (c.rx_buf_off + got) filled refl))
          ∙ sym
              (ap (λ o. front ++ (buffer_left o c.rx_buf_len (c.rx_buf_off + got) ++ c.pending)) e)

      front_size : length front ≡ got
      front_size = omega (
        arith,
        length-take {0} got (drop c.rx_buf_off buf),
        length-drop {0} c.rx_buf_off buf,
        got_bounds,
        inside,
      )

      moved_IsOpen : IsOpen moved
      moved_IsOpen = record {
        within =
            subst (λ o. IsWithin o c.rx_buf_len (c.rx_buf_off + got)) (sym e)
              (got_bounds.0, inside.1, inside.2);
        readable = ok.readable;
      }

      moved_Drained : (ltb 0 got && got == len) ≡ false → Drained moved
      moved_Drained f =
          let all : c.rx_buf_off + got ≡ c.rx_buf_len = (let i = inside.0 in ground (arith, f)) in
          ap (λ o. buffer_left o c.rx_buf_len (c.rx_buf_off + got)) e
          ∙ drop-empty (c.rx_buf_off + got) (take c.rx_buf_len buf)
              (omega (arith, all, length-take {0} c.rx_buf_len buf))

      buffered-Reads : Reads len [] c (buffered ready itcp_recv len buf c)
      buffered-Reads =
          if_case (Reads len [] c) (ltb 0 got && got == len) _ _
            (λ f. inl (record {
              bs = front;
              in_order = moved_unread;
              size = omega (arith, front_size, let n : got ≡ len = ground (arith, f) in n);
              returned = ap pos (omega arith);
              stored = refl;
              kept = moved_IsOpen;
            }))
            (λ f.
              let all = moved_Drained f in
              Reads-then len (len - got) [] front c moved _ moved_unread
                (omega (arith, front_size, got_bounds))
                (beyond-Reads (len - got) front moved (ground (arith, f)) moved_IsOpen
                  (buf, e, inside.2) all))

    -- However the reads of the stream cut it up, and with the read-ahead buffer or without it, a read
    -- of `len` octets gives the next octets that are to be read, those in the buffer before those
    -- that the peer has still to send, all `len` of them, and leaves the rest; or it returns 0 or
    -- -1, and there are fewer than `len`.
    pub tcpv4_conn_recv-Reads :
        (len : ℕ) (c : Conn)
        → 0 < len
        → IsOpen c
        → Reads len [] c (tcpv4_conn_recv ready itcp_recv len c)
    unfolding tcpv4_conn_recv
    tcpv4_conn_recv-Reads len c h ok = by_cases c.rx_buf refl
      where
        by_cases :
            (o : Option (List ℕ))
            → c.rx_buf ≡ o
            → Reads len [] c (by_buffer ready itcp_recv len o c)
        by_cases none e =
            conn_recv_exactly-Reads ready itcp_recv itcp len c ok
              (ap (λ o. buffer_left o c.rx_buf_len c.rx_buf_off) e)
        by_cases (some buf) e = buffered-Reads len buf c h ok e
