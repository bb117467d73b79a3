-- ===== src/Tcpv4/Io/Fill.antt =====
-- The loop of tcpv4ConnRecv in CLA/tcpv4/src/tcpv4io.c that reads through the buffer.
use ion_dtn_contrib.Prelude.{
  ℕ, zero, suc, ◌-◌, ◌≤◌, ◌<◌, ◌≡◌, ◌⊎◌, inl, inr, refl, sym, ap, ◌∙◌, true, false, not, ◌&&◌, ltb,
  ◌==◌, Bool-cases, if_no, List, [], ◌∷◌, ◌++◌, append_assoc, append-nil, length, length-append,
  length-take, length-drop, take, drop, take-append-drop, take-length_append, drop-length_append,
  some, ℤ, pos, minus_one, arith,
}
use mathlib.Core.Path.{subst}
use ion_dtn_contrib.Tcpv4.Io.{
  Conn, Got, end_rc, smaller, cut_short, stream_recv, conn_recv_some, refilled, fill_round,
  fill_loop, tcpv4_rxbuf_size,
}
use ion_dtn_contrib.Tcpv4.Io.Exactly.{
  buffer_left, unread, IsWithin, IsOpen, Reads, end_rc-Short, Whole-nothing, Reads-then, Drained,
  unread-Drained, smaller_bounds, suc_not_zero,
}

-- A failure is one whatever has been read before it.
pub cut_short-Short :
    (got : List ℕ) (rc : ℤ)
    → (rc ≡ pos 0) ⊎ (rc ≡ minus_one)
    → (cut_short got rc ≡ pos 0) ⊎ (cut_short got rc ≡ minus_one)
cut_short-Short [] rc h = h
cut_short-Short (x ∷ xs) rc (inl e) = inr (ap (cut_short (x ∷ xs)) e)
cut_short-Short (x ∷ xs) rc (inr e) = inr (ap (cut_short (x ∷ xs)) e)

-- The buffer of a connection that has one.
abbrev pub HasBuffer : Conn → Type 0
HasBuffer c = (buf : List ℕ) × (c.rx_buf ≡ some buf) × (65536 ≤ length buf)

module _ (ready : List ℕ → ℕ) (itcp_recv : ℕ → Conn → Got) where
  -- A round of the loop, before rounds that read the rest.
  module _ (next : ℕ → List ℕ → Conn → Got) (fuel left : ℕ) (got : List ℕ) (c : Conn)
      (ok : IsOpen c) (d : Drained c) (b : HasBuffer c) (h : suc left ≤ suc fuel)
      (ih : (m : ℕ) (more : List ℕ) (c' : Conn)
        → IsOpen c'
        → HasBuffer c'
        → (m ≡ 0) ⊎ Drained c'
        → m ≤ fuel
        → Reads m more c' (next m more c')) where
    round_end :
        (rc : ℤ)
        → (rc ≡ pos 0) ⊎ (rc ≡ minus_one)
        → length (unread c) < suc left
        → Reads (suc left) got c (fill_round ready itcp_recv next (suc left) got (rc, [], c))
    round_end rc (inl e) short =
        subst
          (λ r. Reads (suc left) got c (fill_round ready itcp_recv next (suc left) got (r, [], c)))
          (sym e) (inr (short, cut_short-Short got (pos 0) (inl refl)))
    round_end rc (inr e) short =
        subst
          (λ r. Reads (suc left) got c (fill_round ready itcp_recv next (suc left) got (r, [], c)))
          (sym e) (inr (short, cut_short-Short got minus_one (inr refl)))

    module _ (x : ℕ) (xs : List ℕ) (n : ℕ) (e : c.pending ≡ x ∷ xs) (fits : suc n ≤ 65536) where
      abbrev read : List ℕ
      read = x ∷ take n xs

      abbrev want : ℕ
      want = smaller (suc left) (suc (length (take n xs)))

      abbrev after : Conn
      after = record c {
        pending = drop n xs;
        rx_buf = refilled read c.rx_buf;
        rx_buf_len = suc (length (take n xs));
        rx_buf_off = want;
      }

      abbrev buf' : List ℕ
      buf' = read ++ drop (length read) b.0

      refilled_buf : refilled read c.rx_buf ≡ some buf'
      refilled_buf = ap (refilled read) b.1

      left_in_buffer : buffer_left after.rx_buf after.rx_buf_len want ≡ drop want read
      left_in_buffer =
          ap (λ o. buffer_left o (length read) want) refilled_buf
          ∙ ap (drop want) (take-length_append read (drop (length read) b.0))

      want_bounds : (want ≤ suc left) × (want ≤ length read)
      want_bounds = ground arith

      after_unread : unread c ≡ take want read ++ unread after
      after_unread =
          unread-Drained c d
          ∙ e
          ∙ sym (ap (λ l. x ∷ l) (take-append-drop n xs))
          ∙ ap (λ l. l ++ drop n xs) (sym (take-append-drop want read))
          ∙ append_assoc (take want read) (drop want read) (drop n xs)
          ∙ sym (ap (λ l. take want read ++ (l ++ drop n xs)) left_in_buffer)

      size : length (take want read) ≡ want
      size = omega (arith, length-take {0} want read, want_bounds)

      full_size : 65536 ≤ length buf'
      full_size = omega (
        arith,
        length-append {0} read (drop (length read) b.0),
        length-drop {0} (length read) b.0,
        b.2,
      )

      after_HasBuffer : HasBuffer after
      after_HasBuffer = (buf', refilled_buf, full_size)

      after_IsOpen : IsOpen after
      after_IsOpen = record {
        within =
            subst (λ o. IsWithin o (length read) want) (sym refilled_buf)
              (
                want_bounds.1,
                omega (arith, length-append {0} read (drop (length read) b.0)),
                full_size,
              );
        readable = ok.readable;
      }

      want_positive : 0 < want
      want_positive = ground arith

      -- All that is wanted has been read, or the buffer is used up.
      after_state : (suc left - want ≡ 0) ⊎ Drained after
      after_state = elim (Bool-cases (ltb (suc left) (length read))) [
        | inl enough ↦ inl (ground (arith, enough))
        | inr all ↦
            let whole : want ≡ length read = if_no (ltb (suc left) (length read)) _ _ all in
            inr (
              left_in_buffer
              ∙ ap (λ i. drop i read) whole
              ∙ sym (ap (drop (length read)) (append-nil read))
              ∙ drop-length_append read [])
      ]

      round_read : Reads (suc left) got c (
          fill_round ready itcp_recv next
            (suc left)
            got
            (pos (length read), read, record c { pending = drop n xs }))
      round_read =
          Reads-then (suc left) (suc left - want) got (take want read) c after _ after_unread
            (omega (arith, size, want_bounds))
            (ih (suc left - want) (got ++ take want read) after after_IsOpen after_HasBuffer
              after_state (omega (arith, want_positive, h)))

    count_Reads :
        (x : ℕ) (xs : List ℕ) (n : ℕ)
        → c.pending ≡ x ∷ xs
        → 0 < n
        → n ≤ 65536
        → Reads (suc left) got c (
            fill_round ready itcp_recv next (suc left) got (
              pos (length (take n (x ∷ xs))),
              take n (x ∷ xs),
              record c { pending = drop n (x ∷ xs) },
            ))
    count_Reads x xs zero e some_octet fits = absurd (omega arith)
    count_Reads x xs (suc n) e some_octet fits = round_read x xs n e fits

    pending_Reads :
        (p : List ℕ)
        → c.pending ≡ p
        → Reads (suc left) got c (
            fill_round ready itcp_recv next
              (suc left)
              got
              (stream_recv ready itcp_recv tcpv4_rxbuf_size p c))
    pending_Reads [] e =
        round_end (end_rc c.tls c.at_end) (end_rc-Short c.tls c.at_end)
          (omega (arith, ap length (unread-Drained c d ∙ e)))
    pending_Reads (x ∷ xs) e =
        let (some_octet, fits) = smaller_bounds tcpv4_rxbuf_size (ready (x ∷ xs)) (omega arith) in
        count_Reads x xs (smaller tcpv4_rxbuf_size (suc (ready (x ∷ xs)))) e some_octet fits

    some_Reads : Reads (suc left) got c (
        fill_round ready itcp_recv next
          (suc left)
          got
          (conn_recv_some ready itcp_recv tcpv4_rxbuf_size c))
    unfolding conn_recv_some
    some_Reads =
        subst (λ r. Reads (suc left) got c (fill_round ready itcp_recv next (suc left) got r))
          (sym (if_no (not c.tls && not c.sock_open) _ _ (readable ok.readable)))
          (pending_Reads c.pending refl)
      where
        readable : (c.tls ≡ true) ⊎ (c.sock_open ≡ true) → (not c.tls && not c.sock_open) ≡ false
        readable r = ground (arith, r)

  pub fill_loop-Reads :
      (fuel left : ℕ) (got : List ℕ) (c : Conn)
      → IsOpen c
      → HasBuffer c
      → (left ≡ 0) ⊎ Drained c
      → left ≤ fuel
      → Reads left got c (fill_loop ready itcp_recv fuel left got c)
  unfolding fill_loop
  fill_loop-Reads zero zero got c ok b s h = inl (Whole-nothing got c ok)
  fill_loop-Reads zero (suc left) got c ok b s h = absurd (omega arith)
  fill_loop-Reads (suc fuel) zero got c ok b s h = inl (Whole-nothing got c ok)
  fill_loop-Reads (suc fuel) (suc left) got c ok b (inl e) h = absurd (omega arith)
  fill_loop-Reads (suc fuel) (suc left) got c ok b (inr d) h =
      subst (Reads (suc left) got c) (sym (if_no (suc left == 0) _ _ (suc_not_zero left))) (
        some_Reads (fill_loop ready itcp_recv fuel) fuel left got c ok d b h (fill_loop-Reads fuel))
