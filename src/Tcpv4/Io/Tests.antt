-- ===== src/Tcpv4/Io/Tests.antt =====
-- A run of tcpv4ConnRecv of CLA/tcpv4/src/tcpv4io.c, and its theorem at it.
use ion_dtn_contrib.Prelude.{
  ℕ, zero, suc, ◌≡◌, refl, inl, inr, true, false, leb, leb→le, leb→gt, Bool-cases, if◌then◌else◌,
  if_yes, if_no, List, [], ◌∷◌, length, take, drop, some, pos, ap, arith,
}
use ion_dtn_contrib.Tcpv4.Io.{Conn, Got, StreamEnd, conn_recv_some, fill_loop, tcpv4_conn_recv}
use ion_dtn_contrib.Tcpv4.Io.Exactly.{IsOpen, IsItcpRecv, Reads}
use ion_dtn_contrib.Tcpv4.Io.Buffered.{tcpv4_conn_recv-Reads}

abbrev itcp : ℕ → Conn → Got
itcp len c =
    if leb len (length c.pending)
    then (pos len, take len c.pending, record c { pending = drop len c.pending })
    else (pos 0, [], c)

itcp-IsItcpRecv : IsItcpRecv itcp
itcp-IsItcpRecv len c = elim (Bool-cases (leb len (length c.pending))) [
  | inl e ↦ inl (leb→le len (length c.pending) e, if_yes (leb len (length c.pending)) _ _ e)
  | inr e ↦ inr (
    leb→gt len (length c.pending) e,
    inl (ap (λ (r : Got). r.0) (if_no (leb len (length c.pending)) _ _ e)),
  )
]

zeros : ℕ → List ℕ
zeros zero = []
zeros (suc n) = 0 ∷ zeros n

length-zeros : (n : ℕ) → length (zeros n) ≡ n
unfolding zeros
length-zeros zero = refl
length-zeros (suc n) = ap suc (length-zeros n)

-- One octet of the buffer is left, and the peer has three more to send, two at a time.
abbrev half_read : Conn
half_read = record {
  tls = false;
  sock_open = true;
  pending = 5 ∷ 6 ∷ 7 ∷ [];
  at_end = StreamEnd.closed;
  rx_buf = some (3 ∷ 4 ∷ zeros 65536);
  rx_buf_len = 2;
  rx_buf_off = 1;
}

half_read-IsOpen : IsOpen half_read
half_read-IsOpen = record {
  within = (omega arith, omega arith, omega (arith, length-zeros 65536));
  readable = inr refl;
}

tcpv4_conn_recv_run : (tcpv4_conn_recv (λ p. 1) itcp 3 half_read).1 ≡ 4 ∷ 5 ∷ 6 ∷ []
unfolding tcpv4_conn_recv fill_loop conn_recv_some
tcpv4_conn_recv_run = refl

tcpv4_conn_recv-Reads_example : Reads 3 [] half_read (tcpv4_conn_recv (λ p. 1) itcp 3 half_read)
tcpv4_conn_recv-Reads_example =
    tcpv4_conn_recv-Reads (λ p. 1) itcp itcp-IsItcpRecv 3 half_read (omega arith) half_read-IsOpen
