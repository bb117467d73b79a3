-- ===== src/Tcpv4/Io.antt =====
-- The reads of CLA/tcpv4/src/tcpv4io.c: tcpv4ConnRecv with its read-ahead buffer. The octets that the
-- peer has still to send are a list, and how many of them a read finds ready is a parameter.
pub mod Exactly
pub mod Fill
pub mod Buffered
mod Tests
use ion_dtn_contrib.Prelude.{
  ℕ, zero, suc, ◌+◌, ◌-◌, ◌≤◌, ◌<◌, ◌≡◌, ◌⊎◌, Bool, true, false, not, ◌&&◌, leb, ltb, ◌==◌,
  if◌then◌else◌, List, [], ◌∷◌, ◌++◌, length, take, drop, Option, none, some, ℤ, pos, negsuc,
  minus_one,
}

abbrev pub tcpv4_rxbuf_size : ℕ
tcpv4_rxbuf_size = 65536

abbrev pub tcpv4_rxbuf_direct : ℕ
tcpv4_rxbuf_direct = 4096

pub data Errno : Type 0 where
  eintr : Errno
  ebadf : Errno
  econnreset : Errno
  other : Errno

-- What a read finds behind the last octet.
pub data StreamEnd : Type 0 where
  closed : StreamEnd
  failed : Errno → StreamEnd

-- `pending` is what the peer has still to send; `rx_buf` is `none` for NULL.
pub record Conn : Type 0 where
  pub tls : Bool
  pub sock_open : Bool
  pub pending : List ℕ
  pub at_end : StreamEnd
  pub rx_buf : Option (List ℕ)
  pub rx_buf_len : ℕ
  pub rx_buf_off : ℕ

-- The C result, the octets stored, and the connection.
abbrev pub Got : Type 0
Got = ℤ × List ℕ × Conn

-- irecv() and tcpv4TlsRecv() at the end of the stream, the first with the errors that connRecvSome
-- reports as an orderly end.
abbrev pub end_rc : Bool → StreamEnd → ℤ
end_rc tls closed = pos 0
end_rc true (failed e) = minus_one
end_rc false (failed eintr) = pos 0
end_rc false (failed ebadf) = pos 0
end_rc false (failed econnreset) = pos 0
end_rc false (failed other) = minus_one

-- tcpv4ConnStartBuffering, where `granted` tells whether there is memory, and `memory` what it holds.
unfoldable pub tcpv4_conn_start_buffering : Bool → List ℕ → Conn → Conn
tcpv4_conn_start_buffering granted memory c = elim c.rx_buf [
  | some buf ↦ c
  | none ↦ if granted then record c { rx_buf = some memory; rx_buf_len = 0; rx_buf_off = 0 } else c
]

-- The octets read so far when a read ends early.
abbrev pub cut_short : List ℕ → ℤ → ℤ
cut_short [] rc = rc
cut_short (x ∷ xs) (pos zero) = minus_one
cut_short (x ∷ xs) (pos (suc n)) = pos (suc n)
cut_short (x ∷ xs) (negsuc n) = negsuc n

abbrev pub smaller : ℕ → ℕ → ℕ
smaller m n = if ltb m n then m else n

-- `rxBuf` with the octets read at its front.
abbrev pub refilled : List ℕ → Option (List ℕ) → Option (List ℕ)
refilled bs none = none
refilled bs (some buf) = some (bs ++ drop (length bs) buf)

-- `ready` is the number of octets ready besides the first, and `itcp_recv` that of ION.
module _ (ready : List ℕ → ℕ) (itcp_recv : ℕ → Conn → Got) where
  -- A read of at most `cap` octets, of which there is one.
  abbrev pub some_ready : ℕ → ℕ → List ℕ → Conn → Got
  some_ready cap x xs c =
      let n = smaller cap (suc (ready (x ∷ xs))) in
      let bs = take n (x ∷ xs) in (pos (length bs), bs, record c { pending = drop n (x ∷ xs) })

  -- tcpv4TlsRecv or irecv.
  abbrev pub stream_recv : ℕ → List ℕ → Conn → Got
  stream_recv cap [] c = (end_rc c.tls c.at_end, [], c)
  stream_recv cap (x ∷ xs) c = some_ready cap x xs c

  unfoldable pub conn_recv_some : ℕ → Conn → Got
  conn_recv_some cap c =
      if not c.tls && not c.sock_open then (pos 0, [], c) else stream_recv cap c.pending c

  -- How the loop of connRecvExactly goes on.
  abbrev pub exactly_round : (ℕ → List ℕ → Conn → Got) → ℕ → List ℕ → Got → Got
  exactly_round next left got (pos (suc n), bs, c) = next (left - suc n) (got ++ bs) c
  exactly_round next left got (pos zero, bs, c) = (pos zero, got, c)
  exactly_round next left got (negsuc n, bs, c) = (negsuc n, got, c)

  -- The loop of connRecvExactly over TLS; every round reads an octet at least.
  unfoldable pub exactly_loop : ℕ → ℕ → List ℕ → Conn → Got
  exactly_loop zero left got c = (pos (length got), got, c)
  exactly_loop (suc fuel) left got c =
      let round = exactly_round (exactly_loop fuel) left got (stream_recv left c.pending c) in
      if left == 0 then (pos (length got), got, c) else round

  unfoldable pub conn_recv_exactly : ℕ → Conn → Got
  conn_recv_exactly len c = if c.tls then exactly_loop len len [] c else itcp_recv len c

  -- What a round of the loop of tcpv4ConnRecv does with what was read.
  abbrev pub fill_round : (ℕ → List ℕ → Conn → Got) → ℕ → List ℕ → Got → Got
  fill_round next left got (pos (suc n), bs, c) =
      let want = smaller left (suc n) in
      next (left - want) (got ++ take want bs)
        (record c { rx_buf = refilled bs c.rx_buf; rx_buf_len = suc n; rx_buf_off = want })
  fill_round next left got (pos zero, bs, c) = (cut_short got (pos zero), got, c)
  fill_round next left got (negsuc n, bs, c) = (cut_short got (negsuc n), got, c)

  unfoldable pub fill_loop : ℕ → ℕ → List ℕ → Conn → Got
  fill_loop zero left got c = (pos (length got), got, c)
  fill_loop (suc fuel) left got c =
      let round = fill_round (fill_loop fuel) left got (conn_recv_some tcpv4_rxbuf_size c) in
      if left == 0 then (pos (length got), got, c) else round

  -- The result of the bulk read of `left` octets, behind those from the buffer.
  abbrev pub direct : ℕ → List ℕ → Got → Got
  direct left got (pos n, bs, c) =
      (if n == left then pos (length got + left) else cut_short got (pos n), got ++ bs, c)
  direct left got (negsuc n, bs, c) = (cut_short got (negsuc n), got ++ bs, c)

  -- The rest of tcpv4ConnRecv, behind the octets from the buffer.
  abbrev pub beyond : ℕ → List ℕ → Conn → Got
  beyond left got c =
      if leb tcpv4_rxbuf_direct left
      then direct left got (conn_recv_exactly left c)
      else fill_loop left left got c

  abbrev pub buffered : ℕ → List ℕ → Conn → Got
  buffered len buf c =
      let got = smaller (c.rx_buf_len - c.rx_buf_off) len in
      let front = take got (drop c.rx_buf_off buf) in
      let c' = record c { rx_buf_off = c.rx_buf_off + got } in
      if ltb 0 got && got == len then (pos len, front, c') else beyond (len - got) front c'

  abbrev pub by_buffer : ℕ → Option (List ℕ) → Conn → Got
  by_buffer len none c = conn_recv_exactly len c
  by_buffer len (some buf) c = buffered len buf c

  unfoldable pub tcpv4_conn_recv : ℕ → Conn → Got
  tcpv4_conn_recv len c = by_buffer len c.rx_buf c
