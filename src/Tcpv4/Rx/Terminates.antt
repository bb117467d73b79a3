-- ===== src/Tcpv4/Rx/Terminates.antt =====
-- Every loop of CLA/tcpv4/src/tcpv4rx.c ends: the message loop and those inside its handlers.
use ion_dtn_contrib.Prelude.{ℕ, suc, ◌*◌, ◌≤◌, ◌≡◌, ◌==◌, if◌then◌else◌, List, length}
use ion_dtn_contrib.Tcpv4.Ext.{find_xfer_length}
use ion_dtn_contrib.Tcpv4.Ext.Advance.{Ends}
use ion_dtn_contrib.Tcpv4.Rx.Conn.{RxConfig, RxConn, World}
use ion_dtn_contrib.Tcpv4.Rx.Segment.{grow, critical_loop, drain_octets}
use ion_dtn_contrib.Tcpv4.Rx.Loop.{tcpv4_message_loop}
use ion_dtn_contrib.Tcpv4.Rx.Sizes.{tcpv4cla_bufsz}
use ion_dtn_contrib.Tcpv4.Rx.Inner.{skipped}

-- `ext` are the extension items of a segment, `want` the octets that rxReserve is asked for, `len`
-- those that drainOctets is.
pub record LoopsEnd (cfg : RxConfig) (world : World) (c : RxConn) (ext : List ℕ) (want len : ℕ)
    : Type 0 where
  pub messages : Ends (tcpv4_message_loop cfg world c)
  pub critical : Ends (critical_loop (suc (length ext)) ext 0)
  pub xfer_length : Ends (find_xfer_length ext)
  pub reaches : want ≤ grow 32 (if c.rx_cap == 0 then 8192 else c.rx_cap) want
  pub stays_int : grow 32 (if c.rx_cap == 0 then 8192 else c.rx_cap) want ≤ 2 * tcpv4cla_bufsz
  pub drains : drain_octets cfg world len c ≡ skipped len c
