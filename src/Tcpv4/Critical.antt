-- ===== src/Tcpv4/Critical.antt =====
-- Critical extension items: in a SESS_INIT, where CLA/tcpv4/src/tcpv4negotiate.c looks for them, and in
-- an XFER_SEGMENT, where CLA/tcpv4/src/tcpv4rx.c does.
use ion_dtn_contrib.Prelude.{◌%◌, Bool, true, false, if◌then◌else◌, ◌==◌, List, [], ◌∷◌}
use ion_dtn_contrib.Tcpv4.Msg.Types.{Tcpv4ExtItem}

-- The last bit of the flags octet.
abbrev pub is_critical : Tcpv4ExtItem → Bool
is_critical m = m.flags % 2 == 1

abbrev pub any_critical : List Tcpv4ExtItem → Bool
any_critical [] = false
any_critical (m ∷ ms) = if is_critical m then true else any_critical ms
