-- ===== src/Tcpv4/Rx/Returns.antt =====
-- The message loop of CLA/tcpv4/src/tcpv4rx.c returns.
use ion_dtn_contrib.Prelude.{
  ℕ, zero, suc, ◌≤◌, ◌<◌, ◌≡◌, refl, leb, true, false, List, [], ◌∷◌, length, length-drop, Option,
  none, some, arith, Bool, if_case,
}
use ion_dtn_contrib.Tcpv4.Rx.Conn.{RxConfig, RxConn, World}
use ion_dtn_contrib.Tcpv4.Rx.Keeps.{Keeps, Allows}
use ion_dtn_contrib.Tcpv4.Rx.Segment.{rx_reserve}
use ion_dtn_contrib.Tcpv4.Rx.Segments.{Changes, read_data-Keeps}
use ion_dtn_contrib.Tcpv4.Rx.Loops.{Handles, handle_message-Keeps}
use ion_dtn_contrib.Tcpv4.Rx.Loop.{
  Ended, after_message, loop_round, message_loop, tcpv4_message_loop,
}

-- No more than `n` octets are still to be read.
abbrev pub Left : ℕ → RxConn → Type 0
Left n c = length c.input ≤ n

Left-Allows : (n : ℕ) → Allows (Left n)
Left-Allows n = record {
  read = λ c k p. omega (arith, length-drop k c.input, p);
  lost = λ c p. omega arith;
  written = λ c ms p. p;
}

module _ (cfg : RxConfig) (world : World) (n : ℕ) where
  reserve-Left : (want : ℕ) → Keeps (Left n) (rx_reserve cfg world want)
  unfolding rx_reserve
  reserve-Left want = record {
    kept = λ c p.
        if_case {A = Option (Unit {0}) × RxConn} (λ r. Left n r.1) (leb want c.rx_cap) _ _ (λ e. p)
          λ e.
            if_case {A = Option (Unit {0}) × RxConn} (λ r. Left n r.1) (world.grants c _) _ _
              (λ f. p) (λ f. p);
  }

  Left-Changes : Changes cfg world (Left n)
  Left-Changes = record {
    allows = Left-Allows n;
    at_start = λ seg c p. p;
    on_refusal = λ c p. p;
    on_reserve = λ want le. reserve-Left want;
    at_end = λ c p. p;
    on_swap = λ seg c p. p;
  }

  Left-Handles : Handles cfg world (Left n)
  Left-Handles = record {
    receives = record {
      changes = Left-Changes;
      on_data = λ seg le. read_data-Keeps Left-Changes seg reserve-Left λ c got p. p;
    };
    on_settle = λ c tx p. p;
    on_terminate = λ c p. p;
  }

-- The loop has ended, and with this.
abbrev pub Returns : Option (Ended × RxConn) → Type 0
Returns o = (r : Ended × RxConn) × (o ≡ some r)

module _ (cfg : RxConfig) (world : World) where
  after_message-Returns :
      (n : ℕ) (next : RxConn → Option (Ended × RxConn)) (r : Option Bool × RxConn)
      → ((c : RxConn) → Left n c → Returns (next c))
      → Left n r.1
      → Returns (after_message cfg world next r)
  after_message-Returns n next (none, c) k p = (_, refl)
  after_message-Returns n next (some true, c) k p = (_, refl)
  after_message-Returns n next (some false, c) k p = k c p

  loop_round-Returns :
      (next : RxConn → Option (Ended × RxConn)) (c : RxConn) (xs : List ℕ)
      → ((d : RxConn) → length d.input < length xs → Returns (next d))
      → Returns (loop_round cfg world next c xs)
  loop_round-Returns next c [] k = (_, refl)
  loop_round-Returns next c (type ∷ xs) k =
      after_message-Returns (length xs) next _ (λ d le. k d (omega arith))
        ((handle_message-Keeps (Left-Handles cfg world (length xs)) type).kept
          (record c { input = xs }) (omega arith))

  message_loop-Returns :
      (fuel : ℕ) (c : RxConn) → length c.input < fuel → Returns (message_loop cfg world fuel c)
  unfolding message_loop
  message_loop-Returns zero c le = absurd (omega (arith, le))
  message_loop-Returns (suc fuel) c le =
      loop_round-Returns (message_loop cfg world fuel) c c.input
        λ d lt. message_loop-Returns fuel d (omega (arith, le, lt))

  -- The message loop returns, whatever the peer sends and whatever fails: a handler never puts back
  -- what it has read.
  pub tcpv4_message_loop_returns :
      (c : RxConn) → (r : Ended × RxConn) × (tcpv4_message_loop cfg world c ≡ some r)
  tcpv4_message_loop_returns c = message_loop-Returns (suc (length c.input)) c (omega arith)
