-- ===== src/Tcpv4/Transfer/Delivered.antt =====
-- What sendTransfer of CLA/tcpv4/src/tcpv4tx.c writes, and what the peer makes of it.
use mathlib.Core.Path.{subst}
use ion_dtn_contrib.Prelude.{
  ℕ, zero, suc, ◌+◌, ◌-◌, ◌≤◌, ◌<◌, ◌≡◌, refl, sym, ap, ◌∙◌, Bool, true, false, ltb, ltb→lt, ltb→ge,
  if◌then◌else◌, if_no, if_case, List, [], ◌∷◌, ◌++◌, append_assoc, append-nil, length, take, drop,
  length-take, length-drop, drop-drop, take-append-drop, Option, some, arith,
}
use ion_dtn_contrib.Tcpv4.Tx.Send.{
  Sent, send_segments, buffer_sent, buffer_read, transfer_loop, send_transfer, tcpv4_txbuf_size,
}
use ion_dtn_contrib.Tcpv4.Rx.Conn.{RxConfig, RxConn, World}
use ion_dtn_contrib.Tcpv4.Rx.Accepted.{IsBenign}
use ion_dtn_contrib.Tcpv4.Rx.Sizes.{IsConfigured}
use ion_dtn_contrib.Tcpv4.Rx.Loop.{message_loop}
use ion_dtn_contrib.Tcpv4.Rx.Reassembly.{
  Part, wire, joined, HandsOver, rounds, message_loop-transfer,
}
use ion_dtn_contrib.Tcpv4.Transfer.Runs.{
  wire-append, wire_rest, joined-append, Limits, IsRun, IsRun-append, IsRun-IsTransfer,
}
use ion_dtn_contrib.Tcpv4.Transfer.Written.{send_loop_on}

nil_of_length : (xs : List ℕ) → length xs ≡ 0 → xs ≡ []
nil_of_length [] e = refl
nil_of_length (x ∷ xs) e = absurd (omega (arith, e))

module _ (cfg : RxConfig) (id mtu total : ℕ) (lim : Limits cfg id mtu total) (bundle : List ℕ)
    (read : ℕ → ℕ → Option (List ℕ)) (refused : ℕ → Bool) where
  -- What has been written for the rest of the bundle.
  abbrev Written : Sent → List ℕ → ℕ → List ℕ → Type 0
  Written r w at rest =
      (ps : List Part) × (r ≡ (some tt, w ++ wire ps []))
      × IsRun cfg id mtu total at ps
      × (joined ps ≡ rest)

  abbrev loop : ℕ → ℕ → List ℕ → Sent
  loop = transfer_loop id mtu total (λ w r. true) read refused

  at_end :
      (off : ℕ) (w : List ℕ)
      → total ≤ off
      → length bundle ≡ total
      → Written (some tt, w) w off (drop off bundle)
  at_end off w le len = (
    [],
    ap (λ l. (some tt, l)) (sym (append-nil w)),
    tt,
    sym (nil_of_length (drop off bundle) (omega (arith, length-drop off bundle, le, len))),
  )

  -- A bufferful and the rest behind it.
  buffer_on :
      (next : ℕ → List ℕ → Sent) (off want : ℕ) (w : List ℕ)
      → (o : Option (List ℕ)) → o ≡ some (take want (drop off bundle))
      → ((n : ℕ) → refused n ≡ false)
      → want ≤ length (drop off bundle)
      → ((w : List ℕ) → Written (next (off + want) w) w (off + want) (drop (off + want) bundle))
      → Written
          (buffer_read id mtu total (λ w r. true) read refused next off w o)
          w
          off
          (drop off bundle)
  unfolding send_segments
  buffer_on next off want w o e going le ih =
      let got = take want (drop off bundle) in
      let len : length got ≡ want = omega (arith, length-take want (drop off bundle), le) in
      let (ps, eq, r, j) =
        send_loop_on cfg id mtu total lim (length got) got off [] 0 w (omega arith) (λ _. refl) in
      let (qs, eq', r', j') = ih (w ++ wire ps []) in
      (
        ps ++ qs,
        ap (buffer_read id mtu total (λ w r. true) read refused next off w) e
            ∙ ap (buffer_sent id mtu total (λ w r. true) read refused next off (length got)) eq
            ∙ if_no (refused (off + length got)) _ _ (going (off + length got))
            ∙ ap (λ n. next (off + n) (w ++ wire ps [])) len
            ∙ eq'
            ∙ ap (λ l. (some tt, l))
                (append_assoc w (wire ps []) (wire qs [])
                  ∙ ap (λ l. w ++ l) (sym (wire-append ps qs [] ∙ wire_rest ps (wire qs [])))),
        IsRun-append cfg id mtu total off ps qs r
            (subst (λ n. IsRun cfg id mtu total n qs) (omega (arith, len, ap length j)) r'),
        joined-append ps qs
            ∙ rw (j, j')
                (ap (λ l. got ++ l) (drop-drop off want (off + want) bundle refl)
                  ∙ take-append-drop want (drop off bundle)),
      )

  want_facts :
      (left : ℕ)
      → 0 < left
      → (0 < (if ltb tcpv4_txbuf_size left then tcpv4_txbuf_size else left))
        × ((if ltb tcpv4_txbuf_size left then tcpv4_txbuf_size else left) ≤ left)
  want_facts left n =
      if_case (λ c. (0 < c) × (c ≤ left)) (ltb tcpv4_txbuf_size left) _ _
        (λ e. (omega arith, omega (arith, ltb→lt tcpv4_txbuf_size left e))) (λ e. (n, omega arith))

  transfer_loop_on :
      (fuel off : ℕ) (w : List ℕ)
      → ((n k : ℕ) → read n k ≡ some (take k (drop n bundle)))
      → ((n : ℕ) → refused n ≡ false)
      → length bundle ≡ total
      → total - off ≤ fuel
      → Written (loop fuel off w) w off (drop off bundle)
  unfolding transfer_loop
  transfer_loop_on zero off w reads going len le = at_end off w (omega (arith, le)) len
  transfer_loop_on (suc fuel) off w reads going len le =
      if_case (λ r. Written r w off (drop off bundle)) (ltb off total) _ _
        (λ e.
          let left = total - off in
          let want = if ltb tcpv4_txbuf_size left then tcpv4_txbuf_size else left in
          let facts = want_facts left (omega (arith, ltb→lt off total e)) in
          buffer_on (loop fuel) off want w (read off want) (reads off want) going
            (omega (arith, facts.1, length-drop off bundle, len))
            λ w. transfer_loop_on fuel (off + want) w reads going len (omega (arith, facts.0, le)))
        (λ e. at_end off w (ltb→ge _ _ e) len)

-- A bundle that is not empty, fits the peer's Transfer MRU and can be read in full is written in full,
-- cut by an MTU that is positive and within the peer's Segment MRU, the peer's limits being such as the
-- options admit; and the peer's message loop, in a session that is not ending and has no transfer
-- begun, hands over one transfer with the octets of the bundle and goes on behind it, where no write,
-- allocation or delivery fails and the peer refuses nothing.
pub message_loop-send_transfer :
    (cfg : RxConfig) (world : World) (id mtu total : ℕ) (bundle : List ℕ)
    → (read : ℕ → ℕ → Option (List ℕ)) (refused : ℕ → Bool) (rest : List ℕ) (c : RxConn)
    → IsBenign world
    → IsConfigured cfg
    → Limits cfg id mtu total
    → 0 < total
    → length bundle ≡ total
    → ((n k : ℕ) → read n k ≡ some (take k (drop n bundle)))
    → ((n : ℕ) → refused n ≡ false)
    → c.rx_active ≡ false
    → c.ending ≡ false
    → c.input ≡ (send_transfer id mtu total (λ w r. true) read refused []).1 ++ rest
    → ((send_transfer id mtu total (λ w r. true) read refused []).0 ≡ some tt)
      × (d : RxConn) × HandsOver c d id bundle rest
      × (ps : List Part) × ((fuel : ℕ)
          → message_loop cfg world (rounds ps fuel) c ≡ message_loop cfg world fuel d)
unfolding send_transfer
message_loop-send_transfer cfg world id mtu total bundle read refused rest c benign ok lim n len
      reads going idle open_ input =
    let (ps, eq, run, j) =
      transfer_loop_on cfg id mtu total lim bundle read refused total 0 [] reads going len
        (omega arith) in
    let whole = IsRun-IsTransfer cfg id mtu total ps n (ap length j ∙ len) run in
    let heard = input ∙ ap (λ r. r.1 ++ rest) eq ∙ sym (wire_rest ps rest) in
    let (d, over, runs) =
      message_loop-transfer cfg world benign ok id ps rest c whole idle open_
        (omega (arith, ap length j, len, lim.total_fits)) heard in
    (ap (λ r. r.0) eq, d, subst (λ l. HandsOver c d id l rest) j over, ps, runs)
