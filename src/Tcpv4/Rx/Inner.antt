-- ===== src/Tcpv4/Rx/Inner.antt =====
-- The loops inside the handlers of CLA/tcpv4/src/tcpv4rx.c end: segmentHasCriticalExt and drainOctets.
use ion_dtn_contrib.Prelude.{
  ℕ, zero, suc, ◌-◌, ◌≤◌, ◌≡◌, refl, sym, ap, ◌∙◌, Bool, Bool-cases, true, false, not, ◌==◌, leb,
  ltb, if◌then◌else◌, if_case, if_yes, if_no, inl, inr, List, length, [], drop, drop-drop,
  length-drop, Option, none, some, ℤ, pos, negsuc, bit_and, arith,
}
use ion_dtn_contrib.Wire.Pointer.{IsBuffer}
use ion_dtn_contrib.Tcpv4.Msg.Types.{Tcpv4ExtItem}
use ion_dtn_contrib.Tcpv4.Ext.Advance.{Ends, walk-Ends}
use ion_dtn_contrib.Tcpv4.Rx.Conn.{RxConfig, RxConn, World, Rx, give, then_run, ◌>>=◌, conn_recv}
use ion_dtn_contrib.Tcpv4.Rx.Segment.{
  critical_round, critical_loop, tmsg_ext_critical, drain_loop, drain_octets,
}

critical_round-Ends :
    (rc : ℤ) (item : Option Tcpv4ExtItem) (rest : Option Bool)
    → (rc ≡ pos 1 → Ends rest)
    → Ends (critical_round rc item rest)
critical_round-Ends (pos n) (some item) rest h =
    if_case {A = Option Bool} (λ o. Ends o) (n == 1) _ _
      (λ e.
        if_case {A = Option Bool} (λ o. Ends o) (not (bit_and item.flags tmsg_ext_critical == 0)) _
          _ (λ f. (true, refl)) (λ f. h (ap pos (ground (arith, e)))))
      (λ e. (false, refl))
critical_round-Ends (pos n) none rest h = (false, refl)
critical_round-Ends (negsuc n) item rest h = (true, refl)

pub critical_loop-Ends :
    (buf : List ℕ) → IsBuffer buf → Ends (critical_loop (suc (length buf)) buf 0)
unfolding critical_loop
critical_loop-Ends buf b =
    walk-Ends critical_round critical_loop (λ fuel buf off. refl) critical_round-Ends buf b

-- So many octets are taken from the stream, or those that there are and then it fails.
abbrev pub skipped : ℕ → RxConn → Option (Unit {0}) × RxConn
skipped n c =
    if leb n (length c.input)
    then (some tt, record c { input = drop n c.input })
    else (none, record c { input = [] })

module _ (cfg : RxConfig) (world : World) where
  -- One round, and what the rounds behind it do.
  chunk_skipped :
      (fuel len chunk : ℕ) (c : RxConn)
      → chunk ≤ len
      → ((d : RxConn) → drain_loop cfg world fuel (len - chunk) d ≡ skipped (len - chunk) d)
      → (conn_recv chunk >>= λ got. drain_loop cfg world fuel (len - chunk)) c ≡ skipped len c
  unfolding conn_recv ◌>>=◌
  chunk_skipped fuel len chunk c le next = elim (Bool-cases (leb chunk (length c.input))) [
    | inl there ↦
        ap (then_run (λ got. drain_loop cfg world fuel (len - chunk)))
          (if_yes (leb chunk (length c.input)) _ _ there)
        ∙ next (record c { input = drop chunk c.input })
        ∙ elim (Bool-cases (leb len (length c.input))) [
          | inl all ↦
              if_yes (leb (len - chunk) (length (drop chunk c.input))) _ _
                (ground (arith, all, length-drop chunk c.input))
              ∙ ap (λ l. (some tt, record c { input = l }))
                  (sym (drop-drop chunk (len - chunk) len c.input (omega (arith, le))))
              ∙ sym (if_yes (leb len (length c.input)) _ _ all)
          | inr short ↦
              if_no (leb (len - chunk) (length (drop chunk c.input))) _ _
                (ground (arith, short, there, length-drop chunk c.input))
              ∙ sym (if_no (leb len (length c.input)) _ _ short)
        ]
    | inr short ↦
        ap (then_run (λ got. drain_loop cfg world fuel (len - chunk)))
          (if_no (leb chunk (length c.input)) _ _ short)
        ∙ sym (if_no (leb len (length c.input)) _ _ (ground (arith, short, le)))
  ]

  drain_loop_skips :
      (fuel len : ℕ) (c : RxConn) → len ≤ fuel → drain_loop cfg world fuel len c ≡ skipped len c
  unfolding drain_loop give
  drain_loop_skips zero zero c le = sym (if_yes (leb 0 (length c.input)) _ _ (ground arith))
  drain_loop_skips zero (suc len) c le = absurd (omega (arith, le))
  drain_loop_skips (suc fuel) zero c le = sym (if_yes (leb 0 (length c.input)) _ _ (ground arith))
  drain_loop_skips (suc fuel) (suc n) c le =
      let chunk = if ltb 4096 (suc n) then 4096 else suc n in
      let (less, more) : (chunk ≤ suc n) × (1 ≤ chunk) =
        if_case (λ k. (k ≤ suc n) × (1 ≤ k)) (ltb 4096 (suc n)) _ _
          (λ e. (ground (arith, e), omega arith)) (λ e. (omega arith, omega arith)) in
      let round = conn_recv chunk >>= λ (got : List ℕ). drain_loop cfg world fuel (suc n - chunk) in
      ap (λ (m : Rx (Unit {0})). m c)
        (if_yes {A = Rx (Unit {0})} (ltb 0 (suc n)) round (give tt) (ground arith))
      ∙ chunk_skipped fuel (suc n) chunk c less
          (λ d. drain_loop_skips fuel (suc n - chunk) d (omega (arith, le, more)))

  pub drain_octets_skips : (len : ℕ) (c : RxConn) → drain_octets cfg world len c ≡ skipped len c
  unfolding drain_octets
  drain_octets_skips len c = drain_loop_skips len len c (omega arith)
