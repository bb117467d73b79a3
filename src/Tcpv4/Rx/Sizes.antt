-- ===== src/Tcpv4/Rx/Sizes.antt =====
-- The sizes of the reassembly buffers of CLA/tcpv4/src/tcpv4rx.c, and what rxReserve's doubling
-- reaches.
use ion_dtn_contrib.Prelude.{
  ℕ, zero, suc, ◌*◌, ◌^◌, ◌≤◌, ◌≡◌, ap, ltb, ltb→lt, ltb→ge, false, List, length, All, arith, Bool,
  if_case, if◌then◌else◌, ◌==◌, ==_iff, not, ◌&&◌,
}
use native.Mathlib.Nat.{pow-suc}
use ion_dtn_contrib.Tcpv4.Rx.Conn.{RxConfig, RxConn, Handed}
use ion_dtn_contrib.Tcpv4.Rx.Segment.{grow}

-- What the options of the program admit: TCPV4CLA_BUFSZ is the most that either can be.
abbrev pub tcpv4cla_bufsz : ℕ
tcpv4cla_bufsz = 256 * 1024

pub record IsConfigured (cfg : RxConfig) : Type 0 where
  pub segment_mru : cfg.segment_mru ≤ tcpv4cla_bufsz
  pub transfer_mru : cfg.transfer_mru ≤ tcpv4cla_bufsz

-- The buffer that is being filled holds what was put in it and no more than a transfer may have, and
-- neither buffer is larger than the largest that doubling from 8192 leads to.
pub record Sized (mru : ℕ) (bundle : List ℕ) (rx_cap dlv_cap : ℕ) (handed : List Handed)
    : Type 0 where
  pub filled : length bundle ≤ rx_cap
  pub within : length bundle ≤ mru
  pub rx_size : rx_cap ≤ 2 * tcpv4cla_bufsz
  pub dlv_size : dlv_cap ≤ 2 * tcpv4cla_bufsz
  pub delivered : All (λ (h : Handed). length h.octets ≤ mru) handed

abbrev pub IsBounded : RxConfig → RxConn → Type 0
IsBounded cfg c = Sized cfg.transfer_mru c.rx_bundle c.rx_cap c.dlv_cap c.handed

grow-reaches : (fuel cap want : ℕ) → want ≤ cap * 2 ^ fuel → want ≤ grow fuel cap want
unfolding grow
grow-reaches zero cap want le = omega arith
grow-reaches (suc fuel) cap want le =
    if_case (λ n. want ≤ n) (ltb cap want) _ _
      (λ e.
        grow-reaches fuel (cap * 2) want (omega (arith, le, ap (λ t. cap * t) (pow-suc 2 fuel))))
      (λ e. ltb→ge _ _ e)

grow-at_most : (fuel cap want top : ℕ) → cap ≤ top → 2 * want ≤ top → grow fuel cap want ≤ top
unfolding grow
grow-at_most zero cap want top le lt = le
grow-at_most (suc fuel) cap want top le lt =
    if_case (λ n. n ≤ top) (ltb cap want) _ _
      (λ e. grow-at_most fuel (cap * 2) want top (omega (arith, ltb→lt _ _ e)) lt) (λ e. le)

grow-room : (cap want : ℕ) → 1 ≤ cap → want ≤ tcpv4cla_bufsz → want ≤ grow 32 cap want
grow-room cap want pos le = grow-reaches 32 cap want (omega (arith, pos, le))

pub start-room :
    (n want : ℕ) → want ≤ tcpv4cla_bufsz → want ≤ grow 32 (if n == 0 then 8192 else n) want
start-room n want le =
    if_case (λ s. want ≤ grow 32 s want) (n == 0) _ _ (λ e. grow-room 8192 want (omega arith) le)
      λ e. grow-room n want (ground (arith, e, ==_iff n 0)) le

pub start-size :
    (n want : ℕ)
    → n ≤ 2 * tcpv4cla_bufsz
    → want ≤ tcpv4cla_bufsz
    → grow 32 (if n == 0 then 8192 else n) want ≤ 2 * tcpv4cla_bufsz
start-size n want size le =
    if_case (λ s. grow 32 s want ≤ 2 * tcpv4cla_bufsz) (n == 0) _ _
      (λ e. grow-at_most 32 8192 want _ (omega arith) (omega (arith, le)))
      (λ e. grow-at_most 32 n want _ size (omega (arith, le)))

pub not_refused_under : (b : Bool) (m n : ℕ) → b ≡ false → not b && ltb m n ≡ false → n ≤ m
not_refused_under b m n e f = ltb→ge m n (rw e at f)
