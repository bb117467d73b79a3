-- ===== src/Tcpv4/Ext/Advance.antt =====
-- A loop over the extension items of CLA/tcpv4/src/tcpv4msg.c ends: every item takes octets.
use ion_dtn_contrib.Prelude.{
  ℕ, zero, suc, ◌+◌, ◌-◌, ◌≤◌, ◌<◌, ◌≡◌, refl, ap, ◌∙◌, Bool-cases, true, inl, inr, if_case, List,
  length, Option, none, some, ℤ, pos, negsuc, arith, ◌==◌,
}
use ion_dtn_contrib.Wire.Pointer.{IsBuffer}
use ion_dtn_contrib.Wire.Reader.{Reader, Read, give, ◌>>=◌, r_u8, r_u16, r_bytes}
use ion_dtn_contrib.Wire.Reader.Laws.{IsValid, Safe, r_u8-Safe, safe_rules}
use ion_dtn_contrib.Tcpv4.Msg.Types.{Tcpv4ExtItem}
use ion_dtn_contrib.Tcpv4.Ext.{
  ext_item_body, next_ext_item, find_round, find_loop, find_xfer_length, is_xfer_length,
}
use ion_dtn_contrib.Tcpv4.Ext.Walk.{at_off}

-- The octet is read.
r_u8_forward : (r : Reader) → (r_u8 r).1.ok ≡ true → (r_u8 r).1.off ≡ r.off + 1
unfolding r_u8
r_u8_forward r e = ground arith

-- An item behind its flags.
abbrev behind_flags : ℕ → Read Tcpv4ExtItem
behind_flags flags = do
  type ← r_u16
  len ← r_u16
  value ← r_bytes len
  give (record { flags = flags; type = type; length = len; value = value })

behind_flags-Safe : (flags : ℕ) → Safe (behind_flags flags)
behind_flags-Safe flags = search safe_rules

-- Reading an item goes forward and stays in the buffer.
body_forward :
    (r : Reader)
    → IsValid r
    → (ext_item_body r).1.ok ≡ true
    → (r.off < (ext_item_body r).1.off) × ((ext_item_body r).1.off ≤ length r.buf)
unfolding ext_item_body ◌>>=◌
body_forward r v e =
    let first = r_u8-Safe.at r v in
    let rest = (behind_flags-Safe (r_u8 r).0).at (r_u8 r).1 first.valid in
    (
      omega (arith, r_u8_forward r (rest.sticky e), rest.forward),
      omega (arith, rest.valid.within, ap length rest.same_buf, ap length first.same_buf),
    )

-- A step that finds an item leaves the offset behind it.
next_ext_item_forward :
    (buf : List ℕ) (off : ℕ)
    → IsValid (at_off buf off)
    → (next_ext_item buf off).rc ≡ pos 1
    → (off < (next_ext_item buf off).off) × ((next_ext_item buf off).off ≤ length buf)
unfolding next_ext_item
next_ext_item_forward buf off v e = elim (Bool-cases (off == length buf)) [
  | inl at_end ↦ absurd (ground (arith, at_end, e))
  | inr inside ↦ elim (Bool-cases (ext_item_body (at_off buf off)).1.ok) [
    | inl good ↦ ground (arith, inside, good, body_forward (at_off buf off) v good)
    | inr bad ↦ absurd (ground (arith, inside, bad, e))
  ]
]

-- The loop has ended, and with this.
abbrev pub Ends : {A : Type 0} → Option A → Type 0
Ends {A} o = (a : A) × (o ≡ some a)

-- Such a loop: what a round makes of the step and of the rounds behind it.
module _ {A : Type 0} (round : ℤ → Option Tcpv4ExtItem → Option A → Option A)
    (loop : ℕ → List ℕ → ℕ → Option A)
    (one_round : (fuel : ℕ) (buf : List ℕ) (off : ℕ)
      → loop (suc fuel) buf off
        ≡ round
            (next_ext_item buf off).rc
            (next_ext_item buf off).item
            (loop fuel buf (next_ext_item buf off).off))
    (decides : (rc : ℤ) (item : Option Tcpv4ExtItem) (rest : Option A)
      → (rc ≡ pos 1 → Ends rest)
      → Ends (round rc item rest)) where
  loop-Ends :
      (fuel : ℕ) (buf : List ℕ) (off : ℕ)
      → IsValid (at_off buf off)
      → length buf - off < fuel
      → Ends (loop fuel buf off)
  loop-Ends zero buf off v le = absurd (omega (arith, le))
  loop-Ends (suc fuel) buf off v le =
      let step = next_ext_item buf off in
      let (a, e) = decides step.rc step.item (loop fuel buf step.off) (λ found.
        let (forward, within) = next_ext_item_forward buf off v found in
        loop-Ends fuel buf step.off (record { within = within; small = v.small; octets = v.octets })
          (omega (arith, forward, within, le))) in
      (a, one_round fuel buf off ∙ e)

  pub walk-Ends : (buf : List ℕ) → IsBuffer buf → Ends (loop (suc (length buf)) buf 0)
  walk-Ends buf b =
      loop-Ends (suc (length buf)) buf 0
        (record { within = omega arith; small = b.small; octets = b.bytes }) (omega arith)

find_round-Ends :
    (rc : ℤ) (item : Option Tcpv4ExtItem) (rest : Option (ℤ × Option ℕ))
    → (rc ≡ pos 1 → Ends rest)
    → Ends (find_round rc item rest)
unfolding find_round
find_round-Ends (pos zero) item rest h = (_, refl)
find_round-Ends (pos (suc zero)) none rest h = h refl
find_round-Ends (pos (suc zero)) (some item) rest h =
    if_case {A = Option (ℤ × Option ℕ)} (λ o. Ends o) (is_xfer_length item) _ _ (λ e. (_, refl))
      (λ e. h refl)
find_round-Ends (pos (suc (suc n))) item rest h = (_, refl)
find_round-Ends (negsuc n) item rest h = (_, refl)

pub find_xfer_length-Ends : (buf : List ℕ) → IsBuffer buf → Ends (find_xfer_length buf)
unfolding find_xfer_length find_loop
find_xfer_length-Ends buf b =
    walk-Ends find_round find_loop (λ fuel buf off. refl) find_round-Ends buf b
