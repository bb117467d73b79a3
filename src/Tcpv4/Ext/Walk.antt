-- ===== src/Tcpv4/Ext/Walk.antt =====
-- One step along a list of extension items, at a whole item, at a cut one and at the end.
use ion_dtn_contrib.Prelude.{
  ℕ, ◌+◌, ◌^◌, ◌<◌, ◌≡◌, ◌≢◌, refl, ap, sym, true, List, ◌∷◌, ◌++◌, none, some, All, All-append,
  length, length-drop, drop, pos, minus_one, arith, Bool-cases, inl, inr,
}
use ion_dtn_contrib.Wire.Size.{be, IsByte, IsU16}
use ion_dtn_contrib.Wire.Octets.{be-IsByte}
use ion_dtn_contrib.Wire.Pointer.{octets, Points}
use ion_dtn_contrib.Wire.Reader.{Reader}
use ion_dtn_contrib.Wire.Reader.Laws.{IsValid}
use ion_dtn_contrib.Wire.Reader.Exact.{
  Exact, Exact-bind, Exact-map, Exact-eq_value, r_u8-Exact-be, r_u16-Exact, r_bytes-Exact,
}
use ion_dtn_contrib.Wire.Reader.Stable.{Stable, stable_rules}
use ion_dtn_contrib.Wire.Reader.Cut.{read_cut}
use ion_dtn_contrib.Tcpv4.Msg.Types.{Tcpv4ExtItem}
use ion_dtn_contrib.Tcpv4.Ext.{ext_item_body, next_ext_item}

abbrev pub item_layout : Tcpv4ExtItem → List ℕ
item_layout m = be 1 m.flags ++ (be 2 m.type ++ (be 2 m.length ++ octets m.value))

pub record IsExtItem (m : Tcpv4ExtItem) : Type 0 where
  pub flags : IsByte m.flags
  pub type : IsU16 m.type
  pub length : IsU16 m.length
  pub value : Points m.value m.length

pub item_bytes : (m : Tcpv4ExtItem) → IsExtItem m → All IsByte (item_layout m)
item_bytes m v =
    let len = be 2 m.length ++ octets m.value in
    All-append IsByte (be 1 m.flags) (be 2 m.type ++ len) (be-IsByte 1 m.flags) (
      All-append IsByte (be 2 m.type) len (be-IsByte 2 m.type)
        (All-append IsByte (be 2 m.length) (octets m.value) (be-IsByte 2 m.length) v.value.bytes))

pub ext_item_body-Exact : (m : Tcpv4ExtItem) → IsExtItem m → Exact ext_item_body (item_layout m) m
unfolding ext_item_body
ext_item_body-Exact m v = Exact-bind _ _ _ _ _ _ (r_u8-Exact-be m.flags v.flags) (
    Exact-bind _ _ _ _ _ _ (r_u16-Exact m.type v.type) (
      Exact-bind _ _ _ _ _ _ (r_u16-Exact m.length v.length) (
        Exact-map _ _ _ _ (
          Exact-eq_value _ (sym v.value.set)
            (r_bytes-Exact m.length (octets m.value) v.value.size)))))

pub ext_item_body-Stable : Stable ext_item_body
unfolding ext_item_body
ext_item_body-Stable = search stable_rules depth 9

-- A list of octets with items in it, seen from an offset.
abbrev pub at_off : List ℕ → ℕ → Reader
at_off buf off = record { buf = buf; off = off; ok = true }

pub next_ext_item_end :
    (buf : List ℕ)
    → next_ext_item buf (length buf) ≡ record { rc = pos 0; off = length buf; item = none }
unfolding next_ext_item
next_ext_item_end buf = ground arith

-- At a whole item the step returns it, and the offset behind it.
pub next_ext_item_whole :
    (buf : List ℕ) (off : ℕ) (m : Tcpv4ExtItem) (rest : List ℕ)
    → IsExtItem m
    → IsValid (at_off buf off)
    → drop off buf ≡ item_layout m ++ rest
    → next_ext_item buf off
      ≡ record { rc = pos 1; off = off + length (item_layout m); item = some m }
unfolding next_ext_item
next_ext_item_whole buf off m rest v b e =
    let run =
      (ext_item_body-Exact m v).at (at_off buf off) rest
        (record { valid = b; going = refl; next = e }) in
    let more : off ≢ length buf = omega (arith, ap length e, length-drop off buf) in
    ground (arith, run, more)

-- At a cut item the step fails and leaves the offset.
pub next_ext_item_cut :
    (buf : List ℕ) (off : ℕ) (m : Tcpv4ExtItem) (y : ℕ) (front back : List ℕ) (x : ℕ)
    → IsExtItem m
    → IsValid (at_off buf off)
    → length buf + length (item_layout m) < 2 ^ 31
    → drop off buf ≡ y ∷ front
    → item_layout m ≡ (y ∷ front) ++ (x ∷ back)
    → ((next_ext_item buf off).rc ≡ minus_one) × ((next_ext_item buf off).off ≡ off)
unfolding next_ext_item
next_ext_item_cut buf off m y front back x v b small e f =
    let more : off ≢ length buf = omega (arith, ap length e, length-drop off buf) in
    elim (Bool-cases (ext_item_body (at_off buf off)).1.ok) [
      | inl good ↦ absurd (
          read_cut ext_item_body m (item_layout m) (ext_item_body-Exact m v) ext_item_body-Stable
            (at_off buf off) (y ∷ front) x back b refl (item_bytes m v) small e f good)
      | inr bad ↦ ground (arith, bad, more)
    ]
