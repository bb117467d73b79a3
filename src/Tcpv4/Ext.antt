-- ===== src/Tcpv4/Ext.antt =====
-- The extension items of CLA/tcpv4/src/tcpv4msg.c: walking a list of them, and the Transfer Length
-- item.
pub mod Walk
pub mod Advance
pub mod Find
pub mod Listed
use ion_dtn_contrib.Prelude.{
  ℕ, zero, suc, ◌*◌, ◌%◌, ◌^◌, Bool, true, false, ◌&&◌, ◌==◌, if◌then◌else◌, List, [], ◌∷◌, length,
  Option, none, some, ℤ, pos, minus_one, bit_or,
}
use ion_dtn_contrib.Wire.Pointer.{octets}
use ion_dtn_contrib.Wire.Writer.{◌▷◌, w_init, w_u8, w_u16, w_u64, w_result}
use ion_dtn_contrib.Wire.Reader.{Reader, Read, give, ◌>>=◌, r_init, r_u8, r_u16, r_bytes}
use ion_dtn_contrib.Tcpv4.Msg.Types.{Tcpv4ExtItem, tmsg_xferext_length}

pub ext_item_body : Read Tcpv4ExtItem
ext_item_body = do
  flags ← r_u8
  type ← r_u16
  len ← r_u16
  value ← r_bytes len
  give (record { flags = flags; type = type; length = len; value = value })

-- The C result, `*off` afterwards, and the item where it was written to.
pub record ExtStep : Type 0 where
  pub rc : ℤ
  pub off : ℕ
  pub item : Option Tcpv4ExtItem

pub next_ext_item : List ℕ → ℕ → ExtStep
next_ext_item buf off =
    if off == length buf
    then record { rc = pos 0; off = off; item = none }
    else (let (item, r) = ext_item_body (record { buf = buf; off = off; ok = true }) in
        if r.ok
        then record { rc = pos 1; off = r.off; item = some item }
        else record { rc = minus_one; off = off; item = some item })

-- What a walk over a list has found; `none` is fuel that ran out, which it does not (Ext/Advance).
abbrev pub found_or : Bool → Option Bool → Bool
found_or b none = b
found_or b (some found) = found

-- `n = (n << 8) | v[i]` over the octets of the value.
be_fold : ℕ → List ℕ → ℕ
be_fold n [] = n
be_fold n (b ∷ bs) = be_fold (bit_or (n * 2 ^ 8 % 2 ^ 64) b) bs

pub be_value : List ℕ → ℕ
be_value = be_fold 0

abbrev pub is_xfer_length : Tcpv4ExtItem → Bool
is_xfer_length item = item.type == tmsg_xferext_length && item.length == 8

-- What a round does with the result of the step; `rest` is what the rounds behind it return.
find_round : ℤ → Option Tcpv4ExtItem → Option (ℤ × Option ℕ) → Option (ℤ × Option ℕ)
find_round (pos (suc zero)) (some item) rest =
    if is_xfer_length item then some (pos 1, some (be_value (octets item.value))) else rest
find_round (pos (suc zero)) none rest = rest
find_round rc item rest = some (rc, none)

-- The loop of tcpv4MsgFindXferLength: the C result with `*length` where it is set; the outer `none`
-- is fuel that ran out.
find_loop : ℕ → List ℕ → ℕ → Option (ℤ × Option ℕ)
find_loop zero buf off = none
find_loop (suc fuel) buf off =
    let step = next_ext_item buf off in
    let rest = find_loop fuel buf step.off in find_round step.rc step.item rest

-- Every item takes five octets at least, so one round for each octet and one more are enough.
pub find_xfer_length : List ℕ → Option (ℤ × Option ℕ)
find_xfer_length buf = find_loop (suc (length buf)) buf 0

pub encode_xfer_length_ext : ℕ → ℕ → ℤ × List ℕ
encode_xfer_length_ext cap len =
    w_result (w_init cap ▷ w_u8 0 ▷ w_u16 tmsg_xferext_length ▷ w_u16 8 ▷ w_u64 len)
