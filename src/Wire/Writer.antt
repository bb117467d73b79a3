-- ===== src/Wire/Writer.antt =====
-- The big-endian writer of CLA/tcpv4/src/tcpv4msg.c (wInit, wU8, wU16, wU32, wU64, wBytes).
pub mod Laws
use ion_dtn_contrib.Prelude.{
  ℕ, ◌+◌, ◌/◌, ◌%◌, ◌^◌, Bool, true, false, not, ◌||◌, List, [], ◌∷◌, ◌++◌, length, take, ltb,
  if◌then◌else◌, ℤ, int_cast, minus_one,
}
use ion_dtn_contrib.Wire.Size.{size_add}

-- `out` holds the first `len` octets of `buf`, those that are written; `len` is its length.
pub record Writer : Type 0 where
  pub out : List ℕ
  pub cap : ℕ
  pub ok : Bool

-- A writer passed through the calls in the order in which the source makes them.
infixl 5 ◌▷◌
abbrev pub ◌▷◌ : Writer → (Writer → Writer) → Writer
w ▷ f = f w

unfoldable pub w_init : ℕ → Writer
w_init cap = record { out = []; cap = cap; ok = true }

pub w_u8 : ℕ → Writer → Writer
w_u8 v w =
    if not w.ok || ltb w.cap (size_add (length w.out) 1)
    then record w { ok = false }
    else record w { out = w.out ++ (v ∷ []) }

pub w_u16 : ℕ → Writer → Writer
w_u16 v w = w ▷ w_u8 (v / 2 ^ 8 % 2 ^ 8) ▷ w_u8 (v % 2 ^ 8)

pub w_u32 : ℕ → Writer → Writer
w_u32 v w = w ▷ w_u16 (v / 2 ^ 16 % 2 ^ 16) ▷ w_u16 (v % 2 ^ 16)

pub w_u64 : ℕ → Writer → Writer
w_u64 v w = w ▷ w_u32 (v / 2 ^ 32 % 2 ^ 32) ▷ w_u32 (v % 2 ^ 32)

-- `memcpy` of the `n` octets at `p`, which points to that many or more.
pub w_bytes : List ℕ → ℕ → Writer → Writer
w_bytes p n w =
    if not w.ok || ltb w.cap (size_add (length w.out) n)
    then record w { ok = false }
    else if ltb 0 n
    then record w { out = w.out ++ take n p }
    else w

-- `return w.ok ? (int) w.len : -1`, with what the buffer holds.
unfoldable pub w_result : Writer → ℤ × List ℕ
w_result w = (if w.ok then int_cast (length w.out) else minus_one, w.out)
