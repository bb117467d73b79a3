-- ===== src/Wire/Reader.antt =====
-- The big-endian reader of CLA/tcpv4/src/tcpv4msg.c (rInit, rU8, rU16, rU32, rU64, rBytes).
pub mod Laws
pub mod Exact
pub mod Stable
pub mod Sound
pub mod Whole
pub mod Cut
use ion_dtn_contrib.Prelude.{
  ℕ, ◌+◌, ◌*◌, ◌%◌, ◌^◌, Bool, true, false, not, ◌||◌, List, Option, none, some, length, take, drop,
  get_or, ltb, if◌then◌else◌, bit_or, ℤ, pos, int_cast,
}
use ion_dtn_contrib.Wire.Size.{size_add, size_sub}

-- `len` is the length of `buf`.
pub record Reader : Type 0 where
  pub buf : List ℕ
  pub off : ℕ
  pub ok : Bool

-- A reading call returns its value and leaves the reader changed.
abbrev pub Read : Type 0 → Type 0
Read A = Reader → A × Reader

unfoldable pub give : {A : Type 0} → A → Read A
give a r = (a, r)

infixl 5 ◌>>=◌
-- To open this opens `give` too.
unfoldable pub ◌>>=◌ : {A B : Type 0} → Read A → (A → Read B) → Read B
unfolding give
◌>>=◌ m f r = let (a, r') = m r in f a r'

unfoldable pub r_init : List ℕ → Reader
r_init buf = record { buf = buf; off = 0; ok = true }

unfoldable pub r_u8 : Read ℕ
r_u8 r =
    if not r.ok || ltb (length r.buf) (size_add r.off 1)
    then (0, record r { ok = false })
    else (get_or r.buf r.off 0, record r { off = r.off + 1 })

pub r_u16 : Read ℕ
r_u16 = do hi ← r_u8; lo ← r_u8; give (bit_or (hi * 2 ^ 8) lo % 2 ^ 16)

pub r_u32 : Read ℕ
r_u32 = do hi ← r_u16; lo ← r_u16; give (bit_or (hi * 2 ^ 16 % 2 ^ 32) lo)

pub r_u64 : Read ℕ
r_u64 = do hi ← r_u32; lo ← r_u32; give (bit_or (hi * 2 ^ 32 % 2 ^ 64) lo)

-- The octets that the returned pointer refers to; `none` is NULL.
unfoldable pub r_bytes : ℕ → Read (Option (List ℕ))
r_bytes n r =
    if not r.ok || ltb (size_sub (length r.buf) r.off) n
    then (none, record r { ok = false })
    else (some (take n (drop r.off r.buf)), record r { off = size_add r.off n })

-- `return r.ok ? (int) r.off : 0`.
unfoldable pub r_result : Reader → ℤ
r_result r = if r.ok then int_cast r.off else pos 0
