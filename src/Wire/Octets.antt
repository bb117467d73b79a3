-- ===== src/Wire/Octets.antt =====
-- The octets of a number in network order, put together and taken apart.
use ion_dtn_contrib.Prelude.{
  ℕ, zero, suc, All, All-append, ◌+◌, ◌*◌, ◌/◌, ◌%◌, ◌^◌, ◌<◌, ◌≡◌, [], ◌∷◌, ◌++◌, arith, bit_or,
}
use ion_dtn_contrib.Prelude.Bits.{bit_or-shifted}
use ion_dtn_contrib.Wire.Size.{be, IsByte}

pub be_four : (v : ℕ) → be 2 (v / 2 ^ 16 % 2 ^ 16) ++ be 2 (v % 2 ^ 16) ≡ be 4 v
be_four v = ground arith

pub be_eight : (v : ℕ) → be 4 (v / 2 ^ 32 % 2 ^ 32) ++ be 4 (v % 2 ^ 32) ≡ be 8 v
be_eight v = ground arith

-- What the readers compute from two parts.
pub join_u16 :
    (hi lo : ℕ) → hi < 2 ^ 8 → lo < 2 ^ 8 → bit_or (hi * 2 ^ 8) lo % 2 ^ 16 ≡ hi * 2 ^ 8 + lo
join_u16 hi lo h l = rw (bit_or-shifted 8 hi lo l) (omega arith)

pub join_u32 :
    (hi lo : ℕ) → hi < 2 ^ 16 → lo < 2 ^ 16 → bit_or (hi * 2 ^ 16 % 2 ^ 32) lo ≡ hi * 2 ^ 16 + lo
join_u32 hi lo h l =
    let e : hi * 2 ^ 16 % 2 ^ 32 ≡ hi * 2 ^ 16 = omega arith in rw e (bit_or-shifted 16 hi lo l)

pub join_u64 :
    (hi lo : ℕ) → hi < 2 ^ 32 → lo < 2 ^ 32 → bit_or (hi * 2 ^ 32 % 2 ^ 64) lo ≡ hi * 2 ^ 32 + lo
join_u64 hi lo h l =
    let e : hi * 2 ^ 32 % 2 ^ 64 ≡ hi * 2 ^ 32 = omega arith in rw e (bit_or-shifted 32 hi lo l)

-- Two numbers side by side are the octets of the number that they make up.
pub be_pair_u16 :
    (hi lo : ℕ)
    → hi < 2 ^ 8
    → lo < 2 ^ 8
    → (be 1 hi ++ (be 1 lo ++ []) ≡ be 2 (bit_or (hi * 2 ^ 8) lo % 2 ^ 16))
      × (bit_or (hi * 2 ^ 8) lo % 2 ^ 16 < 2 ^ 16)
be_pair_u16 hi lo h l = rw (join_u16 hi lo h l) (ground arith, omega arith)

pub be_pair_u32 :
    (hi lo : ℕ)
    → hi < 2 ^ 16
    → lo < 2 ^ 16
    → (be 2 hi ++ (be 2 lo ++ []) ≡ be 4 (bit_or (hi * 2 ^ 16 % 2 ^ 32) lo))
      × (bit_or (hi * 2 ^ 16 % 2 ^ 32) lo < 2 ^ 32)
be_pair_u32 hi lo h l = rw (join_u32 hi lo h l) (ground arith, omega arith)

pub be_pair_u64 :
    (hi lo : ℕ)
    → hi < 2 ^ 32
    → lo < 2 ^ 32
    → (be 4 hi ++ (be 4 lo ++ []) ≡ be 8 (bit_or (hi * 2 ^ 32 % 2 ^ 64) lo))
      × (bit_or (hi * 2 ^ 32 % 2 ^ 64) lo < 2 ^ 64)
be_pair_u64 hi lo h l = rw (join_u64 hi lo h l) (ground arith, omega arith)

pub be-IsByte : (k v : ℕ) → All IsByte (be k v)
be-IsByte zero v = tt
be-IsByte (suc k) v =
    All-append IsByte (be k (v / 256)) (v % 256 ∷ []) (be-IsByte k (v / 256)) (omega arith)
