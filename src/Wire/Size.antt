-- ===== src/Wire/Size.antt =====
-- Sums and differences of `size_t` values, which wrap at 2 ^ 64, and the octets of a number.
use ion_dtn_contrib.Prelude.{ℕ, zero, suc, ◌+◌, ◌-◌, ◌/◌, ◌%◌, ◌^◌, ◌<◌, List, [], ◌∷◌, ◌++◌}

abbrev pub size_add : ℕ → ℕ → ℕ
size_add a b = (a + b) % 2 ^ 64

abbrev pub size_sub : ℕ → ℕ → ℕ
size_sub a b = (a + 2 ^ 64 - b) % 2 ^ 64

abbrev pub IsByte : ℕ → Type 0
IsByte b = b < 2 ^ 8

abbrev pub IsU16 : ℕ → Type 0
IsU16 n = n < 2 ^ 16

abbrev pub IsU32 : ℕ → Type 0
IsU32 n = n < 2 ^ 32

abbrev pub IsU64 : ℕ → Type 0
IsU64 n = n < 2 ^ 64

-- The `k` octets of `v` in network order, the specification of both directions.
abbrev pub be : ℕ → ℕ → List ℕ
be zero v = []
be (suc k) v = be k (v / 256) ++ (v % 256 ∷ [])
