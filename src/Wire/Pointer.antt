-- ===== src/Wire/Pointer.antt =====
-- A pointer to octets with the length that is kept beside it.
use ion_dtn_contrib.Prelude.{ℕ, ◌<◌, ◌≡◌, ◌^◌, List, [], Option, none, some, All, length}
use ion_dtn_contrib.Wire.Size.{IsByte}

-- What a pointer refers to; NULL is `none`.
abbrev pub octets : Option (List ℕ) → List ℕ
octets none = []
octets (some bs) = bs

pub record Points (p : Option (List ℕ)) (n : ℕ) : Type 0 where
  pub set : p ≡ some (octets p)
  pub size : length (octets p) ≡ n
  pub bytes : All IsByte (octets p)

-- An input buffer: octets, fewer than the largest int.
pub record IsBuffer (buf : List ℕ) : Type 0 where
  pub bytes : All IsByte buf
  pub small : length buf < 2 ^ 31
