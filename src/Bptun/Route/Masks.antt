-- ===== src/Bptun/Route/Masks.antt =====
-- The octets of two prefixes compared under a mask, as prefixMatches of APP/bptun/src/bptun_route.c
-- does: exclusive or, then the high bits.
use Prim.Native.Nat.{min, digits, differ, bit_and-bitwise, bit_xor-bitwise}
use native.Mathlib.Nat.{pow-suc, one-le-pow, div-div-eq-div-mul}
use ion_dtn_contrib.Prelude.{
  ℕ, zero, suc, ◌+◌, ◌-◌, ◌*◌, ◌/◌, ◌%◌, ◌^◌, ◌≤◌, ◌<◌, ◌≡◌, ◌↔◌, refl, sym, ap, ◌∙◌, bit_and,
  bit_xor, arith,
}

-- Digits to go beyond those of the first number do not change the result.
digits_enough :
    (z : ℕ → ℕ) (f : ℕ → ℕ → ℕ) (n m a b : ℕ) → a ≤ n → a ≤ m → digits z f n a b ≡ digits z f m a b
digits_enough z f zero zero a b p q = refl
digits_enough z f zero (suc m) zero b p q = refl
digits_enough z f zero (suc m) (suc a) b p q = absurd (omega arith)
digits_enough z f (suc n) zero zero b p q = refl
digits_enough z f (suc n) zero (suc a) b p q = absurd (omega arith)
digits_enough z f (suc n) (suc m) zero b p q = refl
digits_enough z f (suc n) (suc m) (suc a) b p q =
    omega (arith, digits_enough z f n m (suc a / 2) (b / 2) (omega arith) (omega arith))

zero-bit_xor : (b : ℕ) → bit_xor 0 b ≡ b
zero-bit_xor b = bit_xor-bitwise 0 b

zero-bit_and : (b : ℕ) → bit_and 0 b ≡ 0
zero-bit_and b = bit_and-bitwise 0 b

bit_xor_digit : (a b : ℕ) → bit_xor a b ≡ bit_xor (a / 2) (b / 2) * 2 + differ (a % 2) (b % 2)
bit_xor_digit zero b = omega (arith, zero-bit_xor b, zero-bit_xor (b / 2))
bit_xor_digit (suc a) b = omega (
  arith,
  bit_xor-bitwise (suc a) b,
  bit_xor-bitwise (suc a / 2) (b / 2),
  digits_enough (λ b. b) differ a (suc a / 2) (suc a / 2) (b / 2) (omega arith) (omega arith),
)

bit_and_digit : (a b : ℕ) → bit_and a b ≡ bit_and (a / 2) (b / 2) * 2 + min (a % 2) (b % 2)
bit_and_digit zero b = omega (arith, zero-bit_and b, zero-bit_and (b / 2))
bit_and_digit (suc a) b = omega (
  arith,
  bit_and-bitwise (suc a) b,
  bit_and-bitwise (suc a / 2) (b / 2),
  digits_enough (λ b. 0) min a (suc a / 2) (suc a / 2) (b / 2) (omega arith) (omega arith),
)

differ_digit : (a b : ℕ) → a < 2 → b < 2 → (differ a b < 2) × ((differ a b ≡ 0) ↔ (a ≡ b))
differ_digit zero b p q = ground arith
differ_digit (suc zero) zero p q = ground arith
differ_digit (suc zero) (suc zero) p q = ground arith
differ_digit (suc zero) (suc (suc b)) p q = absurd (omega arith)
differ_digit (suc (suc a)) b p q = absurd (omega arith)

bit_xor-half : (a b : ℕ) → bit_xor a b / 2 ≡ bit_xor (a / 2) (b / 2)
bit_xor-half a b =
    omega (arith, bit_xor_digit a b, (differ_digit (a % 2) (b % 2) (omega arith) (omega arith)).0)

bit_xor_zero_below : (n a b : ℕ) → a ≤ n → (bit_xor a b ≡ 0) ↔ (a ≡ b)
bit_xor_zero_below n zero b h = ground (arith, zero-bit_xor b)
bit_xor_zero_below zero (suc a) b h = absurd (omega arith)
bit_xor_zero_below (suc n) (suc a) b h = ground (
  arith,
  bit_xor_digit (suc a) b,
  bit_xor_zero_below n (suc a / 2) (b / 2) (omega arith),
  differ_digit (suc a % 2) (b % 2) (omega arith) (omega arith),
)

bit_xor_small : (n a b : ℕ) → a < 2 ^ n → b < 2 ^ n → bit_xor a b < 2 ^ n
bit_xor_small zero zero b p q = omega (arith, zero-bit_xor b)
bit_xor_small zero (suc a) b p q = absurd (omega arith)
bit_xor_small (suc n) a b p q = omega (
  arith,
  pow-suc 2 n,
  bit_xor_digit a b,
  bit_xor_small n (a / 2) (b / 2) (omega (arith, pow-suc 2 n)) (omega (arith, pow-suc 2 n)),
  (differ_digit (a % 2) (b % 2) (omega arith) (omega arith)).0,
)

bit_and_ones : (n z : ℕ) → z < 2 ^ n → bit_and z (2 ^ n - 1) ≡ z
bit_and_ones zero zero h = zero-bit_and 0
bit_and_ones zero (suc z) h = absurd (omega arith)
bit_and_ones (suc n) z h =
    ap (bit_and z) ones
    ∙ omega (
      arith,
      bit_and_digit z ((2 ^ n - 1) * 2 + 1),
      bit_and_ones n (z / 2) (omega (arith, pow-suc 2 n)),
      ap (bit_and (z / 2)) (let e : ((2 ^ n - 1) * 2 + 1) / 2 ≡ 2 ^ n - 1 = omega arith in e),
    )
  where
    ones : 2 ^ suc n - 1 ≡ (2 ^ n - 1) * 2 + 1
    ones = omega (arith, pow-suc 2 n, one-le-pow n 2 (omega arith))

half_first : (k x : ℕ) → x / 2 ^ suc k ≡ x / 2 / 2 ^ k
half_first k x =
    ap (λ d. x / d) (let e : 2 ^ suc k ≡ 2 * 2 ^ k = omega (arith, pow-suc 2 k) in e)
    ∙ sym (div-div-eq-div-mul x 2 (2 ^ k))

-- The mask keeps the bits from `k` on.
bit_and_mask : (k z : ℕ) → z < 2 ^ 8 → bit_and z (255 * 2 ^ k) ≡ z / 2 ^ k * 2 ^ k
bit_and_mask zero z h = omega (arith, bit_and_ones 8 z h)
bit_and_mask (suc k) z h =
    bit_and_digit z (255 * 2 ^ suc k)
    ∙ omega (
      arith,
      double,
      ap (bit_and (z / 2)) (let e : 255 * 2 ^ suc k / 2 ≡ 255 * 2 ^ k = omega (arith, double) in e),
      bit_and_mask k (z / 2) (omega arith),
      ap (λ t. t * 2 ^ suc k) (half_first k z),
      ap (λ t. z / 2 / 2 ^ k * t) (pow-suc 2 k),
    )
  where
    double : 255 * 2 ^ suc k ≡ 255 * 2 ^ k * 2
    double = omega (arith, pow-suc 2 k)

bit_xor-shift : (k x y : ℕ) → bit_xor x y / 2 ^ k ≡ bit_xor (x / 2 ^ k) (y / 2 ^ k)
bit_xor-shift zero x y = omega (
  arith,
  ap (λ a. bit_xor a (y / 1)) (let e : x / 1 ≡ x = omega arith in e),
  ap (bit_xor x) (let e : y / 1 ≡ y = omega arith in e),
)
bit_xor-shift (suc k) x y =
    half_first k (bit_xor x y)
    ∙ ap (λ t. t / 2 ^ k) (bit_xor-half x y)
    ∙ bit_xor-shift k (x / 2) (y / 2)
    ∙ ap (λ t. bit_xor t (y / 2 / 2 ^ k)) (sym (half_first k x))
    ∙ ap (bit_xor (x / 2 ^ suc k)) (sym (half_first k y))

product_zero : (k z : ℕ) → (z * 2 ^ k ≡ 0) ↔ (z ≡ 0)
product_zero k zero = ground arith
product_zero k (suc z) = ground (arith, one-le-pow k 2 (omega arith))

-- Two octets agree under the mask if and only if their bits from `k` on agree.
pub masked_iff :
    (k x y : ℕ)
    → x < 2 ^ 8
    → y < 2 ^ 8
    → (bit_and (bit_xor x y) (255 * 2 ^ k) ≡ 0) ↔ (x / 2 ^ k ≡ y / 2 ^ k)
masked_iff k x y p q = ground (
  arith,
  bit_and_mask k (bit_xor x y) (bit_xor_small 8 x y p q),
  bit_xor-shift k x y,
  product_zero k (bit_xor x y / 2 ^ k),
  bit_xor_zero_below (x / 2 ^ k) (x / 2 ^ k) (y / 2 ^ k) (omega arith),
)

bit_and_zero_below : (n a : ℕ) → a ≤ n → bit_and a 0 ≡ 0
bit_and_zero_below n zero h = zero-bit_and 0
bit_and_zero_below zero (suc a) h = absurd (omega arith)
bit_and_zero_below (suc n) (suc a) h =
    omega (arith, bit_and_digit (suc a) 0, bit_and_zero_below n (suc a / 2) (omega arith))

-- The low four bits.
pub bit_and_nibble : (z : ℕ) → bit_and z 15 ≡ z % 16
bit_and_nibble z = omega (
  arith,
  bit_and_digit z 15,
  bit_and_digit (z / 2) 7,
  bit_and_digit (z / 2 / 2) 3,
  bit_and_digit (z / 2 / 2 / 2) 1,
  bit_and_zero_below (z / 2 / 2 / 2 / 2) (z / 2 / 2 / 2 / 2) (omega arith),
)

pub bit_and_one : (z : ℕ) → bit_and z 1 ≡ z % 2
bit_and_one z = omega (arith, bit_and_digit z 1, bit_and_zero_below (z / 2) (z / 2) (omega arith))
