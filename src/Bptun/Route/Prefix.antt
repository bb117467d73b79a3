-- ===== src/Bptun/Route/Prefix.antt =====
-- prefixMatches of APP/bptun/src/bptun_route.c against the bits of the two addresses.
use native.Mathlib.Nat.{pow-suc, div-div-eq-div-mul}
use ion_dtn_contrib.Prelude.{
  ℕ, zero, suc, ◌+◌, ◌-◌, ◌*◌, ◌/◌, ◌%◌, ◌^◌, ◌≤◌, ◌<◌, ◌≡◌, ◌↔◌, ◌⊎◌, inl, inr, refl, sym, ap, ◌∙◌,
  true, Bool, ◌&&◌, ◌==◌, List, [], ◌∷◌, length, get_or, All, arith,
}
use ion_dtn_contrib.Wire.Size.{IsByte}
use ion_dtn_contrib.Bptun.Route.{octets_match, prefix_matches}
use ion_dtn_contrib.Bptun.Route.Masks.{masked_iff}

-- Bit `i` of an address in network order, the highest bit of the first octet being bit 0.
abbrev pub addr_bit : List ℕ → ℕ → ℕ
addr_bit addr i = get_or addr (i / 8) 0 / 2 ^ (7 - i % 8) % 2

-- The first `n` bits of the two addresses agree.
abbrev pub SameBits : ℕ → List ℕ → List ℕ → Type 0
SameBits n a b = (i : ℕ) → i < n → addr_bit a i ≡ addr_bit b i

abbrev ByteBits : ℕ → ℕ → ℕ → Type 0
ByteBits r x y = (j : ℕ) → j < r → x / 2 ^ (7 - j) % 2 ≡ y / 2 ^ (7 - j) % 2

half_last : (k x : ℕ) → x / 2 ^ suc k ≡ x / 2 ^ k / 2
half_last k x = ap (λ d. x / d) (pow-suc 2 k) ∙ sym (div-div-eq-div-mul x (2 ^ k) 2)

-- One more bit.
ByteBits-step :
    (r x y : ℕ)
    → r < 8
    → (x / 2 ^ (8 - r) ≡ y / 2 ^ (8 - r)) ↔ ByteBits r x y
    → (x / 2 ^ (7 - r) ≡ y / 2 ^ (7 - r)) ↔ ByteBits (suc r) x y
ByteBits-step r x y h ih = (
  (λ e j l. elim (before_or_at j l) [
    | inl l' ↦ ih.0 (half x ∙ ap (λ t. t / 2) e ∙ sym (half y)) j l'
    | inr at ↦
        (ap (λ k. x / 2 ^ (7 - k) % 2) at
          ∙ ap (λ t. t % 2) e
          ∙ sym (ap (λ k. y / 2 ^ (7 - k) % 2) at))
  ]),
  (λ f. omega (arith, ih.1 (λ j l. f j (omega arith)), f r (omega arith), half x, half y)),
)
  where
    half : (z : ℕ) → z / 2 ^ (8 - r) ≡ z / 2 ^ (7 - r) / 2
    half z =
        ap (λ k. z / 2 ^ k) (let e : 8 - r ≡ suc (7 - r) = omega arith in e) ∙ half_last (7 - r) z

    before_or_at : (j : ℕ) → j < suc r → (j < r) ⊎ (j ≡ r)
    before_or_at j l = ground arith

-- The high `r` bits of an octet, as a number and bit by bit.
ByteBits-iff :
    (r x y : ℕ)
    → r ≤ 8
    → x < 2 ^ 8
    → y < 2 ^ 8
    → (x / 2 ^ (8 - r) ≡ y / 2 ^ (8 - r)) ↔ ByteBits r x y
ByteBits-iff zero x y h p q = ((λ e j l. absurd (omega arith)), (λ f. omega arith))
ByteBits-iff (suc r) x y h p q =
    let seven : 7 - r ≡ 8 - suc r = omega arith in
    let step = ByteBits-step r x y (omega arith) (ByteBits-iff r x y (omega arith) p q) in
    (
      (λ e. step.0 (ap (λ k. x / 2 ^ k) seven ∙ e ∙ sym (ap (λ k. y / 2 ^ k) seven))),
      (λ f. sym (ap (λ k. x / 2 ^ k) seven) ∙ step.1 f ∙ ap (λ k. y / 2 ^ k) seven),
    )

addr_bit_head : (x : ℕ) (xs : List ℕ) (i : ℕ) → i < 8 → addr_bit (x ∷ xs) i ≡ x / 2 ^ (7 - i) % 2
addr_bit_head x xs i l =
    ap (λ k. get_or (x ∷ xs) k 0 / 2 ^ (7 - i % 8) % 2) (let e : i / 8 ≡ 0 = omega arith in e)
    ∙ ap (λ k. x / 2 ^ (7 - k) % 2) (let e : i % 8 ≡ i = omega arith in e)

addr_bit_tail : (x : ℕ) (xs : List ℕ) (j : ℕ) → addr_bit (x ∷ xs) (8 + j) ≡ addr_bit xs j
addr_bit_tail x xs j =
    ap (λ k. get_or (x ∷ xs) k 0 / 2 ^ (7 - (8 + j) % 8) % 2)
      (let e : (8 + j) / 8 ≡ suc (j / 8) = omega arith in e)
    ∙ ap (λ k. get_or xs (j / 8) 0 / 2 ^ (7 - k) % 2)
        (let e : (8 + j) % 8 ≡ j % 8 = omega arith in e)

below_or : (i : ℕ) → (i < 8) ⊎ (8 ≤ i)
below_or i = ground arith

-- Within the first octet.
SameBits-head :
    (n x y : ℕ) (xs ys : List ℕ)
    → n ≤ 8
    → x < 2 ^ 8
    → y < 2 ^ 8
    → (x / 2 ^ (8 - n) ≡ y / 2 ^ (8 - n)) ↔ SameBits n (x ∷ xs) (y ∷ ys)
SameBits-head n x y xs ys h p q = (
  (λ e i l.
      addr_bit_head x xs i (omega arith)
      ∙ (ByteBits-iff n x y h p q).0 e i l
      ∙ sym (addr_bit_head y ys i (omega arith))),
  (λ f. (ByteBits-iff n x y h p q).1 (λ j l.
      sym (addr_bit_head x xs j (omega arith)) ∙ f j l ∙ addr_bit_head y ys j (omega arith))),
)

SameBits-cons :
    (n x y : ℕ) (xs ys : List ℕ)
    → x < 2 ^ 8
    → y < 2 ^ 8
    → ((x ≡ y) × SameBits n xs ys) ↔ SameBits (8 + n) (x ∷ xs) (y ∷ ys)
SameBits-cons n x y xs ys p q = (
  (λ (e, f) i l. elim (split i l) [
    | inl i<8 ↦
        (addr_bit_head x xs i i<8
          ∙ ap (λ z. z / 2 ^ (7 - i) % 2) e
          ∙ sym (addr_bit_head y ys i i<8))
    | inr (j, i≡, j<n) ↦
        (ap (addr_bit (x ∷ xs)) i≡
          ∙ addr_bit_tail x xs j
          ∙ f j j<n
          ∙ sym (addr_bit_tail y ys j)
          ∙ sym (ap (addr_bit (y ∷ ys)) i≡))
  ]),
  (λ f. (
    omega (arith, (SameBits-head 8 x y xs ys (omega arith) p q).1 (λ i l. f i (omega arith))),
    (λ j l. sym (addr_bit_tail x xs j) ∙ f (8 + j) (omega arith) ∙ addr_bit_tail y ys j),
  )),
)
  where
    split : (i : ℕ) → i < 8 + n → (i < 8) ⊎ ((j : ℕ) × (i ≡ 8 + j) × (j < n))
    split i l = elim (below_or i) [ inl h ↦ inl h | inr h ↦ inr (i - 8, omega arith, omega arith) ]

octets_match-small :
    (n x y : ℕ) (xs ys : List ℕ)
    → n < 8
    → x < 2 ^ 8
    → y < 2 ^ 8
    → (octets_match (x ∷ xs) (y ∷ ys) 0 n ≡ true) ↔ (x / 2 ^ (8 - n) ≡ y / 2 ^ (8 - n))
octets_match-small zero x y xs ys h p q = ((λ e. omega arith), (λ e. refl))
octets_match-small (suc n) x y xs ys h p q = ground (arith, masked_iff (8 - suc n) x y p q)

octets_match-cons :
    (x y : ℕ) (xs ys : List ℕ) (w r : ℕ)
    → octets_match (x ∷ xs) (y ∷ ys) (suc w) r ≡ (x == y && octets_match xs ys w r)
octets_match-cons x y xs ys w r = ground arith

octets_match-at :
    (a b : List ℕ) (w w' r r' : ℕ) → w ≡ w' → r ≡ r' → octets_match a b w r ≡ octets_match a b w' r'
octets_match-at a b w w' r r' e f = ap (λ w. octets_match a b w r) e ∙ ap (octets_match a b w') f

and_iff : (x y : ℕ) (b : Bool) → ((x == y && b) ≡ true) ↔ ((x ≡ y) × (b ≡ true))
and_iff x y b = ground arith

octets_iff-small :
    (n x y : ℕ) (xs ys : List ℕ)
    → n < 8
    → x < 2 ^ 8
    → y < 2 ^ 8
    → (octets_match (x ∷ xs) (y ∷ ys) (n / 8) (n % 8) ≡ true) ↔ SameBits n (x ∷ xs) (y ∷ ys)
octets_iff-small n x y xs ys l p q =
    let here = octets_match-at (x ∷ xs) (y ∷ ys) (n / 8) 0 (n % 8) n (omega arith) (omega arith) in
    let bits = SameBits-head n x y xs ys (omega arith) p q in
    let test = octets_match-small n x y xs ys l p q in
    ((λ t. bits.0 (test.0 (sym here ∙ t))), (λ f. here ∙ test.1 (bits.1 f)))

octets_iff-cons :
    (n x y : ℕ) (xs ys : List ℕ)
    → 8 ≤ n
    → x < 2 ^ 8
    → y < 2 ^ 8
    → (octets_match xs ys ((n - 8) / 8) ((n - 8) % 8) ≡ true) ↔ SameBits (n - 8) xs ys
    → (octets_match (x ∷ xs) (y ∷ ys) (n / 8) (n % 8) ≡ true) ↔ SameBits n (x ∷ xs) (y ∷ ys)
octets_iff-cons n x y xs ys l p q ih =
    let m = n - 8 in
    let here =
      octets_match-at (x ∷ xs) (y ∷ ys) (n / 8) (suc (m / 8)) (n % 8) (m % 8) (omega arith)
        (omega arith)
      ∙ octets_match-cons x y xs ys (m / 8) (m % 8) in
    let both = and_iff x y (octets_match xs ys (m / 8) (m % 8)) in
    let bits = SameBits-cons m x y xs ys p q in
    (
      (λ t i i<n.
          let (same, rest) = both.0 (sym here ∙ t) in bits.0 (same, ih.0 rest) i (omega arith)),
      (λ f.
          let (same, rest) = bits.1 (λ i i<. f i (omega arith)) in here ∙ both.1 (same, ih.1 rest)),
    )

-- The test passes if and only if the first `n` bits of the addresses agree, for addresses that have
-- that many bits.
pub prefix_matches_iff :
    (n : ℕ) (a b : List ℕ)
    → All IsByte a
    → All IsByte b
    → n ≤ 8 * length a
    → n ≤ 8 * length b
    → (prefix_matches a b n ≡ true) ↔ SameBits n a b
unfolding prefix_matches
prefix_matches_iff zero [] b u v h k = ((λ e i l. absurd (omega arith)), (λ f. refl))
prefix_matches_iff (suc n) [] b u v h k = absurd (omega arith)
prefix_matches_iff zero (x ∷ xs) [] u v h k = ((λ e i l. absurd (omega arith)), (λ f. refl))
prefix_matches_iff (suc n) (x ∷ xs) [] u v h k = absurd (omega arith)
prefix_matches_iff n (x ∷ xs) (y ∷ ys) u v h k = elim (below_or n) [
  | inl l ↦ octets_iff-small n x y xs ys l u.0 v.0
  | inr l ↦
      octets_iff-cons n x y xs ys l u.0 v.0
        (prefix_matches_iff (n - 8) xs ys u.1 v.1 (omega arith) (omega arith))
]
