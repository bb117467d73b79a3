-- ===== src/Bptun/Route/Local.antt =====
-- bptunIsLinkLocal of APP/bptun/src/bptun_route.c against the address ranges.
use ion_dtn_contrib.Prelude.{
  ℕ, zero, suc, refl, ◌%◌, ◌≤◌, ◌≡◌, ◌↔◌, ◌⊎◌, inl, inr, true, List, [], ◌∷◌, get_or, All, Option,
  none, some, arith,
}
use ion_dtn_contrib.Wire.Size.{IsByte}
use ion_dtn_contrib.Bptun.Route.{
  Family, inet, inet6, packet_dest, prefix_matches, link_local_dest, bptun_is_link_local,
}
use ion_dtn_contrib.Bptun.Route.Masks.{bit_and_nibble}
use ion_dtn_contrib.Bptun.Route.Prefix.{SameBits, prefix_matches_iff}
use ion_dtn_contrib.Bptun.Route.Lookup.{IsDestOf, packet_dest-IsDest}

-- The destinations that bptun_route.h names: 224.0.0.0/24, 255.255.255.255/32, and ff00::/8 with
-- the scope of an interface or of a link, 1 or 2.
abbrev pub LocalDest : Option (Family × List ℕ) → Type 0
LocalDest none = ⊥
LocalDest (some (inet, dest)) =
    SameBits 24 (224 ∷ 0 ∷ 0 ∷ []) dest ⊎ SameBits 32 (255 ∷ 255 ∷ 255 ∷ 255 ∷ []) dest
LocalDest (some (inet6, dest)) =
    SameBits 8 (255 ∷ []) dest × ((get_or dest 1 0 % 16 ≡ 1) ⊎ (get_or dest 1 0 % 16 ≡ 2))

-- IPv6 multicast of the reserved scope 0, which bptun_route.h does not name.
abbrev pub ReservedDest : Option (Family × List ℕ) → Type 0
ReservedDest none = ⊥
ReservedDest (some (inet, dest)) = ⊥
ReservedDest (some (inet6, dest)) = SameBits 8 (255 ∷ []) dest × (get_or dest 1 0 % 16 ≡ 0)

-- Both together, as the code tests for them.
abbrev TestedDest : Option (Family × List ℕ) → Type 0
TestedDest none = ⊥
TestedDest (some (inet, dest)) =
    SameBits 24 (224 ∷ 0 ∷ 0 ∷ []) dest ⊎ SameBits 32 (255 ∷ 255 ∷ 255 ∷ 255 ∷ []) dest
TestedDest (some (inet6, dest)) = SameBits 8 (255 ∷ []) dest × (get_or dest 1 0 % 16 ≤ 2)

scopes : (n : ℕ) → n ≤ 2 → ((n ≡ 1) ⊎ (n ≡ 2)) ⊎ (n ≡ 0)
scopes zero le = inr refl
scopes (suc zero) le = inl (inl refl)
scopes (suc (suc zero)) le = inl (inr refl)
scopes (suc (suc (suc n))) le = absurd (omega (arith, le))

tested_iff :
    (dest : Option (Family × List ℕ)) → TestedDest dest ↔ (LocalDest dest ⊎ ReservedDest dest)
tested_iff none = ((λ e. absurd e), (λ s. elim s [ inl e ↦ e | inr e ↦ e ]))
tested_iff (some (inet, dest)) = ((λ t. inl t), (λ s. elim s [ inl t ↦ t | inr e ↦ absurd e ]))
tested_iff (some (inet6, dest)) = (
  (λ (multicast, le). elim (scopes (get_or dest 1 0 % 16) le) [
    | inl scope ↦ inl (multicast, scope)
    | inr scope ↦ inr (multicast, scope)
  ]),
  (λ s. elim s [
    | inl (multicast, inl scope) ↦ (multicast, omega (arith, scope))
    | inl (multicast, inr scope) ↦ (multicast, omega (arith, scope))
    | inr (multicast, scope) ↦ (multicast, omega (arith, scope))
  ]),
)

inet_tests :
    (a b c d : ℕ) (rest : List ℕ)
    → (link_local_dest (some (inet, a ∷ b ∷ c ∷ d ∷ rest)) ≡ true) ↔ (
        (prefix_matches (224 ∷ 0 ∷ 0 ∷ []) (a ∷ b ∷ c ∷ d ∷ rest) 24 ≡ true)
        ⊎ (prefix_matches (255 ∷ 255 ∷ 255 ∷ 255 ∷ []) (a ∷ b ∷ c ∷ d ∷ rest) 32 ≡ true))
unfolding prefix_matches
inet_tests a b c d rest = ground arith

inet6_tests :
    (a b : ℕ) (rest : List ℕ)
    → (link_local_dest (some (inet6, a ∷ b ∷ rest)) ≡ true)
      ↔ ((prefix_matches (255 ∷ []) (a ∷ b ∷ rest) 8 ≡ true) × (b % 16 ≤ 2))
unfolding prefix_matches
inet6_tests a b rest = ground (arith, bit_and_nibble b)

dest_iff :
    (dest : Option (Family × List ℕ))
    → IsDestOf dest
    → (link_local_dest dest ≡ true) ↔ TestedDest dest
dest_iff none d = ((λ e. cc), (λ e. absurd e))
dest_iff (some (inet, [])) d = absurd (omega (arith, d.long))
dest_iff (some (inet, a ∷ [])) d = absurd (omega (arith, d.long))
dest_iff (some (inet, a ∷ b ∷ [])) d = absurd (omega (arith, d.long))
dest_iff (some (inet, a ∷ b ∷ c ∷ [])) d = absurd (omega (arith, d.long))
dest_iff (some (inet, a ∷ b ∷ c ∷ e ∷ rest)) d =
    let group =
      prefix_matches_iff 24 (224 ∷ 0 ∷ 0 ∷ []) (a ∷ b ∷ c ∷ e ∷ rest) (omega arith) d.bytes
        (omega arith) (omega arith) in
    let broadcast =
      prefix_matches_iff 32 (255 ∷ 255 ∷ 255 ∷ 255 ∷ []) (a ∷ b ∷ c ∷ e ∷ rest) (omega arith)
        d.bytes (omega arith) (omega arith) in
    let tests = inet_tests a b c e rest in
    (
      (λ t. elim (tests.0 t) [ inl x ↦ inl (group.0 x) | inr x ↦ inr (broadcast.0 x) ]),
      (λ s. tests.1 (elim s [ inl x ↦ inl (group.1 x) | inr x ↦ inr (broadcast.1 x) ])),
    )
dest_iff (some (inet6, [])) d = absurd (omega (arith, d.long))
dest_iff (some (inet6, a ∷ [])) d = absurd (omega (arith, d.long))
dest_iff (some (inet6, a ∷ b ∷ rest)) d =
    let multicast =
      prefix_matches_iff 8 (255 ∷ []) (a ∷ b ∷ rest) (omega arith) d.bytes (omega arith)
        (omega arith) in
    let tests = inet6_tests a b rest in
    (
      (λ t. let (x, scope) = tests.0 t in (multicast.0 x, scope)),
      (λ (x, scope). tests.1 (multicast.1 x, scope)),
    )

-- The test holds of exactly the packets to 224.0.0.0/24, to 255.255.255.255, and to ff00::/8 with a
-- scope of 1 or 2, which are those that bptun_route.h names, and besides of those to ff00::/8 with
-- the reserved scope 0.
pub bptun_is_link_local_iff :
    (packet : List ℕ)
    → All IsByte packet
    → (bptun_is_link_local packet ≡ true)
      ↔ (LocalDest (packet_dest packet) ⊎ ReservedDest (packet_dest packet))
unfolding bptun_is_link_local
bptun_is_link_local_iff packet b =
    let (there, back) = dest_iff (packet_dest packet) (packet_dest-IsDest packet b) in
    let (split, joined) = tested_iff (packet_dest packet) in
    ((λ t. split (there t)), (λ s. back (joined s)))
