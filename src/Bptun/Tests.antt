-- ===== src/Bptun/Tests.antt =====
-- Runs of the route table of bptun, and its theorems at concrete tables.
use ion_dtn_contrib.Prelude.{
  ◌⊎◌, ℕ, ◌≡◌, ◌↔◌, refl, if_case, true, if◌then◌else◌, list_eq, List, [], ◌∷◌, length, All, Option,
  none, some, pos, arith,
}
use mathlib.Core.Path.{subst}
use ion_dtn_contrib.Wire.Size.{IsByte}
use ion_dtn_contrib.Bptun.Route.{
  Family, inet, inet6, addr_len, BptunRoute, BptunRouteTable, zeros, packet_dest, prefix_matches,
  lookup_loop, bptun_route_lookup, bptun_is_link_local,
}
use ion_dtn_contrib.Bptun.Route.Lookup.{IsRoute, Answer, bptun_route_lookup-Answer}
use ion_dtn_contrib.Bptun.Route.Local.{LocalDest, ReservedDest, bptun_is_link_local_iff}
use ion_dtn_contrib.Bptun.Add.{bptun_route_add}
use ion_dtn_contrib.Bptun.Add.Invariant.{IsTable, bptun_route_add-IsTable}

-- "10/8" and "10.1/16", with the EIDs "a" and "b".
abbrev net_ten : BptunRoute
net_ten = record { family = inet; addr = 10 ∷ zeros 15; prefix_len = 8; eid = b'a' ∷ [] }

abbrev net_one : BptunRoute
net_one = record { family = inet; addr = 10 ∷ 1 ∷ zeros 14; prefix_len = 16; eid = b'b' ∷ [] }

abbrev two_routes : BptunRouteTable
two_routes = record { routes = net_ten ∷ net_one ∷ []; capacity = 8 }

two_routes-IsRoute : All IsRoute two_routes.routes
two_routes-IsRoute = (
  record { bytes = omega arith; field = refl; within = omega arith },
  (record { bytes = omega arith; field = refl; within = omega arith }, tt),
)

-- An IPv4 header for 10.1.2.3.
abbrev packet : List ℕ
packet =
    0x45 ∷ 0 ∷ 0 ∷ 20 ∷ 0 ∷ 0 ∷ 0 ∷ 0 ∷ 64 ∷ 17 ∷ 0 ∷ 0 ∷ 192 ∷ 168 ∷ 0 ∷ 1 ∷ 10 ∷ 1 ∷ 2 ∷ 3 ∷ []

bptun_route_lookup-Answer_example :
    Answer two_routes.routes (some (inet, 10 ∷ 1 ∷ 2 ∷ 3 ∷ [])) (some (b'b' ∷ []))
unfolding packet_dest bptun_route_lookup lookup_loop prefix_matches
bptun_route_lookup-Answer_example =
    bptun_route_lookup-Answer two_routes packet two_routes-IsRoute (omega arith)

-- An inet_pton that knows one address, and a strtol that reads "8".
abbrev ten : List ℕ
ten = b'1' ∷ b'0' ∷ b'.' ∷ b'0' ∷ b'.' ∷ b'0' ∷ b'.' ∷ b'0' ∷ []

abbrev pton_ten : Family → List ℕ → Option (List ℕ)
pton_ten inet s = if list_eq s ten then some (10 ∷ 0 ∷ 0 ∷ 0 ∷ []) else none
pton_ten inet6 s = none

pton_ten_octets :
    (f : Family) (s addr : List ℕ)
    → pton_ten f s ≡ some addr
    → (length addr ≡ addr_len f) × All IsByte addr
pton_ten_octets inet s addr e =
    if_case {A = Option (List ℕ)} (λ o. o ≡ some addr → (length addr ≡ 4) × All IsByte addr)
      (list_eq s ten) _ _
      (λ known found.
        let same : 10 ∷ 0 ∷ 0 ∷ 0 ∷ [] ≡ addr = cc in
        subst (λ a. (length a ≡ 4) × All IsByte a) same (refl, omega arith))
      (λ unknown found. absurd (cc)) e
pton_ten_octets inet6 s addr e = absurd (cc)

bptun_route_add-IsTable_example :
    IsTable
      (bptun_route_add
        (λ n. true)
        pton_ten
        (λ s. (pos 8, 1))
        two_routes
        (b'1' ∷ b'0' ∷ b'.' ∷ b'0' ∷ b'.' ∷ b'0' ∷ b'.' ∷ b'0' ∷ b'/' ∷ b'8' ∷ b'=' ∷ b'z'
          ∷ [])).table
bptun_route_add-IsTable_example =
    bptun_route_add-IsTable (λ n. true) pton_ten (λ s. (pos 8, 1)) pton_ten_octets two_routes
      (b'1' ∷ b'0' ∷ b'.' ∷ b'0' ∷ b'.' ∷ b'0' ∷ b'.' ∷ b'0' ∷ b'/' ∷ b'8' ∷ b'=' ∷ b'z' ∷ [])
      (record {
        routes = two_routes-IsRoute;
        eids = ((omega arith, omega arith), ((omega arith, omega arith), tt));
        count = omega arith;
      })

bptun_is_link_local_iff_example : (bptun_is_link_local packet ≡ true) ↔ (
    LocalDest (some (inet, 10 ∷ 1 ∷ 2 ∷ 3 ∷ [])) ⊎ ReservedDest (some (inet, 10 ∷ 1 ∷ 2 ∷ 3 ∷ [])))
unfolding packet_dest
bptun_is_link_local_iff_example = bptun_is_link_local_iff packet (omega arith)
