-- ===== src/Bptun/Route.antt =====
-- The route table of APP/bptun/src/bptun_route.c. The allocator is a parameter that says whether it
-- grants an array of that many routes; inet_pton and strtol, of the C library, are parameters of
-- bptun_route_add. A string is the list of its characters without the final zero.
pub mod Masks
pub mod Prefix
pub mod Lookup
pub mod Growth
pub mod Local
use ion_dtn_contrib.Prelude.{
  ℕ, zero, suc, ◌*◌, ◌-◌, ◌/◌, ◌%◌, ◌^◌, Bool, true, false, not, ◌&&◌, ◌||◌, ltb, leb, ◌==◌,
  if◌then◌else◌, List, [], ◌∷◌, ◌++◌, length, take, drop, get_or, list_eq, Option, none, some, ℤ,
  pos, negsuc, minus_one, int_cast, bit_and, bit_xor,
}

-- AF_INET and AF_INET6.
pub data Family : Type 0 where
  inet : Family
  inet6 : Family

abbrev pub same_family : Family → Family → Bool
same_family inet inet = true
same_family inet inet6 = false
same_family inet6 inet = false
same_family inet6 inet6 = true

abbrev pub addr_len : Family → ℕ
addr_len inet = 4
addr_len inet6 = 16

pub record BptunRoute : Type 0 where
  pub family : Family
  pub addr : List ℕ
  pub prefix_len : ℕ
  pub eid : List ℕ

-- `routes` are the first `count` elements of the array; `count` is its length.
pub record BptunRouteTable : Type 0 where
  pub routes : List BptunRoute
  pub capacity : ℕ

abbrev pub zeros : ℕ → List ℕ
zeros zero = []
zeros (suc n) = 0 ∷ zeros n

-- The octets of the address, in a field of 16 that was cleared.
abbrev pub addr_field : Family → List ℕ → List ℕ
addr_field family addr = take (addr_len family) addr ++ zeros (16 - addr_len family)

abbrev pub push : BptunRouteTable → BptunRoute → BptunRouteTable
push table route = record table { routes = table.routes ++ (route ∷ []) }

abbrev pub next_capacity : ℕ → ℕ
next_capacity capacity = if not (capacity == 0) then capacity * 2 else 8

unfoldable pub add_route :
    (ℕ → Bool) → BptunRouteTable → Family → List ℕ → ℕ → List ℕ → ℤ × BptunRouteTable
add_route realloc table family addr prefix_len eid =
    let route : BptunRoute = record {
      family = family;
      addr = addr_field family addr;
      prefix_len = prefix_len;
      eid = eid;
    } in
    let capacity = next_capacity table.capacity in
    if length table.routes == table.capacity
    then (if realloc capacity
        then (pos 0, push (record table { capacity = capacity }) route)
        else (minus_one, table))
    else (pos 0, push table route)

-- Whole octets by memcmp, then the high bits of the next one under a mask.
abbrev pub octets_match : List ℕ → List ℕ → ℕ → ℕ → Bool
octets_match a b whole_bytes rest_bits =
    if not (list_eq (take whole_bytes a) (take whole_bytes b))
    then false
    else if rest_bits == 0
    then true
    else bit_and (bit_xor (get_or a whole_bytes 0) (get_or b whole_bytes 0))
        (255 * 2 ^ (8 - rest_bits))
      == 0

unfoldable pub prefix_matches : List ℕ → List ℕ → ℕ → Bool
prefix_matches a b prefix_len = octets_match a b (prefix_len / 8) (prefix_len % 8)

-- The family of the packet and the octets from its destination address on; `none` is NULL.
unfoldable pub packet_dest : List ℕ → Option (Family × List ℕ)
packet_dest packet =
    if ltb (length packet) 1
    then none
    else if get_or packet 0 0 / 2 ^ 4 == 4
    then (if ltb (length packet) 20 then none else some (inet, drop 16 packet))
    else if get_or packet 0 0 / 2 ^ 4 == 6
    then (if ltb (length packet) 40 then none else some (inet6, drop 24 packet))
    else none

abbrev pub link_local_dest : Option (Family × List ℕ) → Bool
link_local_dest none = false
link_local_dest (some (inet, dest)) =
    (get_or dest 0 0 == 224 && (get_or dest 1 0 == 0 && get_or dest 2 0 == 0))
    || (get_or dest 0 0 == 255
        && (get_or dest 1 0 == 255 && (get_or dest 2 0 == 255 && get_or dest 3 0 == 255)))
link_local_dest (some (inet6, dest)) =
    get_or dest 0 0 == 255 && leb (bit_and (get_or dest 1 0) 15) 2

unfoldable pub bptun_is_link_local : List ℕ → Bool
bptun_is_link_local packet = link_local_dest (packet_dest packet)

-- `best == NULL || route->prefixLen > best->prefixLen`.
abbrev pub is_better : BptunRoute → Option BptunRoute → Bool
is_better route none = true
is_better route (some best) = ltb best.prefix_len route.prefix_len

abbrev pub covers : Family → List ℕ → BptunRoute → Bool
covers family dest route =
    same_family route.family family && prefix_matches route.addr dest route.prefix_len

-- The loop of bptunRouteLookup, from the `best` of the routes before.
unfoldable pub lookup_loop :
    Family → List ℕ → Option BptunRoute → List BptunRoute → Option BptunRoute
lookup_loop family dest best [] = best
lookup_loop family dest best (route ∷ routes) =
    lookup_loop family dest
      (if not (covers family dest route)
        then best
        else if is_better route best
        then some route
        else best)
      routes

abbrev pub best_eid : Option BptunRoute → Option (List ℕ)
best_eid none = none
best_eid (some best) = some best.eid

abbrev pub lookup_dest : List BptunRoute → Option (Family × List ℕ) → Option (List ℕ)
lookup_dest routes none = none
lookup_dest routes (some (family, dest)) = best_eid (lookup_loop family dest none routes)

unfoldable pub bptun_route_lookup : BptunRouteTable → List ℕ → Option (List ℕ)
bptun_route_lookup table packet = lookup_dest table.routes (packet_dest packet)

abbrev pub bptun_route_table_free : BptunRouteTable → BptunRouteTable
bptun_route_table_free table = record { routes = []; capacity = 0 }
