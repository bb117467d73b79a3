-- ===== src/Bptun/Add/Invariant.antt =====
-- What bptunRouteAdd of APP/bptun/src/bptun_route.c keeps of the table.
use ion_dtn_contrib.Prelude.{
  ℕ, zero, suc, ◌*◌, ◌-◌, ◌≤◌, ◌<◌, ◌≡◌, refl, Bool, if_case, ltb, ltb→ge, leb, ◌||◌, ◌==◌, list_eq,
  List, [], ◌∷◌, ◌++◌, take, length, length-append, length-take, All, All-append, All-take, Option,
  none, some, ℤ, pos, negsuc, arith,
}
use ion_dtn_contrib.Wire.Size.{IsByte}
use ion_dtn_contrib.Bptun.Route.{
  Family, inet, inet6, addr_len, BptunRoute, BptunRouteTable, add_route, push, next_capacity,
  addr_field, zeros,
}
use ion_dtn_contrib.Bptun.Route.Lookup.{IsRoute}
use ion_dtn_contrib.Bptun.Add.{
  Added, out_of_memory_if, check_prefix, max_prefix, first_address, add_second, read_address,
  read_prefix, add_read, add_address, add_text, add_prefix, add_split, bptun_route_add,
  bptun_max_eid_len, default_word, split_at,
}

-- The EID fits the field of a route, with its final zero.
abbrev pub FitsEid : List ℕ → Type 0
FitsEid eid = (0 < length eid) × (length eid ≤ 255)

pub record IsTable (table : BptunRouteTable) : Type 0 where
  pub routes : All IsRoute table.routes
  pub eids : All (λ r. FitsEid r.eid) table.routes
  pub count : length table.routes ≤ table.capacity

length-zeros : (n : ℕ) → length (zeros n) ≡ n
length-zeros zero = refl
length-zeros (suc n) = omega (arith, length-zeros n)

zeros-IsByte : (n : ℕ) → All IsByte (zeros n)
zeros-IsByte zero = tt
zeros-IsByte (suc n) = (omega arith, zeros-IsByte n)

addr_len_within : (f : Family) → addr_len f ≤ 16
addr_len_within inet = omega arith
addr_len_within inet6 = omega arith

-- An address that the caller has read, and a prefix length that it has checked.
record IsAddress (family : Family) (addr : List ℕ) : Type 0 where
  long : addr_len family ≤ length addr
  bytes : All IsByte addr

push-IsTable :
    (table : BptunRouteTable) (route : BptunRoute) (capacity : ℕ)
    → IsTable table
    → IsRoute route
    → FitsEid route.eid
    → length table.routes < capacity
    → IsTable (push (record table { capacity = capacity }) route)
push-IsTable table route capacity v r f h = record {
  routes = All-append IsRoute table.routes (route ∷ []) v.routes (r, tt);
  eids = All-append (λ r. FitsEid r.eid) table.routes (route ∷ []) v.eids (f, tt);
  count = omega (arith, length-append table.routes (route ∷ []));
}

next_capacity_grows : (n : ℕ) → n < next_capacity n
next_capacity_grows n = ground arith

addr_field-IsRoute :
    (family : Family) (addr eid : List ℕ) (prefix_len : ℕ)
    → IsAddress family addr
    → prefix_len ≤ 8 * addr_len family
    → IsRoute (record {
      family = family;
      addr = addr_field family addr;
      prefix_len = prefix_len;
      eid = eid;
    })
addr_field-IsRoute family addr eid prefix_len a h = record {
  bytes =
      All-append IsByte (take (addr_len family) addr) (zeros (16 - addr_len family))
        (All-take IsByte (addr_len family) addr a.bytes) (zeros-IsByte (16 - addr_len family));
  field = omega (
    arith,
    length-append (take (addr_len family) addr) (zeros (16 - addr_len family)),
    length-take (addr_len family) addr,
    length-zeros (16 - addr_len family),
    addr_len_within family,
    a.long,
  );
  within = h;
}

add_route-IsTable :
    (realloc : ℕ → Bool) (table : BptunRouteTable) (family : Family) (addr : List ℕ)
    (prefix_len : ℕ) (eid : List ℕ)
    → IsTable table
    → IsAddress family addr
    → prefix_len ≤ 8 * addr_len family
    → FitsEid eid
    → IsTable (add_route realloc table family addr prefix_len eid).1
unfolding add_route
add_route-IsTable realloc table family addr prefix_len eid v a h f =
    let r = addr_field-IsRoute family addr eid prefix_len a h in
    if_case {A = ℤ × BptunRouteTable} (λ res. IsTable res.1) (length table.routes == table.capacity)
      _ _
      (λ e.
        if_case {A = ℤ × BptunRouteTable} (λ res. IsTable res.1)
          (realloc (next_capacity table.capacity)) _ _
          (λ granted.
            push-IsTable table _ (next_capacity table.capacity) v r f
              (omega (arith, v.count, next_capacity_grows table.capacity)))
          (λ refused. v))
      (λ e. push-IsTable table _ table.capacity v r f (ground (arith, e, v.count)))

out_of_memory_if-IsTable :
    (res : ℤ × BptunRouteTable) → IsTable res.1 → IsTable (out_of_memory_if res).table
out_of_memory_if-IsTable (pos n, table) v = v
out_of_memory_if-IsTable (negsuc n, table) v = v

check_prefix_within :
    (consumed digits limit : ℕ) (z : ℤ) (n : ℕ)
    → check_prefix consumed digits limit z ≡ some n
    → n ≤ limit
check_prefix_within consumed digits limit (negsuc k) n e = absurd (cc)
check_prefix_within consumed digits limit (pos k) n e = ground arith

max_prefix_within : (f : Family) → max_prefix f ≤ 8 * addr_len f
max_prefix_within inet = omega arith
max_prefix_within inet6 = omega arith

zeros-IsAddress : (f : Family) → IsAddress f (zeros 16)
zeros-IsAddress f = record { long = omega (arith, addr_len_within f); bytes = zeros-IsByte 16 }

octets-IsAddress :
    (f : Family) (addr : List ℕ) → (length addr ≡ addr_len f) × All IsByte addr → IsAddress f addr
octets-IsAddress f addr (size, bytes) = record { long = omega arith; bytes = bytes }

abbrev IsRead : Option (Family × List ℕ) → Type 0
IsRead none = Unit
IsRead (some (family, addr)) = IsAddress family addr

first_address-IsRead :
    (addr4 addr6 : Option (List ℕ))
    → ((addr : List ℕ) → addr4 ≡ some addr → IsAddress inet addr)
    → ((addr : List ℕ) → addr6 ≡ some addr → IsAddress inet6 addr)
    → IsRead (first_address addr4 addr6)
first_address-IsRead (some addr) addr6 f g = f addr refl
first_address-IsRead none (some addr) f g = g addr refl
first_address-IsRead none none f g = tt

-- `inet_pton` fills in an address of its family.
module _ (realloc : ℕ → Bool) (inet_pton : Family → List ℕ → Option (List ℕ))
    (strtol : List ℕ → ℤ × ℕ)
    (pton_octets : (f : Family) (s addr : List ℕ)
      → inet_pton f s ≡ some addr
      → (length addr ≡ addr_len f) × All IsByte addr) where
  add_second-IsTable :
      (eid : List ℕ) (res : ℤ × BptunRouteTable)
      → IsTable res.1
      → FitsEid eid
      → IsTable (add_second realloc inet_pton strtol eid res).table
  add_second-IsTable eid (pos n, table) v f = out_of_memory_if-IsTable _ (
      add_route-IsTable realloc table inet6 (zeros 16) 0 eid v (zeros-IsAddress inet6) (omega arith)
        f)
  add_second-IsTable eid (negsuc n, table) v f = v

  read_prefix_within :
      (family : Family) (eid : List ℕ) (text : Option (List ℕ)) (n : ℕ)
      → read_prefix realloc inet_pton strtol family eid text ≡ some n
      → n ≤ 8 * addr_len family
  read_prefix_within family eid none n e =
      let e' : some (max_prefix family) ≡ some n = e in
      let same : max_prefix family ≡ n = cc in omega (arith, max_prefix_within family)
  read_prefix_within family eid (some text) n e = omega (
    arith,
    max_prefix_within family,
    check_prefix_within (strtol (text ++ (b'=' ∷ eid))).1 (length text) (max_prefix family) _ n e,
  )

  add_read-IsTable :
      (table : BptunRouteTable) (eid : List ℕ) (family : Family) (addr : List ℕ) (p : Option ℕ)
      → IsTable table
      → FitsEid eid
      → IsAddress family addr
      → ((n : ℕ) → p ≡ some n → n ≤ 8 * addr_len family)
      → IsTable (add_read realloc inet_pton strtol table eid (family, addr) p).table
  add_read-IsTable table eid family addr none v f a h = v
  add_read-IsTable table eid family addr (some n) v f a h =
      out_of_memory_if-IsTable _
        (add_route-IsTable realloc table family addr n eid v a (h n refl) f)

  read_address-IsRead : (text : List ℕ) → IsRead (read_address realloc inet_pton strtol text)
  read_address-IsRead text =
      first_address-IsRead _ _ (λ addr e. octets-IsAddress inet addr (pton_octets inet text addr e))
        (λ addr e. octets-IsAddress inet6 addr (pton_octets inet6 text addr e))

  add_address-IsTable :
      (table : BptunRouteTable) (eid : List ℕ) (prefix_text : Option (List ℕ))
      (read : Option (Family × List ℕ))
      → IsTable table
      → FitsEid eid
      → IsRead read
      → IsTable (add_address realloc inet_pton strtol table eid prefix_text read).table
  add_address-IsTable table eid prefix_text none v f a = v
  add_address-IsTable table eid prefix_text (some (family, addr)) v f a =
      add_read-IsTable table eid family addr _ v f a (read_prefix_within family eid prefix_text)

  add_text-IsTable :
      (table : BptunRouteTable) (eid text : List ℕ) (prefix_text : Option (List ℕ))
      → IsTable table
      → FitsEid eid
      → IsTable (add_text realloc inet_pton strtol table eid text prefix_text).table
  add_text-IsTable table eid text prefix_text v f =
      if_case (λ (a : Added). IsTable a.table) (length text == 0 || leb 46 (length text)) _ _
        (λ e. v) (λ e. add_address-IsTable table eid prefix_text _ v f (read_address-IsRead text))

  add_prefix-IsTable :
      (table : BptunRouteTable) (eid head : List ℕ) (split : Option (List ℕ × List ℕ))
      → IsTable table
      → FitsEid eid
      → IsTable (add_prefix realloc inet_pton strtol table eid head split).table
  add_prefix-IsTable table eid head none v f = add_text-IsTable table eid head none v f
  add_prefix-IsTable table eid head (some (text, prefix_text)) v f =
      add_text-IsTable table eid text (some prefix_text) v f

  add_split-IsTable :
      (table : BptunRouteTable) (split : Option (List ℕ × List ℕ))
      → IsTable table
      → IsTable (add_split realloc inet_pton strtol table split).table
  add_split-IsTable table none v = v
  add_split-IsTable table (some (head, eid)) v =
      if_case (λ (a : Added). IsTable a.table) (length eid == 0) _ _ (λ e. v)
        (λ some_eid.
          if_case (λ (a : Added). IsTable a.table) (ltb bptun_max_eid_len (length eid)) _ _ (λ e. v)
            (λ short.
              let f : FitsEid eid = (ground (arith, some_eid), ltb→ge 255 (length eid) short) in
              if_case (λ (a : Added). IsTable a.table) (list_eq head default_word) _ _
                (λ e.
                  add_second-IsTable eid _
                    (add_route-IsTable realloc table inet (zeros 16) 0 eid v (zeros-IsAddress inet)
                      (omega arith) f)
                    f)
                (λ e. add_prefix-IsTable table eid head (split_at b'/' head) v f)))

  -- Whatever the spec, and whether memory is granted or not, a well-formed table stays well-formed:
  -- every route has an address field of 16 octets, a prefix within its family's address and an EID
  -- that fits, and there are no more routes than the array has room for.
  pub bptun_route_add-IsTable :
      (table : BptunRouteTable) (spec : List ℕ)
      → IsTable table
      → IsTable (bptun_route_add realloc inet_pton strtol table spec).table
  unfolding bptun_route_add
  bptun_route_add-IsTable table spec v = add_split-IsTable table (split_at b'=' spec) v
