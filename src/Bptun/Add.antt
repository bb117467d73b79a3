-- ===== src/Bptun/Add.antt =====
-- bptunRouteAdd of APP/bptun/src/bptun_route.c. Parameters: the allocator; inet_pton, with the octets
-- where it returns 1; strtol at base 10, with its value and the number of characters up to `*end`.
pub mod Invariant
use ion_dtn_contrib.Prelude.{
  ℕ, zero, suc, ◌-◌, ◌*◌, ◌%◌, ◌^◌, Bool, true, false, not, ◌||◌, ltb, leb, ◌==◌, if◌then◌else◌,
  List, [], ◌∷◌, ◌++◌, length, list_eq, Option, none, some, ℤ, pos, negsuc, minus_one, int_cast,
}
use ion_dtn_contrib.Bptun.Route.{Family, inet, inet6, addr_len, BptunRouteTable, add_route, zeros}

abbrev pub bptun_max_eid_len : ℕ
bptun_max_eid_len = 255

-- What `*errText` says.
pub data ErrText : Type 0 where
  route_form : ErrText
  eid_too_long : ErrText
  out_of_memory : ErrText
  bad_address : ErrText
  bad_prefix_length : ErrText

pub record Added : Type 0 where
  pub rc : ℤ
  pub err_text : Option ErrText
  pub table : BptunRouteTable

abbrev pub fail : BptunRouteTable → ErrText → Added
fail table e = record { rc = minus_one; err_text = some e; table = table }

-- `rc < 0`, with "out of memory" where it is.
abbrev pub out_of_memory_if : ℤ × BptunRouteTable → Added
out_of_memory_if (pos n, table) = record { rc = pos 0; err_text = none; table = table }
out_of_memory_if (negsuc n, table) = fail table out_of_memory

-- strchr and memchr: what stands before the first `c`, and what behind it.
abbrev pub split_at : ℕ → List ℕ → Option (List ℕ × List ℕ)
split_at c [] = none
split_at c (x ∷ xs) =
    let rest = split_at c xs in
    if x == c
    then some ([], xs)
    else elim rest [ none ↦ none | some (before, after) ↦ some (x ∷ before, after) ]

-- The conversion of a long to an int.
abbrev pub int_of_long : ℤ → ℤ
int_of_long (pos n) = int_cast n
int_of_long (negsuc n) = int_cast (2 ^ 64 - n - 1)

abbrev pub max_prefix : Family → ℕ
max_prefix inet = 32
max_prefix inet6 = 128

-- `digits` is the length of the text between '/' and '='.
abbrev pub check_prefix : ℕ → ℕ → ℕ → ℤ → Option ℕ
check_prefix consumed digits limit (negsuc n) = none
check_prefix consumed digits limit (pos n) =
    if (consumed == 0 || not (consumed == digits)) || ltb limit n then none else some n

-- "default"
abbrev pub default_word : List ℕ
default_word = b'd' ∷ b'e' ∷ b'f' ∷ b'a' ∷ b'u' ∷ b'l' ∷ b't' ∷ []

-- The results of inet_pton for the two families, IPv4 first.
abbrev pub first_address : Option (List ℕ) → Option (List ℕ) → Option (Family × List ℕ)
first_address (some addr) addr6 = some (inet, addr)
first_address none (some addr) = some (inet6, addr)
first_address none none = none

module _ (realloc : ℕ → Bool) (inet_pton : Family → List ℕ → Option (List ℕ))
    (strtol : List ℕ → ℤ × ℕ) where
  abbrev add_second : List ℕ → ℤ × BptunRouteTable → Added
  add_second eid (pos n, table) = out_of_memory_if (add_route realloc table inet6 (zeros 16) 0 eid)
  add_second eid (negsuc n, table) = fail table out_of_memory

  abbrev pub add_default : BptunRouteTable → List ℕ → Added
  add_default table eid = add_second eid (add_route realloc table inet (zeros 16) 0 eid)

  abbrev pub read_address : List ℕ → Option (Family × List ℕ)
  read_address text = first_address (inet_pton inet text) (inet_pton inet6 text)

  -- `none` without a '/'.
  abbrev pub read_prefix : Family → List ℕ → Option (List ℕ) → Option ℕ
  read_prefix family eid none = some (max_prefix family)
  read_prefix family eid (some text) =
      let (value, consumed) = strtol (text ++ (b'=' ∷ eid)) in
      check_prefix consumed (length text) (max_prefix family) (int_of_long value)

  abbrev pub add_read : BptunRouteTable → List ℕ → Family × List ℕ → Option ℕ → Added
  add_read table eid (family, addr) none = fail table bad_prefix_length
  add_read table eid (family, addr) (some prefix_len) =
      out_of_memory_if (add_route realloc table family addr prefix_len eid)

  abbrev pub add_address :
      BptunRouteTable → List ℕ → Option (List ℕ) → Option (Family × List ℕ) → Added
  add_address table eid prefix_text none = fail table bad_address
  add_address table eid prefix_text (some (family, addr)) =
      add_read table eid (family, addr) (read_prefix family eid prefix_text)

  -- INET6_ADDRSTRLEN is 46.
  abbrev pub add_text : BptunRouteTable → List ℕ → List ℕ → Option (List ℕ) → Added
  add_text table eid text prefix_text =
      if length text == 0 || leb 46 (length text)
      then fail table bad_address
      else add_address table eid prefix_text (read_address text)

  abbrev pub add_prefix : BptunRouteTable → List ℕ → List ℕ → Option (List ℕ × List ℕ) → Added
  add_prefix table eid head none = add_text table eid head none
  add_prefix table eid head (some (text, prefix_text)) = add_text table eid text (some prefix_text)

  abbrev pub add_split : BptunRouteTable → Option (List ℕ × List ℕ) → Added
  add_split table none = fail table route_form
  add_split table (some (head, eid)) =
      if length eid == 0
      then fail table route_form
      else if ltb bptun_max_eid_len (length eid)
      then fail table eid_too_long
      else if list_eq head default_word
      then add_default table eid
      else add_prefix table eid head (split_at b'/' head)

  unfoldable pub bptun_route_add : BptunRouteTable → List ℕ → Added
  bptun_route_add table spec = add_split table (split_at b'=' spec)
