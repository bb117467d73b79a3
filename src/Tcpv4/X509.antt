-- ===== src/Tcpv4/X509.antt =====
-- The certificate decoding of CLA/tcpv4/src/tcpv4x509.c. A buffer is the list of its octets, and a
-- string the list of its characters without the final zero; `none` is NULL.
pub mod View
pub mod Tlv
pub mod Found
pub mod BundleEid
pub mod Extensions
pub mod Entries
pub mod Returns
pub mod NodeUri
mod Tests
use ion_dtn_contrib.Prelude.{
  ℕ, zero, suc, ◌+◌, ◌-◌, ◌*◌, ◌%◌, ◌^◌, Bool, true, false, ◌&&◌, ◌||◌, not, ltb, leb, ◌==◌,
  if◌then◌else◌, list_eq, List, [], ◌∷◌, ◌++◌, length, take, drop, get_or, Option, none, some, ℤ,
  pos, minus_one, bit_and, bit_or,
}
use ion_dtn_contrib.Wire.Size.{size_add, size_sub}

-- `while (octets-- > 0) n = (n << 8) | der[i++];`, with the index and the number at its end.
unfoldable pub length_loop : ℕ → List ℕ → ℕ → ℕ → ℕ × ℕ
length_loop zero der i n = (i, n)
length_loop (suc octets) der i n =
    length_loop octets der (suc i) (bit_or (n * 2 ^ 8 % 2 ^ 64) (get_or der i 0))

-- The last test of derTlv: the offset and the length of the content.
abbrev pub tlv_content : ℕ → ℕ × ℕ → Option (ℕ × ℕ)
tlv_content len (i, n) = if ltb (size_sub len i) n then none else some (i, n)

-- The length field, whose first octet `b` stands before index `i`.
unfoldable pub tlv_length : List ℕ → ℕ → ℕ → ℕ → Option (ℕ × ℕ)
tlv_length der len i b =
    if ltb b 0x80
    then tlv_content len (i, b)
    else if bit_and b 0x7f == 0 || (ltb 8 (bit_and b 0x7f) || ltb (size_sub len i) (bit_and b 0x7f))
    then none
    else tlv_content len (length_loop (bit_and b 0x7f) der i 0)

-- derTlv: the offset and the length of the content, `none` for -1.
unfoldable pub der_tlv : List ℕ → ℕ → ℕ → ℕ → Option (ℕ × ℕ)
der_tlv der len off tag =
    if leb len off || (ltb (size_sub len off) 2 || not (get_or der off 0 == tag))
    then none
    else tlv_length der len (suc (suc off)) (get_or der (suc off) 0)

-- The characters of a buffer before its first zero, which `strlen` counts.
abbrev pub c_string : List ℕ → List ℕ
c_string [] = []
c_string (c ∷ cs) = let rest = c_string cs in if c == 0 then [] else c ∷ rest

-- `memcpy(into, der + off, vlen); into[vlen] = 0;`
abbrev pub copied : List ℕ → ℕ → ℕ → List ℕ → List ℕ
copied der off vlen into = take vlen (drop off der) ++ (0 ∷ drop (suc vlen) into)

-- The octets into which the BundleEID is wrapped, by the first call of derTlv: its end and the
-- offset at which to go on.
abbrev pub wrapped : ℕ → Option (ℕ × ℕ) → ℕ × ℕ
wrapped len none = (len, 0)
wrapped len (some (off, vlen)) = (size_add off vlen, off)

-- What follows the second call of derTlv.
abbrev pub eid_copied : List ℕ → List ℕ → ℕ → Option (ℕ × ℕ) → ℤ × List ℕ
eid_copied der into cap none = (minus_one, into)
eid_copied der into cap (some (off, vlen)) =
    if vlen == 0 || leb cap vlen then (minus_one, into) else (
      if not (length (c_string (copied der off vlen into)) == vlen) then minus_one else pos 0,
      copied der off vlen into,
    )

-- The result with the octets of `into` as they are left.
unfoldable pub tcpv4_x509_bundle_eid : Option (List ℕ) → ℕ → List ℕ → ℕ → ℤ × List ℕ
tcpv4_x509_bundle_eid none len into cap = (minus_one, into)
tcpv4_x509_bundle_eid (some der) len into cap =
    let (end, off) = wrapped len (der_tlv der len 0 0xa0) in
    if cap == 0 then (minus_one, into) else eid_copied der into cap (der_tlv der end off 0x16)

-- `strncmp(uri, prefix, length of prefix) == 0`
abbrev pub begins_with : List ℕ → List ℕ → Bool
begins_with prefix uri = list_eq (take (length prefix) uri) prefix

abbrev pub ipn_scheme : List ℕ
ipn_scheme = b'i' ∷ b'p' ∷ b'n' ∷ b':' ∷ []

abbrev pub dtn_scheme : List ℕ
dtn_scheme = b'd' ∷ b't' ∷ b'n' ∷ b':' ∷ []

abbrev pub dtn_none : List ℕ
dtn_none = b'd' ∷ b't' ∷ b'n' ∷ b':' ∷ b'n' ∷ b'o' ∷ b'n' ∷ b'e' ∷ []

unfoldable pub tcpv4_x509_is_node_id : Option (List ℕ) → Bool
tcpv4_x509_is_node_id none = false
tcpv4_x509_is_node_id (some uri) =
    if begins_with ipn_scheme uri
    then ltb 6 (length uri) && list_eq (drop (length uri - 2) uri) (b'.' ∷ b'0' ∷ [])
    else if begins_with dtn_scheme uri
    then list_eq uri dtn_none || (ltb 6 (length uri) && get_or uri (length uri - 1) 0 == b'/')
    else true

-- What the loop finds in an entry that ends at `end`, by the call of derTlv for its OID: `none`
-- where it is no entry.
abbrev pub entry_test : List ℕ → List ℕ → Option (ℕ × ℕ) → Option Bool
entry_test der oid none = none
entry_test der oid (some (off, id_len)) =
    some (id_len == length oid && list_eq (take (length oid) (drop off der)) oid)

-- How the loop goes on after an entry.
abbrev pub after_entry : Option Bool → Option Bool → Option Bool
after_entry rest none = some false
after_entry rest (some true) = some true
after_entry rest (some false) = rest

-- What follows the call of derTlv for an entry; `rest` is the loop from the end of the entry.
abbrev pub entry_found : (ℕ → Option Bool) → List ℕ → List ℕ → Option (ℕ × ℕ) → Option Bool
entry_found rest der oid none = some false
entry_found rest der oid (some (off, seq_len)) =
    let seq_end = size_add off seq_len in
    after_entry (rest seq_end) (entry_test der oid (der_tlv der seq_end off 6))

-- The loop of tcpv4X509HasExtension, an entry for each unit of fuel; `none` where that runs out.
unfoldable pub entries_loop : ℕ → List ℕ → ℕ → ℕ → List ℕ → Option Bool
entries_loop zero der len off oid = none
entries_loop (suc fuel) der len off oid =
    let round =
      entry_found (λ seq_end. entries_loop fuel der len seq_end oid) der oid
        (der_tlv der len off 0x30) in
    if ltb off len then round else some false

-- `der += off; len = vlen;` if there is another SEQUENCE inside.
abbrev pub inner_list : List ℕ → ℕ → ℕ → ℕ → Option (ℕ × ℕ) → List ℕ × ℕ
inner_list der len off vlen none = (der, len)
inner_list der len off vlen (some inner) = (drop off der, vlen)

-- The octets and the length that the loop walks: those inside the header of a SEQUENCE that is the
-- whole list and begins with another.
abbrev pub entered : List ℕ → ℕ → Option (ℕ × ℕ) → List ℕ × ℕ
entered der len none = (der, len)
entered der len (some (off, vlen)) =
    if size_add off vlen == len
    then inner_list der len off vlen (der_tlv der len off 0x30)
    else (der, len)

-- `none` where the loop does not end.
unfoldable pub tcpv4_x509_has_extension : Option (List ℕ) → ℕ → Option (List ℕ) → Option Bool
tcpv4_x509_has_extension none len oid = some false
tcpv4_x509_has_extension (some der) len none = some false
tcpv4_x509_has_extension (some der) len (some oid) =
    let (list, list_len) = entered der len (der_tlv der len 0 0x30) in
    if length oid == 0 then some false else entries_loop (suc list_len) list list_len 0 oid
