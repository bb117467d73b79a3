-- ===== src/Tcpv4/X509/Tests.antt =====
-- Runs of the functions of CLA/tcpv4/src/tcpv4x509.c, and its theorems at concrete values.
use ion_dtn_contrib.Prelude.{
  ℕ, ◌≡◌, refl, inl, inr, Bool, true, false, List, [], ◌∷◌, ◌++◌, some, pos, minus_one, arith,
}
use ion_dtn_contrib.Tcpv4.X509.{
  length_loop, tlv_length, der_tlv, tcpv4_x509_bundle_eid, tcpv4_x509_is_node_id, entries_loop,
  tcpv4_x509_has_extension,
}
use ion_dtn_contrib.Tcpv4.X509.BundleEid.{Outcome, tcpv4_x509_bundle_eid-Outcome}
use ion_dtn_contrib.Tcpv4.X509.Extensions.{Entry, IsEntry, entries_octets, has_oid}
use ion_dtn_contrib.Tcpv4.X509.Entries.{tcpv4_x509_has_extension-entries}
use ion_dtn_contrib.Tcpv4.X509.Returns.{tcpv4_x509_has_extension_returns}
use ion_dtn_contrib.Tcpv4.X509.NodeUri.{tcpv4_x509_is_node_id_iff}

-- [0] { IA5String "ipn:2.0" }
abbrev wrapped_eid : List ℕ
wrapped_eid = 0xa0 ∷ 9 ∷ 0x16 ∷ 7 ∷ b'i' ∷ b'p' ∷ b'n' ∷ b':' ∷ b'2' ∷ b'.' ∷ b'0' ∷ []

abbrev room : List ℕ
room = 1 ∷ 1 ∷ 1 ∷ 1 ∷ 1 ∷ 1 ∷ 1 ∷ 1 ∷ 1 ∷ 1 ∷ []

bundle_eid_run :
    tcpv4_x509_bundle_eid (some wrapped_eid) 11 room 10
    ≡ (pos 0, b'i' ∷ b'p' ∷ b'n' ∷ b':' ∷ b'2' ∷ b'.' ∷ b'0' ∷ 0 ∷ 1 ∷ 1 ∷ [])
unfolding tcpv4_x509_bundle_eid der_tlv tlv_length length_loop
bundle_eid_run = refl

bundle_eid_cut : tcpv4_x509_bundle_eid (some wrapped_eid) 10 room 10 ≡ (minus_one, room)
unfolding tcpv4_x509_bundle_eid der_tlv tlv_length length_loop
bundle_eid_cut = refl

node_id_runs :
    (tcpv4_x509_is_node_id (some (b'i' ∷ b'p' ∷ b'n' ∷ b':' ∷ b'2' ∷ b'.' ∷ b'0' ∷ [])) ≡ true)
    × (tcpv4_x509_is_node_id (some (b'i' ∷ b'p' ∷ b'n' ∷ b':' ∷ b'2' ∷ b'.' ∷ b'1' ∷ [])) ≡ false)
unfolding tcpv4_x509_is_node_id
node_id_runs = (refl, refl)

tcpv4_x509_bundle_eid-Outcome_example :
    Outcome wrapped_eid room 10 (tcpv4_x509_bundle_eid (some (wrapped_eid ++ [])) 11 room 10)
tcpv4_x509_bundle_eid-Outcome_example =
    tcpv4_x509_bundle_eid-Outcome wrapped_eid [] room 10 (omega arith) (omega arith)

-- Extensions of the OIDs 2.5.29.15 and 2.5.29.37.
abbrev key_usage : Entry
key_usage = record {
  oid = 85 ∷ 29 ∷ 15 ∷ [];
  len_octets = 7 ∷ [];
  body = 6 ∷ 3 ∷ 85 ∷ 29 ∷ 15 ∷ 4 ∷ 0 ∷ [];
}

abbrev key_purpose : Entry
key_purpose = record {
  oid = 85 ∷ 29 ∷ 37 ∷ [];
  len_octets = 7 ∷ [];
  body = 6 ∷ 3 ∷ 85 ∷ 29 ∷ 37 ∷ 4 ∷ 0 ∷ [];
}

key_usage-IsEntry : IsEntry key_usage
key_usage-IsEntry = record {
  measured = inl (omega arith, refl);
  named = record {
    len_octets = 3 ∷ [];
    rest = 4 ∷ 0 ∷ [];
    split = refl;
    measured = inl (omega arith, refl);
  };
}

key_purpose-IsEntry : IsEntry key_purpose
key_purpose-IsEntry = record {
  measured = inl (omega arith, refl);
  named = record {
    len_octets = 3 ∷ [];
    rest = 4 ∷ 0 ∷ [];
    split = refl;
    measured = inl (omega arith, refl);
  };
}

abbrev extensions : List Entry
extensions = key_usage ∷ key_purpose ∷ []

has_extension_run :
    tcpv4_x509_has_extension
      (some (0x30 ∷ 18 ∷ entries_octets extensions))
      20
      (some (85 ∷ 29 ∷ 37 ∷ []))
    ≡ some true
unfolding tcpv4_x509_has_extension entries_loop der_tlv tlv_length length_loop
has_extension_run = refl

tcpv4_x509_has_extension-entries_example :
    tcpv4_x509_has_extension
      (some ((0x30 ∷ 18 ∷ entries_octets extensions) ++ []))
      20
      (some (85 ∷ 29 ∷ 37 ∷ []))
    ≡ some (has_oid (85 ∷ 29 ∷ 37 ∷ []) extensions)
tcpv4_x509_has_extension-entries_example =
    tcpv4_x509_has_extension-entries extensions (0x30 ∷ 18 ∷ entries_octets extensions) []
      (85 ∷ 29 ∷ 37 ∷ []) (key_usage-IsEntry, (key_purpose-IsEntry, tt))
      (inr (18 ∷ [], inl (omega arith, refl), refl)) (omega arith) (omega arith)

tcpv4_x509_has_extension_returns_example :
    (b : Bool) × (tcpv4_x509_has_extension
        (some ((0x30 ∷ 3 ∷ 6 ∷ 200 ∷ 0 ∷ []) ++ []))
        5
        (some (85 ∷ 29 ∷ 37 ∷ []))
      ≡ some b)
tcpv4_x509_has_extension_returns_example =
    tcpv4_x509_has_extension_returns (0x30 ∷ 3 ∷ 6 ∷ 200 ∷ 0 ∷ []) [] (85 ∷ 29 ∷ 37 ∷ [])
      (omega arith) (omega arith)

-- "dtn://a/"
abbrev node_uri : List ℕ
node_uri = b'd' ∷ b't' ∷ b'n' ∷ b':' ∷ b'/' ∷ b'/' ∷ b'a' ∷ b'/' ∷ []

-- "dtn://a/b/" passes, and its demux is not empty.
inbox_passes :
    tcpv4_x509_is_node_id
      (some (b'd' ∷ b't' ∷ b'n' ∷ b':' ∷ b'/' ∷ b'/' ∷ b'a' ∷ b'/' ∷ b'b' ∷ b'/' ∷ []))
    ≡ true
inbox_passes =
    (tcpv4_x509_is_node_id_iff _).1
      (inr (b'/' ∷ b'/' ∷ b'a' ∷ b'/' ∷ b'b' ∷ [], omega arith, refl, refl))
