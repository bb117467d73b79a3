-- ===== src/Tcpv4/Tests.antt =====
-- Runs of the TCPCLv4 codec, and its theorems at concrete messages.
use ion_dtn_contrib.Prelude.{ℕ, ◌≡◌, refl, List, [], ◌∷◌, ◌++◌, none, some, pos, minus_one, arith}
use ion_dtn_contrib.Wire.Framed.{decode_typed}
use ion_dtn_contrib.Wire.Reader.{r_init, r_u8, r_result, ◌>>=◌}
use ion_dtn_contrib.Tcpv4.Msg.{decode_sess_term, sess_term_body}
use ion_dtn_contrib.Tcpv4.Msg.Types.{Tcpv4SessInit, Tcpv4ExtItem, Tcpv4XferSegment}
use ion_dtn_contrib.Tcpv4.Msg.Codec.{
  sess_init, sess_init_kind, sess_term_kind, encode_tcpv4, decode_tcpv4, IsMsg,
}
use ion_dtn_contrib.Tcpv4.Msg.Codec.Outgoing.{
  Outgoing, message, keepalive, encode_outgoing, outgoing_wire, tcpv4_outgoing_fits,
  tcpv4_outgoing_no_room,
}
use ion_dtn_contrib.Tcpv4.Msg.Codec.Decode.{
  Decoded, decode_tcpv4-encode_tcpv4, decode_tcpv4_part, decode_tcpv4_other, decode_tcpv4-Sound,
}
use ion_dtn_contrib.Tcpv4.Ext.{encode_xfer_length_ext, find_xfer_length}
use ion_dtn_contrib.Tcpv4.Ext.Walk.{IsExtItem}
use ion_dtn_contrib.Tcpv4.Ext.Find.{
  items_layout, find_xfer_length-encode, find_xfer_length_absent, find_xfer_length_malformed,
}

-- "ipn:7.0"
abbrev node_seven : List ℕ
node_seven = b'i' ∷ b'p' ∷ b'n' ∷ b':' ∷ b'7' ∷ b'.' ∷ b'0' ∷ []

abbrev hello : Tcpv4SessInit
hello = record {
  keepalive = 30;
  segment_mru = 65536;
  transfer_mru = 1000000;
  node_id = some node_seven;
  node_id_len = 7;
  sess_ext = some [];
  sess_ext_len = 0;
}

hello-IsSessInit : IsMsg (sess_init hello)
hello-IsSessInit = record {
  keepalive = omega arith;
  segment_mru = omega arith;
  transfer_mru = omega arith;
  node_id_len = omega arith;
  node_id = record { set = refl; size = refl; bytes = omega arith };
  sess_ext_len = omega arith;
  sess_ext = record { set = refl; size = refl; bytes = tt };
}

-- As the negotiation writes it: no session extension items, and NULL for them.
abbrev bare_hello : Outgoing
bare_hello = message (sess_init (record hello { sess_ext = none }))

tcpv4_outgoing_fits_example : encode_outgoing 64 bare_hello ≡ (pos 32, outgoing_wire bare_hello)
tcpv4_outgoing_fits_example =
    tcpv4_outgoing_fits 64 bare_hello (omega arith) hello-IsSessInit (omega arith)

tcpv4_outgoing_no_room_example : (encode_outgoing 31 bare_hello).0 ≡ minus_one
tcpv4_outgoing_no_room_example =
    tcpv4_outgoing_no_room 31 bare_hello (omega arith) hello-IsSessInit (omega arith)

keepalive_written : encode_outgoing 1 keepalive ≡ (pos 1, 4 ∷ [])
keepalive_written = tcpv4_outgoing_fits 1 keepalive (omega arith) tt (omega arith)

decode_tcpv4-encode_tcpv4_example :
    decode_tcpv4 sess_init_kind ((encode_tcpv4 64 (sess_init hello)).1 ++ (4 ∷ []))
    ≡ ((encode_tcpv4 64 (sess_init hello)).0, some (sess_init hello))
decode_tcpv4-encode_tcpv4_example =
    decode_tcpv4-encode_tcpv4 64 (sess_init hello) (4 ∷ []) (omega arith) hello-IsSessInit
      (omega arith) (omega arith) (omega arith)

decode_tcpv4_part_example : (decode_tcpv4 sess_init_kind (7 ∷ 0 ∷ [])).0 ≡ pos 0
decode_tcpv4_part_example =
    decode_tcpv4_part (sess_init hello) (7 ∷ 0 ∷ []) 30 _ hello-IsSessInit (omega arith) refl

decode_tcpv4_other_example : decode_tcpv4 sess_init_kind (5 ∷ 0 ∷ []) ≡ (minus_one, none)
decode_tcpv4_other_example = decode_tcpv4_other sess_init_kind 5 (0 ∷ []) (λ e. cc) (omega arith)

-- SESS_TERM with the REPLY flag and the reason "busy", and an octet of the next message.
abbrev farewell : List ℕ
farewell = 5 ∷ 1 ∷ 3 ∷ 4 ∷ []

decode_tcpv4-Sound_example : Decoded sess_term_kind farewell 3
unfolding decode_tcpv4 decode_sess_term sess_term_body decode_typed r_init r_u8 ◌>>=◌ r_result
decode_tcpv4-Sound_example =
    decode_tcpv4-Sound sess_term_kind farewell 2
      (record { bytes = omega arith; small = omega arith }) refl

-- A CRITICAL item of an unknown type.
abbrev unknown_item : Tcpv4ExtItem
unknown_item = record { flags = 1; type = 99; length = 2; value = some (8 ∷ 9 ∷ []) }

unknown_item-IsExtItem : IsExtItem unknown_item
unknown_item-IsExtItem = record {
  flags = omega arith;
  type = omega arith;
  length = omega arith;
  value = record { set = refl; size = refl; bytes = omega arith };
}

find_xfer_length-encode_example :
    find_xfer_length
      (items_layout (unknown_item ∷ []) ++ ((encode_xfer_length_ext 16 4000000000).1 ++ (7 ∷ [])))
    ≡ some (pos 1, some 4000000000)
find_xfer_length-encode_example =
    find_xfer_length-encode (unknown_item ∷ []) 16 4000000000 (7 ∷ [])
      ((unknown_item-IsExtItem, refl), tt) (omega arith) (omega arith) (omega arith) (omega arith)
      (omega arith)

find_xfer_length_absent_example :
    find_xfer_length (items_layout (unknown_item ∷ [])) ≡ some (pos 0, none)
find_xfer_length_absent_example =
    find_xfer_length_absent (unknown_item ∷ []) ((unknown_item-IsExtItem, refl), tt) (omega arith)

find_xfer_length_malformed_example :
    find_xfer_length (items_layout (unknown_item ∷ []) ++ (1 ∷ 0 ∷ [])) ≡ some (minus_one, none)
find_xfer_length_malformed_example =
    find_xfer_length_malformed (unknown_item ∷ []) unknown_item 1 (0 ∷ []) 99 _
      ((unknown_item-IsExtItem, refl), tt) unknown_item-IsExtItem refl (omega arith)

-- An item of type 9 that is not critical, and one that is.
abbrev two_items : List Tcpv4ExtItem
two_items =
    record { flags = 0; type = 9; length = 0; value = some [] }
    ∷ record { flags = 1; type = 10; length = 1; value = some (7 ∷ []) }
    ∷ []

abbrev with_items : Tcpv4XferSegment
with_items = record {
  flags = 2;
  transfer_id = 0;
  xfer_ext = some (items_layout two_items);
  xfer_ext_len = 11;
  data_length = 0;
}
