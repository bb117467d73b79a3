-- ===== src/Tcpv4/Rx/Tests.antt =====
-- Runs of the receiver thread, and its theorems at them.
use ion_dtn_contrib.Prelude.{
  ℕ, ◌≡◌, refl, ◌++◌, true, false, [], ◌∷◌, some, none, arith, List, Option,
}
use ion_dtn_contrib.Tcpv4.Tx.Reach.{fresh_conn}
use ion_dtn_contrib.Tcpv4.Rx.Conn.{RxConfig, RxConn, World, Handed}
use ion_dtn_contrib.Tcpv4.Msg.Types.{Tcpv4XferSegment}
use ion_dtn_contrib.Prelude.{drop}
use ion_dtn_contrib.Tcpv4.Rx.Segment.{handle_xfer_segment}
use ion_dtn_contrib.Tcpv4.Rx.Ending.{IsBarred, handle_xfer_segment_ending}
use ion_dtn_contrib.Tcpv4.Rx.Welcome.{empty-IsWelcome}
use ion_dtn_contrib.Tcpv4.Rx.Accepted.{IsBenign}
use ion_dtn_contrib.Tcpv4.Rx.Reassembly.{Part, IsTransfer, HandsOver, rounds, message_loop-transfer}
use ion_dtn_contrib.Tcpv4.Rx.Loop.{Ended, message_loop, tcpv4_message_loop}
use ion_dtn_contrib.Tcpv4.Rx.Sizes.{IsConfigured, IsBounded}
use ion_dtn_contrib.Tcpv4.Rx.Bounds.{tcpv4_message_loop-IsBounded}

abbrev small : RxConfig
small = record { segment_mru = 16; transfer_mru = 64 }

abbrev benign : World
benign = record { writes = λ c. true; grants = λ c n. true; delivers = λ c. true }

-- A START segment with three octets of data and no extension item, the END segment with two, and a
-- SESS_TERM, of transfer 7.
abbrev stream : List ℕ
stream =
    (1 ∷ 2 ∷ 0 ∷ 0 ∷ 0 ∷ 0 ∷ 0 ∷ 0 ∷ 0 ∷ 7 ∷ 0 ∷ 0 ∷ 0 ∷ 0 ∷ 0 ∷ 0 ∷ 0 ∷ 0 ∷ 0 ∷ 0 ∷ 0 ∷ 3 ∷ [])
    ++ ((10 ∷ 11 ∷ 12 ∷ [])
        ++ ((1 ∷ 1 ∷ 0 ∷ 0 ∷ 0 ∷ 0 ∷ 0 ∷ 0 ∷ 0 ∷ 7 ∷ 0 ∷ 0 ∷ 0 ∷ 0 ∷ 0 ∷ 0 ∷ 0 ∷ 2 ∷ [])
            ++ ((13 ∷ 14 ∷ []) ++ (5 ∷ 0 ∷ 0 ∷ []))))

abbrev idle : List ℕ → RxConn
idle input = record {
  input = input;
  broken = false;
  ending = false;
  term_sent = false;
  rx_active = false;
  rx_id = 0;
  rx_bundle = [];
  rx_cap = 0;
  rx_refused = false;
  dlv_cap = 0;
  sent = [];
  handed = [];
  tx = fresh_conn 1000;
}

small-IsConfigured : IsConfigured small
small-IsConfigured = record { segment_mru = omega arith; transfer_mru = omega arith }

idle-IsBounded : IsBounded small (idle stream)
idle-IsBounded = record {
  filled = omega arith;
  within = omega arith;
  rx_size = omega arith;
  dlv_size = omega arith;
  delivered = tt;
}

tcpv4_message_loop-IsBounded_example :
    (r : Ended × RxConn) × ((tcpv4_message_loop small benign (idle stream) ≡ some r)
      × IsBounded small r.1)
tcpv4_message_loop-IsBounded_example =
    tcpv4_message_loop-IsBounded small benign small-IsConfigured (idle stream) idle-IsBounded

-- The transfer is handed over whole, its first segment acknowledged and the SESS_TERM answered.
abbrev handed_octets : List Handed → List (List ℕ)
handed_octets [] = []
handed_octets (h ∷ hs) = h.octets ∷ handed_octets hs

abbrev shown : Option (Ended × RxConn) → List (List ℕ) × List (List ℕ)
shown none = ([], [])
shown (some (e, c)) = (c.sent, handed_octets c.handed)

abbrev run : List (List ℕ) × List (List ℕ)
run = shown (tcpv4_message_loop small benign (idle stream))

abbrev first_segment : Tcpv4XferSegment
first_segment = record {
  flags = 2;
  transfer_id = 7;
  xfer_ext = some [];
  xfer_ext_len = 0;
  data_length = 3;
}

abbrev last_segment : Tcpv4XferSegment
last_segment = record {
  flags = 1;
  transfer_id = 7;
  xfer_ext = none;
  xfer_ext_len = 0;
  data_length = 2;
}

-- The segments of the stream.
abbrev parts : List Part
parts = (first_segment, 10 ∷ 11 ∷ 12 ∷ []) ∷ (last_segment, 13 ∷ 14 ∷ []) ∷ []

benign-IsBenign : IsBenign benign
benign-IsBenign = record { writes = λ c. refl; grants = λ c n. refl; delivers = λ c. refl }

parts-IsTransfer : IsTransfer small 7 parts
parts-IsTransfer = (
  empty-IsWelcome small first_segment refl,
  record {
    valid = record {
      flags = omega arith;
      transfer_id = omega arith;
      xfer_ext_len = omega arith;
      xfer_ext = record { set = refl; size = refl; bytes = tt };
      data_length = omega arith;
    };
    ext = omega arith;
    whole = refl;
    small = omega arith;
    starts = refl;
    ends = refl;
    of_transfer = refl;
  },
  record {
    valid = record {
      flags = omega arith;
      transfer_id = omega arith;
      xfer_ext_len = omega arith;
      xfer_ext = (refl, refl);
      data_length = omega arith;
    };
    ext = omega arith;
    whole = refl;
    small = omega arith;
    starts = refl;
    ends = refl;
    of_transfer = refl;
  },
)

message_loop-transfer_example :
    (d : RxConn) × HandsOver (idle stream) d 7 (10 ∷ 11 ∷ 12 ∷ 13 ∷ 14 ∷ []) (5 ∷ 0 ∷ 0 ∷ [])
    × ((fuel : ℕ)
        → message_loop small benign (rounds parts fuel) (idle stream)
          ≡ message_loop small benign fuel d)
message_loop-transfer_example =
    message_loop-transfer small benign benign-IsBenign small-IsConfigured 7 parts (5 ∷ 0 ∷ 0 ∷ [])
      (idle stream) parts-IsTransfer refl refl (omega arith) refl

-- The same stream behind its first octet, once the session is ending.
abbrev ends : RxConn
ends = record (idle (drop 1 stream)) { ending = true }

handle_xfer_segment_ending_example : IsBarred [] (handle_xfer_segment small benign ends).1
handle_xfer_segment_ending_example =
    handle_xfer_segment_ending small benign ends refl λ e. absurd (cc)
