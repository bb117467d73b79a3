-- ===== src/Tcpv4/Transfer/Tests.antt =====
-- A bundle of five octets in segments of three, sent and received.
use ion_dtn_contrib.Prelude.{
  ℕ, ◌≡◌, ◌++◌, refl, Bool, true, false, List, [], ◌∷◌, take, drop, Option, some, arith,
}
use ion_dtn_contrib.Tcpv4.Tx.Reach.{fresh_conn}
use ion_dtn_contrib.Tcpv4.Tx.Send.{Sent, send_transfer}
use ion_dtn_contrib.Tcpv4.Rx.Conn.{RxConfig, RxConn, World}
use ion_dtn_contrib.Tcpv4.Rx.Loop.{message_loop}
use ion_dtn_contrib.Tcpv4.Rx.Reassembly.{Part, HandsOver, rounds}
use ion_dtn_contrib.Tcpv4.Transfer.Delivered.{message_loop-send_transfer}

abbrev peer : RxConfig
peer = record { segment_mru = 16; transfer_mru = 64 }

abbrev calm : World
calm = record { writes = λ c. true; grants = λ c n. true; delivers = λ c. true }

abbrev five : List ℕ
five = 10 ∷ 11 ∷ 12 ∷ 13 ∷ 14 ∷ []

abbrev read_five : ℕ → ℕ → Option (List ℕ)
read_five n k = some (take k (drop n five))

abbrev never : ℕ → Bool
never n = false

abbrev sent_five : Sent
sent_five = send_transfer 7 3 5 (λ w r. true) read_five never []

abbrev hears : RxConn
hears = record {
  input = sent_five.1 ++ (5 ∷ 0 ∷ 0 ∷ []);
  broken = false;
  ending = false;
  term_sent = false;
  rx_active = false;
  rx_id = 0;
  rx_bundle = [];
  rx_cap = 0;
  rx_refused = false;
  dlv_cap = 0;
  sent = [];
  handed = [];
  tx = fresh_conn 1000;
}

message_loop-send_transfer_example :
    (sent_five.0 ≡ some tt)
    × (d : RxConn) × HandsOver hears d 7 five (5 ∷ 0 ∷ 0 ∷ [])
    × (ps : List Part) × ((fuel : ℕ)
        → message_loop peer calm (rounds ps fuel) hears ≡ message_loop peer calm fuel d)
message_loop-send_transfer_example =
    message_loop-send_transfer peer calm 7 3 5 five read_five never (5 ∷ 0 ∷ 0 ∷ []) hears
      (record { writes = λ c. refl; grants = λ c n. refl; delivers = λ c. refl })
      (record { segment_mru = omega arith; transfer_mru = omega arith })
      (record {
        id_wide = omega arith;
        mtu_pos = omega arith;
        mtu_fits = omega arith;
        total_fits = omega arith;
        total_wide = omega arith;
        mtu_wide = omega arith;
      })
      (omega arith) refl (λ n k. refl) (λ n. refl) refl refl refl
