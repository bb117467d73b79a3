-- ===== src/Tcpv4/Negotiate/Tests.antt =====
-- Runs of the negotiation of CLA/tcpv4/src/tcpv4negotiate.c, and its theorems at concrete values.
use ion_dtn_contrib.Prelude.{
  ℕ, ◌≡◌, refl, Bool, true, false, List, [], ◌∷◌, ◌++◌, some, Option, arith, inl, inr,
}
use ion_dtn_contrib.Tcpv4.NodeId.{scheme_loop, rest_loop, tcpv4_node_id_is_well_formed}
use ion_dtn_contrib.Tcpv4.Negotiate.State.{
  Session, Config, World, NodeIdMatch, KeyUsage, KeyPurpose,
}
use ion_dtn_contrib.Tcpv4.Negotiate.{tcpv4_establish}
use ion_dtn_contrib.Tcpv4.Negotiate.Established.{IsSecure, tcpv4_establish-IsSecure}
use ion_dtn_contrib.Tcpv4.Negotiate.Runs.{IsEngine, contact_octets}
use ion_dtn_contrib.Tcpv4.Negotiate.Inits.{init_octets}
use ion_dtn_contrib.Tcpv4.Negotiate.Ends.{IsEnd, IsFresh, IsMet, established_on}
use ion_dtn_contrib.Tcpv4.Negotiate.Peers.{turn, IsMutual, tcpv4_establish-IsMutual}

-- "ipn:1.0" and "ipn:2.0"
abbrev node_one : List ℕ
node_one = b'i' ∷ b'p' ∷ b'n' ∷ b':' ∷ b'1' ∷ b'.' ∷ b'0' ∷ []

abbrev node_two : List ℕ
node_two = b'i' ∷ b'p' ∷ b'n' ∷ b':' ∷ b'2' ∷ b'.' ∷ b'0' ∷ []

-- TLS and authentication of the node ID are required.
abbrev strict : List ℕ → ℕ → Config
strict node keepalive = record {
  tls_policy = 0;
  eid_policy = 0;
  eku_policy = 0;
  no_verify = false;
  keepalive = keepalive;
  segment_mru = 1000;
  transfer_mru = 2000;
  node_id = node;
}

abbrev good_world : World
good_world = record {
  writes = λ c. true;
  grants = λ c n. true;
  handshake = λ c. true;
  peer_authenticated = λ c. true;
  match_node_id = λ n. NodeIdMatch.success;
  key_usage = KeyUsage.ok;
  key_purpose = KeyPurpose.present;
}

abbrev fresh : Bool → List ℕ → Session
fresh active input = record {
  input = input;
  sent = [];
  active_role = active;
  busy = false;
  dial_node_id = [];
  tls = false;
  peer_authenticated = false;
  established = false;
  peer_node_id = [];
  route_node_id = [];
  node_id_authenticated = false;
  keepalive = 0;
  segment_mtu = 0;
  transfer_mtu = 0;
}

abbrev one : Config
one = strict node_one 30

abbrev two : Config
two = strict node_two 15

well_formed :
    (tcpv4_node_id_is_well_formed (some node_one) ≡ true)
    × (tcpv4_node_id_is_well_formed (some node_two) ≡ true)
unfolding tcpv4_node_id_is_well_formed scheme_loop rest_loop
well_formed = (refl, refl)

one-IsEngine : IsEngine one
one-IsEngine = record {
  keepalive = omega arith;
  some_segment = omega arith;
  segment_mru = omega arith;
  some_transfer = omega arith;
  transfer_mru = omega arith;
  node_id_len = omega arith;
  chars = omega arith;
  well_formed = inr well_formed.0;
}

two-IsEngine : IsEngine two
two-IsEngine = record {
  keepalive = omega arith;
  some_segment = omega arith;
  segment_mru = omega arith;
  some_transfer = omega arith;
  transfer_mru = omega arith;
  node_id_len = omega arith;
  chars = omega arith;
  well_formed = inr well_formed.1;
}

one-IsEnd : IsEnd one two good_world
one-IsEnd = record {
  engine = one-IsEngine;
  favourable = record { writes = λ c. refl; grants = λ c n. refl; handshake = λ c. refl };
  profile = inr (refl, refl);
  accepts = inl refl;
}

two-IsEnd : IsEnd two one good_world
two-IsEnd = record {
  engine = two-IsEngine;
  favourable = record { writes = λ c. refl; grants = λ c n. refl; handshake = λ c. refl };
  profile = inr (refl, refl);
  accepts = inl refl;
}

fresh-IsFresh : (active : Bool) (input : List ℕ) → IsFresh (fresh active input)
fresh-IsFresh active input = record { not_busy = refl; plain = refl; nothing_sent = refl }

first_sent : List (List ℕ)
first_sent = (turn one good_world (fresh true []) []).1.sent

second_sent : List (List ℕ)
second_sent = (turn two good_world (fresh false []) first_sent).1.sent

third : Option (Unit {0}) × Session
third = turn one good_world (fresh true []) second_sent

tcpv4_establish-IsMutual_example :
    IsMutual one two third (turn two good_world (fresh false []) third.1.sent)
unfolding first_sent second_sent third
tcpv4_establish-IsMutual_example =
    tcpv4_establish-IsMutual one two good_world good_world (fresh true []) (fresh false [])
      one-IsEnd two-IsEnd (inl (omega arith, omega arith)) (fresh-IsFresh true [])
      (fresh-IsFresh false []) refl

-- Node 1 has accepted the connection of node 2.
abbrev from_two : List ℕ
from_two = contact_octets two ++ (init_octets two ++ [])

met_two :
    (d : Session) × (tcpv4_establish one good_world (fresh false from_two) ≡ (some tt, d))
    × IsMet one two d
met_two =
    established_on one two good_world one-IsEnd (fresh false from_two) []
      (fresh-IsFresh false from_two) two-IsEngine (inl (omega arith, omega arith)) refl

tcpv4_establish-IsSecure_example : IsSecure one good_world met_two.0
tcpv4_establish-IsSecure_example =
    tcpv4_establish-IsSecure one good_world (fresh false from_two) met_two.0 refl met_two.1
