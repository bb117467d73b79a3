-- ===== src/Tcpv4/Negotiate/Peers.antt =====
-- Two ends that negotiate with each other by CLA/tcpv4/src/tcpv4negotiate.c.
use ion_dtn_contrib.Prelude.{
  ℕ, ◌≡◌, inl, inr, refl, sym, ap, ◌∙◌, Bool, true, not, ◌&&◌, ◌==◌, if◌then◌else◌, ltb, List, [],
  ◌∷◌, ◌++◌, Option, some, arith,
}
use mathlib.Core.Path.{subst}
use ion_dtn_contrib.Tcpv4.Negotiate.State.{Session, Config, World}
use ion_dtn_contrib.Tcpv4.Negotiate.{tcpv4_establish}
use ion_dtn_contrib.Tcpv4.Negotiate.Runs.{Agree, contact_octets}
use ion_dtn_contrib.Tcpv4.Negotiate.Inits.{init_octets}
use ion_dtn_contrib.Tcpv4.Negotiate.Ends.{IsEnd, IsFresh, IsMet, established_on, waits_on, dials_on}

abbrev flatten : List (List ℕ) → List ℕ
flatten [] = []
flatten (m ∷ ms) = m ++ flatten ms

-- An end's negotiation on what the other end has written so far.
unfoldable pub turn : Config → World → Session → List (List ℕ) → Option (Unit {0}) × Session
turn cfg world c written = tcpv4_establish cfg world (record c { input = flatten written })

-- The two ends are established with each other, with the same keepalive interval and TLS on or off.
pub record IsMutual (ca cp : Config) (a p : Option (Unit {0}) × Session) : Type 0 where
  pub active_done : a.0 ≡ some tt
  pub passive_done : p.0 ≡ some tt
  pub active_met : IsMet ca cp a.1
  pub passive_met : IsMet cp ca p.1
  pub keepalive : a.1.keepalive ≡ p.1.keepalive
  pub tls : a.1.tls ≡ p.1.tls

smaller_comm : (m n : ℕ) → (if ltb m n then m else n) ≡ (if ltb n m then n else m)
smaller_comm m n = ground arith

both_tls : (b c : Bool) → (not b && not c) ≡ (not c && not b)
both_tls b c = ground arith

module _ (ca cp : Config) (wa wp : World) (a p : Session) (ready_a : IsEnd ca cp wa)
    (ready_p : IsEnd cp ca wp) (agree : Agree ca cp) (fresh_a : IsFresh a)
    (fresh_p : IsFresh p) where
  other_way : Agree ca cp → Agree cp ca
  other_way (inl h) = inl (h.1, h.0)
  other_way (inr h) = inr (h.1, h.0)

  -- The end that dials begins.
  abbrev first : Option (Unit {0}) × Session
  first = turn ca wa a []

  abbrev second : Option (Unit {0}) × Session
  second = turn cp wp p first.1.sent

  abbrev third : Option (Unit {0}) × Session
  third = turn ca wa a second.1.sent

  abbrev fourth : Option (Unit {0}) × Session
  fourth = turn cp wp p third.1.sent

  reads : (c : Session) (input : List ℕ) → IsFresh c → IsFresh (record c { input = input })
  reads c input f = record { not_busy = f.not_busy; plain = f.plain; nothing_sent = f.nothing_sent }

  module _ (role : a.active_role ≡ true) where
    first_sent : first.1.sent ≡ contact_octets ca ∷ []
    first_sent =
        unfold turn in
        dials_on ca cp wa ready_a (record a { input = [] }) (reads a [] fresh_a) role refl

    second_sent : second.1.sent ≡ contact_octets cp ∷ init_octets cp ∷ []
    second_sent =
        let input = contact_octets ca in
        ap (λ l. (turn cp wp p l).1.sent) first_sent
        ∙ unfold turn in
          waits_on cp ca wp ready_p (record p { input = input }) (reads p input fresh_p)
            (other_way agree) refl

    third_met : (d : Session) × (third ≡ (some tt, d)) × IsMet ca cp d
    third_met =
        let input = contact_octets cp ++ (init_octets cp ++ []) in
        let (d, done, met) =
          established_on ca cp wa ready_a (record a { input = input }) [] (reads a input fresh_a)
            ready_p.engine agree refl in
        (d, ap (turn ca wa a) second_sent ∙ unfold turn in done, met)

    third_sent : third.1.sent ≡ contact_octets ca ∷ init_octets ca ∷ []
    third_sent =
        let (d, done, met) = third_met in
        ap (λ (r : Option (Unit {0}) × Session). r.1.sent) done ∙ met.sent

    fourth_met : (d : Session) × (fourth ≡ (some tt, d)) × IsMet cp ca d
    fourth_met =
        let input = contact_octets ca ++ (init_octets ca ++ []) in
        let (d, done, met) =
          established_on cp ca wp ready_p (record p { input = input }) [] (reads p input fresh_p)
            ready_a.engine (other_way agree) refl in
        (d, ap (turn cp wp p) third_sent ∙ unfold turn in done, met)

    -- Two ends whose TLS policies agree, that accept each other's certificate and node ID and whose
    -- calls do not fail, establish a session in two turns each, the end that dials first, where
    -- each reads what the other has written until then: with TLS on at both or at neither, the same
    -- keepalive interval, and the MRUs of the other end as the limits of what is sent.
    pub tcpv4_establish-IsMutual : IsMutual ca cp third fourth
    tcpv4_establish-IsMutual =
        let (d, done, met) = third_met in
        let (e, done', met') = fourth_met in
        let status = λ (r : Option (Unit {0}) × Session). r.0 in
        let state = λ (r : Option (Unit {0}) × Session). r.1 in
        record {
          active_done = ap status done;
          passive_done = ap status done';
          active_met = subst (IsMet ca cp) (sym (ap state done)) met;
          passive_met = subst (IsMet cp ca) (sym (ap state done')) met';
          keepalive =
              ap (λ r. (state r).keepalive) done
              ∙ met.keepalive
              ∙ smaller_comm cp.keepalive ca.keepalive
              ∙ sym met'.keepalive
              ∙ sym (ap (λ r. (state r).keepalive) done');
          tls =
              ap (λ r. (state r).tls) done
              ∙ met.tls
              ∙ both_tls (ca.tls_policy == 2) (cp.tls_policy == 2)
              ∙ sym met'.tls
              ∙ sym (ap (λ r. (state r).tls) done');
        }
