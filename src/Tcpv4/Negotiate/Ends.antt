-- ===== src/Tcpv4/Negotiate/Ends.antt =====
-- One end of a session that negotiates by CLA/tcpv4/src/tcpv4negotiate.c, on what the other end
-- writes.
use ion_dtn_contrib.Prelude.{
  ℕ, ◌≡◌, ◌⊎◌, inl, inr, refl, sym, ap, ◌∙◌, Bool, true, false, not, if◌then◌else◌, if_yes, if_no,
  ltb, List, [], ◌∷◌, ◌++◌, append-nil, Option, none, some, arith,
}
use ion_dtn_contrib.Tcpv4.Negotiate.State.{
  Session, Config, World, Neg, give, ◌>>=◌, modify, receive, demand,
}
use ion_dtn_contrib.Tcpv4.Negotiate.{
  adopted, claimed_node_id, exchange_contact, send_sess_init, recv_sess_init, usage_ok, purpose_ok,
  check_cert_profile, shake_hands, start_tls, check_busy, send_first, tcpv4_establish,
}
use ion_dtn_contrib.Tcpv4.Negotiate.Runs.{
  bind_on, bind_failed, receive-none, demand_on, IsEngine, IsFavourable, Agree, uses_tls,
  contact_octets, exchange_contact_on, send_contact_on,
}
use ion_dtn_contrib.Tcpv4.Negotiate.Inits.{
  said, init_octets, send_sess_init_on, Accepts, recv_sess_init_on, claimed_on,
}

-- A TLS peer's certificate is within the profile, or is not verified.
abbrev pub FitsProfile : Config → World → Type 0
FitsProfile cfg world =
    (cfg.no_verify ≡ true)
    ⊎ ((usage_ok cfg world world.key_usage ≡ true)
        × (purpose_ok cfg world world.key_purpose ≡ true))

-- One end, and what is assumed of its surroundings and of its peer's node ID.
pub record IsEnd (cfg peer : Config) (world : World) : Type 0 where
  pub engine : IsEngine cfg
  pub favourable : IsFavourable world
  pub profile : FitsProfile cfg world
  pub accepts : Accepts cfg peer world

-- A session that has not begun, and is not to be refused for want of room.
pub record IsFresh (c : Session) : Type 0 where
  pub not_busy : c.busy ≡ false
  pub plain : c.tls ≡ false
  pub nothing_sent : c.sent ≡ []

-- What has become of the session `c`: the parameters are those of the two ends together.
pub record IsMet (cfg peer : Config) (d : Session) : Type 0 where
  pub established : d.established ≡ true
  pub tls : d.tls ≡ uses_tls cfg peer
  pub sent : d.sent ≡ contact_octets cfg ∷ init_octets cfg ∷ []
  pub keepalive :
      d.keepalive ≡ (if ltb peer.keepalive cfg.keepalive then peer.keepalive else cfg.keepalive)
  pub segment_mtu : d.segment_mtu ≡ peer.segment_mru
  pub transfer_mtu : d.transfer_mtu ≡ peer.transfer_mru
  pub peer_node_id : d.peer_node_id ≡ peer.node_id

module _ (cfg peer : Config) (world : World) (ready : IsEnd cfg peer world) where
  -- What TLS leaves of the session.
  record Started (b : Bool) (c d : Session) : Type 0 where
    tls_on : d.tls ≡ b
    input : d.input ≡ c.input
    sent : d.sent ≡ c.sent
    busy : d.busy ≡ c.busy

  check_cert_profile_on :
      (c : Session)
      → FitsProfile cfg world
      → (if not cfg.no_verify then check_cert_profile cfg world else give tt) c ≡ (some tt, c)
  unfolding check_cert_profile give
  check_cert_profile_on c (inl e) =
      ap (λ (m : Neg (Unit {0})). m c) (if_no (not cfg.no_verify) _ _ (ap not e))
  check_cert_profile_on c (inr (e, f)) = by_verify cfg.no_verify
    where
      by_verify :
          (b : Bool) → (if not b then check_cert_profile cfg world else give tt) c ≡ (some tt, c)
      by_verify true = refl
      by_verify false =
          bind_on (demand world 4 (usage_ok cfg world world.key_usage)) _ c c tt
            (demand_on world 4 _ c e)
          ∙ demand_on world 4 _ c f

  start_tls_on :
      (b : Bool) (c : Session)
      → c.tls ≡ false
      → (d : Session) × (start_tls cfg world b c ≡ (some tt, d)) × Started b c d
  unfolding start_tls give
  start_tls_on false c plain =
      (c, refl, record { tls_on = plain; input = refl; sent = refl; busy = refl })
  start_tls_on true c plain =
      let d = record c { tls = true; peer_authenticated = world.peer_authenticated c } in
      (
        d,
        bind_on (shake_hands cfg world) _ c d tt
              (unfold shake_hands in if_yes (world.handshake c) _ _ (ready.favourable.handshake c))
            ∙ check_cert_profile_on d ready.profile,
        record { tls_on = refl; input = refl; sent = refl; busy = refl },
      )

  abbrev finish : Neg (Unit {0})
  finish = recv_sess_init cfg world >>= λ u. modify (λ c. record c { established = true })

  -- The session once both of its own messages are written.
  record HasSaid (rest : List ℕ) (c d : Session) : Type 0 where
    goes_on : tcpv4_establish cfg world c ≡ finish d
    input : d.input ≡ rest
    sent : d.sent ≡ contact_octets cfg ∷ init_octets cfg ∷ []
    tls_on : d.tls ≡ uses_tls cfg peer

  said_on :
      (c : Session) (rest : List ℕ)
      → IsFresh c
      → Agree cfg peer
      → c.input ≡ contact_octets peer ++ rest
      → (d : Session) × HasSaid rest c d
  said_on c rest fresh agree e =
      let good = ready.favourable in
      let met = record c { input = rest; sent = c.sent ++ (contact_octets cfg ∷ []) } in
      let (s, started, t) = start_tls_on (uses_tls cfg peer) met fresh.plain in
      let d = record s { sent = s.sent ++ (init_octets cfg ∷ []) } in
      (
        d,
        record {
          goes_on =
              unfold tcpv4_establish in
              (bind_on (exchange_contact cfg world) _ c met (uses_tls cfg peer)
                  (exchange_contact_on cfg peer world good c rest agree e)
                ∙ bind_on (start_tls cfg world (uses_tls cfg peer)) _ met s tt started
                ∙ bind_on (check_busy cfg world) _ s s tt
                    (unfold check_busy give in if_no s.busy _ _ (t.busy ∙ fresh.not_busy))
                ∙ bind_on (send_sess_init cfg world) _ s d tt
                    (send_sess_init_on cfg ready.engine world s good));
          input = t.input;
          sent =
              ap (λ l. l ++ (init_octets cfg ∷ [])) t.sent
              ∙ ap
                  (λ (l : List (List ℕ)).
                    (l ++ (contact_octets cfg ∷ [])) ++ (init_octets cfg ∷ []))
                  fresh.nothing_sent;
          tls_on = t.tls_on;
        },
      )

  -- With all that the peer writes the session is established.
  pub established_on :
      (c : Session) (rest : List ℕ)
      → IsFresh c
      → IsEngine peer
      → Agree cfg peer
      → c.input ≡ contact_octets peer ++ (init_octets peer ++ rest)
      → (d : Session) × (tcpv4_establish cfg world c ≡ (some tt, d)) × IsMet cfg peer d
  established_on c rest fresh other agree e =
      let (s, said_all) = said_on c (init_octets peer ++ rest) fresh agree e in
      let (b, received) =
        recv_sess_init_on cfg peer world ready.favourable other ready.accepts s rest
          said_all.input in
      let claimed = claimed_node_id (said peer) in
      let read = record s { input = rest } in
      let proposed : (said peer).keepalive ≡ peer.keepalive = omega (arith, other.keepalive) in
      (
        record (adopted cfg (said peer) claimed b read) { established = true },
        said_all.goes_on
            ∙ bind_on (recv_sess_init cfg world) _ s (adopted cfg (said peer) claimed b read) tt
                received
            ∙ unfold modify in refl,
        record {
          established = refl;
          tls = said_all.tls_on;
          sent = said_all.sent;
          keepalive = ap (λ k. if ltb k cfg.keepalive then k else cfg.keepalive) proposed;
          segment_mtu = refl;
          transfer_mtu = refl;
          peer_node_id = claimed_on peer other;
        },
      )

  -- With only the peer's contact header the session waits, its own messages written.
  pub waits_on :
      (c : Session)
      → IsFresh c
      → Agree cfg peer
      → c.input ≡ contact_octets peer
      → (tcpv4_establish cfg world c).1.sent ≡ contact_octets cfg ∷ init_octets cfg ∷ []
  waits_on c fresh agree e =
      let (s, said_all) = said_on c [] fresh agree (e ∙ sym (append-nil (contact_octets peer))) in
      let stopped = record s { input = [] } in
      ap (λ (r : Option (Unit {0}) × Session). r.1.sent)
        (said_all.goes_on
          ∙ bind_failed (recv_sess_init cfg world) _ s stopped (
              unfold recv_sess_init in
              bind_failed (receive 1) _ s stopped (receive-none 0 s said_all.input)))
      ∙ said_all.sent

  -- With nothing at all an end that has dialled writes its contact header.
  pub dials_on :
      (c : Session)
      → IsFresh c
      → c.active_role ≡ true
      → c.input ≡ []
      → (tcpv4_establish cfg world c).1.sent ≡ contact_octets cfg ∷ []
  dials_on c fresh role e =
      let sent = record c { sent = c.sent ++ (contact_octets cfg ∷ []) } in
      let stopped = record sent { input = [] } in
      let dialled : exchange_contact cfg world c ≡ (none, stopped) =
        unfold exchange_contact in
        (bind_on (send_first cfg world) _ c sent tt (
            unfold send_first give in
            (if_yes c.active_role _ _ role ∙ send_contact_on cfg peer world ready.favourable c))
          ∙ bind_failed (receive 6) _ sent stopped (receive-none 5 sent e)) in
      let run : tcpv4_establish cfg world c ≡ (none, stopped) =
        unfold tcpv4_establish in bind_failed (exchange_contact cfg world) _ c stopped dialled in
      ap (λ (r : Option (Unit {0}) × Session). r.1.sent) run
      ∙ ap (λ (l : List (List ℕ)). l ++ (contact_octets cfg ∷ [])) fresh.nothing_sent
