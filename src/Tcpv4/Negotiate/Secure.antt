-- ===== src/Tcpv4/Negotiate/Secure.antt =====
-- What holds of a session that CLA/tcpv4/src/tcpv4negotiate.c has established: TLS, the certificate
-- profile and the node ID by the policies, and the node that the session may carry bundles to.
use ion_dtn_contrib.Prelude.{
  ℕ, ◌≡◌, ◌≢◌, ◌⊎◌, inl, inr, refl, sym, ap, ◌∙◌, Bool, Bool-cases, true, false, not, ◌&&◌, ◌==◌,
  ==_iff, if◌then◌else◌, List, [], some, arith,
}
use ion_dtn_contrib.Tcpv4.Msg.Types.{Tcpv4SessInit}
use ion_dtn_contrib.Tcpv4.NodeId.{tcpv4_node_id_is_set, tcpv4_node_id_matches}
use ion_dtn_contrib.Tcpv4.Negotiate.State.{
  Session, Config, World, NodeIdMatch, KeyUsage, KeyPurpose, give, tcpv4_tls_require,
  tcpv4_tls_disable, tcpv4_eidpol_none, tcpv4_eidpol_require, tcpv4_ekupol_require, terminate,
  tmsg_term_contact_failure,
}
use ion_dtn_contrib.Tcpv4.Negotiate.{
  asks_certificate, matched, authenticate, route, adopted, usage_ok, purpose_ok,
}
use ion_dtn_contrib.Tcpv4.Negotiate.Lasts.{
  Gives, give-Gives, branch-Gives, if-Gives, conclude-Gives, terminate-Gives,
}

module _ (cfg : Config) (world : World) where
  -- TLS is on or off as the policy allows.
  abbrev pub TlsAllowed : Session → Type 0
  TlsAllowed c =
      ((c.tls ≡ true) × (cfg.tls_policy ≢ tcpv4_tls_disable))
      ⊎ ((c.tls ≡ false) × (cfg.tls_policy ≢ tcpv4_tls_require))

  -- The key usage is not wrong, nor is the extended key usage, and the bundle purpose is among the
  -- extended key usages that there are if the policy requires it.
  abbrev pub InProfile : KeyUsage → KeyPurpose → Type 0
  InProfile usage purpose =
      (usage ≢ KeyUsage.wrong)
      × (purpose ≢ KeyPurpose.wrong)
      × ((purpose ≢ KeyPurpose.no_bundle) ⊎ (cfg.eku_policy ≢ tcpv4_ekupol_require))

  -- The certificate of a TLS peer is within the profile, unless it is not to be verified.
  abbrev pub ProfileChecked : Session → Type 0
  ProfileChecked c =
      (c.tls ≡ false) ⊎ ((cfg.no_verify ≡ true) ⊎ InProfile world.key_usage world.key_purpose)

  -- The node ID is that of the certificate: it is verified, not given up on, and matches.
  abbrev pub Certified : Session → Type 0
  Certified c =
      (c.node_id_authenticated ≡ true)
      × (c.tls ≡ true)
      × (cfg.no_verify ≡ false)
      × (cfg.eid_policy ≢ tcpv4_eidpol_none)
      × (world.match_node_id c.peer_node_id ≡ NodeIdMatch.success)
      × (c.route_node_id ≡ c.peer_node_id)

  -- A node ID without authentication: there is no TLS, or the certificate is not to be verified, or
  -- node IDs are given up on, or the peer claims none, or authentication is not required.
  abbrev pub Excused : Session → Type 0
  Excused c =
      ((c.tls ≡ false)
        ⊎ ((cfg.no_verify ≡ true)
            ⊎ ((cfg.eid_policy ≡ tcpv4_eidpol_none)
                ⊎ (tcpv4_node_id_is_set (some c.peer_node_id) ≡ false))))
      ⊎ (cfg.eid_policy ≢ tcpv4_eidpol_require)

  -- The node that was dialled, if the peer claims no other; else, if node IDs are given up on, the
  -- one claimed by a peer that has dialled; else none.
  abbrev pub RoutedUnproven : Session → Type 0
  RoutedUnproven c =
      ((c.active_role ≡ true)
        × (c.route_node_id ≡ c.dial_node_id)
        × ((tcpv4_node_id_is_set (some c.peer_node_id) ≡ false)
            ⊎ (tcpv4_node_id_matches (some c.peer_node_id) (some c.dial_node_id) ≡ true)))
      ⊎ (((c.active_role ≡ false)
            × (cfg.eid_policy ≡ tcpv4_eidpol_none)
            × (c.route_node_id ≡ c.peer_node_id))
          ⊎ (c.route_node_id ≡ []))

  abbrev pub Identified : Session → Type 0
  Identified c = Certified c ⊎ ((c.node_id_authenticated ≡ false) × Excused c × RoutedUnproven c)

  -- What the call of tcpv4TlsMatchNodeId has shown of the claimed node ID.
  abbrev pub Shown : List ℕ → Bool → Session → Type 0
  Shown claimed b c =
      ((b ≡ true)
        × (asks_certificate cfg world c claimed ≡ true)
        × (world.match_node_id claimed ≡ NodeIdMatch.success))
      ⊎ ((b ≡ false)
          × ((asks_certificate cfg world c claimed ≡ false)
              ⊎ (cfg.eid_policy ≢ tcpv4_eidpol_require)))

  asks_parts :
      (tls no_verify given_up set : Bool)
      → (tls && (not no_verify && (not given_up && set))) ≡ true
      → (tls ≡ true) × (no_verify ≡ false) × (given_up ≡ false)
  asks_parts tls no_verify given_up set e = ground arith

  -- Why no certificate is asked for.
  not_asked :
      (tls no_verify given_up set : Bool)
      → (tls && (not no_verify && (not given_up && set))) ≡ false
      → (tls ≡ false) ⊎ ((no_verify ≡ true) ⊎ ((given_up ≡ true) ⊎ (set ≡ false)))
  not_asked false no_verify given_up set e = inl refl
  not_asked true true given_up set e = inr (inl refl)
  not_asked true false true set e = inr (inr (inl refl))
  not_asked true false false set e = inr (inr (inr e))

  excused :
      (c : Session) (claimed : List ℕ)
      → (asks_certificate cfg world c claimed ≡ false) ⊎ (cfg.eid_policy ≢ tcpv4_eidpol_require)
      → Excused (record c { peer_node_id = claimed })
  excused c claimed (inr e) = inr e
  excused c claimed (inl e) =
      inl
        (elim (not_asked c.tls cfg.no_verify (cfg.eid_policy == tcpv4_eidpol_none)
          (tcpv4_node_id_is_set (some claimed)) e) [
            | inl off ↦ inl off
            | inr (inl unverified) ↦ inr (inl unverified)
            | inr (inr (inl given_up)) ↦ inr (inr (inl ((==_iff _ _).0 given_up)))
            | inr (inr (inr unset)) ↦ inr (inr (inr unset))
          ])

  usage_ok-allowed : (u : KeyUsage) → usage_ok cfg world u ≡ true → u ≢ KeyUsage.wrong
  usage_ok-allowed u e f = absurd (let g = sym e ∙ ap (usage_ok cfg world) f in cc)

  purpose_ok-allowed :
      (p : KeyPurpose)
      → purpose_ok cfg world p ≡ true
      → (p ≢ KeyPurpose.wrong)
        × ((p ≢ KeyPurpose.no_bundle) ⊎ (cfg.eku_policy ≢ tcpv4_ekupol_require))
  purpose_ok-allowed p e = (
    (λ f. absurd (let g = sym e ∙ ap (purpose_ok cfg world) f in cc)),
    elim (Bool-cases (cfg.eku_policy == tcpv4_ekupol_require)) [
      | inl required ↦
          inl (λ f. absurd (let g = sym e ∙ ap (purpose_ok cfg world) f ∙ ap not required in cc))
      | inr free ↦ inr (λ f. absurd (let g = sym free ∙ (==_iff _ _).1 f in cc))
    ],
  )

  -- What the code's tests of the certificate let through is within the profile.
  pub ok-InProfile :
      (u : KeyUsage) (p : KeyPurpose)
      → usage_ok cfg world u ≡ true
      → purpose_ok cfg world p ≡ true
      → InProfile u p
  ok-InProfile u p e f =
      let (not_wrong, bundle) = purpose_ok-allowed p f in (usage_ok-allowed u e, not_wrong, bundle)

  -- Where the route leads without authentication.
  abbrev Unproven : Bool → List ℕ → List ℕ → List ℕ → Type 0
  Unproven active claimed dial r =
      ((active ≡ true)
        × (r ≡ dial)
        × ((tcpv4_node_id_is_set (some claimed) ≡ false)
            ⊎ (tcpv4_node_id_matches (some claimed) (some dial) ≡ true)))
      ⊎ (((active ≡ false) × (cfg.eid_policy ≡ tcpv4_eidpol_none) × (r ≡ claimed)) ⊎ (r ≡ []))

  route-Unproven :
      (c : Session) (claimed : List ℕ)
      → Unproven c.active_role claimed c.dial_node_id (route cfg c claimed false)
  route-Unproven c claimed =
      by_tests c.active_role (tcpv4_node_id_is_set (some claimed))
        (tcpv4_node_id_matches (some claimed) (some c.dial_node_id))
        (cfg.eid_policy == tcpv4_eidpol_none) refl refl refl
    where
      by_tests :
          (active set same given_up : Bool)
          → tcpv4_node_id_is_set (some claimed) ≡ set
          → tcpv4_node_id_matches (some claimed) (some c.dial_node_id) ≡ same
          → (cfg.eid_policy == tcpv4_eidpol_none) ≡ given_up
          → Unproven active claimed c.dial_node_id (
              if active
              then (if set && not same then [] else c.dial_node_id)
              else if given_up && set
              then claimed
              else [])
      by_tests true true true given_up e f g = inl (refl, refl, inr f)
      by_tests true true false given_up e f g = inr (inr refl)
      by_tests true false same given_up e f g = inl (refl, refl, inl e)
      by_tests false true same true e f g = inr (inl (refl, (==_iff _ _).0 g, refl))
      by_tests false true same false e f g = inr (inr refl)
      by_tests false false same true e f g = inr (inr refl)
      by_tests false false same false e f g = inr (inr refl)

  pub adopted-Identified :
      (peer : Tcpv4SessInit) (claimed : List ℕ) (b : Bool) (c : Session)
      → Shown claimed b c
      → Identified (adopted cfg peer claimed b c)
  adopted-Identified peer claimed true c (inl (e, asked, success)) =
      let (on, verified, kept) =
        asks_parts c.tls cfg.no_verify (cfg.eid_policy == tcpv4_eidpol_none)
          (tcpv4_node_id_is_set (some claimed)) asked in
      inl (refl, on, verified, ground (arith, kept), success, refl)
  adopted-Identified peer claimed false c (inl (e, asked, success)) = absurd (cc)
  adopted-Identified peer claimed true c (inr (e, reason)) = absurd (cc)
  adopted-Identified peer claimed false c (inr (e, reason)) =
      inr (refl, excused c claimed reason, route-Unproven c claimed)

  -- The result of the match decides, where one is asked for.
  matched-Shown :
      (P : Session → Type 0) (claimed : List ℕ) (r : NodeIdMatch)
      → world.match_node_id claimed ≡ r
      → ((c : Session) → P c → asks_certificate cfg world c claimed ≡ true)
      → Gives P (matched cfg world r) (λ b c. P c × Shown claimed b c)
  matched-Shown P claimed NodeIdMatch.success e asks =
      give-Gives P _ true (λ c p. (p, inl (refl, asks c p, e)))
  matched-Shown P claimed NodeIdMatch.failure e asks =
      terminate-Gives world P _ tmsg_term_contact_failure
  matched-Shown P claimed NodeIdMatch.absent e asks =
      if-Gives P _ (cfg.eid_policy == tcpv4_eidpol_require)
        (terminate world tmsg_term_contact_failure) (give false)
        (λ f. terminate-Gives world P _ tmsg_term_contact_failure)
        (λ f. give-Gives P _ false (λ c p. (p, inr (refl, inr (ground (arith, f))))))
  matched-Shown P claimed NodeIdMatch.error e asks =
      if-Gives P _ (cfg.eid_policy == tcpv4_eidpol_require)
        (terminate world tmsg_term_contact_failure) (give false)
        (λ f. terminate-Gives world P _ tmsg_term_contact_failure)
        (λ f. give-Gives P _ false (λ c p. (p, inr (refl, inr (ground (arith, f))))))

  pub authenticate-Shown :
      (P : Session → Type 0) (claimed : List ℕ)
      → Gives P (authenticate cfg world claimed) (λ b c. P c × Shown claimed b c)
  unfolding authenticate
  authenticate-Shown P claimed =
      branch-Gives P _ (λ c. asks_certificate cfg world c claimed)
        (matched cfg world (world.match_node_id claimed)) (give false)
        (conclude-Gives _ _ _ _ (λ b c p. (p.0.0, p.1))
          (matched-Shown (λ c. P c × (asks_certificate cfg world c claimed ≡ true)) claimed
            (world.match_node_id claimed) refl (λ c p. p.1)))
        (give-Gives (λ c. P c × (asks_certificate cfg world c claimed ≡ false)) _ false
          (λ c p. (p.0, inr (refl, inl p.1))))
