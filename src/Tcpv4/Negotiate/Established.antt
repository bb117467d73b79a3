-- ===== src/Tcpv4/Negotiate/Established.antt =====
-- tcpv4Establish of CLA/tcpv4/src/tcpv4negotiate.c leaves a session as the policies have it.
use ion_dtn_contrib.Prelude.{
  ◌≡◌, ◌≢◌, ◌⊎◌, inl, inr, refl, sym, ap, ◌∙◌, Bool, true, false, not, ◌&&◌, ◌==◌, get_or, some,
  arith,
}
use ion_dtn_contrib.Tcpv4.Msg.Types.{
  Tcpv4Contact, Tcpv4SessInit, tmsg_sess_init, tmsg_sess_term, tmsg_msg_reject,
}
use ion_dtn_contrib.Tcpv4.Negotiate.State.{
  Session, Config, World, give, fail, ◌>>=◌, ignore, tcpv4_tls_require, tcpv4_tls_disable,
  tmsg_term_contact_failure,
}
use ion_dtn_contrib.Tcpv4.Negotiate.{
  both_can_tls, claimed_node_id, check_enable_tls, exchange_contact, apply_sess_init,
  node_id_len_of, receive_message, read_reject, receive_typed, recv_sess_init, check_cert_profile,
  shake_hands, start_tls, tcpv4_establish, tmsg_contact_len,
}
use ion_dtn_contrib.Tcpv4.Negotiate.Lasts.{
  Gives, Lasts, none-ne-some, by_result, give-Gives, fail-Gives, branch-Gives, if-Gives,
  conclude-Gives, bind-Gives, modify-Gives, receive-Gives, terminate-Gives, send_reject-Gives,
}
use ion_dtn_contrib.Tcpv4.Negotiate.Secure.{
  TlsAllowed, ProfileChecked, Identified, adopted-Identified, authenticate-Shown, ok-InProfile,
}
use ion_dtn_contrib.Tcpv4.Negotiate.Calls.{
  decoded_some-Gives, decoded_whole-Gives, step, demand-Lasts, receive_fixed-Lasts, obtain-Lasts,
  receive_lists-Lasts, check_version-Lasts, send_first-Lasts, send_reply-Lasts, check_busy-Lasts,
  send_sess_init-Lasts, check_cert_profile-Lasts,
}

module _ (cfg : Config) (world : World) where
  -- The session may go on to SESS_INIT.
  abbrev Safe : Session → Type 0
  Safe c = TlsAllowed cfg world c × ProfileChecked cfg world c

  -- An established session: TLS is on or off as the policy allows, the certificate is within the
  -- profile unless it is not to be verified, and the node ID is authenticated or excused.
  abbrev pub IsSecure : Session → Type 0
  IsSecure c =
      TlsAllowed cfg world c
      × ProfileChecked cfg world c
      × Identified cfg world c
      × (c.established ≡ true)

  abbrev Identity : Unit {0} → Session → Type 0
  Identity u c = Safe c × Identified cfg world c

  Safe-Lasts : Lasts Safe
  Safe-Lasts c input sent p = p

  apply_sess_init-Identity :
      (peer : Tcpv4SessInit) → Gives Safe (apply_sess_init cfg world peer) Identity
  unfolding apply_sess_init
  apply_sess_init-Identity peer = step Safe _ _ _ (demand-Lasts Safe world _ _) (λ u.
      step Safe _ _ _ (demand-Lasts Safe world _ _) (λ u.
        step Safe _ _ _ (demand-Lasts Safe world _ _) (λ u.
          bind-Gives Safe _ _ _ _ (authenticate-Shown cfg world Safe (claimed_node_id peer)) (λ b.
            modify-Gives _ _ _
              (λ c p. (p.0, adopted-Identified cfg world peer (claimed_node_id peer) b c p.1))))))

  receive_message-Identity : Gives Safe (receive_message cfg world) Identity
  unfolding receive_message
  receive_message-Identity =
      step Safe _ _ _ (receive_fixed-Lasts cfg world Safe Safe-Lasts) (λ fixed.
        step Safe _ _ _ (obtain-Lasts cfg world Safe Safe-Lasts _) (λ u.
          step Safe _ _ _
            (receive_lists-Lasts cfg world Safe Safe-Lasts (node_id_len_of cfg world fixed))
            (λ lists. step Safe _ _ _ (decoded_whole-Gives Safe _ _) apply_sess_init-Identity)))

  read_reject-Identity : Gives Safe (read_reject cfg world) Identity
  unfolding read_reject ◌>>=◌ ignore fail
  read_reject-Identity = record { given = λ c d a p e. absurd (none-ne-some _ d a e) }

  recv_sess_init-Identity : Gives Safe (recv_sess_init cfg world) Identity
  unfolding recv_sess_init receive_typed
  recv_sess_init-Identity = step Safe _ _ _ (receive-Gives Safe Safe-Lasts 1) (λ type.
      if-Gives Safe Identity (get_or type 0 0 == tmsg_sess_term) _ _ (λ e. fail-Gives Safe _)
        (λ e.
          if-Gives Safe Identity (get_or type 0 0 == tmsg_msg_reject) _ _
            (λ f. read_reject-Identity)
            (λ f.
              if-Gives Safe Identity (not (get_or type 0 0 == tmsg_sess_init)) _ _
                (λ g. send_reject-Gives world Safe _ _ _) (λ g. receive_message-Identity))))

  -- No TLS yet.
  abbrev Plain : Session → Type 0
  Plain c = c.tls ≡ false

  -- Enable TLS is allowed by the policy.
  abbrev Enabled : Bool → Session → Type 0
  Enabled b c =
      Plain c
      × (((b ≡ true) × (cfg.tls_policy ≢ tcpv4_tls_disable))
          ⊎ ((b ≡ false) × (cfg.tls_policy ≢ tcpv4_tls_require)))

  both_allowed : (p f : Bool) → (not p && f) ≡ true → p ≡ false
  both_allowed p f e = ground arith

  check_enable_tls-Enabled :
      (peer : Tcpv4Contact) → Gives Plain (check_enable_tls cfg world peer) Enabled
  unfolding check_enable_tls
  check_enable_tls-Enabled peer =
      if-Gives Plain Enabled (not (both_can_tls cfg peer) && cfg.tls_policy == tcpv4_tls_require) _
        _ (λ e. terminate-Gives world Plain Enabled tmsg_term_contact_failure)
        (λ e. give-Gives Plain Enabled (both_can_tls cfg peer) (λ c p. (p, by_both _ refl e)))
    where
      by_both :
          (b : Bool)
          → both_can_tls cfg peer ≡ b
          → (not (both_can_tls cfg peer) && cfg.tls_policy == tcpv4_tls_require) ≡ false
          → ((both_can_tls cfg peer ≡ true) × (cfg.tls_policy ≢ tcpv4_tls_disable))
            ⊎ ((both_can_tls cfg peer ≡ false) × (cfg.tls_policy ≢ tcpv4_tls_require))
      by_both true e f =
          let off = both_allowed (cfg.tls_policy == tcpv4_tls_disable) _ e in
          inl (e, ground (arith, off))
      by_both false e f =
          let off : (cfg.tls_policy == tcpv4_tls_require) ≡ false =
            ap (λ b. not b && cfg.tls_policy == tcpv4_tls_require) (sym e) ∙ f in
          inr (e, ground (arith, off))

  exchange_contact-Enabled : Gives Plain (exchange_contact cfg world) Enabled
  unfolding exchange_contact
  exchange_contact-Enabled =
      step Plain _ _ _ (send_first-Lasts cfg world Plain (λ c i s p. p)) (λ u.
        step Plain _ _ _ (receive-Gives Plain (λ c i s p. p) tmsg_contact_len) (λ buf.
          step Plain _ _ _ (decoded_some-Gives Plain _) (λ peer.
            step Plain _ _ _ (send_reply-Lasts cfg world Plain (λ c i s p. p)) (λ u.
              step Plain _ _ _ (check_version-Lasts cfg world Plain (λ c i s p. p) peer)
                (λ u. check_enable_tls-Enabled peer)))))

  abbrev Encrypted : Session → Type 0
  Encrypted c = (c.tls ≡ true) × (cfg.tls_policy ≢ tcpv4_tls_disable)

  shake_hands-Encrypted : Gives (Enabled true) (shake_hands cfg world) (λ u. Encrypted)
  unfolding shake_hands
  shake_hands-Encrypted =
      branch-Gives (Enabled true) (λ (u : Unit {0}). Encrypted) world.handshake _ _
        (record {
          given = λ c d a p e.
              by_result (λ (u : Unit {0}). Encrypted) tt a
                (record c { tls = true; peer_authenticated = world.peer_authenticated c }) d e
                (refl, allowed p.0.1);
        })
        (record { given = λ c d a p e. absurd (none-ne-some _ d a e) })
    where
      allowed :
          ((true ≡ true) × (cfg.tls_policy ≢ tcpv4_tls_disable))
            ⊎ ((true ≡ false) × (cfg.tls_policy ≢ tcpv4_tls_require))
          → cfg.tls_policy ≢ tcpv4_tls_disable
      allowed (inl (e, h)) = h
      allowed (inr (e, h)) = absurd (cc)

  start_tls-Safe : (b : Bool) → Gives (Enabled b) (start_tls cfg world b) (λ u. Safe)
  unfolding start_tls
  start_tls-Safe false = give-Gives (Enabled false) (λ u. Safe) tt (λ c p. (plain c p, inl p.0))
    where
      plain : (c : Session) → Enabled false c → TlsAllowed cfg world c
      plain c (off, inl (e, h)) = absurd (cc)
      plain c (off, inr (e, h)) = inr (off, h)
  start_tls-Safe true =
      bind-Gives (Enabled true) (λ u. Encrypted) (λ u. Safe) _ _ shake_hands-Encrypted
        (λ u.
          if-Gives Encrypted (λ u. Safe) (not cfg.no_verify) (check_cert_profile cfg world)
            (give tt)
            (λ e.
              conclude-Gives Encrypted _ _ _
                (λ u c p. (inl p.0.0, inr (inr (ok-InProfile cfg world _ _ p.0.1 p.1))))
                (check_cert_profile-Lasts cfg world Encrypted (λ c i s p. p)))
            (λ e.
              give-Gives Encrypted (λ u. Safe) tt (λ c p. (inl p, inr (inl (ground (arith, e)))))))

  establish-Secure : Gives Plain (tcpv4_establish cfg world) (λ u. IsSecure)
  unfolding tcpv4_establish
  establish-Secure =
      bind-Gives Plain Enabled (λ u. IsSecure) _ _ exchange_contact-Enabled
        (λ b.
          bind-Gives (Enabled b) (λ u. Safe) (λ u. IsSecure) _ _ (start_tls-Safe b)
            (λ u. step Safe _ _ _ (check_busy-Lasts cfg world Safe Safe-Lasts) (λ u.
              step Safe _ _ _ (send_sess_init-Lasts cfg world Safe Safe-Lasts) (λ u.
                bind-Gives Safe Identity (λ u. IsSecure) _ _ recv_sess_init-Identity
                  (λ u.
                    modify-Gives (Identity tt) (λ u. IsSecure)
                      (λ c. record c { established = true }) (λ c p. (p.0.0, p.0.1, p.1, refl)))))))

  -- A session that the negotiation has established, whatever the peer has sent and the handshake, the
  -- certificate, the writes and the allocations have given, has TLS on or off as the policy allows;
  -- the certificate of a TLS peer is within the profile unless it is not to be verified; the node ID
  -- is authenticated by the certificate, or this is not asked for or not required; and the session
  -- carries bundles only to an authenticated node ID, to the node dialled if the peer claims no
  -- other, or, where node IDs are given up on, to the one that a peer claims who has dialled.
  pub tcpv4_establish-IsSecure :
      (c d : Session) → c.tls ≡ false → tcpv4_establish cfg world c ≡ (some tt, d) → IsSecure d
  tcpv4_establish-IsSecure c d plain e = establish-Secure.given c d tt plain e
