-- ===== src/Tcpv4/Negotiate/Calls.antt =====
-- The calls of CLA/tcpv4/src/tcpv4negotiate.c that only read and write, and what they keep of the
-- session.
use ion_dtn_contrib.Prelude.{
  ℕ, ◌≡◌, Bool, true, false, not, ◌==◌, if◌then◌else◌, ◌∷◌, ◌++◌, Option, none, some, ℤ, pos,
  negsuc, zero, suc,
}
use ion_dtn_contrib.Tcpv4.Msg.Types.{Tcpv4Contact, tmsg_sess_init}
use ion_dtn_contrib.Tcpv4.Rx.Segment.{ext_len_of}
use ion_dtn_contrib.Tcpv4.Negotiate.State.{
  Session, Config, World, Neg, give, fail, ◌>>=◌, guard, demand, terminate,
  tmsg_term_contact_failure, tmsg_term_version_mismatch, tmsg_term_busy,
}
use ion_dtn_contrib.Tcpv4.Negotiate.{
  decoded_some, decoded_whole, send_contact, check_version, send_first, send_reply, send_sess_init,
  receive_fixed, obtain, receive_lists, usage_ok, purpose_ok, check_cert_profile, check_busy,
  tmsg_version,
}
use ion_dtn_contrib.Tcpv4.Negotiate.Lasts.{
  Gives, Lasts, none-ne-some, by_result, give-Gives, fail-Gives, either-Gives, if-Gives,
  conclude-Gives, bind-Gives, guard-Gives, receive-Gives, receive_if-Gives, transmit-Gives,
  demand-Gives, terminate-Gives,
}

pub decoded_some-Gives :
    {A : Type 0} (P : Session → Type 0) (r : ℤ × Option A) → Gives P (decoded_some r) (λ m. P)
unfolding decoded_some
decoded_some-Gives P (pos (suc n), some m) = give-Gives P _ m (λ c p. p)
decoded_some-Gives P (pos (suc n), none) = fail-Gives P _
decoded_some-Gives P (pos zero, m) = fail-Gives P _
decoded_some-Gives P (negsuc n, m) = fail-Gives P _

pub decoded_whole-Gives :
    {A : Type 0} (P : Session → Type 0) (off : ℕ) (r : ℤ × Option A)
    → Gives P (decoded_whole off r) (λ m. P)
unfolding decoded_whole
decoded_whole-Gives P off (pos n, some m) =
    if-Gives P _ (n == off) (give m) fail (λ e. give-Gives P _ m (λ c p. p)) (λ e. fail-Gives P _)
decoded_whole-Gives P off (pos n, none) = fail-Gives P _
decoded_whole-Gives P off (negsuc n, m) = fail-Gives P _

module _ (P : Session → Type 0) where
  -- A step that keeps `P`, and the rest.
  pub step :
      {A B : Type 0} (Q : B → Session → Type 0) (m : Neg A) (f : A → Neg B)
      → Gives P m (λ a. P)
      → ((a : A) → Gives P (f a) Q)
      → Gives P (m >>= f) Q
  step Q m f gm gf = bind-Gives P (λ a. P) Q m f gm gf

  pub demand-Lasts :
      (world : World) (reason : ℕ) (b : Bool) → Gives P (demand world reason b) (λ u. P)
  demand-Lasts world reason b =
      conclude-Gives P _ _ _ (λ u c p. p.0) (demand-Gives world P reason b)

  pub guard-Lasts : (b : Bool) → Gives P (guard b) (λ u. P)
  guard-Lasts b = conclude-Gives P _ _ _ (λ u c p. p.0) (guard-Gives P b)

module _ (cfg : Config) (world : World) (P : Session → Type 0) (lasts : Lasts P) where
  pub receive_fixed-Lasts : Gives P (receive_fixed cfg world) (λ bs. P)
  unfolding receive_fixed
  receive_fixed-Lasts = step P _ _ _ (receive-Gives P lasts 20) (λ rest.
      step P _ _ _ (guard-Lasts P _)
        (λ u. give-Gives P (λ bs. P) (tmsg_sess_init ∷ rest) (λ c p. p)))

  pub obtain-Lasts : (size : ℕ) → Gives P (obtain cfg world size) (λ u. P)
  unfolding obtain guard
  obtain-Lasts size = record { given = λ c d a p e. by_grant c d a p (world.grants c size) e }
    where
      by_grant :
          (c d : Session) (a : Unit {0})
          → P c
          → (b : Bool)
          → ◌≡◌ {A = Option (Unit {0}) × Session} (if b then some tt else none, c) (some a, d)
          → P d
      by_grant c d a p true e = by_result (λ (u : Unit {0}). P) tt a c d e p
      by_grant c d a p false e = absurd (none-ne-some c d a e)

  pub receive_lists-Lasts : (n : ℕ) → Gives P (receive_lists cfg world n) (λ bs. P)
  unfolding receive_lists
  receive_lists-Lasts n = step P _ _ _ (receive_if-Gives P lasts n) (λ node_id.
      step P _ _ _ (receive-Gives P lasts 4) (λ len. step P _ _ _ (guard-Lasts P _) (λ u.
        step P _ _ _ (receive_if-Gives P lasts (ext_len_of len))
          (λ items. give-Gives P (λ bs. P) (node_id ++ (len ++ items)) (λ c p. p)))))

  pub send_contact-Lasts : Gives P (send_contact cfg world) (λ u. P)
  unfolding send_contact
  send_contact-Lasts = transmit-Gives P lasts world _

  pub check_version-Lasts : (peer : Tcpv4Contact) → Gives P (check_version cfg world peer) (λ u. P)
  unfolding check_version
  check_version-Lasts peer =
      either-Gives P (λ u. P) (λ c. peer.version == tmsg_version) (give tt) _
        (give-Gives P (λ u. P) tt (λ c p. p))
        (either-Gives P (λ u. P) (λ c. c.active_role) fail
          (terminate world tmsg_term_version_mismatch) (fail-Gives P (λ u. P))
          (terminate-Gives world P (λ u. P) tmsg_term_version_mismatch))

  pub send_first-Lasts : Gives P (send_first cfg world) (λ u. P)
  unfolding send_first
  send_first-Lasts =
      either-Gives P (λ u. P) (λ c. c.active_role) (send_contact cfg world) (give tt)
        send_contact-Lasts (give-Gives P (λ u. P) tt (λ c p. p))

  pub send_reply-Lasts : Gives P (send_reply cfg world) (λ u. P)
  unfolding send_reply
  send_reply-Lasts =
      either-Gives P (λ u. P) (λ c. not c.active_role) (send_contact cfg world) (give tt)
        send_contact-Lasts (give-Gives P (λ u. P) tt (λ c p. p))

  pub check_busy-Lasts : Gives P (check_busy cfg world) (λ u. P)
  unfolding check_busy
  check_busy-Lasts =
      either-Gives P (λ u. P) (λ c. c.busy) (terminate world tmsg_term_busy) (give tt)
        (terminate-Gives world P (λ u. P) tmsg_term_busy) (give-Gives P (λ u. P) tt (λ c p. p))

  pub send_sess_init-Lasts : Gives P (send_sess_init cfg world) (λ u. P)
  unfolding send_sess_init
  send_sess_init-Lasts = transmit-Gives P lasts world _

  pub check_cert_profile-Lasts : Gives P (check_cert_profile cfg world) (λ u c.
      (P c × (usage_ok cfg world world.key_usage ≡ true))
      × (purpose_ok cfg world world.key_purpose ≡ true))
  unfolding check_cert_profile
  check_cert_profile-Lasts =
      bind-Gives P _ _ _ _ (demand-Gives world P tmsg_term_contact_failure _)
        (λ u. demand-Gives world _ tmsg_term_contact_failure _)
