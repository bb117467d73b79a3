-- ===== src/Tcpv4/Negotiate/Runs.antt =====
-- The calls of CLA/tcpv4/src/tcpv4negotiate.c on what the peer's calls have written.
use ion_dtn_contrib.Prelude.{
  ℕ, zero, suc, ◌^◌, ◌<◌, ◌≡◌, ◌≢◌, ◌⊎◌, refl, ap, ◌∙◌, Bool, true, false, not, ◌&&◌, ◌==◌,
  if◌then◌else◌, if_yes, if_no, leb, ltb, le→leb, lt→ltb, List, [], ◌∷◌, ◌++◌, length,
  length-append, take_front, drop-length_append, All, none, some, ℤ, pos, arith, bit_and,
}
use ion_dtn_contrib.Wire.Pointer.{IsBuffer}
use ion_dtn_contrib.Tcpv4.Msg.{decode_contact}
use ion_dtn_contrib.Tcpv4.Msg.Types.{tmsg_magic}
use ion_dtn_contrib.Tcpv4.Msg.Layout
use ion_dtn_contrib.Tcpv4.Msg.Opening.{encode_contact_on, decode_contact_on}
use ion_dtn_contrib.Tcpv4.NodeId.{tcpv4_node_id_is_well_formed}
use ion_dtn_contrib.Tcpv4.Negotiate.State.{
  Session, Config, World, Neg, give, ◌>>=◌, ◌>>◌, then_run, guard, receive, receive_if, transmit,
  demand, terminate, tcpv4_tls_require, tcpv4_tls_disable, tmsg_term_contact_failure,
}
use ion_dtn_contrib.Tcpv4.Negotiate.{
  decoded_some, our_contact, both_can_tls, send_contact, check_version, check_enable_tls,
  send_first, send_reply, exchange_contact,
}

module _ {A B : Type 0} where
  -- A computation goes on with what its first call has left, or ends where that fails.
  pub bind_on :
      (m : Neg A) (f : A → Neg B) (c d : Session) (a : A) → m c ≡ (some a, d) → (m >>= f) c ≡ f a d
  unfolding ◌>>=◌
  bind_on m f c d a e = ap (then_run f) e

  pub bind_failed :
      (m : Neg A) (f : A → Neg B) (c d : Session) → m c ≡ (none, d) → (m >>= f) c ≡ (none, d)
  unfolding ◌>>=◌
  bind_failed m f c d e = ap (then_run f) e

pub receive_on :
    (n : ℕ) (bs rest : List ℕ) (c : Session)
    → n ≡ length bs
    → c.input ≡ bs ++ rest
    → receive n c ≡ (some bs, record c { input = rest })
unfolding receive
receive_on n bs rest c len e =
    let fits : leb n (length c.input) ≡ true =
      le→leb _ _ (omega (arith, len, ap length e, length-append {0} bs rest)) in
    if_yes _ _ _ fits
    ∙ rw (take_front n c.input bs rest e len, len, e)
        (ap (λ l. (some bs, record c { input = l })) (drop-length_append bs rest))

pub receive-none :
    (n : ℕ) (c : Session) → c.input ≡ [] → receive (suc n) c ≡ (none, record c { input = [] })
unfolding receive
receive-none n c e = if_no (leb (suc n) (length c.input)) _ _ (ground (arith, ap length e))

pub receive_if_on :
    (n : ℕ) (bs rest : List ℕ) (c : Session)
    → n ≡ length bs
    → c.input ≡ bs ++ rest
    → receive_if n c ≡ (some bs, record c { input = rest })
unfolding receive_if give
receive_if_on zero [] rest c len e = ap (λ l. (some [], record c { input = l })) e
receive_if_on zero (b ∷ bs) rest c len e = absurd (omega (arith, len))
receive_if_on (suc n) bs rest c len e =
    ap (λ (m : Neg (List ℕ)). m c)
      (if_yes (ltb 0 (suc n)) (receive (suc n)) (give []) (lt→ltb 0 (suc n) (omega arith)))
    ∙ receive_on (suc n) bs rest c len e

pub demand_on :
    (world : World) (reason : ℕ) (b : Bool) (c : Session)
    → b ≡ true
    → demand world reason b c ≡ (some tt, c)
unfolding demand give
demand_on world reason b c e =
    ap (λ (m : Neg (Unit {0})). m c) (if_yes b (give tt) (terminate world reason) e)

pub guard_on : (b : Bool) (c : Session) → b ≡ true → guard b c ≡ (some tt, c)
unfolding guard
guard_on b c e = ap (λ (t : Bool). (if t then some tt else none, c)) e

pub transmit_on :
    (world : World) (n : ℕ) (bs : List ℕ) (r : ℤ × List ℕ) (c : Session)
    → r ≡ (pos n, bs)
    → world.writes c ≡ true
    → transmit world r c ≡ (some tt, record c { sent = c.sent ++ (bs ∷ []) })
unfolding transmit
transmit_on world n bs r c e w = ap (λ s. transmit world s c) e ∙ if_yes (world.writes c) _ _ w

-- What the options admit of a configuration, with a node ID that is a string of octets within its
-- field, and empty or well-formed.
pub record IsEngine (cfg : Config) : Type 0 where
  pub keepalive : cfg.keepalive < 2 ^ 16
  pub some_segment : 0 < cfg.segment_mru
  pub segment_mru : cfg.segment_mru < 2 ^ 64
  pub some_transfer : 0 < cfg.transfer_mru
  pub transfer_mru : cfg.transfer_mru < 2 ^ 64
  pub node_id_len : length cfg.node_id < 256
  pub chars : All (λ c. (0 < c) × (c < 256)) cfg.node_id
  pub well_formed : (cfg.node_id ≡ []) ⊎ (tcpv4_node_id_is_well_formed (some cfg.node_id) ≡ true)

-- The surroundings fail no call, and the session is not refused for want of room.
pub record IsFavourable (world : World) : Type 0 where
  pub writes : (c : Session) → world.writes c ≡ true
  pub grants : (c : Session) (n : ℕ) → world.grants c n ≡ true
  pub handshake : (c : Session) → world.handshake c ≡ true

-- Both policies allow TLS, or neither requires it.
abbrev pub Agree : Config → Config → Type 0
Agree cfg peer =
    ((cfg.tls_policy ≢ tcpv4_tls_disable) × (peer.tls_policy ≢ tcpv4_tls_disable))
    ⊎ ((cfg.tls_policy ≢ tcpv4_tls_require) × (peer.tls_policy ≢ tcpv4_tls_require))

-- The octets of the contact header.
abbrev pub contact_octets : Config → List ℕ
contact_octets cfg = tmsg_magic ++ Layout.contact_layout (our_contact cfg)

-- Whether the two ends turn on TLS.
abbrev pub uses_tls : Config → Config → Bool
uses_tls cfg peer =
    not (cfg.tls_policy == tcpv4_tls_disable) && not (peer.tls_policy == tcpv4_tls_disable)

can_tls_flag : (b : Bool) → not (bit_and (if not b then 1 else 0) 1 == 0) ≡ not b
can_tls_flag true = refl
can_tls_flag false = refl

both_can_tls_on : (cfg peer : Config) → both_can_tls cfg (our_contact peer) ≡ uses_tls cfg peer
both_can_tls_on cfg peer =
    ap (λ b. not (cfg.tls_policy == tcpv4_tls_disable) && b)
      (can_tls_flag (peer.tls_policy == tcpv4_tls_disable))

our_contact-IsContact : (cfg : Config) → Layout.IsContact (our_contact cfg)
our_contact-IsContact cfg = record { version = omega arith; flags = ground arith }

contact_octets-IsBuffer : (cfg : Config) → IsBuffer (contact_octets cfg)
contact_octets-IsBuffer cfg = record { bytes = omega arith; small = omega arith }

module _ (cfg peer : Config) (world : World) (good : IsFavourable world) where
  pub send_contact_on :
      (c : Session)
      → send_contact cfg world c
        ≡ (some tt, record c { sent = c.sent ++ (contact_octets cfg ∷ []) })
  unfolding send_contact
  send_contact_on c =
      transmit_on world 6 (contact_octets cfg) _ c
        (encode_contact_on (our_contact cfg) (our_contact-IsContact cfg)) (good.writes c)

  check_enable_tls_on :
      (c : Session)
      → Agree cfg peer
      → check_enable_tls cfg world (our_contact peer) c ≡ (some (uses_tls cfg peer), c)
  unfolding check_enable_tls give
  check_enable_tls_on c agree =
      ap
        (λ (b : Bool).
          (if not b && cfg.tls_policy == tcpv4_tls_require
              then terminate world {A = Bool} tmsg_term_contact_failure
              else give b)
            c)
        (both_can_tls_on cfg peer)
      ∙ ap (λ (m : Neg Bool). m c)
          (if_no (not (uses_tls cfg peer) && cfg.tls_policy == tcpv4_tls_require) _ _ allowed)
    where
      allowed : (not (uses_tls cfg peer) && cfg.tls_policy == tcpv4_tls_require) ≡ false
      allowed = ground (arith, agree)

  abbrev met : Session → List ℕ → Session
  met c rest = record c { input = rest; sent = c.sent ++ (contact_octets cfg ∷ []) }

  pub exchange_contact_on :
      (c : Session) (rest : List ℕ)
      → Agree cfg peer
      → c.input ≡ contact_octets peer ++ rest
      → exchange_contact cfg world c ≡ (some (uses_tls cfg peer), met c rest)
  unfolding exchange_contact
  exchange_contact_on c rest agree e = by_role c.active_role refl
    where
      -- What follows the reading of the peer's header, by the state after the reply.
      replied :
          (d : Session)
          → send_reply cfg world d ≡ (some tt, met c rest)
          → (decoded_some (decode_contact (contact_octets peer)) >>= λ m.
                send_reply cfg world >> (check_version cfg world m >> check_enable_tls cfg world m))
              d
            ≡ (some (uses_tls cfg peer), met c rest)
      replied d f =
          bind_on (decoded_some (decode_contact (contact_octets peer))) _ d d (our_contact peer) (
            unfold decoded_some give in
            (ap (λ r. decoded_some r d)
              (decode_contact_on (our_contact peer) (our_contact-IsContact peer)
                (contact_octets-IsBuffer peer))))
          ∙ bind_on (send_reply cfg world) _ d (met c rest) tt f
          ∙ bind_on (check_version cfg world (our_contact peer)) _ (met c rest) (met c rest) tt
              (unfold check_version give in refl)
          ∙ check_enable_tls_on (met c rest) agree

      by_role :
          (b : Bool)
          → c.active_role ≡ b
          → exchange_contact cfg world c ≡ (some (uses_tls cfg peer), met c rest)
      by_role true role =
          let sent = record c { sent = c.sent ++ (contact_octets cfg ∷ []) } in
          bind_on (send_first cfg world) _ c sent tt
            (unfold send_first give in (if_yes c.active_role _ _ role ∙ send_contact_on c))
          ∙ bind_on (receive 6) _ sent (met c rest) (contact_octets peer)
              (receive_on 6 (contact_octets peer) rest sent refl e)
          ∙ replied (met c rest)
              (unfold send_reply give in (if_no (not c.active_role) _ _ (ap not role)))
      by_role false role =
          let read = record c { input = rest } in
          bind_on (send_first cfg world) _ c c tt
            (unfold send_first give in (if_no c.active_role _ _ role))
          ∙ bind_on (receive 6) _ c read (contact_octets peer)
              (receive_on 6 (contact_octets peer) rest c refl e)
          ∙ replied read (
              unfold send_reply give in
              (if_yes (not c.active_role) _ _ (ap not role) ∙ send_contact_on read))
