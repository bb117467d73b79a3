-- ===== src/Tcpv4/Negotiate/Inits.antt =====
-- The exchange of SESS_INITs of CLA/tcpv4/src/tcpv4negotiate.c: what one end reads of what the
-- other has written.
use ion_dtn_contrib.Prelude.{
  none, ℕ, ◌+◌, ◌*◌, ◌/◌, ◌%◌, ◌^◌, ◌<◌, ◌≡◌, ◌≢◌, ◌⊎◌, inl, inr, refl, sym, ap, ◌∙◌, Bool, true,
  false, not, ◌&&◌, ◌==◌, ==_iff, if_yes, if_no, if_case, leb, ltb, List, [], ◌∷◌, ◌++◌,
  append_assoc, length, length-append, All, All-append, All-map, Option, some, arith,
}
use mathlib.Core.Path.{subst}
use ion_dtn_contrib.Wire.Size.{be, IsByte}
use ion_dtn_contrib.Wire.Octets.{be-IsByte, join_u16}
use ion_dtn_contrib.Wire.Pointer.{IsBuffer}
use ion_dtn_contrib.Tcpv4.Msg.{decode_sess_init}
use ion_dtn_contrib.Tcpv4.Msg.Types.{Tcpv4SessInit, tmsg_sess_init}
use ion_dtn_contrib.Tcpv4.Msg.Layout
use ion_dtn_contrib.Tcpv4.Msg.Opening.{encode_sess_init_on, decode_sess_init_on}
use ion_dtn_contrib.Tcpv4.Ext.Walk.{next_ext_item_end}
use ion_dtn_contrib.Tcpv4.NodeId.{tcpv4_node_id_is_well_formed}
use ion_dtn_contrib.Tcpv4.X509.{c_string}
use ion_dtn_contrib.Tcpv4.Rx.Segment.{tcpv4_max_ext_len}
use ion_dtn_contrib.Tcpv4.Negotiate.State.{
  Session, Config, World, NodeIdMatch, Neg, give, modify, guard, receive, receive_if, demand,
  tcpv4_eidpol_require,
}
use ion_dtn_contrib.Tcpv4.Negotiate.{
  decoded_whole, our_sess_init, item_round, items_loop, claimed_node_id, bad_node_id, adopted,
  asks_certificate, matched, authenticate, apply_sess_init, node_id_len_of, receive_fixed, obtain,
  receive_lists, receive_message, receive_typed, recv_sess_init, send_sess_init,
  tcpv4_max_nodeid_len,
}
use ion_dtn_contrib.Tcpv4.Ext.{found_or}
use ion_dtn_contrib.Tcpv4.Negotiate.Runs.{
  bind_on, receive_on, receive_if_on, demand_on, guard_on, transmit_on, IsEngine, IsFavourable,
}

-- The SESS_INIT of an end as the other one reads it.
abbrev pub said : Config → Tcpv4SessInit
said cfg = record (our_sess_init cfg) { sess_ext = some [] }

abbrev pub init_octets : Config → List ℕ
init_octets cfg = tmsg_sess_init ∷ Layout.sess_init_layout (said cfg)

module _ (cfg : Config) (engine : IsEngine cfg) where
  node_id_size : length cfg.node_id % 2 ^ 16 ≡ length cfg.node_id
  node_id_size = omega (arith, engine.node_id_len)

  said-IsSessInit : Layout.IsSessInit (said cfg)
  said-IsSessInit = record {
    keepalive = omega arith;
    segment_mru = engine.segment_mru;
    transfer_mru = engine.transfer_mru;
    node_id_len = omega arith;
    node_id = record {
      set = refl;
      size = sym node_id_size;
      bytes = All-map (λ c b. b.1) cfg.node_id engine.chars;
    };
    sess_ext_len = omega arith;
    sess_ext = record { set = refl; size = refl; bytes = tt };
  }

  length-init_octets : length (init_octets cfg) ≡ 25 + length cfg.node_id
  length-init_octets = omega (arith, length-append {0} cfg.node_id (be 4 0 ++ []))

  init_octets-IsBuffer : IsBuffer (init_octets cfg)
  init_octets-IsBuffer =
      let m = said cfg in
      let items = be 4 0 ++ [] in
      let named = cfg.node_id ++ items in
      let sized = be 2 m.node_id_len ++ named in
      let limited = be 8 m.transfer_mru ++ sized in
      let ahead = λ (k v : ℕ) (bs : List ℕ). All-append IsByte (be k v) bs (be-IsByte k v) in
      record {
        bytes = (
          omega arith,
          ahead 2 m.keepalive (be 8 m.segment_mru ++ limited) (
              ahead 8 m.segment_mru limited (
                ahead 8 m.transfer_mru sized (
                  ahead 2 m.node_id_len named (
                    All-append IsByte cfg.node_id items
                      (All-map (λ c b. b.1) cfg.node_id engine.chars) (ahead 4 0 [] tt))))),
        );
        small = omega (arith, length-init_octets, engine.node_id_len);
      }

  pub send_sess_init_on :
      (world : World) (c : Session)
      → IsFavourable world
      → send_sess_init cfg world c ≡ (some tt, record c { sent = c.sent ++ (init_octets cfg ∷ []) })
  unfolding send_sess_init
  send_sess_init_on world c good =
      transmit_on world _ (init_octets cfg) _ c
        (encode_sess_init_on (said cfg) 320 (omega arith) said-IsSessInit
          (omega (arith, length-init_octets, engine.node_id_len)) refl)
        (good.writes c)

  c_string-chars : (cs : List ℕ) → All (λ c. (0 < c) × (c < 256)) cs → c_string cs ≡ cs
  c_string-chars [] a = refl
  c_string-chars (c ∷ cs) a =
      if_no (c == 0) _ _ (ground (arith, a.0)) ∙ ap (λ l. c ∷ l) (c_string-chars cs a.1)

  pub claimed_on : claimed_node_id (said cfg) ≡ cfg.node_id
  claimed_on = by_node_id cfg.node_id refl
    where
      by_node_id : (n : List ℕ) → cfg.node_id ≡ n → claimed_node_id (said cfg) ≡ cfg.node_id
      by_node_id [] e =
          if_no (ltb 0 (said cfg).node_id_len && ltb (said cfg).node_id_len 256) _ _
            (ground (arith, ap length e, node_id_size))
          ∙ sym e
      by_node_id (x ∷ n) e =
          if_yes (ltb 0 (said cfg).node_id_len && ltb (said cfg).node_id_len 256) _ _
            (ground (arith, ap length e, node_id_size, engine.node_id_len))
          ∙ c_string-chars cfg.node_id engine.chars

  good_node_id : not (bad_node_id (said cfg)) ≡ true
  good_node_id = by_form engine.well_formed
    where
      by_form :
          (cfg.node_id ≡ []) ⊎ (tcpv4_node_id_is_well_formed (some cfg.node_id) ≡ true)
          → not (bad_node_id (said cfg)) ≡ true
      by_form (inl e) = ground (arith, ap length e, node_id_size)
      by_form (inr e) = ground (arith, e)

  -- No session extension items to walk over.
  no_items : items_loop 1 [] 0 ≡ some true
  unfolding items_loop
  no_items = ap (λ s. item_round s.rc s.item none) (next_ext_item_end [])

-- The certificate authenticates the node ID of the peer, or has none and need not.
abbrev pub Accepts : Config → Config → World → Type 0
Accepts cfg peer world =
    (world.match_node_id peer.node_id ≡ NodeIdMatch.success)
    ⊎ ((world.match_node_id peer.node_id ≡ NodeIdMatch.absent)
        × (cfg.eid_policy ≢ tcpv4_eidpol_require))

module _ (cfg peer : Config) (world : World) (good : IsFavourable world) (engine : IsEngine peer)
    (accepts : Accepts cfg peer world) where
  matched_on :
      (r : NodeIdMatch) (c : Session)
      → (r ≡ NodeIdMatch.success)
        ⊎ ((r ≡ NodeIdMatch.absent) × (cfg.eid_policy ≢ tcpv4_eidpol_require))
      → (b : Bool) × (matched cfg world r c ≡ (some b, c))
  unfolding give
  matched_on NodeIdMatch.success c h = (true, refl)
  matched_on NodeIdMatch.failure c (inl e) = absurd (cc)
  matched_on NodeIdMatch.failure c (inr (e, f)) = absurd (cc)
  matched_on NodeIdMatch.error c (inl e) = absurd (cc)
  matched_on NodeIdMatch.error c (inr (e, f)) = absurd (cc)
  matched_on NodeIdMatch.absent c (inl e) = absurd (cc)
  matched_on NodeIdMatch.absent c (inr (e, f)) = (
    false,
    ap (λ (m : Neg Bool). m c)
        (if_no (cfg.eid_policy == tcpv4_eidpol_require) _ _ (ground (arith, f))),
  )

  authenticate_on :
      (c : Session)
      → (b : Bool) × (authenticate cfg world (claimed_node_id (said peer)) c ≡ (some b, c))
  unfolding authenticate give
  authenticate_on c =
      subst (λ l. (b : Bool) × (authenticate cfg world l c ≡ (some b, c)))
        (sym (claimed_on peer engine))
        (if_case (λ (r : Option Bool × Session). (b : Bool) × (r ≡ (some b, c)))
          (asks_certificate cfg world c peer.node_id)
          (matched cfg world (world.match_node_id peer.node_id) c) (some false, c)
          (λ e. matched_on (world.match_node_id peer.node_id) c accepts) (λ e. (false, refl)))

  apply_sess_init_on :
      (c : Session)
      → (b : Bool) × (apply_sess_init cfg world (said peer) c
          ≡ (some tt, adopted cfg (said peer) (claimed_node_id (said peer)) b c))
  unfolding apply_sess_init
  apply_sess_init_on c =
      let (b, e) = authenticate_on c in
      (
        b,
        bind_on (demand world 4 _) _ c c tt
              (demand_on world 4 _ c (ground (arith, engine.some_segment, engine.some_transfer)))
            ∙ bind_on (demand world 4 _) _ c c tt
                (demand_on world 4 _ c (ap (found_or false) (no_items peer engine)))
            ∙ bind_on (demand world 4 _) _ c c tt (demand_on world 4 _ c (good_node_id peer engine))
            ∙ bind_on (authenticate cfg world (claimed_node_id (said peer))) _ c c b e
            ∙ unfold modify in refl,
      )

  abbrev fixed_rest : List ℕ
  fixed_rest =
      let m = said peer in
      be 2 m.keepalive ++ (be 8 m.segment_mru ++ (be 8 m.transfer_mru ++ be 2 m.node_id_len))

  abbrev lists : List ℕ
  lists = peer.node_id ++ (be 4 0 ++ [])

  len_of : node_id_len_of cfg world (tmsg_sess_init ∷ fixed_rest) ≡ length peer.node_id
  len_of =
      let n = (said peer).node_id_len in
      let size = node_id_size peer engine in
      join_u16 (n / 256 % 256) (n % 256) (omega arith) (omega arith)
      ∙ (let e : n / 256 % 256 * 2 ^ 8 + n % 256 ≡ length peer.node_id =
            omega (arith, size, engine.node_id_len) in
          e)

  receive_lists_on :
      (c : Session) (rest : List ℕ)
      → c.input ≡ lists ++ rest
      → receive_lists cfg world (length peer.node_id) c ≡ (some lists, record c { input = rest })
  unfolding receive_lists
  receive_lists_on c rest e =
      let behind = record c { input = be 4 0 ++ rest } in
      let read = record c { input = rest } in
      bind_on (receive_if (length peer.node_id)) _ c behind peer.node_id (
        receive_if_on (length peer.node_id) peer.node_id (be 4 0 ++ rest) c refl
          (e ∙ append_assoc peer.node_id (be 4 0) rest))
      ∙ bind_on (receive 4) _ behind read (be 4 0) (receive_on 4 (be 4 0) rest behind refl refl)
      ∙ bind_on (guard true) _ read read tt (guard_on true read refl)
      ∙ bind_on (receive_if 0) _ read read [] (receive_if_on 0 [] rest read refl refl)
      ∙ unfold give in refl

  receive_message_on :
      (c : Session) (rest : List ℕ)
      → c.input ≡ fixed_rest ++ (lists ++ rest)
      → (b : Bool) × (receive_message cfg world c ≡ (
        some tt,
        adopted cfg (said peer) (claimed_node_id (said peer)) b (record c { input = rest }),
      ))
  unfolding receive_message
  receive_message_on c rest e =
      let fixed = tmsg_sess_init ∷ fixed_rest in
      let behind = record c { input = lists ++ rest } in
      let read = record c { input = rest } in
      let size = 21 + node_id_len_of cfg world fixed + 4 + tcpv4_max_ext_len in
      let (b, applied) = apply_sess_init_on read in
      (
        b,
        bind_on (receive_fixed cfg world) _ c behind fixed (
              unfold receive_fixed in
              (bind_on (receive 20) _ c behind fixed_rest
                  (receive_on 20 fixed_rest (lists ++ rest) c refl e)
                ∙ bind_on (guard (not (leb tcpv4_max_nodeid_len (node_id_len_of cfg world fixed))))
                    _ behind behind tt
                    (guard_on _ behind (ground (arith, len_of, engine.node_id_len)))
                ∙ unfold give in refl))
            ∙ bind_on (obtain cfg world size) _ behind behind tt (
                unfold obtain in
                guard_on (world.grants behind size) behind (good.grants behind size))
            ∙ bind_on (receive_lists cfg world (node_id_len_of cfg world fixed)) _ behind read lists
                (ap (λ n. receive_lists cfg world n behind) len_of
                  ∙ receive_lists_on behind rest refl)
            ∙ bind_on (decoded_whole (length (fixed ++ lists)) (decode_sess_init (fixed ++ lists)))
                _ read read (said peer)
                (unfold decoded_whole give in
                  (ap (λ r. decoded_whole (length (fixed ++ lists)) r read)
                      (decode_sess_init_on (said peer) (said-IsSessInit peer engine)
                        (init_octets-IsBuffer peer engine))
                    ∙ ap (λ (n : Neg Tcpv4SessInit). n read)
                        (if_yes (length (fixed ++ lists) == length (fixed ++ lists)) _ _
                          ((==_iff (length (fixed ++ lists)) _).1 refl))))
            ∙ applied,
      )

  pub recv_sess_init_on :
      (c : Session) (rest : List ℕ)
      → c.input ≡ init_octets peer ++ rest
      → (b : Bool) × (recv_sess_init cfg world c ≡ (
        some tt,
        adopted cfg (said peer) (claimed_node_id (said peer)) b (record c { input = rest }),
      ))
  unfolding recv_sess_init receive_typed
  recv_sess_init_on c rest e =
      let behind = record c { input = fixed_rest ++ (lists ++ rest) } in
      let (b, received) = receive_message_on behind rest refl in
      (
        b,
        bind_on (receive 1) _ c behind (tmsg_sess_init ∷ [])
              (receive_on 1 (tmsg_sess_init ∷ []) (fixed_rest ++ (lists ++ rest)) c refl e)
            ∙ received,
      )
