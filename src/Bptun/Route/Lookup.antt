-- ===== src/Bptun/Route/Lookup.antt =====
-- bptunRouteLookup of APP/bptun/src/bptun_route.c against longest-prefix match on the bits.
use ion_dtn_contrib.Prelude.{
  ℕ, ◌+◌, ◌*◌, ◌≤◌, ◌<◌, ◌≡◌, ◌↔◌, refl, sym, ap, ◌∙◌, true, false, Bool, ◌&&◌, ltb, ltb→lt, ltb→ge,
  ◌==◌, ◌/◌, ◌^◌, if_case, drop, get_or, length-drop, All-drop, not, if◌then◌else◌, List, [], ◌∷◌,
  ◌++◌, append-nil, append_assoc, length, All, All-append, All-map, Option, none, some, arith,
}
use mathlib.Core.Path.{subst}
use ion_dtn_contrib.Wire.Size.{IsByte}
use ion_dtn_contrib.Bptun.Route.{
  Family, inet, inet6, same_family, addr_len, BptunRoute, covers, is_better, lookup_loop,
  prefix_matches, best_eid, lookup_dest, packet_dest, bptun_route_lookup, BptunRouteTable,
}
use ion_dtn_contrib.Bptun.Route.Prefix.{SameBits, prefix_matches_iff}

-- A route as addRoute makes it: an address field of 16 octets, and a prefix within the address.
pub record IsRoute (route : BptunRoute) : Type 0 where
  pub bytes : All IsByte route.addr
  pub field : length route.addr ≡ 16
  pub within : route.prefix_len ≤ 8 * addr_len route.family

-- A destination of the family: the octets from the address on, at least those of the address.
pub record IsDest (family : Family) (dest : List ℕ) : Type 0 where
  pub bytes : All IsByte dest
  pub long : addr_len family ≤ length dest

abbrev pub Covers : Family → List ℕ → BptunRoute → Type 0
Covers family dest route = (route.family ≡ family) × SameBits route.prefix_len route.addr dest

-- The first of the longest routes that cover the destination.
pub record Longest (family : Family) (dest : List ℕ) (routes : List BptunRoute) (best : BptunRoute)
    : Type 0 where
  pub before : List BptunRoute
  pub after : List BptunRoute
  pub found : routes ≡ before ++ (best ∷ after)
  pub covered : Covers family dest best
  pub earlier : All (λ r. Covers family dest r → r.prefix_len < best.prefix_len) before
  pub later : All (λ r. Covers family dest r → r.prefix_len ≤ best.prefix_len) after

abbrev pub Best : Family → List ℕ → List BptunRoute → Option BptunRoute → Type 0
Best family dest routes none = All (λ r. ¬ (Covers family dest r)) routes
Best family dest routes (some best) = Longest family dest routes best

same_family_iff : (f g : Family) → (same_family f g ≡ true) ↔ (f ≡ g)
same_family_iff inet inet = ((λ e. refl), (λ e. refl))
same_family_iff inet inet6 = ((λ e. cc), (λ e. cc))
same_family_iff inet6 inet = ((λ e. cc), (λ e. cc))
same_family_iff inet6 inet6 = ((λ e. refl), (λ e. refl))

addr_len_small : (f : Family) → 8 * addr_len f ≤ 8 * 16
addr_len_small inet = omega arith
addr_len_small inet6 = omega arith

both_iff :
    {P Q : Type 0} (a b : Bool)
    → (a ≡ true) ↔ P
    → (P → (b ≡ true) ↔ Q)
    → ((a && b) ≡ true) ↔ (P × Q)
both_iff true b f g = let p = f.0 refl in ((λ e. (p, (g p).0 e)), (λ (p, q). (g p).1 q))
both_iff false b f g = ((λ e. cc), (λ (p, q). f.1 p))

module _ (family : Family) (dest : List ℕ) (d : IsDest family dest) where
  prefix_iff :
      (r : BptunRoute)
      → IsRoute r
      → r.family ≡ family
      → (prefix_matches r.addr dest r.prefix_len ≡ true) ↔ SameBits r.prefix_len r.addr dest
  prefix_iff r v e =
      prefix_matches_iff r.prefix_len r.addr dest v.bytes d.bytes
        (omega (arith, v.within, v.field, addr_len_small r.family))
        (omega (arith, v.within, d.long, ap addr_len e))

  pub covers_iff :
      (r : BptunRoute) → IsRoute r → (covers family dest r ≡ true) ↔ Covers family dest r
  covers_iff r v =
      both_iff (same_family r.family family) (prefix_matches r.addr dest r.prefix_len)
        (same_family_iff r.family family) (prefix_iff r v)

  -- A route that is not better than the best of those before it changes nothing.
  keep :
      (done : List BptunRoute) (best : Option BptunRoute) (r : BptunRoute)
      → Best family dest done best
      → (Covers family dest r → is_better r best ≡ false)
      → Best family dest (done ++ (r ∷ [])) best
  keep done none r b n =
      All-append (λ r. ¬ (Covers family dest r)) done (r ∷ []) b ((λ c. cc (n c)), tt)
  keep done (some best) r b n = record {
    before = b.before;
    after = b.after ++ (r ∷ []);
    found = ap (λ l. l ++ (r ∷ [])) b.found ∙ append_assoc b.before (best ∷ b.after) (r ∷ []);
    covered = b.covered;
    earlier = b.earlier;
    later =
        All-append (λ r. Covers family dest r → r.prefix_len ≤ best.prefix_len) b.after (r ∷ [])
          b.later ((λ c. ground (arith, n c)), tt);
  }

  shorter :
      (done : List BptunRoute) (best : Option BptunRoute) (r : BptunRoute)
      → Best family dest done best
      → is_better r best ≡ true
      → All (λ q. Covers family dest q → q.prefix_len < r.prefix_len) done
  shorter done none r b e = All-map (λ q n c. absurd (n c)) done b
  shorter done (some best) r b e =
      subst (All (λ q. Covers family dest q → q.prefix_len < r.prefix_len)) (sym b.found) (
        All-append (λ q. Covers family dest q → q.prefix_len < r.prefix_len) b.before
          (best ∷ b.after) (All-map (λ q l c. omega (arith, l c, lt)) b.before b.earlier)
          ((λ c. lt), All-map (λ q l c. omega (arith, l c, lt)) b.after b.later))
    where
      lt : best.prefix_len < r.prefix_len
      lt = ltb→lt best.prefix_len r.prefix_len e

  -- A better one that covers the destination is the best from there on.
  replace :
      (done : List BptunRoute) (best : Option BptunRoute) (r : BptunRoute)
      → Best family dest done best
      → Covers family dest r
      → is_better r best ≡ true
      → Longest family dest (done ++ (r ∷ [])) r
  replace done best r b c e = record {
    before = done;
    after = [];
    found = refl;
    covered = c;
    earlier = shorter done best r b e;
    later = tt;
  }

  step :
      (done : List BptunRoute) (best : Option BptunRoute) (r : BptunRoute) (c t : Bool)
      → (c ≡ true) ↔ Covers family dest r
      → is_better r best ≡ t
      → Best family dest done best
      → Best family dest (done ++ (r ∷ [])) (if not c then best else if t then some r else best)
  step done best r false t f e b = keep done best r b (λ c. cc (f.1 c))
  step done best r true false f e b = keep done best r b (λ c. e)
  step done best r true true f e b = replace done best r b (f.0 refl) e

  loop-Best :
      (done : List BptunRoute) (best : Option BptunRoute) (routes : List BptunRoute)
      → All IsRoute routes
      → Best family dest done best
      → Best family dest (done ++ routes) (lookup_loop family dest best routes)
  unfolding lookup_loop
  loop-Best done best [] v b = subst (λ l. Best family dest l best) (sym (append-nil done)) b
  loop-Best done best (r ∷ routes) v b =
      subst (λ l. Best family dest l (lookup_loop family dest best (r ∷ routes)))
        (append_assoc done (r ∷ []) routes)
        (loop-Best (done ++ (r ∷ [])) _ routes v.1
          (step done best r (covers family dest r) (is_better r best) (covers_iff r v.0) refl b))

  -- The loop ends with the first of the longest routes that cover the destination, and with none
  -- where no route does.
  pub lookup_loop-Best :
      (routes : List BptunRoute)
      → All IsRoute routes
      → Best family dest routes (lookup_loop family dest none routes)
  lookup_loop-Best routes v = loop-Best [] none routes v tt

-- What a lookup answers: nothing for a packet without a destination or where no route covers it,
-- else the EID of the first of the longest routes that cover it.
abbrev pub Answer : List BptunRoute → Option (Family × List ℕ) → Option (List ℕ) → Type 0
Answer routes none answer = answer ≡ none
Answer routes (some (family, dest)) none = All (λ r. ¬ (Covers family dest r)) routes
Answer routes (some (family, dest)) (some eid) =
    (best : BptunRoute) × Longest family dest routes best × (best.eid ≡ eid)

best_eid-Answer :
    (family : Family) (dest : List ℕ) (routes : List BptunRoute) (best : Option BptunRoute)
    → Best family dest routes best
    → Answer routes (some (family, dest)) (best_eid best)
best_eid-Answer family dest routes none b = b
best_eid-Answer family dest routes (some best) b = (best, b, refl)

abbrev pub IsDestOf : Option (Family × List ℕ) → Type 0
IsDestOf none = Unit
IsDestOf (some (family, dest)) = IsDest family dest

at_offset :
    (family : Family) (offset size : ℕ) (packet : List ℕ)
    → offset + addr_len family ≤ size
    → All IsByte packet
    → IsDestOf (if ltb (length packet) size then none else some (family, drop offset packet))
at_offset family offset size packet h b =
    if_case IsDestOf (ltb (length packet) size) _ _ (λ e. tt)
      (λ e. record {
        bytes = All-drop IsByte offset packet b;
        long = omega (arith, length-drop offset packet, ltb→ge (length packet) size e);
      })

pub packet_dest-IsDest : (packet : List ℕ) → All IsByte packet → IsDestOf (packet_dest packet)
unfolding packet_dest
packet_dest-IsDest packet b =
    if_case IsDestOf (ltb (length packet) 1) _ _ (λ e. tt)
      (λ e.
        if_case IsDestOf (get_or packet 0 0 / 2 ^ 4 == 4) _ _
          (λ e. at_offset inet 16 20 packet (omega arith) b)
          (λ e.
            if_case IsDestOf (get_or packet 0 0 / 2 ^ 4 == 6) _ _
              (λ e. at_offset inet6 24 40 packet (omega arith) b) (λ e. tt)))

lookup_dest-Answer :
    (routes : List BptunRoute) (dest : Option (Family × List ℕ))
    → All IsRoute routes
    → IsDestOf dest
    → Answer routes dest (lookup_dest routes dest)
lookup_dest-Answer routes none v d = refl
lookup_dest-Answer routes (some (family, dest)) v d =
    best_eid-Answer family dest routes _ (lookup_loop-Best family dest d routes v)

-- The lookup is longest-prefix match within the packet's address family: for a packet of octets and
-- a table of well-formed routes it answers with the EID of the first of the longest routes whose
-- prefix has the bits of the destination, with none where no route covers it and none where the
-- packet has no destination.
pub bptun_route_lookup-Answer :
    (table : BptunRouteTable) (packet : List ℕ)
    → All IsRoute table.routes
    → All IsByte packet
    → Answer table.routes (packet_dest packet) (bptun_route_lookup table packet)
unfolding bptun_route_lookup
bptun_route_lookup-Answer table packet v b =
    lookup_dest-Answer table.routes (packet_dest packet) v (packet_dest-IsDest packet b)
