-- ===== src/Bptun/Route/Growth.antt =====
-- What addRoute of APP/bptun/src/bptun_route.c changes of the answers of bptunRouteLookup.
use ion_dtn_contrib.Prelude.{ℕ, ◌≡◌, ◌<◌, List, ◌∷◌, ◌++◌}
use ion_dtn_contrib.Bptun.Route.{Family, BptunRoute, addr_field}
use ion_dtn_contrib.Bptun.Route.Lookup.{Covers}

-- The route that addRoute writes.
abbrev pub new_route : Family → List ℕ → ℕ → List ℕ → BptunRoute
new_route family addr prefix_len eid = record {
  family = family;
  addr = addr_field family addr;
  prefix_len = prefix_len;
  eid = eid;
}

-- Longer than every route of the table that covers the destination.
abbrev pub IsLonger : Family → List ℕ → List BptunRoute → ℕ → Type 0
IsLonger family dest routes n =
    (r : BptunRoute) (before after : List BptunRoute)
    → routes ≡ before ++ (r ∷ after)
    → Covers family dest r
    → r.prefix_len < n
