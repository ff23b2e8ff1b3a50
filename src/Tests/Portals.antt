-- ===== src/Tests/Portals.antt =====
-- A portal that one discovery node publishes and another one reads.
use text.Mathlib.Text
use libp2p_experiment.Base.{
  ◌≡◌, ◌≢◌, refl, ap, String, true, false, List, [], ◌∷◌, nat_eq, string_eq,
}
use libp2p_experiment.FlatBuffers.{Table}
use libp2p_experiment.FlatBuffers.Built.{at, float}
use libp2p_experiment.Posemesh.{bytes_field}
use libp2p_experiment.Posemesh.Portal
use libp2p_experiment.Discovery.{Directory}
use libp2p_experiment.Tests.Builder.{
  Item, bytes, item_at, encode, outer, seek, lowered, table_of, small,
}

-- A portal with an id of two bytes, a size and a name, on its way from the node `b` to the node `a`.
abbrev door : Table
door =
    let items : List Item = bytes (7 ∷ []) ∷ bytes (8 ∷ 9 ∷ []) ∷ [] in
    table_of (encode (outer items) items ((2, at 2) ∷ (1, float 5) ∷ (0, at 1) ∷ []))

abbrev no_portals : Directory
no_portals = record { domain_list = []; portal_list = []; published = []; sent = [] }

b_ne_a : ◌≢◌ {A = String} "b" "a"
b_ne_a e = let f : true ≡ false = ap (Text.◌==◌ "b") e in cc

door_read : (Portal.short_id small door ≡ 8 ∷ 9 ∷ []) × (Portal.size small door ≡ 5)
unfolding Portal.short_id Portal.size bytes_field seek encode item_at lowered nat_eq
door_read = (refl, refl)
