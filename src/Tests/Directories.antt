-- ===== src/Tests/Directories.antt =====
-- A discovery node that hears of a portal, and one that makes a domain.
use libp2p_experiment.Base.Effects.{Result, ok, err, failed}
use libp2p_experiment.Discovery.{Topic, portals, domains}
use libp2p_experiment.Discovery.Start.{on_start, all_ok, Outcome, on_start-Outcome}
use libp2p_experiment.Base.{◌≡◌, refl, some, [], ◌∷◌, string_eq}
use libp2p_experiment.Base.Dict
use libp2p_experiment.FlatBuffers.{Table}
use libp2p_experiment.Discovery.{Directory}
use libp2p_experiment.Discovery.Portals.{receive_portal}
use libp2p_experiment.Discovery.Portals.FirstWins.{receive_portal-keeps}
use libp2p_experiment.Tests.{disk, vectors}

abbrev known : Table
known = record { bytes = 1 ∷ []; pos = 0 }

abbrev heard : Table
heard = record { bytes = 5 ∷ 0 ∷ 0 ∷ 0 ∷ 1 ∷ []; pos = 4 }

abbrev empty : Directory
empty = record { domain_list = []; portal_list = []; published = []; sent = [] }

abbrev with_portal : Directory
with_portal = record empty { portal_list = ("name", known) ∷ [] }

has_portal : Dict.lookup "name" with_portal.portal_list ≡ some known
unfolding Dict.lookup string_eq
has_portal = refl

receive_portal-keeps_example :
    Dict.lookup "name"
      (receive_portal vectors "a" [] "b" heard.bytes (disk [], with_portal)).1.1.portal_list
    ≡ some known
receive_portal-keeps_example =
    receive_portal-keeps vectors [] heard.bytes "a" "b" (disk []) with_portal "name" known
      has_portal

-- The topic of the domains cannot be subscribed to.
abbrev half_subscribed : Topic → Result (Unit {0})
half_subscribed portals = ok tt
half_subscribed domains = err (failed "subscribe")

on_start-Outcome_example :
    Outcome
      (all_ok (λ t. ok tt) half_subscribed (ok tt))
      (on_start (λ t. ok tt) half_subscribed (ok tt) [])
on_start-Outcome_example = on_start-Outcome (λ t. ok tt) half_subscribed (ok tt)
