-- ===== src/Discovery.antt =====
-- example/discovery_node/main.go: the node that knows the domains and the portals, answers for them
-- and exchanges them with the other discovery nodes over two topics.
pub mod Domains
pub mod Start
pub mod Portals
use libp2p_experiment.Base.{ℕ, String, List, [], ◌∷◌, ◌++◌, Option, none, some}
use libp2p_experiment.Base.Dict.{Dict}
use libp2p_experiment.Base.Effects.{Result, ok, err, crash, Exec}
use libp2p_experiment.Os.{Bytes, Fs}
use libp2p_experiment.FlatBuffers.{Table}
use libp2p_experiment.Node.{PeerId}
use libp2p_experiment.Domain.{Domain}

pub data Topic : Type 0 where
  portals domains : Topic

-- The two lists, what was published, and the invitations that were sent.
pub record Directory : Type 0 where
  pub domain_list : Dict String Domain
  pub portal_list : Dict String Table
  pub published : List (Topic × Bytes)
  pub sent : List (PeerId × Bytes)

abbrev pub World : Type 0
World = Fs × Directory

-- `topic.Publish`, which the network may refuse.
unfoldable pub publish : (Topic → Bytes → Result (Unit {0})) → Topic → Bytes → Exec World (Unit {0})
publish network topic bytes (fs, d) = elim (network topic bytes) [
  | ok _ ↦ (ok tt, (fs, record d { published = d.published ++ (topic, bytes) ∷ [] }))
  | err e ↦ (err e, (fs, d))
  | crash m ↦ (crash m, (fs, d))
]
