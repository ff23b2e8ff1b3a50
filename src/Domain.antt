-- ===== src/Domain.antt =====
-- models/domain.go: a domain and its cluster, and how the nodes write it as JSON.
use libp2p_experiment.Base.{◌≡◌, String, List, Option, none, some}
use libp2p_experiment.Base.Effects.{Result, ok}
use libp2p_experiment.Os.{Bytes}
use libp2p_experiment.Node.{NodeInfo, PeerId}

-- `Topic` is the name of the topic that was joined; it is not written to JSON.
pub record DomainCluster : Type 0 where
  pub secret : Bytes
  pub writer : NodeInfo
  pub readers : List PeerId
  pub others : List NodeInfo
  pub topic : Option String

pub record Domain : Type 0 where
  pub id : String
  pub name : String
  pub cluster : DomainCluster

-- What is left of a domain in JSON.
abbrev pub without_topic : Domain → Domain
without_topic d = record d { cluster = record d.cluster { topic = none } }

-- `encoding/json` at `Domain`: the encoder, and the decoder on what a stream or a file holds.
pub record Json : Type 0 where
  pub encode : Domain → Result Bytes
  pub decode : Bytes → Option Domain

pub record IsLawful (json : Json) : Type 0 where
  pub decode-encode :
      (d : Domain) (bytes : Bytes)
      → json.encode d ≡ ok bytes
      → json.decode bytes ≡ some (without_topic d)
