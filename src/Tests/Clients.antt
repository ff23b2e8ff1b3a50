-- ===== src/Tests/Clients.antt =====
-- The application that is described a domain, the recorder with nine frames, and a ping.
use libp2p_experiment.Base.{String, true}
use libp2p_experiment.Recorder.Outputs.{Left, recorder_job-told}
use libp2p_experiment.Base.{ℕ, ◌≡◌, refl, Option, some, [], ◌∷◌, string_eq, nat_eq}
use libp2p_experiment.Base.Effects.{Result, ok}
use libp2p_experiment.Os.{Bytes}
use libp2p_experiment.FlatBuffers.{Table}
use libp2p_experiment.Node.{PeerId}
use libp2p_experiment.Posemesh.Domain
use libp2p_experiment.Posemesh.DomainData
use libp2p_experiment.Posemesh.Partition.{get_data, data_length}
use libp2p_experiment.DataNode.{get_partition, partition_bytes}
use libp2p_experiment.App.{add_row, on_row, collect_readers, data_nodes, empty_visual}
use libp2p_experiment.Tests.{disk, vectors}

-- A domain with two readers.
abbrev park : Table
park = record { bytes = 1 ∷ 1 ∷ []; pos = 0 }

abbrev decode : Bytes → Result PeerId
decode bytes = ok "reader"

found_readers : data_nodes vectors decode "app" "read" park ≡ ok ("reader" ∷ "reader" ∷ [])
unfolding data_nodes collect_readers Domain.readers_length Domain.elements nat_eq string_eq
found_readers = refl

abbrev arrived : Table
arrived = record { bytes = 0 ∷ 0 ∷ 0 ∷ 0 ∷ 1 ∷ 0 ∷ []; pos = 0 }

abbrev third : Bytes → Option ℕ
third name = some 3

row_shown :
    (on_row vectors third arrived (disk [], empty_visual)).1.1
    ≡ [] ∷ [] ∷ [] ∷ (1 ∷ 0 ∷ []) ∷ [] ∷ []
unfolding on_row add_row get_partition DomainData.union_data DomainData.data_type partition_bytes
    get_data data_length nat_eq
row_shown = refl

-- A stream is the peer that it leads to, and its protocol.
abbrev opened : PeerId → String → Result (PeerId × String)
opened p protocol = ok (p, protocol)

recorder_job-told_example :
    Left opened
      (λ p protocol. (p, protocol))
      (λ p protocol. refl)
      (λ s bytes. true)
      (λ s p. refl)
      (λ i. "id")
      "url"
      "self"
      "v"
      ("a" ∷ "b" ∷ [])
      "c"
      ((7 ∷ []) ∷ (8 ∷ 9 ∷ []) ∷ [])
recorder_job-told_example =
    recorder_job-told opened (λ p protocol. (p, protocol)) (λ p protocol. refl) (λ s bytes. true)
      (λ s p. refl) (λ i. "id") "url" "self" "v" ("a" ∷ "b" ∷ []) "c" ((7 ∷ []) ∷ (8 ∷ 9 ∷ []) ∷ [])
