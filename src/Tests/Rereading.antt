-- ===== src/Tests/Rereading.antt =====
-- The message of a merged partition of three elements, and that of a pose.
use libp2p_experiment.Base.{◌<◌, ◌^◌, ◌≡◌, refl, true, false, List, [], ◌∷◌, arith, nat_eq}
use libp2p_experiment.Base.{map}
use libp2p_experiment.Base.Effects.{ok}
use libp2p_experiment.Posemesh.{get_size_prefixed_root_as}
use libp2p_experiment.Programs.Vision.{pose_message}
use libp2p_experiment.Programs.Vision.PoseRead.{normal, numbers, pose_message-numbers}
use libp2p_experiment.FlatBuffers.{Table}
use libp2p_experiment.FlatBuffers.Built.{at}
use libp2p_experiment.Posemesh.{bytes_field}
use libp2p_experiment.Posemesh.DomainData
use libp2p_experiment.Posemesh.Partition.{get_data, data_length}
use libp2p_experiment.DataNode.{partition_bytes}
use libp2p_experiment.DataNode.Message.{merged_message}
use libp2p_experiment.DataNode.Message.Reread.{Reread, merged_message-Reread}
use libp2p_experiment.Tests.Builder.{
  Item, bytes, item_at, encode, outer, seek, lowered, table_of, small,
}
use libp2p_experiment.Tests.Builder.Drafts.{drafts, drafts-Built}

-- The domain data that came, with the id of its domain and its name.
abbrev pub came : Table
came =
    let items : List Item = bytes (7 ∷ []) ∷ bytes (8 ∷ 9 ∷ []) ∷ [] in
    table_of (encode (outer items) items ((3, at 2) ∷ (2, at 1) ∷ []))

-- The merged partition.
abbrev pub merged : Table
merged =
    let items : List Item = bytes (1 ∷ 0 ∷ 1 ∷ []) ∷ [] in
    table_of (encode (outer items) items ((0, at 1) ∷ []))

three : data_length small merged ≡ 3
unfolding data_length seek encode item_at lowered nat_eq
three = refl

second_and_third : (get_data small merged 1 ≡ false) × (get_data small merged 2 ≡ true)
unfolding get_data seek encode item_at lowered nat_eq
second_and_third = (refl, refl)

its_name : DomainData.name small came ≡ 8 ∷ 9 ∷ []
unfolding DomainData.name bytes_field seek encode item_at lowered nat_eq
its_name = refl

pub short : data_length small merged < 2 ^ 24
short = omega (arith, three)

merged_message-Reread_example :
    (d : Table) × ((q : Table) × Reread small
        (drafts-Built.utf8)
        (merged_message drafts
          (DomainData.domain_id small came)
          (DomainData.name small came)
          "v2"
          (partition_bytes small (data_length small merged) 0 merged))
        came
        "v2"
        merged
        d
        q)
merged_message-Reread_example =
    merged_message-Reread small drafts drafts-Built came merged "v2" short

-- A pose whose last number is 0.
pose_message-numbers_example :
    (t : Table) × ((get_size_prefixed_root_as small (pose_message drafts 1 2 3 4 5 6 0) 0 ≡ ok t)
      × (numbers small drafts drafts-Built t ≡ map normal (1 ∷ 2 ∷ 3 ∷ 4 ∷ 5 ∷ 6 ∷ 0 ∷ [])))
pose_message-numbers_example = pose_message-numbers small drafts drafts-Built 1 2 3 4 5 6 0
