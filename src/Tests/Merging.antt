-- ===== src/Tests/Merging.antt =====
-- A data node with one stored partition, into which another is merged.
use mathlib.Core.List.{foldl}
use libp2p_experiment.Base.{
  ℕ, ◌<◌, ◌≡◌, refl, ◌≢◌, String, Bool, true, false, Option, none, some, List, [], ◌∷◌, ◌++◌, ◌==◌,
  ◌||◌, list_eq, string_eq, nat_eq, length,
}
use libp2p_experiment.Base.Dict
use libp2p_experiment.Base.Effects.{ok}
use libp2p_experiment.Os.{
  Bytes, Entry, dir, file, FilePath, Fs, stat, read_dir, sort, place, children,
}
use libp2p_experiment.FlatBuffers.{BuilderApi, Table}
use libp2p_experiment.Posemesh.{get_size_prefixed_root_as}
use libp2p_experiment.Posemesh.DomainData
use libp2p_experiment.Posemesh.Partition.{get_data, data_length}
use libp2p_experiment.DataNode.{get_partition, merge_partitions}
use libp2p_experiment.DataNode.Merge.{contribution}
use libp2p_experiment.DataNode.Process.{Network, Streams, path_string, notify, process_partition}
use libp2p_experiment.DataNode.Process.Directory.{Holds, without, parse, foldl-merge_partitions}
use libp2p_experiment.DataNode.Process.Notify.{notify-subscribers}
use libp2p_experiment.DataNode.Process.Replace.{
  message_of, merged_path, rewritten, process_partition_merges,
}
use libp2p_experiment.Tests.{disk, disk-Healthy, little_endian, vectors, vectors-MutateLaws}

abbrev bits : Bytes → Table
bits bs = record { bytes = bs; pos = 0 }

-- A builder that keeps the vectors only.
abbrev plain : BuilderApi
plain = record {
  Builder = Bytes;
  new_builder = [];
  reset = λ _. [];
  create_string = λ s b. (0, b);
  create_byte_string = λ bs b. (0, b);
  create_byte_vector = λ bs b. (0, b ++ bs);
  start_vector = λ size n align b. b;
  prepend_uoffset = λ x b. b;
  end_vector = λ n b. (0, b);
  start_object = λ n b. b;
  end_object = λ b. (0, b);
  prepend_uoffset_slot = λ i x d b. b;
  prepend_uint32_slot = λ i x d b. b;
  prepend_byte_slot = λ i x d b. b;
  prepend_int64_slot = λ i x d b. b;
  prepend_float32_slot = λ i x d b. b;
  builder_offset = λ b. length b;
  finish_size_prefixed = λ p b. little_endian (length b) ++ b;
  finished_bytes = λ b. b;
}

abbrev others : List Table
others = bits (0 ∷ 1 ∷ []) ∷ bits (1 ∷ []) ∷ []

foldl-merge_partitions_example :
    (data_length vectors (foldl (merge_partitions vectors) (bits (1 ∷ 0 ∷ [])) others)
      ≡ data_length vectors (bits (1 ∷ 0 ∷ [])))
    × ((k : ℕ)
        → k < data_length vectors (bits (1 ∷ 0 ∷ []))
        → get_data vectors (foldl (merge_partitions vectors) (bits (1 ∷ 0 ∷ [])) others) k
          ≡ foldl
              (λ b t. b || contribution vectors (bits (1 ∷ 0 ∷ [])) t k)
              (get_data vectors (bits (1 ∷ 0 ∷ [])) k)
              others)
foldl-merge_partitions_example =
    foldl-merge_partitions vectors vectors-MutateLaws (bits (1 ∷ 0 ∷ [])) others

abbrev place_of : FilePath
place_of = "map_Partition" ∷ []

abbrev stored : Bytes
stored = little_endian 2 ++ 0 ∷ 1 ∷ []

abbrev listing : List (String × Entry)
listing = ("old.bin", file stored) ∷ []

abbrev stored_files : List (FilePath × Entry)
stored_files = (place_of, dir) ∷ ("old.bin" ∷ place_of, file stored) ∷ []

abbrev store_disk : Fs
store_disk = disk stored_files

abbrev temp : FilePath → Fs → String
temp p fs = "new.bin"

abbrev arrived : Table
arrived = bits (9 ∷ 9 ∷ 9 ∷ 9 ∷ 1 ∷ 0 ∷ [])

there : stat place_of store_disk ≡ some dir
unfolding stat Dict.lookup list_eq string_eq
there = refl

listed_there : read_dir place_of store_disk ≡ (ok listing, store_disk)
unfolding read_dir stat children sort place Dict.lookup list_eq string_eq
listed_there = refl

stored_there : stat ("old.bin" ∷ place_of) store_disk ≡ some (file stored)
unfolding stat Dict.lookup list_eq string_eq
stored_there = refl

readable : parse vectors stored ≡ ok (bits (0 ∷ 1 ∷ []))
unfolding get_size_prefixed_root_as get_partition DomainData.union_data DomainData.data_type nat_eq
readable = refl

arrived_partition : get_partition vectors arrived ≡ ok (bits (1 ∷ 0 ∷ []))
unfolding get_partition DomainData.union_data DomainData.data_type nat_eq
arrived_partition = refl

stored-Holds : Holds vectors place_of listing store_disk (bits (0 ∷ 1 ∷ []) ∷ [])
stored-Holds = Holds.holds stored_there readable Holds.end

new_free :
    stat
      (merged_path vectors plain temp "v1" place_of arrived
        (without vectors place_of listing store_disk))
      store_disk
    ≢ some dir
unfolding stat Dict.lookup list_eq string_eq
new_free e = cc

-- Stream 1 is open, stream 2 is closed, and both want everything.
abbrev network : Network ℕ
network = record { subscribers = ("map_.*", 1 ∷ 2 ∷ []) ∷ []; sent = [] }

abbrev streams : Streams ℕ
streams = record { is_closed = λ s. s == 2; write_fails = λ s. false }

abbrev compiled : String → String → Option Bool
compiled reg_exp path = some true

process_partition_merges_example :
    process_partition streams compiled vectors plain temp "v1" place_of arrived
      (store_disk, network)
    ≡ notify streams compiled
        (path_string place_of)
        (message_of vectors plain temp "v1" place_of arrived
          (foldl (merge_partitions vectors) (bits (1 ∷ 0 ∷ [])) (bits (0 ∷ 1 ∷ []) ∷ [])))
        (
          rewritten vectors plain temp "v1" place_of arrived
              (foldl (merge_partitions vectors) (bits (1 ∷ 0 ∷ [])) (bits (0 ∷ 1 ∷ []) ∷ []))
              (without vectors place_of listing store_disk),
          network,
        )
process_partition_merges_example =
    process_partition_merges vectors plain temp "v1" place_of arrived streams compiled
      (bits (1 ∷ 0 ∷ [])) store_disk network (disk-Healthy stored_files) there new_free
      arrived_partition listed_there stored-Holds

no_such_expression : Dict.lookup "map_Partition" network.subscribers ≡ none
unfolding Dict.lookup string_eq
no_such_expression = refl

notify-subscribers_example :
    (notify streams compiled "map_Partition" (7 ∷ []) (store_disk, network)).1.1.subscribers
    ≡ network.subscribers
notify-subscribers_example =
    notify-subscribers streams compiled "map_Partition" (7 ∷ []) store_disk network
      no_such_expression
