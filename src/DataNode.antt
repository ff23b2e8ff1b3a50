-- ===== src/DataNode.antt =====
-- example/data_node/main.go: the node that keeps domain data. A partition that comes in is merged
-- with the ones that the directory of its domain and name holds.
pub mod Merge
pub mod Message
pub mod Process
pub mod Download
use libp2p_experiment.Base.{
  ℕ, zero, suc, ◌+◌, String, ◌<>◌, Bool, true, false, Option, none, some, List, [], ◌∷◌,
  if◌then◌else◌, ◌==◌, ◌||◌, nat_eq, string_eq, ltb, Eq,
}
use libp2p_experiment.Base.Dict.{Dict}
use libp2p_experiment.Base.Effects.{
  Error, failed, Result, ok, err, crash, Exec, pure, raise, lift, ◌>>=◌, ◌>>◌, handle,
}
use libp2p_experiment.Os.{
  Bytes, FilePath, Fs, Entry, dir, file, mkdir_all, write, read_file, remove, read_dir,
}
use libp2p_experiment.FlatBuffers.{FlatBuffers, Table, BuilderApi}
use libp2p_experiment.Posemesh.{get_size_prefixed_root_as}
use libp2p_experiment.Posemesh.DomainData
use libp2p_experiment.Posemesh.DomainData.{any_domain_data_partition}
use libp2p_experiment.Posemesh.Partition.{get_data, data_length, mutate_data}
use libp2p_experiment.Utils.Receive.{dir_path, on_fs, create_temp}
use libp2p_experiment.Utils.Subscribers.{remove_subscriber, find_subscribers}

module _ (fb : FlatBuffers) where
  -- `utils.GetPartition`
  unfoldable pub get_partition : Table → Result Table
  get_partition domain_data = elim (DomainData.union_data fb domain_data) [
    | none ↦ err (failed "failed to get data from domain data")
    | some t ↦
        if DomainData.data_type fb domain_data == any_domain_data_partition
        then ok t
        else err (failed "domain data is not partition")
  ]

  -- The loop of `mergePartitions` from `i` on, for at most `left` rounds.
  unfoldable pub merge_loop : ℕ → ℕ → Table → Table → Table
  merge_loop zero i p1 p2 = p1
  merge_loop (suc left) i p1 p2 =
      let rest =
        merge_loop left (suc i) (mutate_data fb p1 i (get_data fb p1 i || get_data fb p2 i)).1 p2 in
      if ltb i (data_length fb p1) then rest else p1

  unfoldable pub merge_partitions : Table → Table → Table
  unfolding merge_loop
  merge_partitions p1 p2 =
      if data_length fb p1 == data_length fb p2 then merge_loop (data_length fb p1) 0 p1 p2 else p1

  -- The loop of `processPartition` over the directory. The error of `os.Remove` is dropped.
  unfoldable pub merge_files : FilePath → List (String × Entry) → Table → Exec Fs Table
  unfolding merge_partitions
  merge_files p [] partition = pure partition
  merge_files p ((n, dir) ∷ entries) partition = merge_files p entries partition
  merge_files p ((n, file _) ∷ entries) partition = do
    buf ← read_file (n ∷ p)
    dd ← lift (get_size_prefixed_root_as fb buf 0)
    q ← lift (get_partition dd)
    handle (remove (n ∷ p)) (λ _. pure tt) pure
    merge_files p entries (merge_partitions partition q)

  -- The bytes of the partition that is written: one for each element.
  unfoldable pub partition_bytes : ℕ → ℕ → Table → Bytes
  partition_bytes zero i p = []
  partition_bytes (suc left) i p =
      (if get_data fb p i then 1 else 0) ∷ partition_bytes left (suc i) p
