-- ===== src/DataNode/Process.antt =====
-- example/data_node/main.go: `processPartition` and `classifyDomainData`. The state beside the file
-- system is the table of subscribers and what was written to each stream. `ver` is the new UUID.
pub mod Directory
pub mod Replace
pub mod Notify
use libp2p_experiment.Base.{
  ℕ, zero, suc, String, ◌<>◌, Bool, true, false, Option, none, some, List, [], ◌∷◌, ◌++◌,
  if◌then◌else◌, ◌==◌, nat_eq, string_eq, Eq,
}
use libp2p_experiment.Base.Dict.{Dict}
use libp2p_experiment.Base.Effects.{
  Error, io_error, Result, ok, err, crash, Exec, pure, raise, lift, ◌>>=◌, ◌>>◌, handle,
}
use libp2p_experiment.Os.{Bytes, FilePath, Fs, Entry, mkdir_all, write, read_dir}
use libp2p_experiment.FlatBuffers.{FlatBuffers, Table, BuilderApi}
use libp2p_experiment.Posemesh.DomainData
use libp2p_experiment.Posemesh.DomainData.{any_domain_data_partition}
use libp2p_experiment.Posemesh.Partition.{data_length}
use libp2p_experiment.Utils.Receive.{dir_path, on_fs, create_temp}
use libp2p_experiment.Utils.Subscribers.{remove_subscriber, find_subscribers}
use libp2p_experiment.DataNode.{get_partition, merge_files, partition_bytes}
use libp2p_experiment.DataNode.Message.{merged_message}

pub record Network (S : Type 0) : Type 0 where
  pub subscribers : Dict String (List S)
  pub sent : List (S × Bytes)

-- `path.Join`, on the names of a path
unfoldable pub path_string : FilePath → String
path_string [] = ""
path_string (n ∷ []) = n
path_string (n ∷ m ∷ p) = path_string (m ∷ p) <> "/" <> n

-- The streams as the network has them: which connections are closed, and where a write fails.
pub record Streams (S : Type 0) : Type 0 where
  pub is_closed : S → Bool
  pub write_fails : S → Bool

module _ {S : Type 0} ⦃e : Eq S⦄ (streams : Streams S) where
  open streams use {is_closed, write_fails}

  -- The loop over the subscribers that were found.
  unfoldable pub notify_each : String → Bytes → List S → Exec (Fs × Network S) (Unit {0})
  notify_each key message [] w = pure tt w
  notify_each key message (s ∷ rest) (fs, n) =
      let dropped = record n { subscribers = remove_subscriber key s n.subscribers } in
      let after_drop = notify_each key message rest (fs, dropped) in
      let told = record n { sent = n.sent ++ (s, message) ∷ [] } in
      let after_write = notify_each key message rest (fs, told) in
      if is_closed s
      then after_drop
      else if write_fails s
      then raise io_error (fs, n)
      else after_write

module _ (fb : FlatBuffers) (api : BuilderApi) (temp_name : FilePath → Fs → String)
    (ver : String) where
  -- The file that replaces those that were merged, and the message in it.
  unfoldable pub write_merged : FilePath → Table → Table → Exec Fs Bytes
  write_merged p domain_data partition = do
    f ← create_temp temp_name p
    let message =
        merged_message api (DomainData.domain_id fb domain_data) (DomainData.name fb domain_data)
          ver (partition_bytes fb (data_length fb partition) 0 partition)
    write (f ∷ p) message
    pure message

module _ {S : Type 0} ⦃e : Eq S⦄ (streams : Streams S)
    (compiled : String → String → Option Bool) where
  unfoldable pub notify : String → Bytes → Exec (Fs × Network S) (Unit {0})
  unfolding notify_each
  notify key message (fs, n) =
      notify_each streams key message (find_subscribers compiled key n.subscribers) (fs, n)

  module _ (fb : FlatBuffers) (api : BuilderApi) (temp_name : FilePath → Fs → String)
      (ver : String) where
    -- The end of `processPartition`, which an empty directory skips.
    unfoldable pub finish :
        FilePath → Table → List (String × Entry) → Table → Exec (Fs × Network S) (Unit {0})
    unfolding write_merged notify
    finish p domain_data [] partition = pure tt
    finish p domain_data (_ ∷ _) partition = do
      message ← on_fs (write_merged fb api temp_name ver p domain_data partition)
      notify (path_string p) message

    unfoldable pub process_partition : FilePath → Table → Exec (Fs × Network S) (Unit {0})
    unfolding finish
    process_partition p domain_data = do
      entries ← on_fs (read_dir p)
      partition ← lift (get_partition fb domain_data)
      merged ← on_fs (merge_files fb p entries partition)
      finish p domain_data entries merged

    unfoldable pub classify_domain_data : FilePath → Table → Exec (Fs × Network S) (Unit {0})
    unfolding process_partition
    classify_domain_data base domain_data = do
      on_fs (mkdir_all (dir_path fb temp_name base domain_data))
      elim (DomainData.union_data fb domain_data) [
        | none ↦ pure tt
        | some _ ↦
            if DomainData.data_type fb domain_data == any_domain_data_partition
            then process_partition (dir_path fb temp_name base domain_data) domain_data
            else pure tt
      ]
