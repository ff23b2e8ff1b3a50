-- ===== src/DataNode/Process/Replace.antt =====
-- A partition that comes in replaces the files of its directory by one merged file.
use mathlib.Core.List.{foldl}
use libp2p_experiment.Base.{
  ◌≡◌, ◌≢◌, ◌∙◌, ap, length, refl, String, Bool, false, Option, some, List, [], ◌∷◌, arith, Eq,
  string_eq, list_eq, if◌then◌else◌, ◌==◌, none,
}
use libp2p_experiment.Base.Effects.{Result, ok, Exec, pure, lift, then_ok}
use libp2p_experiment.Os.{Bytes, FilePath, Fs, Entry, dir, file, stat, put, create, write, read_dir}
use libp2p_experiment.Os.Laws.{
  Healthy, create_total, write_total, put-Healthy, stat-put, stat-put_self,
}
use libp2p_experiment.FlatBuffers.{FlatBuffers, Table, BuilderApi}
use libp2p_experiment.Posemesh.DomainData
use libp2p_experiment.Posemesh.Partition.{data_length}
use libp2p_experiment.Utils.Receive.{on_fs, create_temp}
use libp2p_experiment.DataNode.{get_partition, merge_files, merge_partitions, partition_bytes}
use libp2p_experiment.DataNode.Message.{merged_message}
use libp2p_experiment.DataNode.Process.{
  Network, Streams, path_string, notify, write_merged, finish, process_partition,
}
use libp2p_experiment.DataNode.Process.Directory.{
  Holds, without, listed, merge_files_total, stat-without, without-Healthy,
}

on_fs_lem :
    {S A : Type 0} (m : Exec Fs A) {fs fs' : Fs} {n : S} {r : Result A}
    → m fs ≡ (r, fs')
    → on_fs m (fs, n) ≡ (r, (fs', n))
on_fs_lem {S} {A} m {n} e = ap (λ (x : Result A × Fs). (x.0, (x.1, n))) e

parent-ne : (n : String) (p : FilePath) → p ≢ (n ∷ p)
parent-ne n p e = absurd (omega (arith, ap length e))

not_dir_after :
    {fb : FlatBuffers} (p q : FilePath) {entries : List (String × Entry)} {s : Fs} {ts : List Table}
    → Healthy s
    → Holds fb p entries s ts
    → stat q s ≢ some dir
    → stat q (without fb p entries s) ≢ some dir
not_dir_after {fb} p q h hold free e = ground (arith, stat-without fb p q h hold)

module _ (fb : FlatBuffers) (api : BuilderApi) (temp_name : FilePath → Fs → String) (ver : String)
    (p : FilePath) (domain_data : Table) where
  -- The message for a partition in place of the one that came in.
  abbrev pub message_of : Table → Bytes
  message_of q =
      merged_message api (DomainData.domain_id fb domain_data) (DomainData.name fb domain_data) ver
        (partition_bytes fb (data_length fb q) 0 q)

  -- The file that is written, and the state behind.
  abbrev pub merged_path : Fs → FilePath
  merged_path s = temp_name p s ∷ p

  abbrev pub rewritten : Table → Fs → Fs
  rewritten q s = put (merged_path s) (file (message_of q)) (put (merged_path s) (file []) s)

  create_temp_total :
      (s : Fs)
      → Healthy s
      → stat p s ≡ some dir
      → stat (merged_path s) s ≢ some dir
      → create_temp temp_name p s ≡ (ok (temp_name p s), put (merged_path s) (file []) s)
  create_temp_total s h there free =
      then_ok (create (temp_name p s) p) (λ _. pure (temp_name p s)) s
        (create_total (temp_name p s) p s (h (merged_path s)).0 there free) refl

  write_merged_total :
      (q : Table) (s : Fs)
      → Healthy s
      → stat p s ≡ some dir
      → stat (merged_path s) s ≢ some dir
      → write_merged fb api temp_name ver p domain_data q s ≡ (ok (message_of q), rewritten q s)
  unfolding write_merged
  write_merged_total q s h there free =
      then_ok (create_temp temp_name p) _ s (create_temp_total s h there free) (
        then_ok (write (merged_path s) (message_of q)) _ _
          (write_total (merged_path s) (message_of q) [] _
            (put-Healthy (merged_path s) (file []) s h (merged_path s)).1
            (stat-put_self (temp_name p s) p (file []) s))
          refl)

  not_listed : (entries : List (String × Entry)) → listed p entries p ≡ false
  not_listed [] = refl
  not_listed ((n, dir) ∷ entries) = not_listed entries
  not_listed ((n, file b) ∷ entries) = ground (arith, not_listed entries, parent-ne n p)

  module _ {S : Type 0} ⦃e : Eq S⦄ (streams : Streams S)
      (compiled : String → String → Option Bool) where
    -- `processPartition` on a file system without faults, for a partition that can be read and a
    -- directory that is not empty, whose files all hold partitions, and where no directory stands at
    -- the path of the new file: the partitions are merged into the one that came in, the files are
    -- removed and replaced by one file with the message of the result, which is then sent to the
    -- subscribers.
    pub process_partition_merges :
        (partition : Table) {x : String × Entry} {entries : List (String × Entry)} {ts : List Table}
        (fs : Fs) (n : Network S)
        → Healthy fs
        → stat p fs ≡ some dir
        → stat (merged_path (without fb p (x ∷ entries) fs)) fs ≢ some dir
        → get_partition fb domain_data ≡ ok partition
        → read_dir p fs ≡ (ok (x ∷ entries), fs)
        → Holds fb p (x ∷ entries) fs ts
        → process_partition streams compiled fb api temp_name ver p domain_data (fs, n)
          ≡ notify streams compiled
              (path_string p)
              (message_of (foldl (merge_partitions fb) partition ts))
              (
                rewritten
                    (foldl (merge_partitions fb) partition ts)
                    (without fb p (x ∷ entries) fs),
                n,
              )
    unfolding process_partition finish
    process_partition_merges partition {x} {entries} {ts} fs n h there free parsed read_here hold =
        let merged = foldl (merge_partitions fb) partition ts in
        let t = without fb p (x ∷ entries) fs in
        let there' = stat-without fb p p h hold ∙ rw (not_listed (x ∷ entries)) there in
        let free' = not_dir_after p (merged_path t) h hold free in
        let ht = without-Healthy fb p (x ∷ entries) fs h in
        then_ok (on_fs (read_dir p)) _ (fs, n) (on_fs_lem (read_dir p) read_here)
          (then_ok (lift (get_partition fb domain_data)) _ (fs, n) (ap (λ r. (r, (fs, n))) parsed)
            (then_ok (on_fs (merge_files fb p (x ∷ entries) partition)) _ (fs, n)
              (on_fs_lem (merge_files fb p (x ∷ entries) partition)
                (merge_files_total fb p partition h hold))
              (then_ok (on_fs (write_merged fb api temp_name ver p domain_data merged)) _ (t, n)
                (on_fs_lem (write_merged fb api temp_name ver p domain_data merged)
                  (write_merged_total merged t ht there' free'))
                refl)))

  -- What the disk holds after such a merge, on a file system without faults and for a listing of
  -- files that hold partitions: at the new path the message of the merged partition, at the path of
  -- no other listed file anything, and elsewhere what was there.
  pub stat-rewritten :
      (q : Table) (r : FilePath) {entries : List (String × Entry)} {fs : Fs} {ts : List Table}
      → Healthy fs
      → Holds fb p entries fs ts
      → stat r (rewritten q (without fb p entries fs)) ≡ (
          if r == merged_path (without fb p entries fs)
          then some (file (message_of q))
          else if listed p entries r
          then none
          else stat r fs)
  stat-rewritten q r {entries} {fs} h hold =
      let t = without fb p entries fs in
      let f = temp_name p t in
      ground (
        arith,
        stat-without fb p r h hold,
        stat-put r f p (file (message_of q)) (put (merged_path t) (file []) t),
        stat-put r f p (file []) t,
      )
