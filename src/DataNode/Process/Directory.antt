-- ===== src/DataNode/Process/Directory.antt =====
-- What `processPartition` makes of the files of a directory.
use mathlib.Core.List.{foldl}
use libp2p_experiment.Base.{
  ◌≡◌, refl, ◌∙◌, ap, ◌<◌, ℕ, String, Bool, false, none, some, List, [], ◌∷◌, arith, if◌then◌else◌,
  ◌==◌, ◌||◌, string_eq, list_eq,
}
use libp2p_experiment.Base.Effects.{Result, ok, err, crash, pure, lift, handle, handle-ok, then_ok}
use libp2p_experiment.Os.{Bytes, FilePath, Fs, Entry, dir, file, stat, read_file, remove}
use libp2p_experiment.Os.Laws.{Healthy, read_file-ok, remove_total, remove-Healthy, stat-remove}
use libp2p_experiment.FlatBuffers.{FlatBuffers, Table, MutateLaws}
use libp2p_experiment.Posemesh.{get_size_prefixed_root_as}
use libp2p_experiment.Posemesh.Partition.{get_data, data_length}
use libp2p_experiment.DataNode.{get_partition, merge_files, merge_partitions}
use libp2p_experiment.DataNode.Merge.{contribution, merge_partitions_lem}

module _ (fb : FlatBuffers) (L : MutateLaws fb 4) where
  -- Many partitions merged into one: its length stays, and an element is set at the end exactly when
  -- it was set at first or one of the others has the same length and the element set. The
  -- writes to a vector are lawful.
  pub foldl-merge_partitions :
      (p : Table) (ts : List Table)
      → (data_length fb (foldl (merge_partitions fb) p ts) ≡ data_length fb p)
        × ((k : ℕ)
            → k < data_length fb p
            → get_data fb (foldl (merge_partitions fb) p ts) k
              ≡ foldl (λ b t. b || contribution fb p t k) (get_data fb p k) ts)
  foldl-merge_partitions p [] = (refl, λ k h. refl)
  foldl-merge_partitions p (t ∷ ts) =
      let one = merge_partitions_lem fb L p t in
      let rest = foldl-merge_partitions (merge_partitions fb p t) ts in
      (rest.0 ∙ one.0, λ k h. rest.1 k (rw one.0 h) ∙ rw (one.1 k h, one.0) refl)

-- Is the path one of the listed files?
abbrev pub listed : FilePath → List (String × Entry) → FilePath → Bool
listed p [] q = false
listed p ((n, dir) ∷ entries) q = listed p entries q
listed p ((n, file _) ∷ entries) q = q == (n ∷ p) || listed p entries q

abbrev pub then_try : Result Table → (Table → Result Table) → Result Table
then_try (ok t) f = f t
then_try (err e) f = err e
then_try (crash m) f = crash m

module _ (fb : FlatBuffers) where
  -- How the loop reads a file.
  abbrev pub parse : Bytes → Result Table
  parse bytes = then_try (get_size_prefixed_root_as fb bytes 0) (get_partition fb)

  parse-ok :
      (b : Bytes) {t : Table}
      → parse b ≡ ok t
      → (dd : Table) × (get_size_prefixed_root_as fb b 0 ≡ ok dd) × (get_partition fb dd ≡ ok t)
  parse-ok b {t} h = go (get_size_prefixed_root_as fb b 0) refl h
    where
      go :
          (r : Result Table)
          → get_size_prefixed_root_as fb b 0 ≡ r
          → then_try r (get_partition fb) ≡ ok t
          → (dd : Table) × (get_size_prefixed_root_as fb b 0 ≡ ok dd) × (get_partition fb dd ≡ ok t)
      go (ok dd) e k = (dd, e, k)
      go (err x) e k = cc
      go (crash x) e k = cc

  -- The listing is of files that are there, under different names, and the tables are those that
  -- they hold, in this order. Directories are skipped.
  pub data Holds (p : FilePath) : List (String × Entry) → Fs → List Table → Type 0 where
    end : {s : Fs} → Holds p [] s []
    skip :
        {s : Fs} {n : String} {entries : List (String × Entry)} {ts : List Table}
        → Holds p entries s ts
        → Holds p ((n, dir) ∷ entries) s ts
    holds :
        {s : Fs} {n : String} {b : Bytes} {entries : List (String × Entry)} {t : Table}
        {ts : List Table}
        → stat (n ∷ p) s ≡ some (file b)
        → parse b ≡ ok t
        → Holds p entries (remove (n ∷ p) s).1 ts
        → Holds p ((n, file b) ∷ entries) s (t ∷ ts)

  -- The state behind the loop: every listed file is removed.
  pub without : FilePath → List (String × Entry) → Fs → Fs
  without p [] s = s
  without p ((n, dir) ∷ entries) s = without p entries s
  without p ((n, file b) ∷ entries) s = without p entries (remove (n ∷ p) s).1

  pub merge_files_total :
      (p : FilePath) {entries : List (String × Entry)} (partition : Table) {s : Fs}
      {ts : List Table}
      → Healthy s
      → Holds p entries s ts
      → merge_files fb p entries partition s
        ≡ (ok (foldl (merge_partitions fb) partition ts), without p entries s)
  unfolding merge_files without
  merge_files_total p partition h end = refl
  merge_files_total p partition h (skip r) = merge_files_total p partition h r
  merge_files_total p partition {s} h (holds {n} {b} {entries} {t} there parsed r) =
      let (dd, rooted, part) = parse-ok b parsed in
      then_ok (read_file (n ∷ p)) _ s (read_file-ok (n ∷ p) b s (h (n ∷ p)).0 there) (
        then_ok (lift (get_size_prefixed_root_as fb b 0)) _ s (ap (λ x. (x, s)) rooted) (
          then_ok (lift (get_partition fb dd)) _ s (ap (λ x. (x, s)) part) (
            then_ok (handle (remove (n ∷ p)) (λ _. pure tt) pure) _ s
              (handle-ok (remove (n ∷ p)) (λ _. pure tt) pure s (remove_total (n ∷ p) b s h there))
              (merge_files_total p (merge_partitions fb partition t) (remove-Healthy (n ∷ p) s h)
                r))))

  pub without-Healthy :
      (p : FilePath) (entries : List (String × Entry)) (s : Fs)
      → Healthy s
      → Healthy (without p entries s)
  unfolding without
  without-Healthy p [] s h = h
  without-Healthy p ((n, dir) ∷ entries) s h = without-Healthy p entries s h
  without-Healthy p ((n, file b) ∷ entries) s h =
      without-Healthy p entries _ (remove-Healthy (n ∷ p) s h)

  pub stat-without :
      (p q : FilePath) {entries : List (String × Entry)} {s : Fs} {ts : List Table}
      → Healthy s
      → Holds p entries s ts
      → stat q (without p entries s) ≡ (if listed p entries q then none else stat q s)
  unfolding without
  stat-without p q h end = refl
  stat-without p q h (skip r) = stat-without p q h r
  stat-without p q {s} h (holds {n} {b} there parsed r) =
      ground (arith, stat-without p q (remove-Healthy (n ∷ p) s h) r, stat-remove q n p b s h there)
