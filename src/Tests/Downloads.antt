-- ===== src/Tests/Downloads.antt =====
-- Files that are received, sent and read again.
use libp2p_experiment.Base.{
  ℕ, suc, ◌≡◌, refl, ◌≢◌, String, Bool, true, false, Option, some, List, [], ◌∷◌, ◌++◌, arith,
  string_eq, list_eq, nat_eq,
}
use libp2p_experiment.Base.Dict
use libp2p_experiment.Base.Effects.{ok, Exec}
use libp2p_experiment.Os.{
  Bytes, Fs, FilePath, Entry, dir, file, stat, mkdir_all, read_file, read_dir, sort, place,
  children,
}
use libp2p_experiment.Os.Laws.{NoFileOn}
use libp2p_experiment.FlatBuffers.{Table}
use libp2p_experiment.Posemesh.{get_root_as, get_size_prefixed_root_as}
use libp2p_experiment.Wire.Frames.{sized}
use libp2p_experiment.Utils.Receive.{store}
use libp2p_experiment.Utils.Receive.Stored.{stored_in, stored, store-readable}
use libp2p_experiment.Utils.Subscribers.{match_domain_data, add_subscriber}
use libp2p_experiment.DataNode.Process.{Network, Streams}
use libp2p_experiment.DataNode.Download.{request_key, check_file, on_download_request}
use libp2p_experiment.DataNode.Download.Sent.{Firsts, to_stream, on_download_request-sent}
use libp2p_experiment.Tests.{disk, disk-Healthy, little_endian, vectors, vectors-SizePrefix}
use libp2p_experiment.Tests.Storage.{no_entry, nothing_there}

pub free : (p : FilePath) → NoFileOn p (disk [])
free [] = tt
free (n ∷ p) = nothing_there n p (free p)

pub no_dir : (n : String) (p : FilePath) → stat (n ∷ p) (disk []) ≢ some dir
no_dir n p e = ground (arith, no_entry n p)

abbrev bits : Table
bits = record { bytes = 0 ∷ 1 ∷ []; pos = 0 }

readable : get_root_as vectors bits.bytes 0 ≡ ok bits
unfolding get_root_as
readable = refl

abbrev temp : FilePath → Fs → String
temp p s = "1.bin"

store-readable_example :
    (store vectors temp [] (little_endian 2) bits.bytes bits (disk [])
      ≡ (ok tt, stored vectors temp [] (little_endian 2) bits.bytes bits (disk [])))
    × (read_file
          ("1.bin" ∷ stored_in vectors temp [] (little_endian 2) bits.bytes bits (disk []))
          (stored vectors temp [] (little_endian 2) bits.bytes bits (disk []))
        ≡ (
          ok (sized vectors vectors-SizePrefix bits.bytes),
          stored vectors temp [] (little_endian 2) bits.bytes bits (disk []),
        ))
    × ((dd' : Table) × (get_size_prefixed_root_as vectors
            (sized vectors vectors-SizePrefix bits.bytes)
            0
          ≡ ok dd'))
unfolding vectors-SizePrefix
store-readable_example =
    store-readable vectors vectors-SizePrefix temp [] bits.bytes bits (disk []) readable refl
      (disk-Healthy []) (free _) (no_dir _ _)

-- The callback counts the images.
abbrev count_image : Table → Exec (Fs × ℕ) (Unit {0})
count_image image (fs, n) = (ok tt, (fs, suc n))

-- A data node with one directory that a request matches.
abbrev pub domain_path : FilePath
domain_path = "name" ∷ []

abbrev pub message : Bytes
message = little_endian 2 ++ 0 ∷ 1 ∷ []

abbrev pub files : List (FilePath × Entry)
files =
    (domain_path, dir)
    ∷ ("name_Partition" ∷ domain_path, dir)
    ∷ ("1.bin" ∷ "name_Partition" ∷ domain_path, file message)
    ∷ []

abbrev pub network : Network ℕ
network = record { subscribers = []; sent = [] }

abbrev pub streams : Streams ℕ
streams = record { is_closed = λ s. false; write_fails = λ s. false }

abbrev pub compiled : String → String → Option Bool
compiled reg_exp path = some true

pub no_file_there : NoFileOn domain_path (disk files)
unfolding stat Dict.lookup list_eq string_eq
no_file_there = (λ b e. cc, tt)

pub listed :
    read_dir domain_path (mkdir_all domain_path (disk files)).1
    ≡ (ok (("name_Partition", dir) ∷ []), (mkdir_all domain_path (disk files)).1)
unfolding mkdir_all read_dir stat children sort place Dict.lookup list_eq string_eq
listed = refl

one_file :
    Firsts compiled vectors
      (request_key vectors bits)
      domain_path
      (mkdir_all domain_path (disk files)).1
      (("name_Partition", dir) ∷ [])
      (message ∷ [])
unfolding mkdir_all read_dir stat children sort place Dict.lookup list_eq string_eq
    match_domain_data check_file
one_file =
    Firsts.first {m = "1.bin"} {f = file message} {others = []} refl refl refl refl Firsts.done

on_download_request-sent_example :
    on_download_request streams compiled vectors 4 [] bits.bytes (disk files, network) ≡ (
      ok tt,
      (
        (mkdir_all domain_path (disk files)).1,
        record {
          subscribers = add_subscriber (request_key vectors bits) 4 [];
          sent = [] ++ to_stream 4 (message ∷ []);
        },
      ),
    )
on_download_request-sent_example =
    on_download_request-sent streams compiled vectors 4 refl [] bits.bytes bits (disk files) network
      readable (disk-Healthy files) no_file_there listed one_file
