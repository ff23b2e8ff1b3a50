-- ===== src/App.antt =====
-- example/app/main.go: the application, which asks the discovery node where the data of a domain is,
-- downloads it into the rows of a display, and sends data of its own. `decode` is `peer.Decode`;
-- `parse_index` is `strconv.ParseInt`, whose error is dropped, with nothing for a negative number.
pub mod Messages
pub mod Answers
use libp2p_experiment.Base.{
  ℕ, zero, suc, String, ◌<>◌, Bool, true, false, Option, none, some, List, [], ◌∷◌, ◌++◌,
  if◌then◌else◌, ◌==◌, nat_eq, string_eq, ltb, length, set, replicate,
}
use libp2p_experiment.Base.Effects.{
  Error, failed, Result, ok, err, crash, Exec, pure, raise, lift, ◌>>=◌, ◌>>◌,
}
use libp2p_experiment.Os.{Bytes, FilePath, Fs}
use libp2p_experiment.FlatBuffers.{FlatBuffers, Table}
use libp2p_experiment.Node.{PeerId}
use libp2p_experiment.Posemesh.{get_root_as}
use libp2p_experiment.Posemesh.Domain
use libp2p_experiment.Posemesh.DomainData
use libp2p_experiment.Posemesh.Partition.{data_length}
use libp2p_experiment.Utils.Receive.{receive_domain_data}
use libp2p_experiment.Wire.{Stream}
use libp2p_experiment.DataNode.{get_partition, partition_bytes}

-- The rows of the display.
abbrev pub Visual : Type 0
Visual = List (List ℕ)

abbrev pub empty_visual : Visual
empty_visual = replicate 5 []

-- `AddRow`
unfoldable pub add_row : ℕ → List ℕ → Visual → Result Visual
add_row i row v = if ltb i (length v) then ok (set v i row) else crash "index out of range"

-- `Print`. `mark` is the black square of a cell that is set.
unfoldable pub print_row : String → List ℕ → String
print_row mark [] = "\n"
print_row mark (c ∷ row) = (if c == 1 then mark else "_") <> print_row mark row

abbrev shown : List ℕ → List ℕ
shown [] = replicate 100 0
shown (c ∷ row) = c ∷ row

unfoldable pub print : String → Visual → String
unfolding print_row
print mark [] = ""
print mark (row ∷ v) = print_row mark (shown row) <> print mark v

module _ (fb : FlatBuffers) (decode : Bytes → Result PeerId) (self : PeerId) where
  -- The loop over the readers: what cannot be decoded and the node itself are passed over.
  abbrev keep_reader : Result PeerId → List PeerId → List PeerId
  keep_reader (ok p) rest = if p == self then rest else p ∷ rest
  keep_reader (err _) rest = rest
  keep_reader (crash _) rest = rest

  unfoldable pub collect_readers : ℕ → ℕ → Table → List PeerId
  collect_readers zero i domain = []
  collect_readers (suc left) i domain =
      keep_reader (decode (Domain.readers fb domain i)) (collect_readers left (suc i) domain)

  abbrev only_writer : Result PeerId → Result (List PeerId)
  only_writer (ok p) =
      if p == self then err (failed "can't download data from self") else ok (p ∷ [])
  only_writer (err e) = err e
  only_writer (crash m) = crash m

  -- The goroutine of `findDomainDataNode`, from the message on.
  unfoldable pub data_nodes : String → Table → Result (List PeerId)
  unfolding collect_readers
  data_nodes permission domain =
      if Domain.readers_length fb domain == 0
      then err (failed "no readers found")
      else if permission == "read"
      then ok (collect_readers (Domain.readers_length fb domain) 0 domain)
      else only_writer (decode (Domain.writer fb domain))

  -- `findDomainDataNode`: a stream is opened, the request written, and the reply awaited.
  unfoldable pub find_domain_data_node :
      {S : Type 0}
      → Result (Unit {0})
      → Result (Unit {0})
      → Result Bytes
      → String
      → Exec S (List PeerId)
  unfolding data_nodes
  find_domain_data_node opened written reply permission = do
    lift opened
    lift written
    buf ← lift reply
    domain ← lift (get_root_as fb buf 0)
    lift (data_nodes permission domain)

module _ (fb : FlatBuffers) (parse_index : Bytes → Option ℕ) where
  abbrev show_row : Option ℕ → List ℕ → Exec (Fs × Visual) (Unit {0})
  show_row none row (fs, v) = (crash "index out of range", (fs, v))
  show_row (some i) row (fs, v) = elim (add_row i row v) [
    | ok w ↦ (ok tt, (fs, w))
    | err e ↦ (err e, (fs, v))
    | crash m ↦ (crash m, (fs, v))
  ]

  -- The callback of `downloadDomainData`.
  unfoldable pub on_row : Table → Exec (Fs × Visual) (Unit {0})
  unfolding add_row
  on_row dd = do
    partition ← lift (get_partition fb dd)
    let row = partition_bytes fb (data_length fb partition) 0 partition
    show_row (parse_index (DomainData.name fb dd)) row

  -- The goroutine of `downloadDomainData`.
  unfoldable pub download :
      (FilePath → Fs → String) → FilePath → Stream → Exec (Fs × Visual) (Unit {0})
  unfolding on_row
  download temp_name base s = receive_domain_data fb temp_name base on_row s
