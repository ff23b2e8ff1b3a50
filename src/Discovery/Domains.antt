-- ===== src/Discovery/Domains.antt =====
-- example/discovery_node/main.go: the handlers of domains, the exchange of domains, and the load at
-- the start. `text` is Go's conversion of bytes to a string.
pub mod Answers
pub mod Restart
use libp2p_experiment.Base.{
  String, Bool, true, false, Option, none, some, List, [], ◌∷◌, ◌++◌, if◌then◌else◌, ◌==◌,
  string_eq,
}
use libp2p_experiment.Base.Dict
use libp2p_experiment.Base.Dict.{Dict}
use libp2p_experiment.Base.Effects.{
  Error, not_exist, Result, ok, err, crash, Exec, pure, raise, fatal, lift, ◌>>=◌, ◌>>◌, handle,
}
use libp2p_experiment.Os.{
  Bytes, FilePath, Fs, Entry, dir, file, mkdir_all, create, write, read_file, read_dir,
}
use libp2p_experiment.Crypto.{Crypto}
use libp2p_experiment.Node.{PeerId}
use libp2p_experiment.Domain.{Domain, Json}
use libp2p_experiment.Cluster.{decoded, domain_dir, initialize_domain_cluster}
use libp2p_experiment.Utils.Receive.{on_fs}
use libp2p_experiment.Discovery.{Topic, domains, Directory, World, publish}

abbrev pub on_sent : {A : Type 0} → Exec (Fs × List (PeerId × Bytes)) A → Exec World A
on_sent m (fs, d) = let (r, (fs', sent)) = m (fs, d.sent) in (r, (fs', record d { sent = sent }))

abbrev pub remember : Domain → Exec World (Unit {0})
remember d (fs, w) = (ok tt, (fs, record w { domain_list = Dict.insert d.id d w.domain_list }))

module _ (json : Json) (network : Topic → Bytes → Result (Unit {0})) where
  unfoldable pub publish_domain : Domain → Exec World (Unit {0})
  unfolding publish
  publish_domain d = do bytes ← lift (json.encode d); publish network domains bytes

  -- `publishDomains` over the list as it stands; an error is logged.
  unfoldable pub publish_domains : Dict String Domain → Exec World (Unit {0})
  unfolding publish_domain
  publish_domains [] = pure tt
  publish_domains ((_, d) ∷ rest) =
      handle (publish_domain d) (λ _. pure tt) pure >> publish_domains rest

  -- The handler of `UPDATE_DOMAIN_PROTOCOL_ID`, which only reads the request.
  unfoldable pub update_domain : Bytes → Exec World (Unit {0})
  update_domain request = decoded (json.decode request) >> pure tt

  -- The handler of `CREATE_DOMAIN_PROTOCOL_ID`, with the reply.
  unfoldable pub create_domain :
      (C : Crypto)
      → (PeerId → Bool)
      → (PeerId → Bool)
      → FilePath
      → Result C.Key
      → Bytes
      → Exec World Bytes
  unfolding publish_domain
  create_domain C addressable reachable base generated request = do
    d ← on_sent (initialize_domain_cluster C json addressable reachable base generated request)
    publish_domain d
    remember d
    lift (json.encode d)

  -- The loop over the directories at the start: what cannot be read is passed over, and the error of
  -- the publication is dropped.
  abbrev pub on_meta : Bytes → Exec World (Unit {0})
  on_meta meta = elim (json.decode meta) [
    | none ↦ pure tt
    | some d ↦ remember d >> handle (publish_domain d) (λ _. pure tt) pure
  ]

  unfoldable pub load_domain : FilePath → String → Exec World (Unit {0})
  load_domain base name =
      handle (on_fs (read_file ("meta.json" ∷ domain_dir base name))) (λ _. pure tt) on_meta

  unfoldable pub load_each : FilePath → List (String × Entry) → Exec World (Unit {0})
  unfolding load_domain
  load_each base [] = pure tt
  load_each base ((name, dir) ∷ entries) = load_domain base name >> load_each base entries
  load_each base ((name, file _) ∷ entries) = load_each base entries

  abbrev no_listing : Error → Exec World (List (String × Entry))
  no_listing not_exist = pure []
  no_listing _ = fatal "Failed to read domains directory"

  unfoldable pub load_domains : FilePath → Exec World (Unit {0})
  unfolding load_each
  load_domains base =
      handle (on_fs (read_dir ("domains" ∷ base))) no_listing pure >>= load_each base

-- The handler of `FIND_DOMAIN_PROTOCOL_ID`: the request is the id, and there is no reply to an id
-- that is not known.
unfoldable pub find_domain : Json → (Bytes → String) → Bytes → Directory → Option (Result Bytes)
find_domain json text request w = elim (Dict.lookup (text request) w.domain_list) [
  | some d ↦ some (json.encode d)
  | none ↦ none
]

-- The handler of `FETCH_DOMAINS_PROTOCOL_ID`: `encode_all` is `encoding/json` at the whole list.
unfoldable pub fetch_domains : (Dict String Domain → Result Bytes) → Directory → Result Bytes
fetch_domains encode_all w = encode_all w.domain_list

-- One message in `receiveDomains`, from the node `from` to the node `self`. The error of the write
-- is dropped; the list of domains is not touched.
unfoldable pub store_domain : FilePath → Domain → Bytes → Exec Fs (Unit {0})
store_domain base d bytes = do
  mkdir_all (domain_dir base d.id)
  create "meta.json" (domain_dir base d.id)
  handle (write ("meta.json" ∷ domain_dir base d.id) bytes) (λ _. pure tt) pure

unfoldable pub receive_domain : Json → PeerId → FilePath → PeerId → Bytes → Exec World (Unit {0})
unfolding store_domain
receive_domain json self base from bytes =
    if from == self
    then pure tt
    else decoded (json.decode bytes) >>= λ d. on_fs (store_domain base d bytes)
