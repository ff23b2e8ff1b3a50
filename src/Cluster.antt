-- ===== src/Cluster.antt =====
-- utils/domain_cluster.go: a node makes a domain and invites the nodes of its cluster, and a node
-- that is invited joins. A refused call of the network is an argument; `Network` below holds the
-- answers of libp2p.
pub mod Founder
pub mod Join
use libp2p_experiment.Base.{
  String, Bool, Option, none, some, List, [], ◌∷◌, ◌++◌, if◌then◌else◌, ◌&&◌, string_eq,
}
use libp2p_experiment.Base.Dict
use libp2p_experiment.Base.Dict.{Dict}
use libp2p_experiment.Base.Effects.{
  failed, Result, ok, err, crash, Exec, pure, raise, lift, ◌>>=◌, ◌>>◌,
}
use libp2p_experiment.Os.{Bytes, FilePath, Fs, mkdir_all, create, write}
use libp2p_experiment.Crypto.{Crypto}
use libp2p_experiment.Node.{NodeInfo, PeerId}
use libp2p_experiment.Node.Identity.{init_peer_identity}
use libp2p_experiment.Domain.{Domain, Json}
use libp2p_experiment.Utils.Receive.{on_fs}

-- `json.NewDecoder(s).Decode(&d)`, with its error
abbrev pub decoded : {S : Type 0} → Option Domain → Exec S Domain
decoded none = raise (failed "invalid JSON")
decoded (some d) = pure d

-- `n.BasePath + "/domains/" + d.Name`
abbrev pub domain_dir : FilePath → String → FilePath
domain_dir base name = name ∷ "domains" ∷ base

module _ (C : Crypto) (json : Json) where
  -- The invitation of one node: `addressable` says that `peer.AddrInfoFromString` accepts the id,
  -- `reachable` that the stream can be opened and written. A failure goes on to the next node.
  unfoldable pub invite :
      (PeerId → Bool) → (PeerId → Bool) → Domain → List NodeInfo → List (PeerId × Bytes)
  invite addressable reachable d [] = []
  invite addressable reachable d (other ∷ nodes) =
      let rest = invite addressable reachable d nodes in
      elim (json.encode d) [
        | ok bytes ↦
            if addressable other.id && reachable other.id then (other.id, bytes) ∷ rest else rest
        | err _ ↦ rest
        | crash _ ↦ rest
      ]

  -- `InitializeDomainCluster` up to the invitations.
  unfoldable pub prepare : FilePath → Result C.Key → Bytes → Exec Fs Domain
  prepare base generated request = do
    d ← decoded (json.decode request)
    pk ← init_peer_identity C generated ("secret" ∷ domain_dir base d.name)
    pid ← lift (C.peer_id pk)
    pkb ← lift (C.marshal pk)
    pure (record d { id = pid; cluster = record d.cluster { secret = pkb } })

  -- The state beside the file system is what was sent to other nodes.
  unfoldable pub initialize_domain_cluster :
      (PeerId → Bool)
      → (PeerId → Bool)
      → FilePath
      → Result C.Key
      → Bytes
      → Exec (Fs × List (PeerId × Bytes)) Domain
  unfolding prepare invite
  initialize_domain_cluster addressable reachable base generated request = do
    d ← on_fs (prepare base generated request)
    let nodes = d.cluster.others ++ d.cluster.writer ∷ []
    λ (fs, sent). (ok d, (fs, sent ++ invite addressable reachable d nodes))

  -- What the handler of an invitation keeps: the list of domains and the keys of the peer store.
  pub record Member : Type 0 where
    pub domain_list : Dict String Domain
    pub priv_keys : List (String × C.Key)

  -- The answers of `Peerstore().AddPrivKey`, `pubsub.NewGossipSub` and `ps.Join`.
  pub record Services : Type 0 where
    pub add_priv_key : String → C.Key → Result (Unit {0})
    pub new_gossip_sub : String → Result (Unit {0})
    pub join : String → Result (Unit {0})

  -- The key file and the check of the key, in the order of the calls.
  unfoldable pub save_secret : FilePath → Domain → Exec Fs C.Key
  save_secret base d = do
    mkdir_all (domain_dir base d.name)
    create "secret" (domain_dir base d.name)
    pk ← lift (C.unmarshal d.cluster.secret)
    write ("secret" ∷ domain_dir base d.name) d.cluster.secret
    pure pk

  unfoldable pub save_meta : FilePath → Domain → Exec Fs (Unit {0})
  save_meta base d = do
    mkdir_all (domain_dir base d.name)
    create "meta.json" (domain_dir base d.name)
    bytes ← lift (json.encode d)
    write ("meta.json" ∷ domain_dir base d.name) bytes

  abbrev keep_key : String → C.Key → Exec (Fs × Member) (Unit {0})
  keep_key pid pk (fs, m) = (ok tt, (fs, record m { priv_keys = (pid, pk) ∷ m.priv_keys }))

  abbrev keep_domain : Domain → Exec (Fs × Member) (Unit {0})
  keep_domain d (fs, m) = (ok tt, (fs, record m { domain_list = Dict.insert d.id d m.domain_list }))

  -- The handler of `EnableDomainCluster`: every error ends it where it stands.
  unfoldable pub on_join : Services → FilePath → Bytes → Exec (Fs × Member) (Unit {0})
  unfolding save_secret save_meta
  on_join services base request = do
    d ← decoded (json.decode request)
    pk ← on_fs (save_secret base d)
    pid ← lift (C.peer_id pk)
    lift (services.add_priv_key pid pk)
    keep_key pid pk
    lift (services.new_gossip_sub pid)
    lift (services.join d.id)
    let joined = record d { cluster = record d.cluster { topic = some d.id } }
    keep_domain joined
    on_fs (save_meta base joined)
