-- ===== src/Node/Identity.antt =====
-- node/peer.go: the private key of a node, loaded from its directory or made and saved there; and
-- `NewNode` of node/libp2p.go, which starts from it. `generated` is what `crypto.GenerateKeyPair`
-- returns in this run.
pub mod Persistence
pub mod FirstRun
use libp2p_experiment.Base.{◌≡◌, String, List, [], ◌∷◌}
use libp2p_experiment.Base.Effects.{
  Error, not_exist, Result, ok, err, crash, Exec, pure, fatal, lift, ◌>>=◌, ◌>>◌, handle, handle-ok,
}
use libp2p_experiment.Os.{Bytes, FilePath, Fs, mkdir_all, create, write, read_file}
use libp2p_experiment.Crypto.{Crypto}
use libp2p_experiment.Node.{Node, NodeInfo}

-- `if err != nil { panic(err) }`
abbrev pub must : {S A : Type 0} → Exec S A → Exec S A
must m = handle m (λ _. fatal "panic") pure

pub must-ok :
    {S A : Type 0} (m : Exec S A) (s : S) {a : A} {t : S} → m s ≡ (ok a, t) → must m s ≡ (ok a, t)
must-ok m s e = handle-ok m (λ _. fatal "panic") pure s e

pub must-lift_ok :
    {S A : Type 0} (r : Result A) (s : S) {a : A} → r ≡ ok a → must (lift r) s ≡ (ok a, s)
must-lift_ok r s e = rw e

module _ (C : Crypto) where
  -- The empty file that is named after the peer. Where the id cannot be had its error is dropped
  -- and the name is empty, so that the directory itself would be created.
  unfoldable pub create_marker : FilePath → Result String → Exec Fs (Unit {0})
  create_marker base (ok pid) = must (create pid base)
  create_marker base (err _) = fatal "panic"
  create_marker base (crash m) = fatal m

  unfoldable pub create_identity : Result C.Key → FilePath → Exec Fs C.Key
  unfolding create_marker
  create_identity generated base = do
    priv ← must (lift generated)
    must (mkdir_all base)
    must (create "peer.key" base)
    content ← must (lift (C.marshal priv))
    must (write ("peer.key" ∷ base) content)
    create_marker base (C.peer_id priv)
    pure priv

  -- `os.IsNotExist(err)` decides between the two; any other error of `os.Open` panics.
  unfoldable pub on_open_error : Result C.Key → FilePath → Error → Exec Fs C.Key
  unfolding create_identity
  on_open_error generated base not_exist = create_identity generated base
  on_open_error generated base _ = fatal "panic"

  -- `InitPeerIdentity`
  unfoldable pub init_peer_identity : Result C.Key → FilePath → Exec Fs C.Key
  unfolding on_open_error
  init_peer_identity generated base =
      handle (read_file ("peer.key" ∷ base)) (on_open_error generated base)
        λ content. must (lift (C.unmarshal content))

  -- `NewNode`
  unfoldable pub new_node : Result C.Key → NodeInfo → FilePath → Exec Fs (Node C.Key)
  unfolding init_peer_identity
  new_node generated info base_path = do
    let p = info.name ∷ base_path
    priv ← init_peer_identity generated p
    id ← lift (C.peer_id priv)
    pure (record {
      info = record info { id = id };
      neighbors = [];
      job_list = [];
      base_path = p;
      identity = priv;
    })
