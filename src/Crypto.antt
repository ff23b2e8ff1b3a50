-- ===== src/Crypto.antt =====
-- What the program uses of libp2p's `core/crypto` and `core/peer`: the private keys, their
-- serialisation and the peer ids. These packages are not in the repository.
use libp2p_experiment.Base.{◌≡◌, ◌≢◌, String}
use libp2p_experiment.Base.Effects.{Result, ok}
use libp2p_experiment.Os.{Bytes}

pub record Crypto : Type 1 where
  pub Key : Type 0
  -- `crypto.MarshalPrivateKey`, `crypto.UnmarshalPrivateKey`
  pub marshal : Key → Result Bytes
  pub unmarshal : Bytes → Result Key
  -- `peer.IDFromPrivateKey(k)` and `peer.IDFromPublicKey(k.GetPublic())`, with `String`
  pub peer_id : Key → Result String

-- A serialised key is read back, and the text of a peer id (base 58) is no file name of another use.
pub record IsLawful (C : Crypto) : Type 0 where
  pub unmarshal-marshal : (k : C.Key) (b : Bytes) → C.marshal k ≡ ok b → C.unmarshal b ≡ ok k
  pub peer_id_name : (k : C.Key) (p : String) → C.peer_id k ≡ ok p → p ≢ "peer.key"
