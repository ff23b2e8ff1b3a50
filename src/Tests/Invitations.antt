-- ===== src/Tests/Invitations.antt =====
-- A founder and the node that it invites, and a discovery node that starts again.
use text.Mathlib.Text
use libp2p_experiment.Base.{
  ◌≡◌, refl, ap, ◌≢◌, String, true, false, Option, none, some, List, [], ◌∷◌, arith, if◌then◌else◌,
  ◌==◌, ◌&&◌, string_eq, list_eq,
}
use libp2p_experiment.Base.Effects.{failed, Result, ok, err}
use libp2p_experiment.Os.{Bytes, Fs, FilePath, dir, stat}
use libp2p_experiment.Os.Laws.{NoFileOn}
use libp2p_experiment.Node.{NodeInfo, PeerId}
use libp2p_experiment.Node.Identity.{init_peer_identity}
use libp2p_experiment.Node.Identity.FirstRun.{init_peer_identity_first}
use libp2p_experiment.Domain.{Domain, Json, IsLawful as IsLawfulJson}
use libp2p_experiment.Cluster.{prepare, on_join, Member, Services}
use libp2p_experiment.Cluster.Join.{Accepts, Invited, on_join-prepare}
use libp2p_experiment.Discovery.{Directory}
use libp2p_experiment.Discovery.Domains.{find_domain, load_domain, receive_domain}
use libp2p_experiment.Discovery.Domains.Restart.{find_domain-load_domain}
use libp2p_experiment.Tests.{keys, keys-IsLawful, disk, disk-Healthy}
use libp2p_experiment.Tests.Storage.{no_entry, nothing_there, accept}

-- The one domain that can be written, up to its secret: the text is the secret.
abbrev park_of : Bytes → Domain
park_of secret = record {
  id = "peer";
  name = "park";
  cluster = record {
    secret = secret;
    writer = record { types = []; id = "w"; name = "W" };
    readers = [];
    others = [];
    topic = none;
  };
}

abbrev encode_park :
    String
    → String
    → Bytes
    → List String
    → PeerId
    → String
    → List PeerId
    → List NodeInfo
    → Result Bytes
encode_park id name secret [] w wn [] [] =
    if id == "peer" && (name == "park" && (w == "w" && wn == "W"))
    then ok secret
    else err (failed "park")
encode_park id name secret [] w wn [] (_ ∷ _) = err (failed "park")
encode_park id name secret [] w wn (_ ∷ _) os = err (failed "park")
encode_park id name secret (_ ∷ _) w wn rs os = err (failed "park")

abbrev parks : Json
parks = record {
  encode = λ d.
      encode_park d.id d.name d.cluster.secret d.cluster.writer.types d.cluster.writer.id
        d.cluster.writer.name d.cluster.readers d.cluster.others;
  decode = λ bytes. some (park_of bytes);
}

decode_park :
    (id name : String) (secret : Bytes) (ts : List String) (w : PeerId) (wn : String)
    (rs : List PeerId) (os : List NodeInfo) (bytes : Bytes)
    → encode_park id name secret ts w wn rs os ≡ ok bytes
    → ◌≡◌ {A = Option Domain} (some (park_of bytes)) (
        some (record {
          id = id;
          name = name;
          cluster = record {
            secret = secret;
            writer = record { types = ts; id = w; name = wn };
            readers = rs;
            others = os;
            topic = none;
          };
        }))
decode_park id name secret [] w wn [] [] bytes e = ground arith
decode_park id name secret [] w wn [] (_ ∷ _) bytes e = ground arith
decode_park id name secret [] w wn (_ ∷ _) os bytes e = ground arith
decode_park id name secret (_ ∷ _) w wn rs os bytes e = ground arith

parks-IsLawful : IsLawfulJson parks
parks-IsLawful = record {
  decode-encode = λ d bytes e.
      decode_park d.id d.name d.cluster.secret d.cluster.writer.types d.cluster.writer.id
        d.cluster.writer.name d.cluster.readers d.cluster.others bytes e;
}

abbrev home : FilePath
home = "member" ∷ []

abbrev secret : FilePath
secret = "secret" ∷ "park" ∷ "domains" ∷ "founder" ∷ []

abbrev first_founding : (t : Fs) × (init_peer_identity keys (ok 7) secret (disk []) ≡ (ok 7, t))
first_founding =
    init_peer_identity_first keys keys-IsLawful secret 7 (7 ∷ []) "peer" refl refl (disk [])
      (disk-Healthy [])
      (nothing_there "secret" _
        (nothing_there "park" _ (nothing_there "domains" _ (nothing_there "founder" [] tt))))
      (no_entry "peer.key" secret) (no_entry "peer" secret)

abbrev park : Domain
park = park_of (7 ∷ [])

founded_park : prepare keys parks ("founder" ∷ []) (ok 7) [] (disk []) ≡ (ok park, first_founding.0)
unfolding prepare
founded_park = rw first_founding.1

abbrev open_network : Services keys parks
open_network = record {
  add_priv_key = λ p k. ok tt;
  new_gossip_sub = λ p. ok tt;
  join = λ t. ok tt;
}

open_network-Accepts : Accepts keys parks open_network
open_network-Accepts = record { keeps_keys = λ p k. refl; gossips = λ p. refl; joins = λ t. refl }

abbrev nobody : Member keys parks
nobody = record { domain_list = []; priv_keys = [] }

park_written : parks.encode park ≡ ok (7 ∷ [])
unfolding string_eq
park_written = refl

no_dir : (n : String) (p : FilePath) → stat (n ∷ p) (disk []) ≢ some dir
no_dir n p e = ground (arith, no_entry n p)

home_free : NoFileOn ("park" ∷ "domains" ∷ home) (disk [])
home_free = nothing_there "park" _ (nothing_there "domains" _ (nothing_there "member" [] tt))

on_join-prepare_example :
    Invited keys parks home park
      (7 ∷ [])
      nobody
      (on_join keys parks open_network home (7 ∷ []) (disk [], nobody))
on_join-prepare_example =
    on_join-prepare keys keys-IsLawful parks parks-IsLawful open_network open_network-Accepts
      ("founder" ∷ []) home (ok 7) [] (disk []) park first_founding.0 (7 ∷ []) (7 ∷ []) (disk [])
      nobody founded_park park_written park_written (disk-Healthy []) home_free (no_dir "secret" _)
      (no_dir "meta.json" _)

abbrev empty : Directory
empty = record { domain_list = []; portal_list = []; published = []; sent = [] }

b_ne : ◌≢◌ {A = String} "b" "a"
b_ne e = let f : true ≡ false = ap (Text.◌==◌ "b") e in cc

find_domain-load_domain_example :
    find_domain parks
      (λ _. "peer")
      (1 ∷ [])
      (load_domain parks accept home "peer"
        ((receive_domain parks "a" home "b" (7 ∷ []) (disk [], empty)).1.0, empty)).1.1
    ≡ some (parks.encode park)
find_domain-load_domain_example =
    find_domain-load_domain parks accept home "a" "b" (λ _. "peer") park (7 ∷ []) (1 ∷ []) (disk [])
      empty empty b_ne refl (disk-Healthy [])
      (nothing_there "peer" _ (nothing_there "domains" _ (nothing_there "member" [] tt)))
      (no_dir "meta.json" _) refl
