-- ===== src/Tests/Storage.antt =====
-- A node that starts twice, and a founder of a domain that is asked twice.
use libp2p_experiment.Base.{ℕ}
use libp2p_experiment.Node.Identity.{new_node}
use libp2p_experiment.Base.Effects.{handle-ok, then_ok, fatal, pure}
use libp2p_experiment.Programs.{described, launch, data_node_config}
use libp2p_experiment.Programs.Restart.{launch_again}
use libp2p_experiment.Config.{Config}
use libp2p_experiment.Node.{Node}
use libp2p_experiment.Base.{
  Bool, true, list_eq, string_eq, ◌≡◌, refl, String, Option, none, some, [], ◌∷◌, arith,
}
use libp2p_experiment.Base.Dict
use libp2p_experiment.Base.Effects.{Result, ok}
use libp2p_experiment.Os.{Bytes, Fs, FilePath, stat}
use libp2p_experiment.Os.Laws.{NoFileOn}
use libp2p_experiment.Node.Identity.{init_peer_identity}
use libp2p_experiment.Node.Identity.Persistence.{init_peer_identity_again}
use libp2p_experiment.Node.Identity.FirstRun.{init_peer_identity_first}
use libp2p_experiment.Domain.{Domain, Json}
use libp2p_experiment.Cluster.{prepare, invite, initialize_domain_cluster}
use libp2p_experiment.Discovery.{Topic, domains, Directory, publish}
use libp2p_experiment.Discovery.Domains.{publish_domain, create_domain, find_domain, receive_domain}
use libp2p_experiment.Discovery.Domains.Answers.{
  find_domain-create_domain, receive_domain-domain_list,
}
use libp2p_experiment.Cluster.Founder.{Carries, founded, prepare-Carries, prepare_again}
use libp2p_experiment.Tests.{keys, keys-IsLawful, disk, disk-Healthy}

abbrev home : FilePath
home = "node" ∷ []

pub no_entry : (n : String) (p : FilePath) → stat (n ∷ p) (disk []) ≡ none
unfolding stat
no_entry n p = Dict.lookup-nil (n ∷ p)

pub nothing_there : (n : String) (p : FilePath) → NoFileOn p (disk []) → NoFileOn (n ∷ p) (disk [])
nothing_there n p above = (λ b e. ground (arith, no_entry n p), above)

init_peer_identity_first_example :
    (t : Fs) × (init_peer_identity keys (ok 7) home (disk []) ≡ (ok 7, t))
init_peer_identity_first_example =
    init_peer_identity_first keys keys-IsLawful home 7 (7 ∷ []) "peer" refl refl (disk [])
      (disk-Healthy []) (nothing_there "node" [] tt) (no_entry "peer.key" home)
      (no_entry "peer" home)

-- The disk after the first start.
abbrev started : (t : Fs) × (init_peer_identity keys (ok 7) home (disk []) ≡ (ok 7, t))
started =
    init_peer_identity_first keys keys-IsLawful home 7 (7 ∷ []) "peer" refl refl (disk [])
      (disk-Healthy []) (nothing_there "node" [] tt) (no_entry "peer.key" home)
      (no_entry "peer" home)

init_peer_identity_again_example : init_peer_identity keys (ok 8) home started.0 ≡ (ok 7, started.0)
init_peer_identity_again_example =
    init_peer_identity_again keys keys-IsLawful home (ok 7) (ok 8) (disk []) 7 started.0 started.1

abbrev asked : Domain
asked = record {
  id = "";
  name = "park";
  cluster = record {
    secret = [];
    writer = record { types = []; id = "w"; name = "W" };
    readers = [];
    others = [];
    topic = none;
  };
}

-- Every text is read as the one domain.
abbrev domains_only : Json
domains_only = record { encode = λ d. ok []; decode = λ _. some asked }

abbrev secret : FilePath
secret = "secret" ∷ "park" ∷ "domains" ∷ home

abbrev first_founding : (t : Fs) × (init_peer_identity keys (ok 7) secret (disk []) ≡ (ok 7, t))
first_founding =
    init_peer_identity_first keys keys-IsLawful secret 7 (7 ∷ []) "peer" refl refl (disk [])
      (disk-Healthy [])
      (nothing_there "secret" _
        (nothing_there "park" _ (nothing_there "domains" _ (nothing_there "node" [] tt))))
      (no_entry "peer.key" secret) (no_entry "peer" secret)

abbrev park : Domain
park = founded asked "peer" (7 ∷ [])

park_founded : prepare keys domains_only home (ok 7) [] (disk []) ≡ (ok park, first_founding.0)
unfolding prepare
park_founded = rw first_founding.1

prepare-Carries_example :
    (asked' : Domain) × (◌≡◌ {A = Option Domain} (some asked) (some asked'))
    × (park ≡ founded asked' "peer" (7 ∷ []))
    × Carries keys park
prepare-Carries_example =
    prepare-Carries keys keys-IsLawful domains_only home (ok 7) [] (disk []) park first_founding.0
      park_founded

prepare_again_example :
    prepare keys domains_only home (ok 8) [] first_founding.0 ≡ (ok park, first_founding.0)
prepare_again_example =
    prepare_again keys keys-IsLawful domains_only home (ok 7) (ok 8) [] (disk []) park
      first_founding.0 park_founded

abbrev pub accept : Topic → Bytes → Result (Unit {0})
accept topic bytes = ok tt

abbrev yes_to_all : String → Bool
yes_to_all p = true

abbrev before_park : Directory
before_park = record { domain_list = []; portal_list = []; published = []; sent = [] }

abbrev after_park : Directory
after_park = record {
  domain_list = Dict.insert "peer" park [];
  portal_list = [];
  published = (domains, []) ∷ [];
  sent = invite keys domains_only yes_to_all yes_to_all park (asked.cluster.writer ∷ []);
}

park_created :
    create_domain domains_only accept keys yes_to_all yes_to_all home
      (ok 7)
      []
      (disk [], before_park)
    ≡ (ok [], (first_founding.0, after_park))
unfolding create_domain publish_domain publish initialize_domain_cluster
park_created = rw park_founded

find_domain-create_domain_example :
    (d : Domain) × (domains_only.encode d ≡ ok [])
    × ((question : Bytes)
        → "peer" ≡ d.id
        → find_domain domains_only (λ _. "peer") question after_park ≡ some (ok []))
find_domain-create_domain_example =
    find_domain-create_domain domains_only accept keys yes_to_all yes_to_all home (ok 7) []
      (disk [], before_park) [] (first_founding.0, after_park) (λ _. "peer") park_created

receive_domain-domain_list_example :
    (receive_domain domains_only "a" home "b" (1 ∷ []) (disk [], after_park)).1.1 ≡ after_park
receive_domain-domain_list_example =
    receive_domain-domain_list domains_only "a" home "b" (1 ∷ []) (disk []) after_park

-- The disk and the node after the first start of a data node.
abbrev data_home : FilePath
data_home = "data_node_1" ∷ "volume" ∷ []

abbrev key_made : (t : Fs) × (init_peer_identity keys (ok 7) data_home (disk []) ≡ (ok 7, t))
key_made =
    init_peer_identity_first keys keys-IsLawful data_home 7 (7 ∷ []) "peer" refl refl (disk [])
      (disk-Healthy []) (nothing_there "data_node_1" _ (nothing_there "volume" [] tt))
      (no_entry "peer.key" data_home) (no_entry "peer" data_home)

abbrev first_launch : Config × Node ℕ
first_launch = (
  data_node_config,
  record {
    info = record {
      types = data_node_config.node_types;
      id = "peer";
      name = data_node_config.name;
    };
    neighbors = [];
    job_list = [];
    base_path = data_home;
    identity = 7;
  },
)

launched :
    launch keys (ok 7) data_node_config ("volume" ∷ []) (disk []) ≡ (ok first_launch, key_made.0)
unfolding launch new_node
launched =
    handle-ok (new_node keys (ok 7) (described data_node_config) ("volume" ∷ []))
      (λ _. fatal "Failed to create node") (λ n. pure (data_node_config, n)) (disk [])
      (then_ok (init_peer_identity keys (ok 7) data_home) _ (disk []) key_made.1 refl)

launch_again_example :
    launch keys (ok 8) data_node_config ("volume" ∷ []) key_made.0 ≡ (ok first_launch, key_made.0)
launch_again_example =
    launch_again keys keys-IsLawful (ok 7) (ok 8) data_node_config ("volume" ∷ []) (disk [])
      first_launch key_made.0 launched
