-- ===== src/Programs.antt =====
-- The main functions of the examples, up to the start of the host: their configuration, the check of
-- the flags, and the new node. `flag.Parse` is the `Flags` of config/config.go, or the values of the
-- flags themselves.
pub mod Dialer
pub mod Restart
pub mod Vision
pub mod Application
use libp2p_experiment.Base.{
  String, Bool, true, false, List, [], ◌∷◌, if◌then◌else◌, ◌==◌, ◌||◌, string_eq,
}
use libp2p_experiment.Base.Effects.{
  Error, Result, ok, err, crash, Exec, pure, fatal, lift, ◌>>=◌, ◌>>◌, handle,
}
use libp2p_experiment.Os.{FilePath, Fs}
use libp2p_experiment.Crypto.{Crypto}
use libp2p_experiment.Config.{Config, Flags, Mode, mode_client, mode_server, load_from_cli_args}
use libp2p_experiment.Node.{Node, NodeInfo}
use libp2p_experiment.Node.Identity.{new_node}

abbrev pub data_node_type : String
data_node_type = "DATA"

abbrev pub discovery_node_type : String
discovery_node_type = "DOMAIN_SERVICE"

abbrev pub salvia_node_type : String
salvia_node_type = "SALVIA"

abbrev pub vision_node_type : String
vision_node_type = "VISION"

abbrev pub default_bootstrap_nodes : List String
default_bootstrap_nodes =
    "/ip4/13.52.221.114/udp/18804/quic-v1/p2p/12D3KooWSpGa2SQ3iz9KrJrgyoZE2jZUtSx8nKCfNaXYp8FY5irE"
    ∷ []

abbrev config_of : String → String → Mode → List String → Bool → Config
config_of node_type name mode bootstrap relay = record {
  node_types = node_type ∷ [];
  mode = mode;
  port = "";
  bootstrap_peers = bootstrap;
  wallet_private_key = "";
  name = name;
  owner_wallet = "";
  domain_cluster_secret = "";
  psk = "";
  enable_relay = relay;
}

abbrev pub default_relay_node : Config
default_relay_node = config_of discovery_node_type "relay_1" mode_server [] true

abbrev pub default_target : Config
default_target =
    config_of data_node_type "holepunch_target" mode_server default_bootstrap_nodes false

abbrev pub default_dialer : Config
default_dialer = config_of "client" "holepunch_dailer" mode_client default_bootstrap_nodes false

abbrev pub data_node_config : Config
data_node_config = config_of data_node_type "data_node_1" mode_server default_bootstrap_nodes false

abbrev pub salvia_config : Config
salvia_config = config_of salvia_node_type "salvia1" mode_server default_bootstrap_nodes false

abbrev pub vision_config : Config
vision_config = config_of vision_node_type "cbd" mode_server default_bootstrap_nodes false

abbrev pub recorder_config : Config
recorder_config = config_of "client" "thc" mode_client default_bootstrap_nodes false

abbrev pub application_config : Config
application_config =
    record (config_of "client" "camera" mode_client default_bootstrap_nodes false) {
      port = "18888";
    }

-- The home of a node that runs in the directory `work`.
abbrev pub volume : FilePath → FilePath
volume work = "volume" ∷ work

-- The `info` of a main.
abbrev pub described : Config → NodeInfo
described cfg = record { types = cfg.node_types; id = ""; name = cfg.name }

module _ (C : Crypto) (generated : Result C.Key) where
  -- `node.NewNode`, whose error is fatal.
  unfoldable pub launch : Config → FilePath → Exec Fs (Config × Node C.Key)
  launch cfg base =
      handle (new_node C generated (described cfg) base) (λ _. fatal "Failed to create node")
        (λ n. pure (cfg, n))

  -- The mains of the hole punching trials.
  unfoldable pub relay_main : Flags → FilePath → Exec Fs (Config × Node C.Key)
  unfolding launch
  relay_main flags work =
      lift (load_from_cli_args flags default_relay_node) >>= λ cfg. launch cfg (volume work)

  unfoldable pub target_main : Flags → FilePath → Exec Fs (Config × Node C.Key)
  unfolding launch
  target_main flags work =
      lift (load_from_cli_args flags default_target) >>= λ cfg. launch cfg (volume work)

  unfoldable pub dialer_main : Flags → FilePath → Exec Fs (Config × Node C.Key)
  unfolding launch
  dialer_main flags work =
      lift (load_from_cli_args flags default_dialer) >>= λ cfg. launch cfg (volume work)

  -- The mains with a flag for the name.
  unfoldable pub named : String → Config → FilePath → Exec Fs (Config × Node C.Key)
  unfolding launch
  named name cfg base =
      if name == "" then fatal "name is required" else launch (record cfg { name = name }) base

  -- `"../../volume"`: two directories above the one that the process runs in.
  unfoldable pub data_node_main : String → FilePath → Exec Fs (Config × Node C.Key)
  unfolding named
  data_node_main name above = named name data_node_config (volume above)

  unfoldable pub salvia_main : String → FilePath → Exec Fs (Config × Node C.Key)
  unfolding named
  salvia_main name work = named name salvia_config (volume work)

  unfoldable pub vision_main : String → FilePath → Exec Fs (Config × Node C.Key)
  unfolding named
  vision_main name work = named name vision_config (volume work)

  -- The flags of the discovery node.
  unfoldable pub discovery_main : String → String → FilePath → Exec Fs (Config × Node C.Key)
  unfolding named
  discovery_main name port work =
      named name (record (config_of discovery_node_type name mode_client [] true) { port = port })
        (volume work)

  unfoldable pub application_main : String → FilePath → Exec Fs (Config × Node C.Key)
  unfolding named
  application_main name work = named name application_config (volume work)

  -- The trial of mDNS starts two nodes in one process; a failure panics.
  unfoldable pub mdns_node : String → FilePath → Exec Fs (Config × Node C.Key)
  mdns_node name work =
      let cfg = config_of data_node_type name mode_client [] false in
      handle (new_node C generated (described cfg) (volume work)) (λ _ fs. (crash "panic", fs))
        (λ n. pure (cfg, n))

  unfoldable pub mdns_main : FilePath → Exec Fs ((Config × Node C.Key) × (Config × Node C.Key))
  unfolding mdns_node
  mdns_main work = mdns_node "mdns_example_n1" work >>= λ n1.
      mdns_node "mdns_example_n2" work >>= λ n2. pure (n1, n2)

  -- The recorder asks for four texts more, and for the name first.
  pub record RecorderFlags : Type 0 where
    pub name : String
    pub cbd_url : String
    pub cactus_url : String
    pub cactus_user : String
    pub cactus_password : String
    pub domain_id : String

  unfoldable pub recorder_main : RecorderFlags → FilePath → Exec Fs (Config × Node C.Key)
  unfolding launch
  recorder_main f work =
      if f.name == ""
      then fatal "name is required"
      else if f.cactus_url == ""
      then fatal "cactus backend URL is required"
      else if f.cactus_user == ""
      then fatal "cactus backend user is required"
      else if f.cactus_password == ""
      then fatal "cactus backend password is required"
      else if f.domain_id == ""
      then fatal "domain ID is required"
      else launch (record recorder_config { name = f.name }) (volume work)
