-- ===== src/Config/Override.antt =====
-- What the command line decides, field by field.
use libp2p_experiment.Base.{◌≡◌, ap, ◌∙◌, String, arith, if◌then◌else◌, ◌==◌, string_eq, ◌&&◌, ◌||◌}
use libp2p_experiment.Base.Effects.{ok, crash}
use libp2p_experiment.Config.{Config, Flags, mode_client, mode_server, override, load_from_cli_args}
use libp2p_experiment.Config.Split.{split_commas}

-- A flag that is given wins.
abbrev pick : String → String → String
pick flag old = if flag == "" then old else flag

abbrev pub decided : Flags → Config → Config
decided f c = record {
  node_types = c.node_types;
  mode = if f.mode == "" then c.mode else if f.mode == "client" then mode_client else mode_server;
  port = pick f.port c.port;
  bootstrap_peers = if f.bootstrap == "" then c.bootstrap_peers else split_commas f.bootstrap;
  wallet_private_key = c.wallet_private_key;
  name = pick f.name c.name;
  owner_wallet = c.owner_wallet;
  domain_cluster_secret = c.domain_cluster_secret;
  psk = c.psk;
  enable_relay = f.relay || c.enable_relay;
}

override_lem : (f : Flags) (c : Config) → override f c ≡ decided f c
unfolding override
override_lem f c = ground arith

-- The command line ends the process exactly when neither side has a name. Otherwise each field is
-- decided by itself: a flag that is given wins, relaying is on if either side asks for it, a mode
-- other than the empty one and `client` means a server, the bootstrap addresses are split at the
-- commas, and the fields that have no flag stay.
pub load_from_cli_args_lem :
    (f : Flags) (c : Config)
    → load_from_cli_args f c
      ≡ (if f.name == "" && c.name == "" then crash "name is required" else ok (decided f c))
unfolding load_from_cli_args
load_from_cli_args_lem f c = rw (override_lem f c)

decided_again : (f : Flags) (c : Config) → decided f (decided f c) ≡ decided f c
decided_again f c = ground arith

-- Loading the same flags into the result changes nothing.
pub load_from_cli_args_again :
    (f : Flags) (c d : Config) → load_from_cli_args f c ≡ ok d → load_from_cli_args f d ≡ ok d
load_from_cli_args_again f c d h =
    let e : decided f c ≡ d = ground (arith, load_from_cli_args_lem f c) in
    rw (← e) (named ∙ ap ok (decided_again f c))
  where
    named : load_from_cli_args f (decided f c) ≡ ok (decided f (decided f c))
    named = rw (load_from_cli_args_lem f (decided f c)) (ground (arith, load_from_cli_args_lem f c))
