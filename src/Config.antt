-- ===== src/Config.antt =====
-- config/config.go: the configuration of a node and the command line that overrides it. `Flags` is
-- what `flag.Parse` leaves in the five variables.
pub mod Split
pub mod Override
use libp2p_experiment.Base.{
  String, Bool, true, false, List, [], ◌∷◌, if◌then◌else◌, ◌==◌, string_eq, ◌&&◌, not,
}
use libp2p_experiment.Base.Effects.{Result, ok, crash}
use Split.{split_commas}

pub data Mode : Type 0 where
  mode_auto mode_client mode_server : Mode

pub record Config : Type 0 where
  pub node_types : List String
  pub mode : Mode
  pub port : String
  pub bootstrap_peers : List String
  pub wallet_private_key : String
  pub name : String
  pub owner_wallet : String
  pub domain_cluster_secret : String
  pub psk : String
  pub enable_relay : Bool

pub record Flags : Type 0 where
  pub name : String
  pub port : String
  pub bootstrap : String
  pub relay : Bool
  pub mode : String

abbrev given : String → Bool
given s = not (s == "")

-- The assignments behind the check, in their order.
unfoldable pub override : Flags → Config → Config
unfolding split_commas
override f c =
    let c1 = if given f.name then record c { name = f.name } else c in
    let c2 = if given f.port then record c1 { port = f.port } else c1 in
    let c3 = if f.relay then record c2 { enable_relay = f.relay } else c2 in
    let c4 =
      if given f.bootstrap then record c3 { bootstrap_peers = split_commas f.bootstrap } else c3 in
    if given f.mode
    then (if f.mode == "client"
        then record c4 { mode = mode_client }
        else record c4 { mode = mode_server })
    else c4

-- `LoadFromCliArgs`: without a name on either side the process ends.
unfoldable pub load_from_cli_args : Flags → Config → Result Config
unfolding override
load_from_cli_args f c =
    if f.name == "" && c.name == "" then crash "name is required" else ok (override f c)
