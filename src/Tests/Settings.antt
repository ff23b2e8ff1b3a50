-- ===== src/Tests/Settings.antt =====
-- Command lines, and the table of subscribers.
use libp2p_experiment.Base.{
  put_in, ℕ, ◌≡◌, String, Bool, true, false, Option, none, some, List, [], ◌∷◌, ◌&&◌, if◌then◌else◌,
  ◌==◌, contains, string_eq, nat_eq, pair_eq,
}
use libp2p_experiment.Base.Dict.{Dict}
use libp2p_experiment.Base.Effects.{ok, crash}
use libp2p_experiment.Config.{Config, Flags, mode_auto, load_from_cli_args}
use libp2p_experiment.Config.Override.{decided, load_from_cli_args_lem}
use libp2p_experiment.Utils.Subscribers.{
  match_domain_data, subscribed, find_subscribers, add_subscriber, remove_subscriber,
}
use libp2p_experiment.Utils.Subscribers.Subscriptions.{
  subscriptions, told, view, subscribers-refine,
}

abbrev built_in : Config
built_in = record {
  node_types = "data" ∷ [];
  mode = mode_auto;
  port = "";
  bootstrap_peers = [];
  wallet_private_key = "";
  name = "";
  owner_wallet = "";
  domain_cluster_secret = "";
  psk = "";
  enable_relay = false;
}

abbrev flags : Flags
flags = record { name = "n"; port = ""; bootstrap = "x,y"; relay = true; mode = "server" }

load_from_cli_args_lem_example : load_from_cli_args flags built_in ≡ (
    if flags.name == "" && built_in.name == ""
    then crash "name is required"
    else ok (decided flags built_in))
load_from_cli_args_lem_example = load_from_cli_args_lem flags built_in

named : load_from_cli_args flags built_in ≡ ok (decided flags built_in)
unfolding string_eq
named = load_from_cli_args_lem flags built_in

-- Every expression that compiles matches.
abbrev compiled : String → String → Option Bool
compiled reg_exp path = if reg_exp == "(" then none else some true

abbrev table : Dict String (List ℕ)
table = ("map_Pose", 1 ∷ 2 ∷ 1 ∷ []) ∷ ("(", 3 ∷ []) ∷ []

subscribers-refine_example :
    (view (add_subscriber "map_Pose" 3 table) ≡ put_in ("map_Pose", 3) (view table))
    × ((if contains (subscribed "map_Pose" table) 3
          then put_in ("map_Pose", 3) (view (remove_subscriber "map_Pose" 3 table))
          else view (remove_subscriber "map_Pose" 3 table))
        ≡ view table)
    × (find_subscribers compiled "map_Pose" table
        ≡ told (λ q. match_domain_data compiled q "map_Pose") (subscriptions table))
subscribers-refine_example = subscribers-refine compiled "map_Pose" "map_Pose" 3 table
