-- ===== src/Tests/Peers.antt =====
-- The table of neighbours of a node `a` that hears of a node `b`.
use mathlib.Core.List.{foldl}
use text.Mathlib.Text
use libp2p_experiment.Base.{
  select, if◌then◌else◌, ◌==◌, ◌≢◌, arith, ℕ, zero, suc, ◌≡◌, refl, ap, String, true, false, Option,
  none, some, List, [], ◌∷◌, contains, string_eq,
}
use libp2p_experiment.Base.Dict
use libp2p_experiment.Base.Effects.{Result, failed, ok, err}
use libp2p_experiment.Config.{Config, mode_server}
use libp2p_experiment.Os.{Bytes}
use libp2p_experiment.Node.{Node, NodeInfo, find_nodes, find_in, fitting, add_node}
use libp2p_experiment.Node.Events.{
  Event, peer_join, peer_leave, message, message_failed, step, run, receive,
}
use libp2p_experiment.Node.Events.{publishes}
use libp2p_experiment.Node.Order.{answer, is_about, answer-schedule}
use libp2p_experiment.Node.Start.{
  Started, peer_events, closed, node_info_topic, Libp2p, psk_of, start,
}
use libp2p_experiment.Node.Start.Failures.{Closed, passes, set_up, served, start-Outcome}
use libp2p_experiment.Node.{PeerId}
use libp2p_experiment.Node.Lookup.{IsValid, offers_type}
use libp2p_experiment.Node.History.{observe, run-IsValid, find_nodes-run}

abbrev client : NodeInfo
client = record { types = "client" ∷ []; id = "a"; name = "A" }

abbrev server : NodeInfo
server = record { types = "data" ∷ "map" ∷ []; id = "b"; name = "B" }

-- One byte stands for each description.
abbrev decode : Bytes → Option NodeInfo
decode (suc zero ∷ []) = some client
decode (suc (suc zero) ∷ []) = some server
decode _ = none

abbrev fresh : NodeInfo → Node ℕ
fresh info = record { info = info; neighbors = []; job_list = []; base_path = []; identity = 0 }

abbrev events : List Event
events =
    message (2 ∷ [])
    ∷ message_failed
    ∷ message (1 ∷ [])
    ∷ peer_leave "b"
    ∷ peer_join "b"
    ∷ message (9 ∷ [])
    ∷ message (2 ∷ [])
    ∷ []

fresh-IsValid : IsValid (fresh client)
fresh-IsValid = record { filed = tt; nodup = tt; not_self = Dict.lookup-nil "a" }

b_ne : ◌≢◌ {A = String} "b" "a"
b_ne e = let f : true ≡ false = ap (Text.◌==◌ "b") e in cc

computes : find_nodes "map" (run decode events (fresh client)) ≡ "b" ∷ []
unfolding find_nodes find_in fitting run step receive add_node Dict.lookup Dict.insert Dict.erase
    string_eq
computes = refl

find_nodes-run_example :
    contains (find_nodes "map" (run decode events (fresh client))) "b"
    ≡ offers_type "map" (foldl (observe decode "a" "b") (Dict.lookup {K = String} "b" []) events)
find_nodes-run_example = find_nodes-run decode events (fresh client) "map" "b" fresh-IsValid

run-IsValid_example : IsValid (run decode events (fresh client))
run-IsValid_example = run-IsValid decode events (fresh client) fresh-IsValid

-- A node `c` that is described too, and two schedules of the same events.
abbrev other : NodeInfo
other = record { types = "map" ∷ []; id = "c"; name = "C" }

abbrev decode_all : Bytes → Option NodeInfo
decode_all (suc zero ∷ []) = some other
decode_all (suc (suc zero) ∷ []) = some server
decode_all _ = none

abbrev one_way : List Event
one_way = message (1 ∷ []) ∷ message (2 ∷ []) ∷ peer_leave "c" ∷ []

abbrev other_way : List Event
other_way = message (1 ∷ []) ∷ peer_leave "c" ∷ message (2 ∷ []) ∷ []

same_for_each :
    (p : PeerId) → select (is_about decode_all p) one_way ≡ select (is_about decode_all p) other_way
same_for_each p = ground (arith, differ)
  where
    differ : ◌≢◌ {A = String} "b" "c"
    differ e = let f : true ≡ false = ap (Text.◌==◌ "b") e in cc

answer-schedule_example :
    answer "map" (run decode_all one_way (fresh client))
    ≡ answer "map" (run decode_all other_way (fresh client))
answer-schedule_example =
    answer-schedule decode_all (fresh client) one_way other_way "map" fresh-IsValid same_for_each

abbrev lib : Libp2p
lib = record {
  Psk = String;
  AddrInfo = String;
  no_psk = "";
  no_addr = "";
  decode_psk = λ s. ok s;
  addr_info_from_string = λ s. if s == "?" then err (failed "address") else ok s;
}

abbrev settings : Config
settings = record {
  node_types = "data" ∷ [];
  mode = mode_server;
  port = "";
  bootstrap_peers = "x" ∷ "?" ∷ "y" ∷ [];
  wallet_private_key = "";
  name = "n";
  owner_wallet = "";
  domain_cluster_secret = "";
  psk = "";
  enable_relay = true;
}

no_key : psk_of lib settings ≡ ok ""
unfolding psk_of string_eq
no_key = refl

talks_first : publishes settings.node_types ≡ ok true
unfolding publishes string_eq
talks_first = refl

abbrev own_key : ℕ
own_key = 5

-- The peer events are refused.
abbrev refuse : Started lib ℕ → Result (Unit {0})
refuse peer_events = err (failed "events")
refuse _ = ok tt

start-Outcome_example :
    Closed
      (passes lib refuse)
      (closed node_info_topic)
      []
      (set_up lib refuse own_key settings "")
      (served lib refuse true)
      (start lib refuse own_key settings [])
start-Outcome_example = start-Outcome lib refuse own_key settings "" true no_key talks_first
