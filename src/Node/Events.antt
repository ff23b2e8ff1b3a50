-- ===== src/Node/Events.antt =====
-- node/libp2p.go, `Start`: the two goroutines that change the table of neighbours and the one that
-- publishes this node's own description. `unmarshal` and `marshal` are `encoding/json` at
-- `NodeInfo`. The id of the host is the id of the node, since `NewNode` derives it from the identity
-- that `Start` gives to libp2p.
use libp2p_experiment.Base.{
  String, Bool, Option, none, some, List, [], ◌∷◌, if◌then◌else◌, ◌==◌, string_eq, not,
}
use libp2p_experiment.Base.Dict
use libp2p_experiment.Base.Effects.{Result, ok, err, crash}
use libp2p_experiment.Os.{Bytes}
use libp2p_experiment.Node.{Node, NodeInfo, PeerId, add_node}

-- What the topic reports: a peer joined or left it, or the call failed; a message, or a failure.
pub data Event : Type 0 where
  peer_join : PeerId → Event
  peer_leave : PeerId → Event
  peer_event_failed : Event
  message : Bytes → Event
  message_failed : Event

module _ {Key : Type 0} (unmarshal : Bytes → Option NodeInfo) where
  unfoldable pub receive : Bytes → Node Key → Node Key
  unfolding add_node
  receive bytes n = elim (unmarshal bytes) [
    | none ↦ n
    | some neighbor ↦ if not (neighbor.id == n.info.id) then add_node neighbor n else n
  ]

  -- One round of the loop that the event is for. Both loops go on after a failure.
  unfoldable pub step : Event → Node Key → Node Key
  unfolding receive
  step (peer_join p) n = n
  step (peer_leave p) n = record n { neighbors = Dict.erase p n.neighbors }
  step peer_event_failed n = n
  step (message bytes) n = receive bytes n
  step message_failed n = n

  unfoldable pub run : List Event → Node Key → Node Key
  run [] n = n
  run (e ∷ es) n = run es (step e n)

-- Whether `Start` starts the publishing goroutine: `cfg.NodeTypes[0] != "client"`, which panics
-- without a first type.
unfoldable pub publishes : List String → Result Bool
publishes [] = crash "index out of range"
publishes (t ∷ types) = ok (not (t == "client"))

-- One tick of that goroutine, which publishes on the topic of the nodes.
unfoldable pub publish_tick :
    {Key : Type 0}
    → (NodeInfo → Result Bytes)
    → (Bytes → Result (Unit {0}))
    → Node Key
    → Result (Unit {0})
publish_tick marshal send n = elim (marshal n.info) [
  | ok bytes ↦ elim (send bytes) [ ok _ ↦ ok tt | err _ ↦ crash "publish" | crash m ↦ crash m ]
  | err _ ↦ crash "marshal"
  | crash m ↦ crash m
]
