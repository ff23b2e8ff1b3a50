-- ===== src/Node/Locking.antt =====
-- node/libp2p.go: the goroutines that call `AddNode` and `FindNodes` on one node, interleaved in any
-- order, with the `sync.RWMutex` that these take. The loop over the events of the topic deletes from
-- the same map without it.
pub mod Holders
pub mod Exclusion
pub mod Progress
pub mod Atomic
pub mod Serial
pub mod Departures
use libp2p_experiment.Base.{
  ℕ, suc, ◌-◌, ◌<◌, ◌≡◌, String, Bool, true, false, none, some, List, [], ◌∷◌, ◌++◌, if◌then◌else◌,
  ◌==◌, nat_eq, string_eq,
}
use libp2p_experiment.Base.Dict
use libp2p_experiment.Base.Dict.{Dict}
use libp2p_experiment.Node.{Node, NodeInfo, PeerId, fitting}

-- Where a goroutine stands: outside of both calls; in `AddNode` before `Lock`, in `Lock` behind its
-- announcement, behind `Lock`, behind the lookup that found nothing, or before `Unlock`; in
-- `FindNodes` before `RLock`, or behind it with the entries to come and the ids found.
pub data Pc : Type 0 where
  idle : Pc
  wanting waiting adding entering leaving : NodeInfo → Pc
  wants_read : String → Pc
  reading : String → Dict PeerId NodeInfo → List PeerId → Pc

-- What the goroutines share: the node and the state of its mutex, where `writer` says that a `Lock`
-- is announced or has the mutex.
pub record Shared (Key : Type 0) : Type 0 where
  pub node : Node Key
  pub writer : Bool
  pub readers : ℕ

-- `Lock` waits for other writers, announces itself, and waits for all readers; `RLock` waits for the
-- writer, also for one that is announced.
pub data Move {Key : Type 0} (m : Shared Key) : Pc → Shared Key → Pc → Type 0 where
  call_add : (info : NodeInfo) → Move m idle m (wanting info)
  announce :
      {info : NodeInfo}
      → m.writer ≡ false
      → Move m (wanting info) (record m { writer = true }) (waiting info)
  lock : {info : NodeInfo} → m.readers ≡ 0 → Move m (waiting info) m (adding info)
  known :
      {info old : NodeInfo}
      → Dict.lookup info.id m.node.neighbors ≡ some old
      → Move m (adding info) m (leaving info)
  unknown :
      {info : NodeInfo}
      → Dict.lookup info.id m.node.neighbors ≡ none
      → Move m (adding info) m (entering info)
  enter :
      {info : NodeInfo}
      → Move m
          (entering info)
          (record m {
            node = record m.node { neighbors = Dict.insert info.id info m.node.neighbors };
          })
          (leaving info)
  unlock : {info : NodeInfo} → Move m (leaving info) (record m { writer = false }) idle
  call_find : (node_type : String) → Move m idle m (wants_read node_type)
  rlock :
      {node_type : String}
      → m.writer ≡ false
      → Move m
          (wants_read node_type)
          (record m { readers = suc m.readers })
          (reading node_type m.node.neighbors [])
  visit :
      {node_type : String} {id : PeerId} {info : NodeInfo} {rest : Dict PeerId NodeInfo}
      {nodes : List PeerId}
      → Move m
          (reading node_type ((id, info) ∷ rest) nodes)
          m
          (reading node_type rest (nodes ++ fitting node_type info.id info.types))
  runlock :
      {node_type : String} {nodes : List PeerId}
      → Move m (reading node_type [] nodes) (record m { readers = m.readers - 1 }) idle

pub record System (Key : Type 0) : Type 0 where
  pub mem : Shared Key
  pub pc : ℕ → Pc

-- The goroutine `i` stands elsewhere.
abbrev pub moved : (ℕ → Pc) → ℕ → Pc → ℕ → Pc
moved pc i p j = if j == i then p else pc j

abbrev pub init : {Key : Type 0} → Node Key → System Key
init node = record { mem = record { node = node; writer = false; readers = 0 }; pc = λ _. idle }

-- `delete(node.neighbors, e.Peer)`
abbrev pub without : {Key : Type 0} → PeerId → Shared Key → Shared Key
without p m = record m { node = record m.node { neighbors = Dict.erase p m.node.neighbors } }

-- The runs of the goroutines below `n`. Peers leave the topic only where `departures` is true.
pub data Reach {Key : Type 0} (n : ℕ) (departures : Bool) (node : Node Key)
    : System Key → Type 0 where
  start : Reach n departures node (init node)
  pick :
      {s : System Key} (i : ℕ) {m : Shared Key} {p : Pc}
      → Reach n departures node s
      → i < n
      → Move s.mem (s.pc i) m p
      → Reach n departures node (record { mem = m; pc = moved s.pc i p })
  leave :
      {s : System Key} (p : PeerId)
      → Reach n departures node s
      → departures ≡ true
      → Reach n departures node (record s { mem = without p s.mem })
