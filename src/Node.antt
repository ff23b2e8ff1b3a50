-- ===== src/Node.antt =====
-- node/libp2p.go: the node, its table of neighbours, and the handlers of the events that change it.
-- The mutex makes every operation one step. `range` over the table meets the entries in the order
-- of the association list.
pub mod Events
pub mod Locking
pub mod Protocols
pub mod Identity
pub mod Lookup
pub mod History
pub mod Order
pub mod Start
use libp2p_experiment.Base.{String, none, some, List, [], ◌∷◌, ◌++◌, if◌then◌else◌, ◌==◌, string_eq}
use libp2p_experiment.Base.Dict
use libp2p_experiment.Base.Dict.{Dict}
use libp2p_experiment.Os.{FilePath}

abbrev pub PeerId : Type 0
PeerId = String

pub record NodeInfo : Type 0 where
  pub types : List String
  pub id : PeerId
  pub name : String

pub record OutputInfo : Type 0 where
  pub id : PeerId
  pub protocol_id : String

pub record StepInfo : Type 0 where
  pub name : String
  pub outputs : List OutputInfo

pub record JobInfo : Type 0 where
  pub id : String
  pub name : String
  pub domain_pub_key : String
  pub state : String
  pub steps : List StepInfo
  pub requester : PeerId

pub record Node (Key : Type 0) : Type 0 where
  pub info : NodeInfo
  pub neighbors : Dict PeerId NodeInfo
  pub job_list : Dict String JobInfo
  pub base_path : FilePath
  pub identity : Key

-- The inner loop: the id once for each type of the node that fits.
unfoldable pub fitting : String → PeerId → List String → List PeerId
fitting node_type id [] = []
fitting node_type id (t ∷ types) =
    let rest = fitting node_type id types in if t == node_type then id ∷ rest else rest

unfoldable pub find_in : String → Dict PeerId NodeInfo → List PeerId
unfolding fitting
find_in node_type [] = []
find_in node_type ((_, node) ∷ d) = fitting node_type node.id node.types ++ find_in node_type d

module _ {Key : Type 0} where
  -- A node that is in the table already keeps what was first said of it.
  unfoldable pub add_node : NodeInfo → Node Key → Node Key
  add_node node n = elim (Dict.lookup node.id n.neighbors) [
    | some _ ↦ n
    | none ↦ record n { neighbors = Dict.insert node.id node n.neighbors }
  ]

  -- `FindNodes`
  unfoldable pub find_nodes : String → Node Key → List PeerId
  unfolding find_in
  find_nodes node_type n = find_in node_type n.neighbors
