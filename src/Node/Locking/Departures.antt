-- ===== src/Node/Locking/Departures.antt =====
-- A peer leaves while a goroutine has the mutex.
use libp2p_experiment.Base.{◌≡◌, ◌≢◌, ◌∙◌, refl, String, true, [], ◌∷◌, arith, nat_eq, string_eq}
use libp2p_experiment.Base.Dict
use libp2p_experiment.Node.{Node, NodeInfo, fitting, find_in, find_nodes}
use libp2p_experiment.Node.Locking.{
  reading, call_find, rlock, visit, System, Reach, start, pick, leave,
}

find_in-erase :
    (info : NodeInfo) (node_type : String)
    → find_in node_type (Dict.erase info.id ((info.id, info) ∷ [])) ≡ []
unfolding Dict.erase find_in
find_in-erase info node_type = ground arith

module _ {Key : Type 0} where
  -- The node with one neighbour.
  abbrev pub with_one : NodeInfo → Node Key → Node Key
  with_one info node = record node { neighbors = (info.id, info) ∷ [] }

  abbrev pub Stale : NodeInfo → String → Node Key → System Key → Type 0
  Stale info node_type node s =
      Reach 1 true (with_one info node) s
      × (s.pc 0 ≡ reading node_type [] (fitting node_type info.id info.types))
      × (find_nodes node_type s.mem.node ≡ [])

  -- The event loop does not take the mutex: where a node has one neighbour, a call of `FindNodes` for
  -- any type can find it, and while the call still has the mutex the neighbour can be deleted, so
  -- that the call is about to return a node where a call that runs alone would return none.
  pub leave-Stale :
      (info : NodeInfo) (node_type : String) (node : Node Key)
      → fitting node_type info.id info.types ≢ []
      → (s : System Key) × (Stale info node_type node s
          × (fitting node_type info.id info.types ≢ find_nodes node_type s.mem.node))
  unfolding nat_eq find_nodes
  leave-Stale info node_type node fits =
      let called = pick 0 start (omega arith) (call_find node_type) in
      let locked = pick 0 called (omega arith) (rlock refl) in
      let found = pick 0 locked (omega arith) visit in
      let none_left = find_in-erase info node_type in
      (_, ((leave info.id found refl, refl, none_left), λ e. fits (e ∙ none_left)))
