-- ===== src/Node/History.antt =====
-- The table as a function of the events alone: what it holds of a peer, after any history.
use mathlib.Core.List.{foldl}
use libp2p_experiment.Base.{
  ◌≡◌, refl, ◌≢◌, ◌∙◌, ap, String, Option, none, some, List, [], ◌∷◌, arith, if◌then◌else◌, ◌==◌,
  contains, string_eq, Option-cases, inl, inr,
}
use libp2p_experiment.Base.Dict
use libp2p_experiment.Os.{Bytes}
use libp2p_experiment.Node.{Node, NodeInfo, PeerId, add_node, find_nodes}
use libp2p_experiment.Node.Events.{
  Event, peer_join, peer_leave, peer_event_failed, message, message_failed, receive, step, run,
}
use libp2p_experiment.Node.Lookup.{offers_type, IsValid, step-IsValid, contains-find_nodes}

-- A peer that is not known becomes known by its first own message, in a node with the id `self`.
abbrev learn : PeerId → PeerId → Option NodeInfo → NodeInfo → Option NodeInfo
learn self p (some old) node = some old
learn self p none node =
    if node.id == p then (if node.id == self then none else some node) else none

abbrev hear : PeerId → PeerId → Option NodeInfo → Option NodeInfo → Option NodeInfo
hear self p known none = known
hear self p known (some node) = learn self p known node

-- What one event makes of what is known about peer `p`.
abbrev pub observe :
    (Bytes → Option NodeInfo) → PeerId → PeerId → Option NodeInfo → Event → Option NodeInfo
observe unmarshal self p known (peer_join q) = known
observe unmarshal self p known (peer_leave q) = if p == q then none else known
observe unmarshal self p known peer_event_failed = known
observe unmarshal self p known (message bytes) = hear self p known (unmarshal bytes)
observe unmarshal self p known message_failed = known

module _ {Key : Type 0} (unmarshal : Bytes → Option NodeInfo) where
  lookup-add_node :
      (node : NodeInfo) (n : Node Key) (p : PeerId)
      → node.id ≢ n.info.id
      → Dict.lookup p (add_node node n).neighbors
        ≡ learn n.info.id p (Dict.lookup p n.neighbors) node
  unfolding add_node
  lookup-add_node node n p other = elim (Option-cases (Dict.lookup p n.neighbors)) [
    | inl e ↦ ground (arith, Dict.lookup-insert p node.id node n.neighbors)
    | inr (old, e) ↦ ground (arith, Dict.lookup-insert p node.id node n.neighbors)
  ]

  lookup-receive :
      (bytes : Bytes) (n : Node Key) (p : PeerId)
      → Dict.lookup n.info.id n.neighbors ≡ none
      → Dict.lookup p (receive unmarshal bytes n).neighbors
        ≡ observe unmarshal n.info.id p (Dict.lookup p n.neighbors) (message bytes)
  unfolding receive
  lookup-receive bytes n p h = elim (Option-cases (unmarshal bytes)) [
    | inl e ↦ rw (e, receive)
    | inr (node, e) ↦ rw (e, receive) (ground (arith, lookup-add_node node n p))
  ]

  lookup-step :
      (e : Event) (n : Node Key) (p : PeerId)
      → IsValid n
      → Dict.lookup p (step unmarshal e n).neighbors
        ≡ observe unmarshal n.info.id p (Dict.lookup p n.neighbors) e
  unfolding step
  lookup-step (peer_leave q) n p v = Dict.lookup-erase p q n.neighbors
  lookup-step (message bytes) n p v = lookup-receive bytes n p v.not_self
  lookup-step (peer_join q) n p v = refl
  lookup-step peer_event_failed n p v = refl
  lookup-step message_failed n p v = refl

  info-receive : (bytes : Bytes) (n : Node Key) → (receive unmarshal bytes n).info ≡ n.info
  unfolding receive
  info-receive bytes n = ground arith

  info-step : (e : Event) (n : Node Key) → (step unmarshal e n).info ≡ n.info
  unfolding step
  info-step (peer_leave q) n = refl
  info-step (message bytes) n = info-receive bytes n
  info-step (peer_join q) n = refl
  info-step peer_event_failed n = refl
  info-step message_failed n = refl

  -- Every history of events keeps a sound table sound: each entry is filed under its own id, once,
  -- and the node itself is not in it.
  pub run-IsValid : (es : List Event) (n : Node Key) → IsValid n → IsValid (run unmarshal es n)
  unfolding run
  run-IsValid [] n v = v
  run-IsValid (e ∷ es) n v = run-IsValid es _ (step-IsValid unmarshal e n v)

  -- After any history a sound table holds of each peer what `observe` makes of the events one by
  -- one: the description in the first message that the peer sent since it last left, if any.
  pub lookup-run :
      (es : List Event) (n : Node Key) (p : PeerId)
      → IsValid n
      → Dict.lookup p (run unmarshal es n).neighbors
        ≡ foldl (observe unmarshal n.info.id p) (Dict.lookup p n.neighbors) es
  unfolding run
  lookup-run [] n p v = refl
  lookup-run (e ∷ es) n p v =
      lookup-run es (step unmarshal e n) p (step-IsValid unmarshal e n v)
      ∙ rw (lookup-step e n p v, info-step e n)

  -- After any history, starting from a sound table, `FindNodes` lists a peer for a type exactly
  -- when the description of the peer that the events leave known offers the type.
  pub find_nodes-run :
      (es : List Event) (n : Node Key) (t : String) (p : PeerId)
      → IsValid n
      → contains (find_nodes t (run unmarshal es n)) p
        ≡ offers_type t (foldl (observe unmarshal n.info.id p) (Dict.lookup p n.neighbors) es)
  find_nodes-run es n t p v =
      contains-find_nodes _ t p (run-IsValid es n v) ∙ ap (offers_type t) (lookup-run es n p v)

  -- What another node publishes is what this node learns: when the table is sound, `unmarshal`
  -- reads the bytes as the description of the publisher, and the publisher is another node and not
  -- known yet, then `FindNodes` lists it afterwards for exactly the types that it published.
  pub find_nodes-published :
      (n m : Node Key) (bytes : Bytes) (t : String)
      → IsValid n
      → unmarshal bytes ≡ some m.info
      → m.info.id ≢ n.info.id
      → Dict.lookup m.info.id n.neighbors ≡ none
      → contains (find_nodes t (step unmarshal (message bytes) n)) m.info.id
        ≡ contains m.info.types t
  find_nodes-published n m bytes t v sent other unknown =
      contains-find_nodes _ t _ (step-IsValid unmarshal (message bytes) n v)
      ∙ rw (lookup-step (message bytes) n m.info.id v, sent, unknown) (ground arith)
